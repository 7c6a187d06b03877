-- ===== src/Attestation/Signer.antt =====
-- `OracleSigner`, `OracleVerifier` and `SignedAttestation`. Ed25519, SHA-256 and `json.dumps` are
-- parameters. A key is its 32-byte seed.
use stellar_kraal_contract.Common.{◌≡◌, Bool, true, false, length, ◌==◌}
use stellar_kraal_contract.Common.Int.{ℤ}
use stellar_kraal_contract.Common.Result.{
  Result, ok, err, ◌>>=◌, ◌>>◌, require, seed_length, public_key_length, signature_length,
}
use stellar_kraal_contract.Common.Text.{Str}
use stellar_kraal_contract.Attestation.BigEndian.{Bytes}
use stellar_kraal_contract.Attestation.Hex.{hex, from_hex}
use stellar_kraal_contract.Attestation.Payload.{
  AttestationPayload, schema_version_1, post_init, to_bytes, FeedId, pad_feed,
}

-- `json.dumps` with sorted keys, encoded, for a dict of parameters `P`; SHA-256; the public key of
-- a seed; the signature of a message; and the test of a signature.
pub record Crypto (P : Type 0) : Type 0 where
  pub canonical_json : P → Result Bytes
  pub sha256 : Bytes → Bytes
  pub public_key : Bytes → Bytes
  pub sign : Bytes → Bytes → Bytes
  pub verifies : Bytes → Bytes → Bytes → Bool

-- Sizes of the digest, of keys and of signatures, and that a signature is accepted by its key.
pub record IsSignatureScheme {P : Type 0} (c : Crypto P) : Type 0 where
  pub digest_len : (m : Bytes) → length (c.sha256 m) ≡ 32
  pub key_len : (seed : Bytes) → length seed ≡ 32 → length (c.public_key seed) ≡ 32
  pub signature_len : (seed m : Bytes) → length seed ≡ 32 → length (c.sign seed m) ≡ 64
  pub accepts :
      (seed m : Bytes) → length seed ≡ 32 → c.verifies (c.public_key seed) (c.sign seed m) m ≡ true

pub data InputParams (P : Type 0) : Type 0 where
  dict : P → InputParams P
  hashed : Bytes → InputParams P

pub record SignedAttestation : Type 0 where
  pub payload : AttestationPayload
  pub public_key : Bytes
  pub signature : Bytes

-- `SignedAttestation.__post_init__`
unfoldable pub check_signed : SignedAttestation → Result SignedAttestation
check_signed a = do
  require (length a.public_key == 32) public_key_length
  require (length a.signature == 64) signature_length
  ok a

-- The check of `OracleSigner.from_seed`.
unfoldable pub from_seed : Bytes → Result Bytes
from_seed seed = do require (length seed == 32) seed_length; ok seed

module _ {P : Type 0} (c : Crypto P) where
  unfoldable pub canonical_params_hash : P → Result Bytes
  canonical_params_hash p = do canonical ← c.canonical_json p; ok (c.sha256 canonical)

  unfoldable pub params_hash : InputParams P → Result Bytes
  params_hash (dict p) = canonical_params_hash p
  params_hash (hashed h) = ok h

  -- `OracleSigner.attest`
  unfoldable pub attest : Bytes → Bytes → InputParams P → ℤ → ℤ → FeedId → Result SignedAttestation
  attest seed script_hash input_params output_value timestamp_utc feed_id = do
    hash ← params_hash input_params
    feed ← pad_feed feed_id
    payload ← post_init (record {
      script_hash = script_hash;
      input_params_hash = hash;
      output_value = output_value;
      timestamp_utc = timestamp_utc;
      feed_id = feed;
      schema_version = schema_version_1;
    })
    message ← to_bytes payload
    check_signed (record {
      payload = payload;
      public_key = c.public_key seed;
      signature = c.sign seed message;
    })

  -- `OracleVerifier.verify`: an exception of `to_bytes` is caught, too.
  unfoldable pub verify : Bytes → SignedAttestation → Bool
  verify key a = elim (to_bytes a.payload) [
    | ok message ↦ c.verifies key a.signature message
    | err e ↦ false
  ]

-- The dict that `SignedAttestation.to_dict` builds, with its keys as fields.
pub record Envelope : Type 0 where
  pub schema_version : ℤ
  pub script_hash : Str
  pub input_params_hash : Str
  pub output_value : ℤ
  pub timestamp_utc : ℤ
  pub feed_id : Str
  pub public_key : Str
  pub signature : Str

unfoldable pub to_dict : SignedAttestation → Envelope
to_dict a = record {
  schema_version = a.payload.schema_version;
  script_hash = hex a.payload.script_hash;
  input_params_hash = hex a.payload.input_params_hash;
  output_value = a.payload.output_value;
  timestamp_utc = a.payload.timestamp_utc;
  feed_id = hex a.payload.feed_id;
  public_key = hex a.public_key;
  signature = hex a.signature;
}

unfoldable pub from_dict : Envelope → Result SignedAttestation
from_dict d = do
  script ← from_hex d.script_hash
  params ← from_hex d.input_params_hash
  feed ← from_hex d.feed_id
  payload ← post_init (record {
    script_hash = script;
    input_params_hash = params;
    output_value = d.output_value;
    timestamp_utc = d.timestamp_utc;
    feed_id = feed;
    schema_version = d.schema_version;
  })
  key ← from_hex d.public_key
  signature ← from_hex d.signature
  check_signed (record { payload = payload; public_key = key; signature = signature })
