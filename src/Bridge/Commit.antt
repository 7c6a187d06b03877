-- ===== src/Bridge/Commit.antt =====
-- `OracleBridge.commit` and `OracleBridge.reveal`. The salt is drawn by `os.urandom`.
use stellar_kraal_contract.Common.{◌++◌, if◌then◌else◌}
use stellar_kraal_contract.Common.Int.{ℤ, in_i64}
use stellar_kraal_contract.Common.Result.{Result, ok, err, ◌>>=◌, overflow_error}
use stellar_kraal_contract.Common.Text.{Str}
use stellar_kraal_contract.Common.Utf8.{encode_utf8}
use stellar_kraal_contract.Attestation.BigEndian.{Bytes, encode_be, to_word}
use stellar_kraal_contract.Attestation.Payload.{FeedId, pad_feed}
use stellar_kraal_contract.Attestation.Signer.{
  Crypto, InputParams, SignedAttestation, canonical_params_hash, attest,
}
use stellar_kraal_contract.Bridge.Submit.{SubmissionClient}

-- `GEEResult`, with the time filled in.
pub record GeeResult (P : Type 0) : Type 0 where
  pub script_source : Str
  pub input_params : P
  pub output_value : ℤ
  pub feed_id : FeedId
  pub timestamp_utc : ℤ
  pub script_asset_path : Str
  pub script_version_tag : Str

-- `v.to_bytes(8, byteorder="big", signed=True)`
unfoldable pub int_to_bytes : ℤ → Result Bytes
int_to_bytes v = if in_i64 v then ok (encode_be 8 (to_word v)) else err overflow_error

module _ {P : Type 0} (c : Crypto P) where
  -- `GEEResult.script_hash`
  unfoldable pub script_hash : GeeResult P → Result Bytes
  script_hash r = do source ← encode_utf8 r.script_source; ok (c.sha256 source)

  -- The hash that `commit` submits, for a salt.
  unfoldable pub commitment_hash : GeeResult P → Bytes → Result Bytes
  commitment_hash r salt = do
    feed_id ← pad_feed r.feed_id
    input_params_hash ← canonical_params_hash c r.input_params
    script ← script_hash r
    value ← int_to_bytes r.output_value
    time ← int_to_bytes r.timestamp_utc
    ok (c.sha256 (((((script ++ input_params_hash) ++ value) ++ time) ++ feed_id) ++ salt))

  -- What `reveal` signs.
  unfoldable pub revealed : Bytes → GeeResult P → Result SignedAttestation
  revealed seed r = do
    script ← script_hash r
    attest c seed script (InputParams.dict r.input_params) r.output_value r.timestamp_utc r.feed_id

  module _ {S : Type 0} (client : SubmissionClient S) where
    unfoldable pub with_first : {A : Type 0} → A → Result Str × S → Result (A × Str) × S
    with_first x (ok tx, s) = (ok (x, tx), s)
    with_first x (err e, s) = (err e, s)

    -- `urandom` is `os.urandom(32)`.
    unfoldable pub commit : (S → Bytes × S) → GeeResult P → S → Result (Bytes × Str) × S
    unfolding with_first
    commit urandom r s =
        let (salt, s') = urandom s in
        elim (commitment_hash r salt) [
          | err e ↦ (err e, s')
          | ok h ↦ with_first salt (client.commit_price r.feed_id h s')
        ]

    unfoldable pub reveal : Bytes → GeeResult P → Bytes → S → Result (SignedAttestation × Str) × S
    unfolding with_first
    reveal seed r salt s = elim (revealed seed r) [
      | err e ↦ (err e, s)
      | ok a ↦ with_first a (client.reveal_price a salt s)
    ]
