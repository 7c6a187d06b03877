-- ===== src/Attestation/Payload.antt =====
-- `pad_feed_id` and `AttestationPayload`: its checks, `to_bytes` and `from_bytes`.
use stellar_kraal_contract.Common.{
  ℕ, ◌-◌, ◌<◌, ◌≡◌, [], ◌∷◌, ◌++◌, ltb, ◌==◌, if◌then◌else◌, length, take, drop, replicate,
}
use stellar_kraal_contract.Common.Int.{ℤ, pos, in_i64, IsI64}
use stellar_kraal_contract.Common.Result.{
  Result, ok, err, ◌>>=◌, ◌>>◌, require, script_hash_length, params_hash_length, feed_id_length,
  output_value_range, timestamp_range, payload_length, payload_bug, feed_id_too_long,
}
use stellar_kraal_contract.Common.Text.{Str}
use stellar_kraal_contract.Common.Utf8.{encode_utf8}
use stellar_kraal_contract.Attestation.BigEndian.{Bytes, pack_q, unpack_q, pack_32s, pack_B}

abbrev pub schema_version_1 : ℤ
schema_version_1 = pos 1

abbrev pub payload_len : ℕ
payload_len = 113

-- The rest of `pad_feed_id`, on the encoded identifier.
unfoldable pub pad_feed_id : Bytes → Result Bytes
pad_feed_id raw =
    if ltb 32 (length raw) then err feed_id_too_long else ok (raw ++ replicate (32 - length raw) 0)

-- A feed identifier: a `str` or bytes.
pub data FeedId : Type 0 where
  as_text : Str → FeedId
  as_bytes : Bytes → FeedId

-- `feed_id.encode("utf-8")` for a `str`
unfoldable pub feed_bytes : FeedId → Result Bytes
feed_bytes (as_text s) = encode_utf8 s
feed_bytes (as_bytes b) = ok b

-- `pad_feed_id`
unfoldable pub pad_feed : FeedId → Result Bytes
pad_feed feed = do bytes ← feed_bytes feed; pad_feed_id bytes

pub record AttestationPayload : Type 0 where
  pub script_hash : Bytes
  pub input_params_hash : Bytes
  pub output_value : ℤ
  pub timestamp_utc : ℤ
  pub feed_id : Bytes
  pub schema_version : ℤ

-- `__post_init__`: every construction goes through it.
unfoldable pub post_init : AttestationPayload → Result AttestationPayload
post_init p = do
  require (length p.script_hash == 32) script_hash_length
  require (length p.input_params_hash == 32) params_hash_length
  require (length p.feed_id == 32) feed_id_length
  require (in_i64 p.output_value) output_value_range
  require (in_i64 p.timestamp_utc) timestamp_range
  ok p

-- `to_bytes`: `struct.pack`, then the assertion on the length.
unfoldable pub to_bytes : AttestationPayload → Result Bytes
to_bytes p = do
  version ← pack_B p.schema_version
  value ← pack_q p.output_value
  time ← pack_q p.timestamp_utc
  let packed =
      version ∷ pack_32s p.script_hash
      ++ (pack_32s p.input_params_hash ++ (value ++ (time ++ pack_32s p.feed_id)))
  require (length packed == payload_len) payload_bug
  ok packed

-- `struct.unpack` of the fields behind the version byte.
unfoldable pub unpack_fields : ℕ → Bytes → AttestationPayload
unpack_fields version rest = record {
  script_hash = take 32 rest;
  input_params_hash = take 32 (drop 32 rest);
  output_value = unpack_q (take 8 (drop 32 (drop 32 rest)));
  timestamp_utc = unpack_q (take 8 (drop 8 (drop 32 (drop 32 rest))));
  feed_id = drop 8 (drop 8 (drop 32 (drop 32 rest)));
  schema_version = pos version;
}

-- `from_bytes`
unfoldable pub from_bytes : Bytes → Result AttestationPayload
unfolding unpack_fields
from_bytes [] = err payload_length
from_bytes (version ∷ rest) =
    if length (version ∷ rest) == payload_len
    then post_init (unpack_fields version rest)
    else err payload_length

-- What `__post_init__` checks.
pub record IsValid (p : AttestationPayload) : Type 0 where
  pub script_len : length p.script_hash ≡ 32
  pub params_len : length p.input_params_hash ≡ 32
  pub feed_len : length p.feed_id ≡ 32
  pub value_fits : IsI64 p.output_value
  pub time_fits : IsI64 p.timestamp_utc

-- The version is a byte: `struct` packs it in one.
pub record HasByteVersion (p : AttestationPayload) : Type 0 where
  pub version : ℕ
  pub is_version : p.schema_version ≡ pos version
  pub small : version < 256
