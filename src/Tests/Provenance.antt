-- ===== src/Tests/Provenance.antt =====
-- The record of a small attestation.
use stellar_kraal_contract.Common.{◌≡◌, refl, ◌↔◌, [], ◌∷◌, ◌++◌, none, arith, replicate}
use stellar_kraal_contract.Common.Int.{pos, ℤ}
use stellar_kraal_contract.Common.Json.{Json, Fields, field, end, int, at, is_text, subscript}
use stellar_kraal_contract.Common.Result.{ok, Result}
use stellar_kraal_contract.Common.Text.{codes, str_eq, Str}
use stellar_kraal_contract.Attestation.BigEndian.{Bytes, IsBytes, decode_be, of_word, unpack_q}
use stellar_kraal_contract.Attestation.Hex.{hex}
use stellar_kraal_contract.Attestation.Payload.{AttestationPayload, from_bytes}
use stellar_kraal_contract.Attestation.Signer.{Crypto}
use stellar_kraal_contract.Provenance.Acceptance.{lightweight_validate_iff, IsAcceptable}
use stellar_kraal_contract.Provenance.Consistency.{verify_hashes_iff}
use stellar_kraal_contract.Provenance.Loading.{from_dict-reloaded, reloaded}
use stellar_kraal_contract.Provenance.Record.{
  from_dict, ProvenanceRecord, to_dict, record_dict, params_hash_text,
}
use stellar_kraal_contract.Provenance.Validate.{lightweight_validate}
use stellar_kraal_contract.Provenance.Verify.{HashError, verify_hashes}
use stellar_kraal_contract.Tests.Bridge.{crypto}
use stellar_kraal_contract.Tests.Fixed.{fixed_float, Fixed}

abbrev pub payload : Bytes
payload =
    1 ∷ replicate 32 4
    ++ (replicate 32 1
        ++ (replicate 7 0 ++ (5 ∷ replicate 7 0 ++ (9 ∷ codes "BCT" ++ replicate 29 0))))

payload-IsBytes : IsBytes payload
payload-IsBytes = omega arith

-- The toy scheme of the commitments, for dicts.
abbrev pub dict_crypto : Crypto (Json Fixed)
dict_crypto = record {
  canonical_json = λ v. ok (7 ∷ []);
  sha256 = crypto.sha256;
  public_key = crypto.public_key;
  sign = crypto.sign;
  verifies = crypto.verifies;
}

abbrev pub iso : ℤ → Result Str
iso t = ok (codes "2024-07-04T00:00:00Z")

abbrev pub params : Fields Fixed
params = field (codes "scale") (int (pos 30)) end

abbrev pub kept : ProvenanceRecord Fixed
kept = record {
  script_asset_path = codes "users/org/v1";
  script_version_hash = hex (replicate 32 4);
  script_version_tag = codes "v1";
  input_params = params;
  output_value = pos 5;
  feed_id = codes "BCT";
  timestamp_utc = pos 9;
  attestation_public_key = hex (replicate 32 9);
  attestation_signature = hex (replicate 64 9);
  attestation_payload_bytes = payload;
  record_type = codes "single";
  script_source_preview = none;
  aggregation_metadata = none;
  submitted_at_utc = pos 10;
  tx_ref = none;
  ipfs_cid = none;
}

consistent : verify_hashes dict_crypto iso kept ≡ ok []
unfolding verify_hashes to_dict params_hash_text str_eq hex unpack_q of_word decode_be at subscript
    is_text
consistent = refl

other_time :
    verify_hashes dict_crypto iso (record kept { timestamp_utc = pos 8 })
    ≡ ok (HashError.timestamp_mismatch (pos 9) (pos 8) ∷ [])
unfolding verify_hashes to_dict params_hash_text str_eq hex unpack_q of_word decode_be at subscript
    is_text
other_time = refl

abbrev kept_written : Fields Fixed
kept_written =
    record_dict kept (hex (replicate 32 1)) (codes "2024-07-04T00:00:00Z")
      (codes "2024-07-04T00:00:00Z")

kept_dict : to_dict dict_crypto iso kept ≡ ok kept_written
unfolding to_dict params_hash_text
kept_dict = refl

verify_hashes_iff_example : (verify_hashes dict_crypto iso kept ≡ ok []) ↔ (
    (p : AttestationPayload) × (from_bytes payload ≡ ok p)
    × (p.output_value ≡ pos 5)
    × (p.timestamp_utc ≡ pos 9))
verify_hashes_iff_example =
    verify_hashes_iff dict_crypto iso kept kept_written kept_dict payload-IsBytes

from_dict-reloaded_example : from_dict kept_written ≡ ok (reloaded kept)
from_dict-reloaded_example =
    from_dict-reloaded dict_crypto iso kept kept_written kept_dict payload-IsBytes

lightweight_validate_iff_example : (lightweight_validate kept_written ≡ ok []) ↔ IsAcceptable kept
lightweight_validate_iff_example =
    lightweight_validate_iff dict_crypto iso kept kept_written kept_dict
