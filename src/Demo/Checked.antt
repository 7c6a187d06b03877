-- ===== src/Demo/Checked.antt =====
-- The four checks of the page `/verify` on what `to_dict` writes, whatever the order of the keys.
use stellar_kraal_contract.Common.{ℕ, ◌+◌, ◌≤◌, ◌≡◌, refl, true, some, arith, length}
use stellar_kraal_contract.Common.Float.{Float}
use stellar_kraal_contract.Common.Int.{ℤ}
use stellar_kraal_contract.Common.Json.{
  Fields, object, end, subscript, at, get, get_or, is_true, is_text, equals_int, as_dict,
}
use stellar_kraal_contract.Common.Result.{ok}
use stellar_kraal_contract.Common.Text.{str_eq_refl, str_eq}
use stellar_kraal_contract.Attestation.BigEndian.{Bytes, unpack_q}
use stellar_kraal_contract.Attestation.Hex.{from_hex-hex}
use stellar_kraal_contract.Provenance.Record.{
  ProvenanceRecord, computation, attestation, gee_script, submission, aggregation, record_dict,
  from_hex_value,
}
use stellar_kraal_contract.Provenance.Verify.{slice}
use stellar_kraal_contract.VerifyTool.Attested.{IsAttested}
use stellar_kraal_contract.VerifyTool.Checks.{get_from}
use stellar_kraal_contract.VerifyTool.Encoding.{int_from_bytes-unpack_q}
use stellar_kraal_contract.VerifyTool.Steps.{leb_ℤ_refl, length-slice}
use stellar_kraal_contract.Demo.Pages.{Checks}
use stellar_kraal_contract.Demo.Verify.{
  payload_matches, payload_int, equals_value, signature_matches, check_record, show_details,
  shown_errors, show_aggregation, grouped, check_blocks,
}
use stellar_kraal_contract.Demo.World.{Setup}

abbrev pub all_passed : Checks
all_passed = record { schema_ok = true; params_ok = true; payload_ok = true; sig_ok = true }

payload_int-eq :
    (start : ℕ) (payload : Bytes) {n : ℤ}
    → start + 8 ≤ 113
    → length payload ≡ 113
    → unpack_q (slice start 8 payload) ≡ n
    → payload_int start payload ≡ some n
unfolding payload_int
payload_int-eq start payload inside size read =
    let eight = length-slice start payload (omega (arith, inside, size)) in
    rw (size, int_from_bytes-unpack_q (slice start 8 payload) eight, read) refl

module _ {F T : Type 0} ⦃float : Float F⦄ (setup : Setup F T) (p : ProvenanceRecord F)
    (d : Fields F) (k : IsAttested setup.crypto setup.jsonschema p d) where
  payload_matches-passes :
      payload_matches p.attestation_payload_bytes (object (computation p k.timestamp_iso)) ≡ ok true
  unfolding payload_matches equals_value subscript at get str_eq equals_int
  payload_matches-passes =
      rw
        (
          payload_int-eq 65 p.attestation_payload_bytes (omega arith) k.payload_len k.value_eq,
          payload_int-eq 73 p.attestation_payload_bytes (omega arith) k.payload_len k.time_eq,
          equals_value,
          leb_ℤ_refl p.output_value,
          leb_ℤ_refl p.timestamp_utc,
        )
        refl

  signature_matches-passes :
      signature_matches setup (object (attestation p)) p.attestation_payload_bytes ≡ true
  unfolding signature_matches subscript at get str_eq from_hex_value
  signature_matches-passes =
      rw
        (
          k.key_eq,
          k.signature_eq,
          from_hex-hex k.key k.key_bytes,
          from_hex-hex k.signature k.signature_bytes,
          k.accepted,
          k.key_len,
        )
        refl

  details-shown :
      aggregation p ≡ end
      → show_details
          (object (gee_script p))
          (object (computation p k.timestamp_iso))
          (object (attestation p))
          (object (submission p k.submitted_iso))
          (record_dict p k.params_hash k.submitted_iso k.timestamp_iso)
        ≡ ok tt
  unfolding show_details show_aggregation grouped get_from as_dict get_or get str_eq is_true
  details-shown single = rw single refl

  pub check_record-passes : aggregation p ≡ end → check_record setup d ≡ ok all_passed
  unfolding check_record check_blocks shown_errors at get str_eq subscript from_hex_value is_text
  check_record-passes single =
      let clean = rw k.is_dict at k.conforms_eq in
      rw k.is_dict (
        rw
          (
            clean,
            k.hash_eq,
            from_hex-hex p.attestation_payload_bytes k.payload_bytes,
            payload_matches-passes,
            details-shown single,
            signature_matches-passes,
            str_eq_refl k.params_hash,
          )
          refl)
