-- ===== src/VerifyTool/Steps.antt =====
-- The steps of `cmd_verify` on what `to_dict` writes.
use stellar_kraal_contract.Common.{
  length-drop, drop, length-take, ◌+◌, ◌≤◌, ℕ, ◌∙◌, ◌≡◌, refl, ◌⊎◌, inl, inr, true, [], ◌∷◌, none,
  some, arith, length, Bool-cases,
}
use stellar_kraal_contract.Common.Float.{Float}
use stellar_kraal_contract.Common.Int.{ℤ, leb_ℤ}
use stellar_kraal_contract.Common.Json.{
  int, is_text, text, len, equals_int, Json, object, as_dict, get, get_or, is_true, at, subscript,
}
use stellar_kraal_contract.Common.Result.{ok}
use stellar_kraal_contract.Common.Text.{Str, str_eq, str_eq_refl}
use stellar_kraal_contract.Common.Utf8.{encode_utf8}
use stellar_kraal_contract.Attestation.BigEndian.{Bytes, unpack_q, IsBytes}
use stellar_kraal_contract.Attestation.Hex.{length-hex, from_hex-hex, hex}
use stellar_kraal_contract.Attestation.Signer.{Crypto}
use stellar_kraal_contract.Provenance.Record.{
  ProvenanceRecord, truthy, shorten, record_dict, from_hex_value, params_hash_text,
}
use stellar_kraal_contract.Provenance.Verify.{slice}
use stellar_kraal_contract.VerifyTool.Checks.{
  first_byte, get_from, verify_params_hash, verify_payload_fields, verify_script_hash,
  verify_signature, decode_attestation, check_decoded, encode_value, sliceable, field_errors,
}
use stellar_kraal_contract.VerifyTool.Command.{
  shown_hash, is_valid, payload_step, script_step, signature_step, params_step,
}
use stellar_kraal_contract.VerifyTool.Encoding.{int_from_bytes-unpack_q}

pub leb_ℤ_refl : (x : ℤ) → leb_ℤ x x ≡ true
leb_ℤ_refl x = ground arith

pub length-slice : (k : ℕ) (bs : Bytes) → k + 8 ≤ length bs → length (slice k 8 bs) ≡ 8
length-slice k bs enough =
    omega (arith, enough, length-take {0} 8 (drop k bs), length-drop {0} k bs)

module _ {F : Type 0} ⦃float : Float F⦄ (c : Crypto (Json F)) (p : ProvenanceRecord F)
    (h s t : Str) where
  pub params_step-passes :
      params_hash_text c (object p.input_params) ≡ ok h
      → params_step c (record_dict p h s t) ≡ ok true
  unfolding params_step shown_hash verify_params_hash get_from as_dict get_or get at str_eq
      subscript sliceable is_text
  params_step-passes hashed = rw (hashed, str_eq_refl h) refl

  field_errors-empty :
      (payload : Bytes) {value time : ℤ}
      → length payload ≡ 113
      → unpack_q (slice 65 8 payload) ≡ value
      → unpack_q (slice 73 8 payload) ≡ time
      → field_errors c payload 1 (int value) (int time) ≡ []
  unfolding field_errors equals_int
  field_errors-empty payload {value} {time} size value_eq time_eq =
      let v =
        int_from_bytes-unpack_q (slice 65 8 payload) (length-slice 65 payload (omega (arith, size)))
        ∙ value_eq in
      let t =
        int_from_bytes-unpack_q (slice 73 8 payload) (length-slice 73 payload (omega (arith, size)))
        ∙ time_eq in
      rw (v, t, leb_ℤ_refl value, leb_ℤ_refl time) refl

  pub payload_step-passes :
      (rest : Bytes)
      → p.attestation_payload_bytes ≡ 1 ∷ rest
      → IsBytes p.attestation_payload_bytes
      → length p.attestation_payload_bytes ≡ 113
      → unpack_q (slice 65 8 p.attestation_payload_bytes) ≡ p.output_value
      → unpack_q (slice 73 8 p.attestation_payload_bytes) ≡ p.timestamp_utc
      → payload_step c (record_dict p h s t) ≡ ok true
  unfolding payload_step verify_payload_fields get_from as_dict get_or get at str_eq subscript
      sliceable is_text len from_hex_value first_byte field_errors equals_int
  payload_step-passes rest starts are_bytes size value time =
      let payload = p.attestation_payload_bytes in
      let digits : length (hex payload) ≡ 226 = omega (arith, size, length-hex payload) in
      let first : first_byte payload ≡ ok 1 = rw starts refl in
      rw (digits, from_hex-hex payload are_bytes, first, field_errors-empty payload size value time)
        refl

  pub script_step-passes :
      (x : Str) (y : Bytes)
      → ((shorten (truthy p.script_source_preview) ≡ none)
          ⊎ ((shorten (truthy p.script_source_preview) ≡ some x) × (encode_utf8 x ≡ ok y)))
      → script_step c (record_dict p h s t) ≡ ok tt
  unfolding script_step verify_script_hash get_from as_dict get_or get str_eq is_true encode_value
  script_step-passes x y (inl missing) = rw missing refl
  script_step-passes x y (inr (there, encoded)) = elim (Bool-cases (is_true {F = F} (text x))) [
    | inl full ↦ rw (there, full, encoded) refl
    | inr empty ↦ rw (there, empty) refl
  ]

  pub signature_step-passes :
      (key signature : Bytes)
      → p.attestation_public_key ≡ hex key
      → p.attestation_signature ≡ hex signature
      → IsBytes key
      → IsBytes signature
      → IsBytes p.attestation_payload_bytes
      → length key ≡ 32
      → c.verifies key signature p.attestation_payload_bytes ≡ true
      → signature_step c true true (record_dict p h s t) ≡ ok true
  unfolding signature_step verify_signature decode_attestation check_decoded get_or get str_eq
      subscript at from_hex_value is_valid
  signature_step-passes key signature key_eq signature_eq key_bytes signature_bytes payload_bytes
        size accepted =
      rw
        (
          key_eq,
          signature_eq,
          from_hex-hex key key_bytes,
          from_hex-hex signature signature_bytes,
          from_hex-hex p.attestation_payload_bytes payload_bytes,
          accepted,
          size,
        )
        refl
