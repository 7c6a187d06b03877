-- ===== src/VerifyTool/SortedVerdict.antt =====
-- The verdict on a record does not see the order of its keys.
use stellar_kraal_contract.Common.{
  ◌≡◌, refl, ap, ◌↔◌, inl, inr, Bool, true, false, List, [], ◌∷◌, Option, none, some, Bool-cases,
}
use stellar_kraal_contract.Common.Float.{Float}
use stellar_kraal_contract.Common.Json.{Json, Fields, null, text, subscript, is_true}
use stellar_kraal_contract.Common.Result.{Result, ok, err, ◌>>=◌, ◌>>◌}
use stellar_kraal_contract.Common.SortKeys.{
  subscript-sort_json, is_true-sort_json, sort_json, sort_fields, is_text-sort_json,
}
use stellar_kraal_contract.Common.Text.{Str, codes}
use stellar_kraal_contract.Attestation.Hex.{hex}
use stellar_kraal_contract.Attestation.Signer.{Crypto}
use stellar_kraal_contract.Provenance.Record.{from_hex_value}
use stellar_kraal_contract.Provenance.Sorting.{
  sorted_part, sort_result-then, lightweight_validate-sort_fields, IsBlind,
}
use stellar_kraal_contract.Provenance.Validate.{
  validate_provenance_record, raise_errors, lightweight_validate,
}
use stellar_kraal_contract.VerifyTool.Checks.{
  verify_script_hash, verify_signature, decode_attestation, part, encode_value, get_from,
}
use stellar_kraal_contract.VerifyTool.Command.{
  is_validation_error, script_step, signature_step, verify_record, conforms,
}
use stellar_kraal_contract.VerifyTool.Sorting.{
  IsOrderFree, from_hex_value-sort_json, get_null, get_text, params_step-sort_fields,
  encode_value-sort_json, payload_step-sort_fields, same-then, sliceable-sort_json,
}

module _ {F : Type 0} ⦃float : Float F⦄ (c : Crypto (Json F)) (order_free : IsOrderFree c) where
  verify_script_hash-sort_fields :
      (d : Fields F) → verify_script_hash c (sort_fields d) ≡ verify_script_hash c d
  unfolding verify_script_hash
  verify_script_hash-sort_fields d =
      let gs = part (codes "gee_script") d in
      rw
        (
          sorted_part (codes "gee_script") d,
          get_text (codes "version_hash") [] gs,
          get_text (codes "source_preview") [] gs,
        )
        (sort_result-then (get_from (codes "version_hash") (text []) gs) _ _ (λ stored_hash.
          sort_result-then (get_from (codes "source_preview") (text []) gs) _ _ (λ preview.
            rw (is_true-sort_json preview, encode_value-sort_json preview)
              (elim (Bool-cases (is_true preview)) [
                | inr empty ↦ rw empty refl
                | inl full ↦ rw full (
                    same-then (encode_value preview) _ _ (λ source.
                      ap (λ b. ok (some b))
                        (is_text-sort_json (hex (c.sha256 source)) stored_hash)))
              ]))))

  script_step-sort_fields : (d : Fields F) → script_step c (sort_fields d) ≡ script_step c d
  unfolding script_step
  script_step-sort_fields d =
      let gs = part (codes "gee_script") d in
      rw
        (
          verify_script_hash-sort_fields d,
          sorted_part (codes "gee_script") d,
          get_null (codes "source_preview") gs,
          get_null (codes "asset_path") gs,
        )
        (sort_result-then (get_from (codes "source_preview") null gs) _ _ (λ preview.
          rw (is_true-sort_json preview) (elim (Bool-cases (is_true preview)) [
            | inl full ↦ rw full refl
            | inr empty ↦
                rw empty
                  (sort_result-then (get_from (codes "asset_path") null gs) _ _ (λ path. refl))
          ])))

  decode_attestation-sort_json :
      (att : Json F) → decode_attestation c (sort_json att) ≡ decode_attestation c att
  unfolding decode_attestation
  decode_attestation-sort_json att =
      let read = λ (k : Str). subscript-sort_json k att in
      rw (read (codes "public_key"), read (codes "signature"), read (codes "payload_hex"))
        (sort_result-then (subscript (codes "public_key") att) _ _ (λ key.
          rw (from_hex_value-sort_json key) (
            same-then (from_hex_value key) _ _ (λ key_bytes.
              sort_result-then (subscript (codes "signature") att) _ _ (λ signature.
                rw (from_hex_value-sort_json signature) (
                  same-then (from_hex_value signature) _ _ (λ signature_bytes.
                    sort_result-then (subscript (codes "payload_hex") att) _ _
                      (λ payload. rw (from_hex_value-sort_json payload) refl))))))))

  verify_signature-sort_fields :
      (available : Bool) (d : Fields F)
      → verify_signature c available (sort_fields d) ≡ verify_signature c available d
  unfolding verify_signature
  verify_signature-sort_fields false d = refl
  verify_signature-sort_fields true d =
      rw
        (
          sorted_part (codes "attestation") d,
          decode_attestation-sort_json (part (codes "attestation") d),
        )
        refl

  signature_step-sort_fields :
      (available check_sig : Bool) (d : Fields F)
      → signature_step c available check_sig (sort_fields d)
        ≡ signature_step c available check_sig d
  unfolding signature_step
  signature_step-sort_fields available true d = rw (verify_signature-sort_fields available d) refl
  signature_step-sort_fields available false d =
      let att = part (codes "attestation") d in
      rw (sorted_part (codes "attestation") d, get_text (codes "public_key") (codes "N/A") att)
        (sort_result-then (get_from (codes "public_key") (text (codes "N/A")) att) _ _
          (λ key. rw (sliceable-sort_json key) refl))

  conforms-raise_errors :
      (es fs : List Str)
      → (es ≡ []) ↔ (fs ≡ [])
      → conforms (raise_errors es) ≡ conforms (raise_errors fs)
  unfolding conforms is_validation_error
  conforms-raise_errors [] [] h = refl
  conforms-raise_errors [] (f ∷ fs) h = absurd (cc (h.0 refl))
  conforms-raise_errors (e ∷ es) [] h = absurd (cc (h.1 refl))
  conforms-raise_errors (e ∷ es) (f ∷ fs) h = refl

  conforms-then :
      (found : Result (List Str)) (es fs : List Str)
      → (es ≡ []) ↔ (fs ≡ [])
      → conforms (found >>= λ errors. raise_errors errors >> raise_errors es)
        ≡ conforms (found >>= λ errors. raise_errors errors >> raise_errors fs)
  conforms-then (err e) es fs h = refl
  conforms-then (ok []) es fs h = conforms-raise_errors es fs h
  conforms-then (ok (e ∷ errors)) es fs h = refl

  schema-sort_fields :
      (jsonschema : Option (Fields F → List Str)) (d : Fields F)
      → IsBlind jsonschema
      → conforms (validate_provenance_record jsonschema (sort_fields d))
        ≡ conforms (validate_provenance_record jsonschema d)
  unfolding validate_provenance_record
  schema-sort_fields none d blind = rw (lightweight_validate-sort_fields d) refl
  schema-sort_fields (some iter_errors) d blind = rw (lightweight_validate-sort_fields d) (
      conforms-then (lightweight_validate d) (iter_errors (sort_fields d)) (iter_errors d)
        (blind iter_errors d refl))

  -- If `json.dumps` with sorted keys and the findings of `jsonschema` do not depend on the order of
  -- the keys, then the checks of a record with its keys sorted end as those of the record: with the
  -- same exit code or the same exception.
  pub verify_record-sort_fields :
      (jsonschema : Option (Fields F → List Str)) (available check_sig : Bool) (d : Fields F)
      → IsBlind jsonschema
      → verify_record c jsonschema available check_sig (sort_fields d)
        ≡ verify_record c jsonschema available check_sig d
  unfolding verify_record
  verify_record-sort_fields jsonschema available check_sig d blind =
      rw
        (
          schema-sort_fields jsonschema d blind,
          params_step-sort_fields c order_free d,
          payload_step-sort_fields c order_free d,
          script_step-sort_fields d,
          signature_step-sort_fields available check_sig d,
        )
        refl
