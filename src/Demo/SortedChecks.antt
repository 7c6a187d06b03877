-- ===== src/Demo/SortedChecks.antt =====
-- The checks of the page `/verify` do not see the order of the keys of a record.
use stellar_kraal_contract.Common.{◌≡◌, refl, ◌∙◌, Bool, length, ◌==◌}
use stellar_kraal_contract.Common.Float.{Float}
use stellar_kraal_contract.Common.Json.{Json, Fields, subscript, at}
use stellar_kraal_contract.Common.Result.{require, value_error}
use stellar_kraal_contract.Common.SortKeys.{
  sort_json, sort_fields, at-sort_fields, is_text-sort_json, subscript-sort_json,
}
use stellar_kraal_contract.Common.Text.{Str, codes}
use stellar_kraal_contract.Attestation.BigEndian.{Bytes}
use stellar_kraal_contract.Provenance.Record.{params_hash_text, from_hex_value}
use stellar_kraal_contract.Provenance.Sorting.{IsBlind, sort_result-then}
use stellar_kraal_contract.Provenance.Validate.{validate_provenance_record}
use stellar_kraal_contract.VerifyTool.Sorting.{
  same-then, IsOrderFree, params_hash_text-sort_json, from_hex_value-sort_json,
}
use stellar_kraal_contract.Demo.Sorting.{
  schema_shown-sort_fields, payload_matches-sort_json, show_details-sort_json,
}
use stellar_kraal_contract.Demo.Verify.{
  check_signature, check_blocks, signature_matches, check_record, shown_errors, is_nil,
}
use stellar_kraal_contract.Demo.World.{Setup}

module _ {F T : Type 0} ⦃float : Float F⦄ (setup : Setup F T) where
  check_signature-sort_json :
      (att : Json F) (payload : Bytes)
      → check_signature setup (sort_json att) payload ≡ check_signature setup att payload
  unfolding check_signature
  check_signature-sort_json att payload =
      rw (subscript-sort_json (codes "public_key") att, subscript-sort_json (codes "signature") att)
        (sort_result-then (subscript (codes "public_key") att) _ _ (λ key.
          rw (from_hex_value-sort_json key) (
            same-then (from_hex_value key) _ _ (λ key_bytes.
              same-then (require (length key_bytes == 32) value_error) _ _ (λ u.
                sort_result-then (subscript (codes "signature") att) _ _
                  (λ signature. rw (from_hex_value-sort_json signature) refl))))))

  signature_matches-sort_json :
      (att : Json F) (payload : Bytes)
      → signature_matches setup (sort_json att) payload ≡ signature_matches setup att payload
  unfolding signature_matches
  signature_matches-sort_json att payload =
      rw (signature_matches, check_signature-sort_json att payload) refl

  module _ (order_free : IsOrderFree setup.crypto) where
    check_blocks-sort_fields :
        (schema_ok : Bool) (d : Fields F)
        → check_blocks setup schema_ok (sort_fields d) ≡ check_blocks setup schema_ok d
    unfolding check_blocks
    check_blocks-sort_fields schema_ok d =
        let block = λ (k : Str). at-sort_fields k d in
        rw
          (
            block (codes "gee_script"),
            block (codes "input_params"),
            block (codes "computation"),
            block (codes "attestation"),
            block (codes "submission"),
          )
          (sort_result-then (at (codes "gee_script") d) _ _ (λ gs.
            sort_result-then (at (codes "input_params") d) _ _ (λ ip.
              sort_result-then (at (codes "computation") d) _ _ (λ comp.
                sort_result-then (at (codes "attestation") d) _ _ (λ att.
                  sort_result-then (at (codes "submission") d) _ _ (λ sub.
                    rw
                      (
                        subscript-sort_json (codes "params") ip,
                        subscript-sort_json (codes "params_hash") ip,
                        subscript-sort_json (codes "payload_hex") att,
                      )
                      (sort_result-then (subscript (codes "params") ip) _ _ (λ params.
                        rw (params_hash_text-sort_json setup.crypto order_free params) (
                          same-then (params_hash_text setup.crypto params) _ _ (λ computed.
                            sort_result-then (subscript (codes "params_hash") ip) _ _ (λ stored.
                              sort_result-then (subscript (codes "payload_hex") att) _ _
                                (λ payload_hex. rw (from_hex_value-sort_json payload_hex) (
                                  same-then (from_hex_value payload_hex) _ _ (λ payload.
                                    rw
                                      (
                                        payload_matches-sort_json payload comp,
                                        show_details-sort_json gs comp att sub d,
                                        signature_matches-sort_json att payload,
                                        is_text-sort_json computed stored,
                                      )
                                      refl))))))))))))))

    -- If `json.dumps` with sorted keys and the findings of `jsonschema` do not depend on the order of
    -- the keys, nor do the checks of the page.
    pub check_record-sort_fields :
        (d : Fields F)
        → IsBlind setup.jsonschema
        → check_record setup (sort_fields d) ≡ check_record setup d
    unfolding check_record
    check_record-sort_fields d blind =
        schema_shown-sort_fields setup.jsonschema d
          (λ schema_ok. check_blocks setup schema_ok (sort_fields d)) blind
        ∙ same-then (shown_errors (validate_provenance_record setup.jsonschema d)) _ _
            (λ errors. check_blocks-sort_fields (is_nil errors) d)
