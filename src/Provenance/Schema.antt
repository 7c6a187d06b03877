-- ===== src/Provenance/Schema.antt =====
-- `PROVENANCE_SCHEMA`, and that the validation without `jsonschema` asks for the keys it requires.
use stellar_kraal_contract.Common.{◌≡◌, refl, true, false, List, [], ◌∷◌}
use stellar_kraal_contract.Common.Int.{pos}
use stellar_kraal_contract.Common.Json.{
  Json, Fields, Items, nil, item, bool, int, array, object, text, field, end, get, at, subscript,
}
use stellar_kraal_contract.Common.Result.{Result, ok, ◌>>=◌}
use stellar_kraal_contract.Common.Text.{Str, codes, str_eq}
use stellar_kraal_contract.Provenance.Validate.{
  top_keys, script_keys, params_keys, computation_keys, attestation_keys, submission_keys,
  aggregation_keys,
}

module _ {F : Type 0} where
  abbrev texts : List Str → Items F
  texts [] = nil
  texts (s ∷ ss) = item (text s) (texts ss)

  -- A schema of an object with these keys only.
  abbrev object_schema : List Str → Fields F → Json F
  object_schema required properties = object (
      field (codes "type") (text (codes "object")) (
        field (codes "required") (array (texts required)) (
          field (codes "additionalProperties") (bool false)
            (field (codes "properties") (object properties) end))))

  unfoldable gee_script_schema : Json F
  gee_script_schema =
      object_schema (codes "asset_path" ∷ codes "version_hash" ∷ codes "version_tag" ∷ []) (
        field (codes "asset_path")
          (object (
            field (codes "type") (text (codes "string"))
              (field (codes "minLength") (int (pos 1)) end)))
          (field (codes "version_hash")
            (object (
              field (codes "type") (text (codes "string"))
                (field (codes "pattern") (text (codes "^[0-9a-f]{64}$")) end)))
            (field (codes "version_tag")
              (object (
                field (codes "type") (text (codes "string"))
                  (field (codes "minLength") (int (pos 1)) end)))
              (field (codes "source_preview")
                (object (
                  field (codes "type") (text (codes "string"))
                    (field (codes "maxLength") (int (pos 512)) end)))
                end))))

  unfoldable input_params_schema : Json F
  input_params_schema = object_schema (codes "params" ∷ codes "params_hash" ∷ []) (
      field (codes "params")
        (object (
          field (codes "type") (text (codes "object"))
            (field (codes "additionalProperties") (bool true) end)))
        (field (codes "params_hash")
          (object (
            field (codes "type") (text (codes "string"))
              (field (codes "pattern") (text (codes "^[0-9a-f]{64}$")) end)))
          end))

  unfoldable computation_schema : Json F
  computation_schema =
      object_schema
        (codes "output_value"
          ∷ codes "feed_id"
          ∷ codes "timestamp_utc"
          ∷ codes "timestamp_iso"
          ∷ [])
        (field (codes "output_value") (object (field (codes "type") (text (codes "integer")) end)) (
          field (codes "feed_id")
            (object (
              field (codes "type") (text (codes "string"))
                (field (codes "maxLength") (int (pos 32)) end)))
            (field (codes "timestamp_utc")
              (object (
                field (codes "type") (text (codes "integer"))
                  (field (codes "minimum") (int (pos 0)) end)))
              (field (codes "timestamp_iso")
                (object (
                  field (codes "type") (text (codes "string")) (
                    field (codes "pattern")
                      (text (codes "^\\d{4}-\\d{2}-\\d{2}T\\d{2}:\\d{2}:\\d{2}Z$")) end)))
                end))))

  unfoldable attestation_schema : Json F
  attestation_schema =
      object_schema
        (codes "schema_version" ∷ codes "public_key" ∷ codes "signature" ∷ codes "payload_hex" ∷ [])
        (field (codes "schema_version")
          (object (
            field (codes "type") (text (codes "integer"))
              (field (codes "const") (int (pos 1)) end)))
          (field (codes "public_key")
            (object (
              field (codes "type") (text (codes "string"))
                (field (codes "pattern") (text (codes "^[0-9a-f]{64}$")) end)))
            (field (codes "signature")
              (object (
                field (codes "type") (text (codes "string"))
                  (field (codes "pattern") (text (codes "^[0-9a-f]{128}$")) end)))
              (field (codes "payload_hex")
                (object (
                  field (codes "type") (text (codes "string"))
                    (field (codes "pattern") (text (codes "^[0-9a-f]{226}$")) end)))
                end))))

  unfoldable submission_schema : Json F
  submission_schema = object_schema (codes "submitted_at_iso" ∷ codes "submitted_at_utc" ∷ []) (
      field (codes "submitted_at_iso")
        (object (
          field (codes "type") (text (codes "string")) (
            field (codes "pattern") (text (codes "^\\d{4}-\\d{2}-\\d{2}T\\d{2}:\\d{2}:\\d{2}Z$"))
              end)))
        (field (codes "submitted_at_utc")
          (object (
            field (codes "type") (text (codes "integer"))
              (field (codes "minimum") (int (pos 0)) end)))
          (field (codes "tx_ref") (object (field (codes "type") (text (codes "string")) end)) (
            field (codes "ipfs_cid")
              (object (
                field (codes "type") (text (codes "string"))
                  (field (codes "minLength") (int (pos 10)) end)))
              end))))

  unfoldable aggregation_schema : Json F
  aggregation_schema =
      object_schema
        (codes "method"
          ∷ codes "outlier_method"
          ∷ codes "source_values"
          ∷ codes "weights_used"
          ∷ codes "rejected_sources"
          ∷ [])
        (field (codes "method")
          (object (
            field (codes "type") (text (codes "string"))
              (field (codes "minLength") (int (pos 1)) end)))
          (field (codes "outlier_method")
            (object (
              field (codes "type") (text (codes "string")) (
                field (codes "enum")
                  (array (
                    item (text (codes "iqr"))
                      (item (text (codes "mad")) (item (text (codes "none")) (nil)))))
                  end)))
            (field (codes "source_values")
              (object (
                field (codes "type") (text (codes "object")) (
                  field (codes "additionalProperties")
                    (object (field (codes "type") (text (codes "integer")) end)) end)))
              (field (codes "weights_used")
                (object (
                  field (codes "type") (text (codes "object")) (
                    field (codes "additionalProperties")
                      (object (
                        field (codes "type") (text (codes "number"))
                          (field (codes "exclusiveMinimum") (int (pos 0)) end)))
                      end)))
                (field (codes "rejected_sources")
                  (object (
                    field (codes "type") (text (codes "array")) (
                      field (codes "items")
                        (object (field (codes "type") (text (codes "string")) end)) end)))
                  end)))))

  -- `PROVENANCE_SCHEMA`
  unfoldable pub provenance_schema : Fields F
  unfolding gee_script_schema input_params_schema computation_schema attestation_schema
      submission_schema aggregation_schema
  provenance_schema =
      field (codes "$schema") (text (codes "https://json-schema.org/draft/2020-12/schema")) (
        field (codes "$id")
          (text (codes "https://stellarkraal.example.com/schemas/provenance-record/v1.json"))
          (field (codes "title") (text (codes "GEE Oracle Provenance Record")) (
            field (codes "description")
              (text (
                codes
                  "Reproducibility record for a GEE oracle submission. Stored on IPFS; CID recorded on-chain."))
              (field (codes "type") (text (codes "object")) (
                field (codes "required")
                  (array (
                    texts (
                      codes "schema_version"
                      ∷ codes "record_type"
                      ∷ codes "gee_script"
                      ∷ codes "input_params"
                      ∷ codes "computation"
                      ∷ codes "attestation"
                      ∷ codes "submission"
                      ∷ [])))
                  (field (codes "additionalProperties") (bool false) (
                    field (codes "properties")
                      (object (
                        field (codes "schema_version")
                          (object (
                            field (codes "type") (text (codes "integer"))
                              (field (codes "const") (int (pos 1)) end)))
                          (field (codes "record_type")
                            (object (
                              field (codes "type") (text (codes "string")) (
                                field (codes "enum")
                                  (array (
                                    item (text (codes "single"))
                                      (item (text (codes "aggregated")) (nil))))
                                  end)))
                            (field (codes "gee_script") gee_script_schema (
                              field (codes "input_params") input_params_schema (
                                field (codes "computation") computation_schema (
                                  field (codes "attestation") attestation_schema (
                                    field (codes "submission") submission_schema
                                      (field (codes "aggregation") aggregation_schema end)))))))))
                      end)))))))

  -- `schema["required"]`
  abbrev required_of : Fields F → Result (Json F)
  required_of schema = at (codes "required") schema

  -- `schema["properties"][block]["required"]`
  abbrev required_in : Str → Fields F → Result (Json F)
  required_in block schema = do
    properties ← at (codes "properties") schema
    inner ← subscript block properties
    subscript (codes "required") inner

  -- The keys that the validation looks for are those that the schema requires.
  pub required_keys_agree :
      (required_of provenance_schema ≡ ok (array (texts top_keys)))
      × (required_in (codes "gee_script") provenance_schema ≡ ok (array (texts script_keys)))
      × (required_in (codes "input_params") provenance_schema ≡ ok (array (texts params_keys)))
      × (required_in (codes "computation") provenance_schema ≡ ok (array (texts computation_keys)))
      × (required_in (codes "attestation") provenance_schema ≡ ok (array (texts attestation_keys)))
      × (required_in (codes "submission") provenance_schema ≡ ok (array (texts submission_keys)))
      × (required_in (codes "aggregation") provenance_schema ≡ ok (array (texts aggregation_keys)))
  unfolding provenance_schema at get subscript str_eq
  required_keys_agree = (refl, refl, refl, refl, refl, refl, refl)
