-- ===== src/Provenance/Validate.antt =====
-- `_lightweight_validate` and `validate_provenance_record`. The library `jsonschema` is a parameter:
-- `none` where it is not installed, else what its validator finds.
use stellar_kraal_contract.Common.{
  none, some, List, Option, if◌then◌else◌, ℕ, ◌∷◌, [], ◌||◌, ◌++◌, ◌==◌,
}
use stellar_kraal_contract.Common.Float.{Float}
use stellar_kraal_contract.Common.Int.{pos}
use stellar_kraal_contract.Common.Json.{
  Fields, Json, get_or, is_text, object, end, null, contained, equals_int, subscript, len,
}
use stellar_kraal_contract.Common.Result.{Result, ok, err, validation_failed, ◌>>=◌, ◌>>◌}
use stellar_kraal_contract.Common.Text.{Str, codes}

abbrev pub top_keys : List Str
top_keys =
    codes "schema_version"
    ∷ codes "record_type"
    ∷ codes "gee_script"
    ∷ codes "input_params"
    ∷ codes "computation"
    ∷ codes "attestation"
    ∷ codes "submission"
    ∷ []

abbrev pub script_keys : List Str
script_keys = codes "asset_path" ∷ codes "version_hash" ∷ codes "version_tag" ∷ []

abbrev pub params_keys : List Str
params_keys = codes "params" ∷ codes "params_hash" ∷ []

abbrev pub computation_keys : List Str
computation_keys =
    codes "output_value" ∷ codes "feed_id" ∷ codes "timestamp_utc" ∷ codes "timestamp_iso" ∷ []

abbrev pub attestation_keys : List Str
attestation_keys =
    codes "schema_version" ∷ codes "public_key" ∷ codes "signature" ∷ codes "payload_hex" ∷ []

abbrev pub submission_keys : List Str
submission_keys = codes "submitted_at_iso" ∷ codes "submitted_at_utc" ∷ []

abbrev pub aggregation_keys : List Str
aggregation_keys =
    codes "method"
    ∷ codes "outlier_method"
    ∷ codes "source_values"
    ∷ codes "weights_used"
    ∷ codes "rejected_sources"
    ∷ []

module _ {F : Type 0} where
  -- `for k in keys: if k not in v: errors.append(prefix + k)`
  unfoldable pub missing_keys : Str → Json F → List Str → Result (List Str)
  missing_keys prefix v [] = ok []
  missing_keys prefix v (k ∷ ks) = do
    present ← contained k v
    rest ← missing_keys prefix v ks
    ok (if present then rest else (prefix ++ k) ∷ rest)

  -- `if k in att and len(att[k]) != size: errors.append(message)`
  unfoldable pub check_length : Str → ℕ → Str → Json F → Result (List Str)
  check_length k size message att = do
    present ← contained k att
    if present
        then (do v ← subscript k att; n ← len v; ok (if n == size then [] else message ∷ []))
        else ok []

  unfoldable pub required_block : Json F → Result (List Str)
  unfolding missing_keys
  required_block null = ok (codes "aggregation block required for aggregated records" ∷ [])
  required_block agg = missing_keys (codes "Missing aggregation.") agg aggregation_keys

  unfoldable pub check_aggregation : Fields F → Result (List Str)
  unfolding required_block
  check_aggregation d =
      if is_text (codes "aggregated") (get_or (codes "record_type") null d)
      then required_block (get_or (codes "aggregation") null d)
      else ok []

  unfoldable pub check_type : Json F → List Str
  check_type v =
      if is_text (codes "single") v || is_text (codes "aggregated") v
      then []
      else codes "record_type must be 'single' or 'aggregated'" ∷ []

-- `if errors: raise ProvenanceValidationError(errors)`
abbrev pub raise_errors : List Str → Result (Unit {0})
raise_errors [] = ok tt
raise_errors (e ∷ es) = err (validation_failed (e ∷ es))

module _ {F : Type 0} ⦃float : Float F⦄ where
  -- `_lightweight_validate`
  unfoldable pub lightweight_validate : Fields F → Result (List Str)
  unfolding missing_keys check_length check_aggregation check_type
  lightweight_validate record_fields = do
    let part = λ (k : Str). get_or k (object end) record_fields
    let att = part (codes "attestation")
    top ← missing_keys (codes "Missing required field: ") (object record_fields) top_keys
    let version =
        if equals_int (pos 1) (get_or (codes "schema_version") null record_fields)
        then []
        else codes "schema_version must be 1" ∷ []
    let kind = check_type (get_or (codes "record_type") null record_fields)
    gs ← missing_keys (codes "Missing gee_script.") (part (codes "gee_script")) script_keys
    ip ← missing_keys (codes "Missing input_params.") (part (codes "input_params")) params_keys
    comp ← missing_keys (codes "Missing computation.") (part (codes "computation")) computation_keys
    fields ← missing_keys (codes "Missing attestation.") att attestation_keys
    key ←
        check_length (codes "public_key") 64 (codes "attestation.public_key must be 64 hex chars")
          att
    signature ←
        check_length (codes "signature") 128 (codes "attestation.signature must be 128 hex chars")
          att
    payload ←
        check_length (codes "payload_hex") 226
          (codes "attestation.payload_hex must be 226 hex chars") att
    sub ← missing_keys (codes "Missing submission.") (part (codes "submission")) submission_keys
    agg ← check_aggregation record_fields
    ok (
        top
        ++ (version
            ++ (kind
                ++ (gs
                    ++ (ip
                        ++ (comp
                            ++ (fields ++ (key ++ (signature ++ (payload ++ (sub ++ agg)))))))))))

  -- `validate_provenance_record`
  unfoldable pub validate_provenance_record :
      Option (Fields F → List Str) → Fields F → Result (Unit {0})
  unfolding lightweight_validate
  validate_provenance_record jsonschema record_fields = do
    errors ← lightweight_validate record_fields
    raise_errors errors
    elim jsonschema [ none ↦ ok tt | some iter_errors ↦ raise_errors (iter_errors record_fields) ]
