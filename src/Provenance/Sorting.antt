-- ===== src/Provenance/Sorting.antt =====
-- The checks of a record do not see the order of its keys.
use stellar_kraal_contract.Common.{
  ℕ, ◌≡◌, refl, List, [], ◌∷◌, ◌==◌, if◌then◌else◌, Option, some, ◌↔◌,
}
use stellar_kraal_contract.Common.Float.{Float}
use stellar_kraal_contract.Common.Int.{pos}
use stellar_kraal_contract.Common.Json.{
  Json, Fields, null, text, int, real, bool, object, array, end, get_or, len, subscript,
}
use stellar_kraal_contract.Common.Result.{Result, ok, err, ◌>>=◌}
use stellar_kraal_contract.Common.SortKeys.{
  sort_json, sort_fields, sort_result, get_or-sort_fields, is_text-sort_json, contained-sort_json,
  subscript-sort_json, len-sort_json, equals_int-sort_json,
}
use stellar_kraal_contract.Common.Text.{Str, codes}
use stellar_kraal_contract.Provenance.Validate.{
  check_type, missing_keys, check_aggregation, lightweight_validate, required_block, check_length,
  aggregation_keys, top_keys, script_keys, params_keys, computation_keys, attestation_keys,
  submission_keys,
}

module _ {F : Type 0} where
  pub sort_result-then :
      {R : Type 0} (r : Result (Json F)) (f g : Json F → Result R)
      → ((v : Json F) → f (sort_json v) ≡ g v)
      → (sort_result r >>= f) ≡ (r >>= g)
  sort_result-then (err e) f g h = refl
  sort_result-then (ok v) f g h = h v

  missing_keys-sort_json :
      (prefix : Str) (v : Json F) (ks : List Str)
      → missing_keys prefix (sort_json v) ks ≡ missing_keys prefix v ks
  unfolding missing_keys
  missing_keys-sort_json prefix v [] = refl
  missing_keys-sort_json prefix v (k ∷ ks) =
      rw (contained-sort_json k v, missing_keys-sort_json prefix v ks) refl

  check_length-sort_json :
      (k : Str) (size : ℕ) (message : Str) (v : Json F)
      → check_length k size message (sort_json v) ≡ check_length k size message v
  unfolding check_length
  check_length-sort_json k size message v =
      rw
        (
          contained-sort_json k v,
          subscript-sort_json k v,
          sort_result-then (subscript k v)
              (λ x. do n ← len x; ok (if n == size then [] else message ∷ []))
              (λ x. do n ← len x; ok (if n == size then [] else message ∷ []))
              (λ x. rw (len-sort_json x) refl),
        )
        refl

  required_block-sort_json : (v : Json F) → required_block (sort_json v) ≡ required_block v
  unfolding required_block sort_json
  required_block-sort_json null = refl
  required_block-sort_json (object d) =
      missing_keys-sort_json (codes "Missing aggregation.") (object d) aggregation_keys
  required_block-sort_json (array vs) =
      missing_keys-sort_json (codes "Missing aggregation.") (array vs) aggregation_keys
  required_block-sort_json (text s) = refl
  required_block-sort_json (int n) = refl
  required_block-sort_json (real x) = refl
  required_block-sort_json (bool b) = refl

  check_aggregation-sort_fields :
      (d : Fields F) → check_aggregation (sort_fields d) ≡ check_aggregation d
  unfolding check_aggregation sort_json
  check_aggregation-sort_fields d =
      rw
        (
          get_or-sort_fields (codes "record_type") null d refl,
          get_or-sort_fields (codes "aggregation") null d refl,
          is_text-sort_json (codes "aggregated") (get_or (codes "record_type") null d),
          required_block-sort_json (get_or (codes "aggregation") null d),
        )
        refl

  check_type-sort_json : (v : Json F) → check_type (sort_json v) ≡ check_type v
  unfolding check_type
  check_type-sort_json v =
      rw (is_text-sort_json (codes "single") v, is_text-sort_json (codes "aggregated") v) refl

  pub sorted_part :
      (k : Str) (d : Fields F)
      → get_or k (object end) (sort_fields d) ≡ sort_json (get_or k (object end) d)
  unfolding sort_json
  sorted_part k d = get_or-sort_fields k (object end) d refl

  pub sorted_or_null :
      (k : Str) (d : Fields F) → get_or k null (sort_fields d) ≡ sort_json (get_or k null d)
  unfolding sort_json
  sorted_or_null k d = get_or-sort_fields k null d refl

  missing_top :
      (d : Fields F)
      → missing_keys (codes "Missing required field: ") (object (sort_fields d)) top_keys
        ≡ missing_keys (codes "Missing required field: ") (object d) top_keys
  unfolding sort_json
  missing_top d = missing_keys-sort_json (codes "Missing required field: ") (object d) top_keys

module _ {F : Type 0} ⦃float : Float F⦄ where
  pub lightweight_validate-sort_fields :
      (d : Fields F) → lightweight_validate (sort_fields d) ≡ lightweight_validate d
  unfolding lightweight_validate
  lightweight_validate-sort_fields d =
      let part = λ (k : Str). get_or k (object end) d in
      let att = part (codes "attestation") in
      rw
        (
          check_aggregation-sort_fields d,
          sorted_part (codes "gee_script") d,
          sorted_part (codes "input_params") d,
          sorted_part (codes "computation") d,
          sorted_part (codes "attestation") d,
          sorted_part (codes "submission") d,
          sorted_or_null (codes "schema_version") d,
          sorted_or_null (codes "record_type") d,
          equals_int-sort_json (pos 1) (get_or (codes "schema_version") null d),
          check_type-sort_json (get_or (codes "record_type") null d),
          missing_top d,
          missing_keys-sort_json (codes "Missing gee_script.") (part (codes "gee_script"))
              script_keys,
          missing_keys-sort_json (codes "Missing input_params.") (part (codes "input_params"))
              params_keys,
          missing_keys-sort_json (codes "Missing computation.") (part (codes "computation"))
              computation_keys,
          missing_keys-sort_json (codes "Missing attestation.") att attestation_keys,
          check_length-sort_json (codes "public_key") 64
              (codes "attestation.public_key must be 64 hex chars") att,
          check_length-sort_json (codes "signature") 128
              (codes "attestation.signature must be 128 hex chars") att,
          check_length-sort_json (codes "payload_hex") 226
              (codes "attestation.payload_hex must be 226 hex chars") att,
          missing_keys-sort_json (codes "Missing submission.") (part (codes "submission"))
              submission_keys,
        )
        refl

-- Sorting the keys does not make or mend an error that `jsonschema` finds.
abbrev pub IsBlind : {F : Type 0} → Option (Fields F → List Str) → Type 0
IsBlind {F} jsonschema =
    (iter_errors : Fields F → List Str) (d : Fields F)
    → jsonschema ≡ some iter_errors
    → (iter_errors (sort_fields d) ≡ []) ↔ (iter_errors d ≡ [])
