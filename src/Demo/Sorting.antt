-- ===== src/Demo/Sorting.antt =====
-- The parts of the checks of the page `/verify` do not see the order of the keys.
use stellar_kraal_contract.Common.{
  ◌≡◌, refl, ap, ◌↔◌, inl, inr, Bool, List, [], ◌∷◌, Option, none, some, Bool-cases,
}
use stellar_kraal_contract.Common.Float.{Float}
use stellar_kraal_contract.Common.Int.{ℤ}
use stellar_kraal_contract.Common.Json.{
  Json, Fields, Items, nil, item, null, bool, int, real, array, object, text, subscript, get_or,
  as_dict,
}
use stellar_kraal_contract.Common.Result.{Result, ok, err, ◌>>=◌, ◌>>◌}
use stellar_kraal_contract.Common.SortKeys.{
  sort_json, sort_fields, sort_items, of_containers, get_or-sort_fields, subscript-sort_json,
  equals_int-sort_json, is_true-sort_json,
}
use stellar_kraal_contract.Common.Text.{Str, codes}
use stellar_kraal_contract.Attestation.BigEndian.{Bytes}
use stellar_kraal_contract.Provenance.Sorting.{
  IsBlind, sorted_or_null, sort_result-then, lightweight_validate-sort_fields,
}
use stellar_kraal_contract.Provenance.Validate.{
  validate_provenance_record, raise_errors, lightweight_validate,
}
use stellar_kraal_contract.VerifyTool.Checks.{get_from}
use stellar_kraal_contract.VerifyTool.Show.{join_items, joined}
use stellar_kraal_contract.VerifyTool.Sorting.{same-then, get_text, get_null}
use stellar_kraal_contract.Demo.Verify.{
  payload_matches, payload_int, equals_value, show_details, shown_errors, show_aggregation, is_nil,
  grouped,
}

module _ {F : Type 0} where
  join_items-sort_items : (vs : Items F) → join_items (sort_items vs) ≡ join_items vs
  unfolding sort_json
  join_items-sort_items nil = refl
  join_items-sort_items (item (text s) vs) = join_items-sort_items vs
  join_items-sort_items (item (object d) vs) = refl
  join_items-sort_items (item (array ws) vs) = refl
  join_items-sort_items (item (int n) vs) = refl
  join_items-sort_items (item (real x) vs) = refl
  join_items-sort_items (item (bool b) vs) = refl
  join_items-sort_items (item null vs) = refl

module _ {F : Type 0} ⦃float : Float F⦄ where
  equals_value-sort_json :
      (x : Option ℤ) (v : Json F) → equals_value x (sort_json v) ≡ equals_value x v
  unfolding equals_value
  equals_value-sort_json (some n) = equals_int-sort_json n
  equals_value-sort_json none = of_containers (equals_value none) (λ vs. refl) (λ d. refl)

  pub payload_matches-sort_json :
      (payload : Bytes) (comp : Json F)
      → payload_matches payload (sort_json comp) ≡ payload_matches payload comp
  unfolding payload_matches
  payload_matches-sort_json payload comp =
      rw
        (
          subscript-sort_json (codes "output_value") comp,
          subscript-sort_json (codes "timestamp_utc") comp,
        )
        (sort_result-then (subscript (codes "output_value") comp) _ _ (λ value.
          rw (equals_value-sort_json (payload_int 65 payload) value)
            (elim (Bool-cases (equals_value (payload_int 65 payload) value)) [
              | inr other ↦ rw other refl
              | inl same ↦ rw same (
                  sort_result-then (subscript (codes "timestamp_utc") comp) _ _
                    (λ time. ap ok (equals_value-sort_json (payload_int 73 payload) time)))
            ])))

  joined-sort_json : (v : Json F) → joined (sort_json v) ≡ joined v
  unfolding joined
  joined-sort_json = of_containers joined join_items-sort_items (λ d. refl)

  grouped-sort_json : (v : Json F) → grouped (sort_json v) ≡ grouped v
  unfolding grouped
  grouped-sort_json = of_containers grouped (λ vs. refl) (λ d. refl)

  abbrev rejected_shown : Json F → Result (Unit {0})
  rejected_shown agg =
      as_dict agg >>= λ fields. joined (get_or (codes "rejected_sources") (array nil) fields)

  rejected_shown-sort_json : (agg : Json F) → rejected_shown (sort_json agg) ≡ rejected_shown agg
  unfolding as_dict sort_json
  rejected_shown-sort_json (object d) =
      rw (get_or-sort_fields (codes "rejected_sources") (array nil) d refl)
        (joined-sort_json (get_or (codes "rejected_sources") (array nil) d))
  rejected_shown-sort_json (array vs) = refl
  rejected_shown-sort_json (text s) = refl
  rejected_shown-sort_json (int n) = refl
  rejected_shown-sort_json (real x) = refl
  rejected_shown-sort_json (bool b) = refl
  rejected_shown-sort_json null = refl

  show_aggregation-sort_fields :
      (d : Fields F) → show_aggregation (sort_fields d) ≡ show_aggregation d
  unfolding show_aggregation
  show_aggregation-sort_fields d =
      let agg = get_or (codes "aggregation") null d in
      rw
        (
          sorted_or_null (codes "aggregation") d,
          is_true-sort_json agg,
          rejected_shown-sort_json agg,
        )
        refl

  pub show_details-sort_json :
      (gs comp att sub : Json F) (d : Fields F)
      → show_details (sort_json gs) (sort_json comp) (sort_json att) (sort_json sub) (sort_fields d)
        ≡ show_details gs comp att sub d
  unfolding show_details
  show_details-sort_json gs comp att sub d =
      rw
        (
          show_aggregation-sort_fields d,
          get_null (codes "asset_path") gs,
          get_null (codes "output_value") comp,
          get_text (codes "public_key") [] att,
          get_null (codes "submitted_at_iso") sub,
        )
        (same-then (show_aggregation d) _ _ (λ u.
          sort_result-then (get_from (codes "asset_path") null gs) _ _ (λ path.
            sort_result-then (get_from (codes "output_value") null comp) _ _ (λ value.
              rw (grouped-sort_json value) (
                same-then (grouped value) _ _ (λ u'.
                  sort_result-then (get_from (codes "public_key") (text []) att) _ _ (λ key.
                    sort_result-then (get_from (codes "submitted_at_iso") null sub) _ _
                      (λ iso. refl))))))))

shown-raise_errors :
    {R : Type 0} (es fs : List Str) (rest : Bool → Result R)
    → (es ≡ []) ↔ (fs ≡ [])
    → (shown_errors (raise_errors es) >>= λ errors. rest (is_nil errors))
      ≡ (shown_errors (raise_errors fs) >>= λ errors. rest (is_nil errors))
unfolding shown_errors
shown-raise_errors [] [] rest h = refl
shown-raise_errors [] (f ∷ fs) rest h = absurd (cc (h.0 refl))
shown-raise_errors (e ∷ es) [] rest h = absurd (cc (h.1 refl))
shown-raise_errors (e ∷ es) (f ∷ fs) rest h = refl

shown-then :
    {R : Type 0} (found : Result (List Str)) (es fs : List Str) (rest : Bool → Result R)
    → (es ≡ []) ↔ (fs ≡ [])
    → (shown_errors (found >>= λ errors. raise_errors errors >> raise_errors es) >>= λ errors.
        rest (is_nil errors))
      ≡ (shown_errors (found >>= λ errors. raise_errors errors >> raise_errors fs) >>= λ errors.
          rest (is_nil errors))
shown-then (err e) es fs rest h = refl
shown-then (ok []) es fs rest h = shown-raise_errors es fs rest h
shown-then (ok (e ∷ errors)) es fs rest h = refl

module _ {F : Type 0} ⦃float : Float F⦄ where
  pub schema_shown-sort_fields :
      {R : Type 0} (jsonschema : Option (Fields F → List Str)) (d : Fields F)
      (rest : Bool → Result R)
      → IsBlind jsonschema
      → (shown_errors (validate_provenance_record jsonschema (sort_fields d)) >>= λ errors.
          rest (is_nil errors))
        ≡ (shown_errors (validate_provenance_record jsonschema d) >>= λ errors.
            rest (is_nil errors))
  unfolding validate_provenance_record
  schema_shown-sort_fields none d rest blind = rw (lightweight_validate-sort_fields d) refl
  schema_shown-sort_fields (some iter_errors) d rest blind =
      rw (lightweight_validate-sort_fields d) (
        shown-then (lightweight_validate d) (iter_errors (sort_fields d)) (iter_errors d) rest
          (blind iter_errors d refl))
