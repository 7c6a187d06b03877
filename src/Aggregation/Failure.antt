-- ===== src/Aggregation/Failure.antt =====
-- Where `aggregate` raises.
use mathlib.Core.Path.{subst, ap}
use stellar_kraal_contract.Common.{
  ◌≡◌, refl, sym, ◌∙◌, inl, inr, true, false, List, [], ◌∷◌, arith, All, All-In, All-of_In, In,
  Bool-cases, In-map, length,
}
use mathlib.Core.List.Permᴰ
use stellar_kraal_contract.Common.Dict.{Dict, contains}
use stellar_kraal_contract.Common.Float.{Float}
use stellar_kraal_contract.Common.Int.{pos, ◌<ℤ◌}
use stellar_kraal_contract.Common.Result.{
  Result, ok, err, Error, ◌>>=◌, sources_mismatch, too_few_sources,
}
use stellar_kraal_contract.Common.Sort.{sorted, sorted-perm, All-perm}
use stellar_kraal_contract.Common.Text.{Str}
use stellar_kraal_contract.Aggregation.Aggregate.{same_set, by_id, conclude, aggregate}
use stellar_kraal_contract.Aggregation.Config.{PriceSource, AggregationConfig, IsValid}
use stellar_kraal_contract.Aggregation.Crossing.{weighted_median_nonempty}
use stellar_kraal_contract.Aggregation.Order.{same_set_iff}
use stellar_kraal_contract.Aggregation.Outcome.{All-select, collect_weights_total}
use stellar_kraal_contract.Aggregation.Outliers.{reject_outliers, ids}
use stellar_kraal_contract.Aggregation.Rejection.{reject_outliers-Splits}

module _ {F : Type 0} ⦃d : Float F⦄ where
  -- Where `aggregate` fails.
  pub data Fails (c : AggregationConfig F) (ss : List (PriceSource F)) (e : Error) : Type 0 where
    mismatch : e ≡ sources_mismatch → same_set (ids ss) c.sources ≡ false → Fails c ss e
    rejection : reject_outliers c (sorted by_id ss) ≡ err e → Fails c ss e
    too_few :
        e ≡ too_few_sources
        → (kept : List (PriceSource F)) (rejected : List Str)
        → reject_outliers c (sorted by_id ss) ≡ ok (kept, rejected)
        → pos (length kept) <ℤ c.min_sources_after_rejection
        → Fails c ss e

  contains_of_mem :
      (weights : Dict F) (names : List Str) (k : Str)
      → All (λ s. contains s weights ≡ true) names
      → In k names
      → contains k weights ≡ true
  contains_of_mem weights names k h m = All-In (λ s. contains s weights ≡ true) k names h m

  In-ids : (ss : List (PriceSource F)) (s : PriceSource F) → In s ss → In s.source_id (ids ss)
  In-ids ss s m = In-map (λ (t : PriceSource F). t.source_id) s ss m

  conclude_few :
      (c : AggregationConfig F) (kept : List (PriceSource F)) (rejected : List Str) (e : Error)
      → IsValid c
      → All (λ s. contains s.source_id c.weights ≡ true) kept
      → conclude c kept rejected ≡ err e
      → (e ≡ too_few_sources) × (pos (length kept) <ℤ c.min_sources_after_rejection)
  unfolding conclude
  conclude_few c [] rejected e v h f = let least = v.at_least_one in ground arith
  conclude_few c (s ∷ ss) rejected e v h f =
      let (value, found) = weighted_median_nonempty s ss in
      let (weights, total) = collect_weights_total c.weights [] (s ∷ ss) h in ground arith

  given_have_weights :
      (c : AggregationConfig F) (ss : List (PriceSource F))
      → IsValid c
      → same_set (ids ss) c.sources ≡ true
      → All (λ s. contains s.source_id c.weights ≡ true) ss
  given_have_weights c ss v same =
      let (sub, _) = (same_set_iff (ids ss) c.sources).0 same in
      All-of_In _ ss λ s m.
        contains_of_mem c.weights c.sources s.source_id v.covered
          (All-In (λ k. In k c.sources) s.source_id (ids ss) sub (In-ids ss s m))

  kept_have_weights :
      (c : AggregationConfig F) (ss kept : List (PriceSource F)) (rejected : List Str)
      → IsValid c
      → same_set (ids ss) c.sources ≡ true
      → reject_outliers c (sorted by_id ss) ≡ ok (kept, rejected)
      → All (λ s. contains s.source_id c.weights ≡ true) kept
  kept_have_weights c ss kept rejected v same e =
      let split = reject_outliers-Splits c (sorted by_id ss) kept rejected e in
      let weighted =
        All-perm _ (Permᴰ.symm (sorted-perm by_id ss)) (given_have_weights c ss v same) in
      subst (All (λ s. contains s.source_id c.weights ≡ true)) (sym split.kept_eq)
        (All-select _ split.keep (sorted by_id ss) weighted)

  after_rejection :
      (c : AggregationConfig F) (ss : List (PriceSource F)) (e : Error)
      → IsValid c
      → same_set (ids ss) c.sources ≡ true
      → (m : Result (List (PriceSource F) × List Str)) → reject_outliers c (sorted by_id ss) ≡ m
      → (m >>= λ p. conclude c p.0 p.1) ≡ err e
      → Fails c ss e
  after_rejection c ss e v same (err f) is_m h =
      let same_error : f ≡ e = cc in Fails.rejection (is_m ∙ ap err same_error)
  after_rejection c ss e v same (ok (kept, rejected)) is_m h =
      let (is_few, few) =
        conclude_few c kept rejected e v (kept_have_weights c ss kept rejected v same is_m) h in
      Fails.too_few is_few kept rejected is_m few

  -- With a valid configuration `aggregate` raises only where the ids are not those configured,
  -- where the outlier test raises, or where fewer sources remain than the minimum. In particular
  -- it raises no `KeyError`, and no error for an empty list of accepted sources.
  pub aggregate-Fails :
      (c : AggregationConfig F) (ss : List (PriceSource F)) (e : Error)
      → IsValid c
      → aggregate c ss ≡ err e
      → Fails c ss e
  unfolding aggregate
  aggregate-Fails c ss e v h = elim (Bool-cases (same_set (ids ss) c.sources)) [
    | inr differ ↦ Fails.mismatch (cc (rw differ at h)) differ
    | inl same ↦
        after_rejection c ss e v same (reject_outliers c (sorted by_id ss)) refl (rw same at h)
  ]
