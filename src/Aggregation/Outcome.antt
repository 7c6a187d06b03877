-- ===== src/Aggregation/Outcome.antt =====
-- What a result of `aggregate` says about the sources.
use mathlib.Core.List.{Permᴰ}
use mathlib.Core.Path.{subst}
use stellar_kraal_contract.Common.{
  ◌≡◌, ◌≢◌, refl, sym, ◌∙◌, inl, inr, Bool, true, false, List, [], ◌∷◌, arith, All, In, Bool-cases,
  some, if◌then◌else◌, length, select,
}
use mathlib.Core.List.Permᴰ
use stellar_kraal_contract.Common.Dict.{
  Dict, lookup, insert, contains, contains-lookup, lookup-insert,
}
use stellar_kraal_contract.Common.Float.{Float}
use stellar_kraal_contract.Common.Int.{ℤ, pos, ltb_ℤ, ◌≤ℤ◌}
use stellar_kraal_contract.Common.Result.{ok, require, >>=-eq-ok, sources_mismatch}
use stellar_kraal_contract.Common.Sort.{sorted, sorted-perm, In-perm, All-perm}
use stellar_kraal_contract.Common.Text.{Str, str_eq_iff, str_eq_refl}
use stellar_kraal_contract.Aggregation.Aggregate.{
  same_set, by_id, collect_values, collect_weights, conclude, aggregate, AggregationResult,
}
use stellar_kraal_contract.Aggregation.Config.{PriceSource, AggregationConfig}
use stellar_kraal_contract.Aggregation.Crossing.{weighted_median-In}
use stellar_kraal_contract.Aggregation.Median.{weighted_median}
use stellar_kraal_contract.Aggregation.Order.{HasDistinctIds}
use stellar_kraal_contract.Aggregation.Outliers.{reject_outliers, ids}
use stellar_kraal_contract.Aggregation.Rejection.{Passes, Splits, reject_outliers-Splits}

module _ {F : Type 0} where
  HasDistinctIds-perm :
      {ss ts : List (PriceSource F)} → Permᴰ ss ts → HasDistinctIds ss → HasDistinctIds ts
  HasDistinctIds-perm Permᴰ.nil h = tt
  HasDistinctIds-perm (Permᴰ.cons {b = t} {l₂ = ts} e p) h = (
    subst (λ s. All (λ u. s.source_id ≢ u.source_id) ts) e (All-perm _ p h.0),
    HasDistinctIds-perm p h.1,
  )
  HasDistinctIds-perm (Permᴰ.swap {a = s} {b = t} {a' = t'} {l = l} e f) h =
      let swapped : t.source_id ≢ s.source_id = λ q. h.0.0 (sym q) in
      let first = subst (λ x. x.source_id ≢ s.source_id) f swapped in
      (
        (
          subst (λ y. t'.source_id ≢ y.source_id) e first,
          subst (λ x. All (λ u. x.source_id ≢ u.source_id) l) f h.1.0,
        ),
        (subst (λ x. All (λ u. x.source_id ≢ u.source_id) l) e h.0.1, h.1.1),
      )
  HasDistinctIds-perm (Permᴰ.trans p q) h = HasDistinctIds-perm q (HasDistinctIds-perm p h)

  pub All-select {κ} :
      (P : PriceSource F → Type κ) (keep : PriceSource F → Bool) (ss : List (PriceSource F))
      → All P ss
      → All P (select keep ss)
  All-select P keep [] h = tt
  All-select P keep (s ∷ ss) h = elim (Bool-cases (keep s)) [
    | inl e ↦ rw e (h.0, All-select P keep ss h.1)
    | inr e ↦ rw e (All-select P keep ss h.1)
  ]

  HasDistinctIds-select :
      (keep : PriceSource F → Bool) (ss : List (PriceSource F))
      → HasDistinctIds ss
      → HasDistinctIds (select keep ss)
  HasDistinctIds-select keep [] h = tt
  HasDistinctIds-select keep (s ∷ ss) h = elim (Bool-cases (keep s)) [
    | inl e ↦ rw e (All-select _ keep ss h.0, HasDistinctIds-select keep ss h.1)
    | inr e ↦ rw e (HasDistinctIds-select keep ss h.1)
  ]

  collect_values_other :
      (acc : Dict ℤ) (ss : List (PriceSource F)) (k : Str)
      → All (λ s. k ≢ s.source_id) ss
      → lookup k (collect_values acc ss) ≡ lookup k acc
  unfolding collect_values
  collect_values_other acc [] k h = refl
  collect_values_other acc (s ∷ ss) k h =
      collect_values_other (insert s.source_id s.value acc) ss k h.1
      ∙ ground (arith, lookup-insert s.source_id k s.value acc, str_eq_iff s.source_id k, h.0)

  -- With distinct ids the dict has the value of every source.
  collect_values-lookup :
      (acc : Dict ℤ) (ss : List (PriceSource F))
      → HasDistinctIds ss
      → All (λ s. lookup s.source_id (collect_values acc ss) ≡ some s.value) ss
  unfolding collect_values
  collect_values-lookup acc [] h = tt
  collect_values-lookup acc (s ∷ ss) h = (
    collect_values_other (insert s.source_id s.value acc) ss s.source_id h.0
        ∙ rw (lookup-insert s.source_id s.source_id s.value acc, str_eq_refl s.source_id),
    collect_values-lookup (insert s.source_id s.value acc) ss h.1,
  )

  pub collect_weights_total :
      (weights acc : Dict F) (ss : List (PriceSource F))
      → All (λ s. contains s.source_id weights ≡ true) ss
      → (w : Dict F) × (collect_weights weights acc ss ≡ ok w)
  unfolding collect_weights
  collect_weights_total weights acc [] h = (acc, refl)
  collect_weights_total weights acc (s ∷ ss) h =
      let (w, found) = contains-lookup s.source_id weights h.0 in
      let (r, e) = collect_weights_total weights (insert s.source_id w acc) ss h.1 in
      (r, rw (found, collect_weights) e)

  In-select :
      (keep : PriceSource F → Bool) (s : PriceSource F) (ss : List (PriceSource F))
      → In s (select keep ss)
      → In s ss
  In-select keep s [] m = m
  In-select keep s (t ∷ ts) m = elim (Bool-cases (keep t)) [
    | inl e ↦ elim (subst (λ b. In s (if b then t ∷ select keep ts else select keep ts)) e m) [
      | inl h ↦ inl h
      | inr h ↦ inr (In-select keep s ts h)
    ]
    | inr e ↦ inr (
        In-select keep s ts
          (subst (λ b. In s (if b then t ∷ select keep ts else select keep ts)) e m))
  ]

module _ {F : Type 0} ⦃d : Float F⦄ where
  -- What a result says: `kept` are the accepted sources and `winner` the source whose value was
  -- taken.
  pub record Explains (c : AggregationConfig F) (ss : List (PriceSource F))
      (r : AggregationResult F) : Type 0 where
    pub kept : List (PriceSource F)
    pub splits :
        Splits
          (Passes c.outlier_method c (sorted by_id ss))
          (sorted by_id ss)
          kept
          r.rejected_sources
    pub enough : c.min_sources_after_rejection ≤ℤ pos (length kept)
    pub winner : PriceSource F
    pub winner_kept : In winner kept
    pub winner_given : In winner ss
    pub winner_value : winner.value ≡ r.aggregate_value
    pub reported : All (λ s. lookup s.source_id r.source_values ≡ some s.value) kept

  conclude-inv :
      (c : AggregationConfig F) (kept : List (PriceSource F)) (rejected : List Str)
      {r : AggregationResult F}
      → conclude c kept rejected ≡ ok r
      → (ltb_ℤ (pos (length kept)) c.min_sources_after_rejection ≡ false)
        × (weighted_median kept ≡ ok r.aggregate_value)
        × (collect_values [] kept ≡ r.source_values)
        × (rejected ≡ r.rejected_sources)
  unfolding conclude
  conclude-inv c kept rejected e = ground arith

  kept_lem :
      (c : AggregationConfig F) (ss : List (PriceSource F)) (r : AggregationResult F)
      → aggregate c ss ≡ ok r
      → (same_set (ids ss) c.sources ≡ true)
        × (kept : List (PriceSource F)) × (rejected : List Str) × (reject_outliers c
              (sorted by_id ss)
            ≡ ok (kept, rejected))
        × (conclude c kept rejected ≡ ok r)
  unfolding aggregate
  kept_lem c ss r e =
      let (_, same, rest) =
        >>=-eq-ok (require (same_set (ids ss) c.sources) sources_mismatch) _ e in
      let (p, rejecting, concluding) = >>=-eq-ok (reject_outliers c (sorted by_id ss)) _ rest in
      (ground arith, p.0, p.1, rejecting, concluding)

  -- Every result explains itself: the ids given are those configured; the accepted sources are
  -- exactly those of the sorted list whose value lies between the fences of the quartiles (IQR), or
  -- is near enough to the median (MAD), or all of them (no method, or too few sources to test), and
  -- the rejected ids are the others'; at least the configured minimum is accepted; the aggregate is
  -- the value of an accepted source; and each accepted source is reported with its value.
  pub aggregate-Explains :
      (c : AggregationConfig F) (ss : List (PriceSource F)) (r : AggregationResult F)
      → HasDistinctIds ss
      → aggregate c ss ≡ ok r
      → (same_set (ids ss) c.sources ≡ true) × Explains c ss r
  aggregate-Explains c ss r h e =
      let (same, kept, rejected, rejecting, concluding) = kept_lem c ss r e in
      let (enough, median, values, names) = conclude-inv c kept rejected concluding in
      let Test : PriceSource F → Type 0 = Passes c.outlier_method c (sorted by_id ss) in
      let split : Splits Test (sorted by_id ss) kept rejected =
        reject_outliers-Splits c (sorted by_id ss) kept rejected rejecting in
      let (winner, inside, value) = weighted_median-In kept median in
      let distinct : HasDistinctIds (sorted by_id ss) =
        HasDistinctIds-perm (Permᴰ.symm (sorted-perm by_id ss)) h in
      let kept_distinct : HasDistinctIds kept =
        subst HasDistinctIds (sym split.kept_eq)
          (HasDistinctIds-select split.keep (sorted by_id ss) distinct) in
      (
        same,
        record {
          kept = kept;
          splits = subst (Splits Test (sorted by_id ss) kept) names split;
          enough = ground arith;
          winner = winner;
          winner_kept = inside;
          winner_given = In-perm winner (sorted-perm by_id ss) (
              In-select split.keep winner (sorted by_id ss)
                (subst (In winner) split.kept_eq inside));
          winner_value = value;
          reported =
              subst (λ t. All (λ s. lookup s.source_id t ≡ some s.value) kept) values
                (collect_values-lookup [] kept kept_distinct);
        },
      )
