-- ===== src/Aggregation/Crossing.antt =====
-- What `_weighted_median` finds.
use mathlib.Core.Path.{subst}
use stellar_kraal_contract.Common.{
  suc, ◌≡◌, refl, ap, ◌⊎◌, inl, inr, true, false, List, [], ◌∷◌, ◌++◌, arith, All, All-map, In,
  Bool-cases, length,
}
use stellar_kraal_contract.Common.Float.{Float, ◌≼◌, IsOrdered}
use mathlib.Core.List.Permᴰ
use stellar_kraal_contract.Common.Int.{ℤ, ◌≤ℤ◌}
use stellar_kraal_contract.Common.Result.{ok}
use stellar_kraal_contract.Common.Sort.{
  sorted, sorted-perm, sorted-IsSorted, IsSorted, length-sorted, All-perm, In-perm, IsSorted-around,
}
use stellar_kraal_contract.Aggregation.Config.{PriceSource}
use stellar_kraal_contract.Aggregation.Median.{
  by_value, by_value-IsTotal, by_value-IsTransitive, weigh, median_loop, last_value, half_weight,
  median_sorted, weighted_median,
}

module _ {F : Type 0} ⦃d : Float F⦄ where
  -- The sources before the chosen one weigh less than half, and with it they weigh at least half.
  pub record Crosses (sources : List (PriceSource F)) (v : ℤ) : Type 0 where
    pub before : List (PriceSource F)
    pub chosen : PriceSource F
    pub after : List (PriceSource F)
    pub in_order : sorted by_value sources ≡ before ++ chosen ∷ after
    pub is_value : chosen.value ≡ v
    pub at_least_half :
        half_weight (sorted by_value sources) ≼ weigh d.nought (before ++ chosen ∷ [])
    pub below_half :
        (before ≡ [])
        ⊎ (d.le (half_weight (sorted by_value sources)) (weigh d.nought before) ≡ false)
    pub lower : All (λ s. s.value ≤ℤ v) before
    pub upper : All (λ s. v ≤ℤ s.value) after

  record Split (half acc : F) (ss : List (PriceSource F)) (v : ℤ) : Type 0 where
    before : List (PriceSource F)
    chosen : PriceSource F
    after : List (PriceSource F)
    in_order : ss ≡ before ++ chosen ∷ after
    is_value : chosen.value ≡ v
    at_least_half : half ≼ weigh acc (before ++ chosen ∷ [])
    below_half : (before ≡ []) ⊎ (d.le half (weigh acc before) ≡ false)

  -- The loop stops at the first source that takes the sum to the half.
  median_loop-Split :
      (half : F) (last : ℤ) (acc : F) (s : PriceSource F) (ss : List (PriceSource F))
      → half ≼ weigh acc (s ∷ ss)
      → Split half acc (s ∷ ss) (median_loop half last acc (s ∷ ss))
  unfolding median_loop
  median_loop-Split half last acc s [] reach = record {
    before = [];
    chosen = s;
    after = [];
    in_order = refl;
    is_value = rw reach;
    at_least_half = reach;
    below_half = inl refl;
  }
  median_loop-Split half last acc s (t ∷ ss) reach =
      elim (Bool-cases (d.le half (d.add acc s.weight))) [
        | inl here ↦ record {
          before = [];
          chosen = s;
          after = t ∷ ss;
          in_order = refl;
          is_value = rw here;
          at_least_half = here;
          below_half = inl refl;
        }
        | inr later ↦
            let rest = median_loop-Split half last (d.add acc s.weight) t ss reach in
            record {
              before = s ∷ rest.before;
              chosen = rest.chosen;
              after = rest.after;
              in_order = ap (◌∷◌ s) rest.in_order;
              is_value = rw later rest.is_value;
              at_least_half = rest.at_least_half;
              below_half = inr (weighs_less later rest);
            }
      ]
    where
      weighs_less :
          d.le half (d.add acc s.weight) ≡ false
          → (r : Split half
              (d.add acc s.weight)
              (t ∷ ss)
              (median_loop half last (d.add acc s.weight) (t ∷ ss)))
          → d.le half (weigh acc (s ∷ r.before)) ≡ false
      weighs_less later r = elim (r.below_half) [ inl e ↦ rw e later | inr h ↦ h ]

  -- Weights that are numbers, and not negative.
  abbrev pub HasWeights : List (PriceSource F) → Type 0
  HasWeights = All (λ s. d.nought ≼ s.weight)

  sorted-nonempty :
      (s : PriceSource F) (ss : List (PriceSource F))
      → (t : PriceSource F) × (ts : List (PriceSource F)) × (sorted by_value (s ∷ ss) ≡ t ∷ ts)
  sorted-nonempty s ss = as_cons (sorted by_value (s ∷ ss)) (length-sorted by_value (s ∷ ss))
    where
      as_cons :
          (xs : List (PriceSource F))
          → length xs ≡ suc (length ss)
          → (t : PriceSource F) × (ts : List (PriceSource F)) × (xs ≡ t ∷ ts)
      as_cons [] e = absurd (omega arith)
      as_cons (t ∷ ts) e = (t, ts, refl)

  module _ (laws : IsOrdered F) where
    nought_le-weigh :
        (acc : F) (ss : List (PriceSource F))
        → d.nought ≼ acc
        → HasWeights ss
        → d.nought ≼ weigh acc ss
    nought_le-weigh acc [] p h = p
    nought_le-weigh acc (s ∷ ss) p h =
        nought_le-weigh (d.add acc s.weight) ss (laws.nought_le-add acc s.weight p h.0) h.1

    half_le-weigh : (ss : List (PriceSource F)) → HasWeights ss → half_weight ss ≼ weigh d.nought ss
    half_le-weigh ss h =
        laws.half_le (weigh d.nought ss) (nought_le-weigh d.nought ss laws.nought_refl h)

    sorted-HasWeights :
        (ss : List (PriceSource F)) → HasWeights ss → HasWeights (sorted by_value ss)
    sorted-HasWeights ss h = All-perm _ (Permᴰ.symm (sorted-perm by_value ss)) h

    median_sorted-Split :
        (ss : List (PriceSource F)) (t : PriceSource F) (ts : List (PriceSource F))
        → ss ≡ t ∷ ts
        → HasWeights ss
        → (v : ℤ) × (median_sorted ss ≡ ok v) × Split (half_weight ss) d.nought ss v
    unfolding median_sorted
    median_sorted-Split [] t ts e h = absurd (cc e)
    median_sorted-Split (s ∷ ss) t ts e h =
        let half = half_weight (s ∷ ss) in
        let last = last_value s.value ss in
        (
          median_loop half last d.nought (s ∷ ss),
          refl,
          median_loop-Split half last d.nought s ss (half_le-weigh (s ∷ ss) h),
        )

    -- Of sources with weights that are numbers at least 0, of which there is at least one,
    -- `_weighted_median` returns the value of a source. In ascending order of the values, the
    -- sources before it weigh less than half of the total (or are none), and with it at least half.
    -- No value before it is greater, and none after it is less.
    pub weighted_median-Crosses :
        (s : PriceSource F) (ss : List (PriceSource F))
        → HasWeights (s ∷ ss)
        → (v : ℤ) × (weighted_median (s ∷ ss) ≡ ok v) × Crosses (s ∷ ss) v
    unfolding weighted_median
    weighted_median-Crosses s ss h =
        let all_sources : List (PriceSource F) = s ∷ ss in
        let (t, ts, e) = sorted-nonempty s ss in
        let (v, found, split) =
          median_sorted-Split (sorted by_value all_sources) t ts e
            (sorted-HasWeights all_sources h) in
        let ascending =
          subst (IsSorted by_value) split.in_order
            (sorted-IsSorted by_value by_value-IsTotal by_value-IsTransitive all_sources) in
        let (below, above) =
          IsSorted-around by_value split.before split.chosen split.after ascending in
        (
          v,
          found,
          record {
            before = split.before;
            chosen = split.chosen;
            after = split.after;
            in_order = split.in_order;
            is_value = split.is_value;
            at_least_half = split.at_least_half;
            below_half = split.below_half;
            lower = All-map split.before (λ x p. at_most x split.chosen v split.is_value p) below;
            upper = All-map split.after (λ x p. at_least x split.chosen v split.is_value p) above;
          },
        )
      where
        at_most : (x c : PriceSource F) (v : ℤ) → c.value ≡ v → by_value x c ≡ true → x.value ≤ℤ v
        at_most x c v e p = rw (← e) (ground arith)

        at_least : (x c : PriceSource F) (v : ℤ) → c.value ≡ v → by_value c x ≡ true → v ≤ℤ x.value
        at_least x c v e p = rw (← e) (ground arith)

module _ {F : Type 0} ⦃d : Float F⦄ where
  median_loop-In :
      (half : F) (last : ℤ) (acc : F) (ss : List (PriceSource F))
      → (median_loop half last acc ss ≡ last)
        ⊎ ((s : PriceSource F) × In s ss × (s.value ≡ median_loop half last acc ss))
  unfolding median_loop
  median_loop-In half last acc [] = inl refl
  median_loop-In half last acc (s ∷ ss) = elim (Bool-cases (d.le half (d.add acc s.weight))) [
    | inl here ↦ inr (s, inl refl, rw here)
    | inr later ↦ rw later (elim (median_loop-In half last (d.add acc s.weight) ss) [
      | inl e ↦ inl e
      | inr (t, m, e) ↦ inr (t, inr m, e)
    ])
  ]

  last_value-In :
      (s : PriceSource F) (ss : List (PriceSource F))
      → (t : PriceSource F) × In t (s ∷ ss) × (t.value ≡ last_value s.value ss)
  unfolding last_value
  last_value-In s [] = (s, inl refl, refl)
  last_value-In s (t ∷ ss) = let (u, m, e) = last_value-In t ss in (u, inr m, e)

  median_sorted-In :
      (ss : List (PriceSource F)) {v : ℤ}
      → median_sorted ss ≡ ok v
      → (t : PriceSource F) × In t ss × (t.value ≡ v)
  unfolding median_sorted
  median_sorted-In [] e = absurd (cc e)
  median_sorted-In (s ∷ ss) e =
      elim (median_loop-In (half_weight (s ∷ ss)) (last_value s.value ss) d.nought (s ∷ ss)) [
        | inl p ↦ let (t, m, q) = last_value-In s ss in (t, m, cc)
        | inr (t, m, q) ↦ (t, m, cc)
      ]

  -- Whatever the weights are, a value that is returned is the value of one of the sources.
  pub weighted_median-In :
      (ss : List (PriceSource F)) {v : ℤ}
      → weighted_median ss ≡ ok v
      → (t : PriceSource F) × In t ss × (t.value ≡ v)
  unfolding weighted_median
  weighted_median-In ss e =
      let (t, m, q) = median_sorted-In (sorted by_value ss) e in
      (t, In-perm t (sorted-perm by_value ss) m, q)

  median_sorted_nonempty :
      (xs : List (PriceSource F)) (t : PriceSource F) (ts : List (PriceSource F))
      → xs ≡ t ∷ ts
      → (v : ℤ) × (median_sorted xs ≡ ok v)
  unfolding median_sorted
  median_sorted_nonempty [] t ts e = absurd (cc e)
  median_sorted_nonempty (s ∷ ss) t ts e =
      (median_loop (half_weight (s ∷ ss)) (last_value s.value ss) d.nought (s ∷ ss), refl)

  -- With at least one source there is a result, whatever the weights are.
  pub weighted_median_nonempty :
      (s : PriceSource F) (ss : List (PriceSource F)) → (v : ℤ) × (weighted_median (s ∷ ss) ≡ ok v)
  unfolding weighted_median
  weighted_median_nonempty s ss =
      let (t, ts, e) = sorted-nonempty s ss in
      median_sorted_nonempty (sorted by_value (s ∷ ss)) t ts e
