-- ===== src/Aggregation/Median.antt =====
-- `PriceAggregator._weighted_median`.
use stellar_kraal_contract.Common.{Bool, List, [], ◌∷◌, arith, if◌then◌else◌}
use stellar_kraal_contract.Common.Float.{Float}
use stellar_kraal_contract.Common.Int.{ℤ, pos, leb_ℤ, ≤ℤ_total}
use stellar_kraal_contract.Common.Result.{Result, ok, err, no_sources}
use stellar_kraal_contract.Common.Sort.{sorted, IsTotal, IsTransitive}
use stellar_kraal_contract.Aggregation.Config.{PriceSource}

module _ {F : Type 0} where
  -- `key=lambda s: s.value`
  abbrev pub by_value : PriceSource F → PriceSource F → Bool
  by_value s t = leb_ℤ s.value t.value

  pub by_value-IsTotal : IsTotal by_value
  by_value-IsTotal s t = ground (arith, ≤ℤ_total s.value t.value)

  pub by_value-IsTransitive : IsTransitive by_value
  by_value-IsTransitive s t u p q = ground arith

module _ {F : Type 0} ⦃d : Float F⦄ where
  -- The weights added up from the left, as `sum` does before Python 3.12.
  abbrev pub weigh : F → List (PriceSource F) → F
  weigh acc [] = acc
  weigh acc (s ∷ ss) = weigh (d.add acc s.weight) ss

  -- The `for` loop: `acc` is `cumulative`, `half` is `total_weight / 2`, and `last` the fallback.
  unfoldable pub median_loop : F → ℤ → F → List (PriceSource F) → ℤ
  median_loop half last acc [] = last
  median_loop half last acc (s ∷ ss) =
      let rest = median_loop half last (d.add acc s.weight) ss in
      if d.le half (d.add acc s.weight) then s.value else rest

  -- `sorted_sources[-1].value`
  unfoldable pub last_value : ℤ → List (PriceSource F) → ℤ
  last_value v [] = v
  last_value v (s ∷ ss) = last_value s.value ss

  abbrev pub half_weight : List (PriceSource F) → F
  half_weight ss = d.div (weigh d.nought ss) (d.of_ℤ (pos 2))

  unfoldable pub median_sorted : List (PriceSource F) → Result ℤ
  unfolding median_loop last_value
  median_sorted [] = err no_sources
  median_sorted (s ∷ ss) =
      ok (median_loop (half_weight (s ∷ ss)) (last_value s.value ss) d.nought (s ∷ ss))

  unfoldable pub weighted_median : List (PriceSource F) → Result ℤ
  unfolding median_sorted
  weighted_median sources = median_sorted (sorted by_value sources)
