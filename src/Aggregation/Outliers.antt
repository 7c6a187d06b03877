-- ===== src/Aggregation/Outliers.antt =====
-- `_percentile`, `_reject_outliers_iqr`, `_reject_outliers_mad` and `_reject_outliers`.
use stellar_kraal_contract.Common.{
  ◌+◌, ◌-◌, ◌^◌, ◌≡◌, ap, ◌∙◌, Bool, not, ◌&&◌, List, [], ◌∷◌, ◌++◌, map, leb, if◌then◌else◌,
  length, select, Bool-cases, inl, inr, append_assoc, append-nil,
}
use stellar_kraal_contract.Common.Float.{Float}
use stellar_kraal_contract.Common.Int as Int
use stellar_kraal_contract.Common.Int.{ℤ, pos, ◌+ℤ◌, ◌-ℤ◌, leb_ℤ, ltb_ℤ}
use stellar_kraal_contract.Common.Result.{Result, ok, err, ◌>>=◌, empty_values, overflow_error}
use stellar_kraal_contract.Common.Sort.{sorted}
use stellar_kraal_contract.Common.Text.{Str}
use stellar_kraal_contract.Aggregation.Config.{
  PriceSource, AggregationConfig, iqr, mad, none_method,
}
use stellar_kraal_contract.Aggregation.Number.{
  Num, int, float, index, num_le, distance, is_zero, scale, median,
}

module _ {F : Type 0} ⦃d : Float F⦄ where
  -- `float(n)`: an int that rounds to 2 ** 1024 or more, up to the sign, is too large.
  unfoldable pub to_float : ℤ → Result F
  to_float n =
      if ltb_ℤ (Int.abs n) (pos (2 ^ 1024 - 2 ^ 970)) then ok (d.of_ℤ n) else err overflow_error

  -- The interpolation of `_percentile` between the ranks around `rank`.
  unfoldable pub interpolate : List ℤ → F → Result F
  unfolding to_float
  interpolate vals rank =
      let lower_idx = d.trunc rank -ℤ pos 1 in
      let upper_idx = lower_idx +ℤ pos 1 in
      if leb_ℤ (pos (length vals)) upper_idx then (do v ← index vals lower_idx; to_float v) else (do
        let fraction = d.sub rank (d.of_ℤ (lower_idx +ℤ pos 1))
        lower_val ← index vals lower_idx
        upper_val ← index vals upper_idx
        low ← to_float lower_val
        step ← to_float (upper_val -ℤ lower_val)
        ok (d.add low (d.mul fraction step)))

  unfoldable pub percentile_sorted : List ℤ → ℤ → Result F
  unfolding interpolate
  percentile_sorted vals p =
      let n = length vals in
      let rank = d.mul (d.int_div p (pos 100)) (d.of_ℤ (pos (n + 1))) in
      let inner = interpolate vals rank in
      if d.lt rank (d.of_ℤ (pos 1))
      then (do v ← index vals (pos 0); to_float v)
      else if d.le (d.of_ℤ (pos n)) rank
      then (do v ← index vals (pos n -ℤ pos 1); to_float v)
      else inner

  -- `_percentile`; the code calls it with p = 25 and p = 75.
  unfoldable pub percentile : List ℤ → ℤ → Result F
  unfolding percentile_sorted
  percentile [] p = err empty_values
  percentile (v ∷ vs) p = percentile_sorted (sorted leb_ℤ (v ∷ vs)) p

  -- The loop over the sources with the lists `accepted` and `rejected`.
  unfoldable pub partition_loop :
      (PriceSource F → Bool)
      → List (PriceSource F)
      → List Str
      → List (PriceSource F)
      → List (PriceSource F) × List Str
  partition_loop keep accepted rejected [] = (accepted, rejected)
  partition_loop keep accepted rejected (s ∷ ss) =
      let accept = partition_loop keep (accepted ++ s ∷ []) rejected ss in
      let reject = partition_loop keep accepted (rejected ++ s.source_id ∷ []) ss in
      if keep s then accept else reject

  abbrev pub values_of : List (PriceSource F) → List ℤ
  values_of = map (λ s. s.value)

  -- `lower_bound <= source.value <= upper_bound`
  unfoldable pub inside : F → F → PriceSource F → Bool
  inside lower upper s = d.le_int lower s.value && d.int_le s.value upper

  unfoldable pub reject_outliers_iqr :
      AggregationConfig F → List (PriceSource F) → Result (List (PriceSource F) × List Str)
  unfolding partition_loop
  reject_outliers_iqr c sources = if leb (length sources) 2 then ok (sources, []) else (do
    q1 ← percentile (values_of sources) (pos 25)
    q3 ← percentile (values_of sources) (pos 75)
    let spread = d.sub q3 q1
    let lower_bound = d.sub q1 (d.mul c.iqr_multiplier spread)
    let upper_bound = d.add q3 (d.mul c.iqr_multiplier spread)
    ok (partition_loop (inside lower_bound upper_bound) [] [] sources))

  -- `abs(source.value - median) <= threshold`
  unfoldable pub near : Num F → F → PriceSource F → Bool
  near centre threshold s = num_le (distance s.value centre) (float threshold)

  unfoldable pub reject_outliers_mad :
      AggregationConfig F → List (PriceSource F) → Result (List (PriceSource F) × List Str)
  unfolding partition_loop
  reject_outliers_mad c sources = if leb (length sources) 1 then ok (sources, []) else (do
    centre ← median (map int (values_of sources))
    spread ← median (map (λ v. distance v centre) (values_of sources))
    if is_zero spread
        then ok (sources, [])
        else ok (partition_loop (near centre (scale c.mad_multiplier spread)) [] [] sources))

  -- `_reject_outliers`
  unfoldable pub reject_outliers :
      AggregationConfig F → List (PriceSource F) → Result (List (PriceSource F) × List Str)
  reject_outliers c sources = elim (c.outlier_method) [
    | iqr ↦ reject_outliers_iqr c sources
    | mad ↦ reject_outliers_mad c sources
    | none_method ↦ ok (sources, [])
  ]

  abbrev pub ids : List (PriceSource F) → List Str
  ids = map (λ s. s.source_id)

  -- The loop is a filter: what passes the test is accepted in order, the ids of the rest rejected.
  pub partition_loop-eq-select :
      (keep : PriceSource F → Bool) (acc : List (PriceSource F)) (rej : List Str)
      (ss : List (PriceSource F))
      → partition_loop keep acc rej ss
        ≡ (acc ++ select keep ss, rej ++ ids (select (λ s. not (keep s)) ss))
  unfolding partition_loop
  partition_loop-eq-select keep acc rej [] = rw (append-nil acc, append-nil rej)
  partition_loop-eq-select keep acc rej (s ∷ ss) = elim (Bool-cases (keep s)) [
    | inl yes_keep ↦ rw yes_keep (
        partition_loop-eq-select keep (acc ++ s ∷ []) rej ss
        ∙ ap (λ t. (t, rej ++ ids (select (λ s. not (keep s)) ss))) (append_assoc acc (s ∷ []) _))
    | inr no_keep ↦ rw no_keep (
        partition_loop-eq-select keep acc (rej ++ s.source_id ∷ []) ss
        ∙ ap (λ t. (acc ++ select keep ss, t)) (append_assoc rej (s.source_id ∷ []) _))
  ]
