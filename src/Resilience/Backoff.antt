-- ===== src/Resilience/Backoff.antt =====
-- Bounds of `compute_backoff`.
use stellar_kraal_contract.Common.{
  ℕ, ◌^◌, ◌<◌, ◌≡◌, refl, ◌⊎◌, inl, inr, false, arith, leb, Bool-cases,
}
use stellar_kraal_contract.Common.Float.{Float, ◌≼◌, IsNumber, IsOrdered}
use stellar_kraal_contract.Common.Int.{pos}
use stellar_kraal_contract.Common.Result.{ok}
use stellar_kraal_contract.Resilience.Retry.{
  RetryConfig, Runtime, doubled_delay, at_most_max, at_least_nought, with_jitter, compute_backoff,
}

module _ {F : Type 0} ⦃d : Float F⦄ (laws : IsOrdered F) where
  at_least_nought_bounds :
      (x : F)
      → (d.nought ≼ at_least_nought x) × ((at_least_nought x ≡ d.nought) ⊎ (at_least_nought x ≡ x))
  unfolding at_least_nought
  at_least_nought_bounds x = elim (Bool-cases (d.lt d.nought x)) [
    | inl above ↦ rw above (laws.le_of_lt d.nought x above, inr refl)
    | inr below ↦ rw below (laws.nought_refl, inl refl)
  ]

  -- The delay before the jitter is at most the configured maximum.
  at_most_max-le :
      (c : RetryConfig F) (delay : F)
      → IsNumber delay
      → IsNumber c.max_delay_seconds
      → at_most_max c delay ≼ c.max_delay_seconds
  unfolding at_most_max
  at_most_max-le c delay number top = elim (Bool-cases (d.lt c.max_delay_seconds delay)) [
    | inl above ↦ rw above top
    | inr below ↦ rw below (laws.le_of_not_lt delay c.max_delay_seconds number top below)
  ]

  -- Before attempt 1024, with numbers for the delays and sums, and a draw at or below the upper end
  -- of its range, `compute_backoff` returns a pause that is at least 0; the delay before the jitter,
  -- which is the doubled base or the maximum, is at most the maximum, and the pause is 0 or at most
  -- this delay and its jitter.
  pub compute_backoff_bounds :
      {S : Type 0} (rt : Runtime F S) (attempt : ℕ) (c : RetryConfig F) (s : S)
      → attempt < 1024
      → let doubled = d.mul c.base_delay_seconds (d.of_ℤ (pos (2 ^ attempt))) in
        let capped = at_most_max c doubled in
        let jitter = d.mul capped c.jitter_factor in
        let drawn = (rt.uniform (d.sub d.nought jitter) jitter s).0 in
        IsNumber doubled
        → IsNumber c.max_delay_seconds
        → drawn ≼ jitter
        → IsNumber (d.add capped drawn)
        → IsNumber (d.add capped jitter)
        → (pause : F) × ((compute_backoff rt attempt c s).0 ≡ ok pause)
          × (d.nought ≼ pause)
          × (capped ≼ c.max_delay_seconds)
          × ((pause ≡ d.nought) ⊎ (pause ≼ d.add capped jitter))
  unfolding compute_backoff doubled_delay with_jitter
  compute_backoff_bounds rt attempt c s early number top draws sum_number top_number =
      let capped = at_most_max c (d.mul c.base_delay_seconds (d.of_ℤ (pos (2 ^ attempt)))) in
      let jitter = d.mul capped c.jitter_factor in
      let drawn = (rt.uniform (d.sub d.nought jitter) jitter s).0 in
      let (low, which) = at_least_nought_bounds (d.add capped drawn) in
      let fits : leb 1024 attempt ≡ false = ground arith in
      (
        at_least_nought (d.add capped drawn),
        rw (compute_backoff, fits) refl,
        low,
        at_most_max-le c (d.mul c.base_delay_seconds (d.of_ℤ (pos (2 ^ attempt)))) number top,
        elim which [
          | inl e ↦ inl e
          | inr e ↦ inr (rw e (laws.add-le-add capped drawn jitter sum_number top_number draws))
        ],
      )
