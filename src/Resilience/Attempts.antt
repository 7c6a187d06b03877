-- ===== src/Resilience/Attempts.antt =====
-- How many attempts `retry` makes, and how it ends.
use mathlib.Core.Path.{subst}
use stellar_kraal_contract.Common.{
  ℕ, zero, suc, ◌+◌, ◌<◌, ◌≤◌, ◌≡◌, refl, sym, ◌⊎◌, inl, inr, arith,
}
use stellar_kraal_contract.Common.Float.{Float}
use stellar_kraal_contract.Common.Int.{pos}
use stellar_kraal_contract.Common.Result.{Result, ok, err, Error, result_cases}
use stellar_kraal_contract.Resilience.Retry.{
  RetryConfig, Runtime, retry, retry_times, retry_from, after, pause_after, Raises, GoesOn,
  retry_from-ok, retry_from-step, retry_from-stop,
}

below_suc : (j n : ℕ) → j < suc n → (j < n) ⊎ (j ≡ n)
below_suc j n h = omega arith

module _ {F : Type 0} ⦃d : Float F⦄ {S : Type 0} (rt : Runtime F S) {A : Type 0}
    (fn : S → Result A × S) (c : RetryConfig F) (s : S) where
  -- The attempts before number `k` raise and their pauses do not; attempt `k` ends the loop with the
  -- outcome `o`: it returns, it raises as the last one, number `n`, or its pause raises.
  pub record IsLast (n k : ℕ) (o : Result A × S) : Type 0 where
    pub within : k ≤ n
    pub fails : (j : ℕ) → j < k → GoesOn rt fn c j s
    pub ends :
        ((a : A) × ((fn (after rt fn c k s)).0 ≡ ok a) × (o ≡ fn (after rt fn c k s)))
        ⊎ (((k ≡ n) × Raises rt fn c (after rt fn c k s) × (o ≡ fn (after rt fn c k s)))
            ⊎ ((k < n)
                × Raises rt fn c (after rt fn c k s)
                × (f : Error) × (o ≡ (err f, (pause_after rt fn c k (after rt fn c k s)).1))
                × ((pause_after rt fn c k (after rt fn c k s)).0 ≡ err f)))

  one_more :
      (k : ℕ)
      → ((j : ℕ) → j < k → GoesOn rt fn c j s)
      → GoesOn rt fn c k s
      → (j : ℕ) → j < suc k
      → GoesOn rt fn c j s
  one_more k fails at_k j h = elim (below_suc j k h) [
    | inl below ↦ fails j below
    | inr same ↦ rw same at_k
  ]

  abbrev Ending : ℕ → Result A × S → Type 0
  Ending n o = (last : ℕ) × IsLast n last o

  -- The loop in its round `k`, with `left` attempts after it.
  from_round :
      (left k n : ℕ)
      → k + left ≡ n
      → ((j : ℕ) → j < k → GoesOn rt fn c j s)
      → Ending n (retry_from rt fn c left k (after rt fn c k s))
  unfolding retry_from after
  from_round zero k n total fails = elim (result_cases (fn (after rt fn c k s)).0) [
    | inl raises ↦ (
      k,
      record {
        within = omega (arith, total);
        fails = fails;
        ends = inr (inl (omega (arith, total), raises, refl));
      },
    )
    | inr (a, returns) ↦
        (k, record { within = omega (arith, total); fails = fails; ends = inl (a, returns, refl) })
  ]
  from_round (suc left) k n total fails = elim (result_cases (fn here).0) [
    | inr (a, returns) ↦ (
      k,
      record {
        within = omega (arith, total);
        fails = fails;
        ends = inl (a, returns, retry_from-ok rt fn c (suc left) k here a returns);
      },
    )
    | inl (e, raises) ↦ elim (result_cases (pause_after rt fn c k here).0) [
      | inl (f, stops) ↦ (
        k,
        record {
          within = omega (arith, total);
          fails = fails;
          ends = inr (
              inr (
                omega (arith, total),
                (e, raises),
                f,
                retry_from-stop rt fn c left k here e f raises stops,
                stops,
              ));
        },
      )
      | inr (u, paused) ↦
          let next : k + 1 ≡ suc k = omega arith in
          rw (retry_from-step rt fn c left k here e raises paused, next)
            (from_round left (suc k) n (omega (arith, total))
              (one_more k fails ((e, raises), paused)))
    ]
  ]
    where
      here : S
      here = after rt fn c k s

  -- With `max_retries` at least 0, `retry` ends after at most `max_retries + 1` attempts, whatever
  -- the function does: all attempts but the last raise, each followed by its pause; and the last
  -- returns, or is attempt number `max_retries + 1`, and the answer is its answer; or it raises, and
  -- its pause raises what comes out.
  pub retry-IsLast : (n : ℕ) → c.max_retries ≡ pos n → (k : ℕ) × IsLast n k (retry rt fn c s)
  unfolding retry retry_times after
  retry-IsLast n limit =
      subst (λ m. Ending n (retry_times rt fn c m s)) (sym limit)
        (from_round n 0 n (omega arith) (λ j h. absurd (omega (arith, h))))
