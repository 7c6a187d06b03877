-- ===== src/Resilience/Retry.antt =====
-- `RetryConfig`, `compute_backoff` and `retry`. The world `S` is what the called function, the
-- clock and the random generator see and change; an attempt hands it on also when it raises.
use stellar_kraal_contract.Common.{ℕ, zero, suc, ◌+◌, ◌^◌, ◌≡◌, refl, if◌then◌else◌, leb}
use stellar_kraal_contract.Common.Float.{Float}
use stellar_kraal_contract.Common.Int.{ℤ, pos, negsuc}
use stellar_kraal_contract.Common.Result.{Result, ok, err, Error, type_error, overflow_error}

pub record RetryConfig (F : Type 0) : Type 0 where
  pub max_retries : ℤ
  pub base_delay_seconds : F
  pub max_delay_seconds : F
  pub jitter_factor : F

-- `random.uniform(a, b)` and `time.sleep(t)` on a world; `sleep` raises for a time it cannot wait.
pub record Runtime (F S : Type 0) : Type 0 where
  pub uniform : F → F → S → F × S
  pub sleep : F → S → Result (Unit {0}) × S

module _ {F : Type 0} ⦃d : Float F⦄ where
  -- `RetryConfig()`: 3 retries, 1.0 and 60.0 seconds, and 0.1, which is the double nearest to 1/10.
  abbrev pub default_config : RetryConfig F
  default_config = record {
    max_retries = pos 3;
    base_delay_seconds = d.of_ℤ (pos 1);
    max_delay_seconds = d.of_ℤ (pos 60);
    jitter_factor = d.int_div (pos 1) (pos 10);
  }

  -- `base * 2 ** attempt`: from 2 ** 1024 on, the int is too large for a float, which raises.
  unfoldable pub doubled_delay : ℕ → RetryConfig F → Result F
  doubled_delay attempt c =
      if leb 1024 attempt
      then err overflow_error
      else ok (d.mul c.base_delay_seconds (d.of_ℤ (pos (2 ^ attempt))))

  -- `min(delay, max_delay)`: Python keeps its first argument unless the second is less.
  unfoldable pub at_most_max : RetryConfig F → F → F
  at_most_max c delay = if d.lt c.max_delay_seconds delay then c.max_delay_seconds else delay

  -- `max(0.0, delay)`
  unfoldable pub at_least_nought : F → F
  at_least_nought x = if d.lt d.nought x then x else d.nought

  module _ {S : Type 0} (rt : Runtime F S) where
    -- The pause for the delay before the jitter.
    unfoldable pub with_jitter : RetryConfig F → F → S → F × S
    unfolding at_least_nought
    with_jitter c delay s =
        let jitter = d.mul delay c.jitter_factor in
        let (drawn, s') = rt.uniform (d.sub d.nought jitter) jitter s in
        (at_least_nought (d.add delay drawn), s')

    unfoldable pub compute_backoff : ℕ → RetryConfig F → S → Result F × S
    unfolding with_jitter at_most_max
    compute_backoff attempt c s = elim (doubled_delay attempt c) [
      | err e ↦ (err e, s)
      | ok delay ↦ let (pause, s') = with_jitter c (at_most_max c delay) s in (ok pause, s')
    ]

    unfoldable pub sleep_for : Result F × S → Result (Unit {0}) × S
    sleep_for (err e, s) = (err e, s)
    sleep_for (ok delay, s) = rt.sleep delay s

    -- What happens between two attempts; it may raise, too.
    unfoldable pub back_off : ℕ → RetryConfig F → S → Result (Unit {0}) × S
    unfolding sleep_for
    back_off attempt c s = sleep_for (compute_backoff attempt c s)

    module _ {A : Type 0} (fn : S → Result A × S) (c : RetryConfig F) where
      -- The loop from `attempt` on, with `left` attempts after it. All exceptions of `fn` are
      -- caught, as the default `exc_types` says, but not those of the pause; after the last attempt
      -- the last exception is raised.
      unfoldable pub retry_from : (left attempt : ℕ) → S → Result A × S
      retry_from zero attempt s = fn s
      retry_from (suc left) attempt s =
          let (r, s') = fn s in
          elim r [
            | ok a ↦ (ok a, s')
            | err e ↦
                let (paused, s'') = back_off attempt c s' in
                elim paused [ err f ↦ (err f, s'') | ok u ↦ retry_from left (attempt + 1) s'' ]
          ]

      -- With a negative `max_retries` the range is empty and `raise None` is a `TypeError`.
      unfoldable pub retry_times : ℤ → S → Result A × S
      unfolding retry_from
      retry_times (pos n) s = retry_from n 0 s
      retry_times (negsuc n) s = (err type_error, s)

      unfoldable pub retry : S → Result A × S
      unfolding retry_times
      retry s = retry_times c.max_retries s

      -- The pause after attempt `k`, and the world after `k` attempts, each with its pause.
      unfoldable pub pause_after : ℕ → S → Result (Unit {0}) × S
      pause_after k s = back_off k c (fn s).1

      unfoldable pub after : ℕ → S → S
      unfolding pause_after
      after zero s = s
      after (suc k) s = (pause_after k (after k s)).1

      abbrev pub Raises : S → Type 0
      Raises s = (e : Error) × ((fn s).0 ≡ err e)

      -- Attempt `k` raises, and its pause does not.
      abbrev pub GoesOn : ℕ → S → Type 0
      GoesOn k s = Raises (after k s) × ((pause_after k (after k s)).0 ≡ ok tt)

      pub retry_from-step :
          (left attempt : ℕ) (s : S) (e : Error)
          → (fn s).0 ≡ err e
          → (pause_after attempt s).0 ≡ ok tt
          → retry_from (suc left) attempt s
            ≡ retry_from left (attempt + 1) (pause_after attempt s).1
      unfolding retry_from pause_after
      retry_from-step left attempt s e h p = rw (h, retry_from, p) refl

      pub retry_from-ok :
          (left attempt : ℕ) (s : S) (a : A) → (fn s).0 ≡ ok a → retry_from left attempt s ≡ fn s
      unfolding retry_from
      retry_from-ok zero attempt s a h = refl
      retry_from-ok (suc left) attempt s a h = rw (h, retry_from) refl

      -- A pause that raises ends the loop.
      pub retry_from-stop :
          (left attempt : ℕ) (s : S) (e f : Error)
          → (fn s).0 ≡ err e
          → (pause_after attempt s).0 ≡ err f
          → retry_from (suc left) attempt s ≡ (err f, (pause_after attempt s).1)
      unfolding retry_from pause_after
      retry_from-stop left attempt s e f h p = rw (h, retry_from, p) refl
