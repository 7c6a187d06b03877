-- ===== src/Resilience/History.antt =====
-- The degraded mode against its history: the state is a function of the events so far.
use stellar_kraal_contract.Common.{
  ℕ, suc, ◌≡◌, refl, ◌↔◌, Bool, false, ◌&&◌, List, [], ◌∷◌, Option, none, some, arith, ltb,
}
use stellar_kraal_contract.Common.Float.{Float}
use stellar_kraal_contract.Common.Int.{ℤ, pos, leb_ℤ}
use stellar_kraal_contract.Common.Text.{Str}
use stellar_kraal_contract.Resilience.Degraded.{
  DegradedModeState, new_state, last_known_good_price, record_success, record_failure,
  exit_degraded,
}

pub data Event (F : Type 0) : Type 0 where
  success : ℤ → F → Event F
  failure : Event F
  operator_exit : Event F

-- At least one failure, and at least the threshold.
abbrev pub reached : ℤ → ℕ → Bool
reached threshold n = ltb 0 n && leb_ℤ threshold (pos n)

module _ {F : Type 0} ⦃d : Float F⦄ where
  unfoldable pub step : Event F → DegradedModeState F → DegradedModeState F
  step (success price now) s = record_success price now s
  step failure s = record_failure s
  step operator_exit s = exit_degraded s

  -- The state after a history, whose latest event stands first.
  unfoldable pub run : List (Event F) → DegradedModeState F → DegradedModeState F
  run [] s = s
  run (e ∷ es) s = step e (run es s)

  -- The failures since the last success or exit.
  abbrev pub trailing_failures : List (Event F) → ℕ
  trailing_failures [] = 0
  trailing_failures (failure ∷ es) = suc (trailing_failures es)
  trailing_failures (success p t ∷ es) = 0
  trailing_failures (operator_exit ∷ es) = 0

  -- The price and time of the last success.
  abbrev pub last_success : List (Event F) → Option (ℤ × F)
  last_success [] = none
  last_success (success p t ∷ es) = some (p, t)
  last_success (failure ∷ es) = last_success es
  last_success (operator_exit ∷ es) = last_success es

  abbrev pub price_of : Option (ℤ × F) → Option ℤ
  price_of none = none
  price_of (some (p, t)) = some p

  abbrev pub time_of : Option (ℤ × F) → F
  time_of none = d.nought
  time_of (some (p, t)) = t

  -- The abstract view of a state.
  pub record Agrees (threshold : ℤ) (window : F) (feed : Str) (es : List (Event F))
      (s : DegradedModeState F) : Type 0 where
    pub same_threshold : s.consecutive_failures_threshold ≡ threshold
    pub same_window : s.staleness_window_seconds ≡ window
    pub same_feed : s.feed_id ≡ feed
    pub failures : s.consecutive_failures ≡ trailing_failures es
    pub mode : s.degraded ≡ reached threshold (trailing_failures es)
    pub price : s.last_good_price ≡ price_of (last_success es)
    pub time : s.last_good_timestamp ≡ time_of (last_success es)

  module _ (threshold : ℤ) (window : F) (feed : Str) (es : List (Event F)) (s : DegradedModeState F)
      (a : Agrees threshold window feed es s) where
    failure-Agrees : Agrees threshold window feed (failure ∷ es) (record_failure s)
    unfolding record_failure
    failure-Agrees = ground arith

    success-Agrees :
        (p : ℤ) (t : F) → Agrees threshold window feed (success p t ∷ es) (record_success p t s)
    unfolding record_success
    success-Agrees p t = ground arith

    exit-Agrees : Agrees threshold window feed (operator_exit ∷ es) (exit_degraded s)
    unfolding exit_degraded
    exit-Agrees = ground arith

  -- After any history of successes, failures and manual exits, starting from a new state: the
  -- failure count is the number of failures since the last success or exit; the mode is degraded
  -- exactly when that number is positive and at least the threshold; and the stored price and time
  -- are those of the last success. The settings do not change.
  pub run-Agrees :
      (threshold : ℤ) (window : F) (feed : Str) (es : List (Event F))
      → Agrees threshold window feed es (run es (new_state threshold window feed))
  unfolding run step new_state
  run-Agrees threshold window feed [] = record {
    same_threshold = refl;
    same_window = refl;
    same_feed = refl;
    failures = refl;
    mode = ground arith;
    price = refl;
    time = refl;
  }
  run-Agrees threshold window feed (success p t ∷ es) =
      success-Agrees threshold window feed es _ (run-Agrees threshold window feed es) p t
  run-Agrees threshold window feed (failure ∷ es) =
      failure-Agrees threshold window feed es _ (run-Agrees threshold window feed es)
  run-Agrees threshold window feed (operator_exit ∷ es) =
      exit-Agrees threshold window feed es _ (run-Agrees threshold window feed es)

  -- After any history the price offered as last known good is the price of the last success, and
  -- it is offered exactly if that success is not older than the window.
  pub last_known_good_price_iff :
      (threshold : ℤ) (window now : F) (feed : Str) (es : List (Event F)) (p : ℤ)
      → (last_known_good_price now (run es (new_state threshold window feed)) ≡ some p)
        ↔ ((t : F) × (last_success es ≡ some (p, t)) × (d.lt window (d.sub now t) ≡ false))
  unfolding last_known_good_price
  last_known_good_price_iff threshold window now feed es p =
      let a = run-Agrees threshold window feed es in
      (λ h. from_price a (last_success es) refl h, λ (t, e, fresh). to_price a t e fresh)
    where
      from_price :
          Agrees threshold window feed es (run es (new_state threshold window feed))
          → (o : Option (ℤ × F)) → last_success es ≡ o
          → last_known_good_price now (run es (new_state threshold window feed)) ≡ some p
          → (t : F) × (last_success es ≡ some (p, t)) × (d.lt window (d.sub now t) ≡ false)
      from_price a none e h = absurd (ground (arith, a.price))
      from_price a (some (q, t)) e h = (
        t,
        ground (arith, a.price, a.time, a.same_window),
        ground (arith, a.price, a.time, a.same_window),
      )

      to_price :
          Agrees threshold window feed es (run es (new_state threshold window feed))
          → (t : F) → last_success es ≡ some (p, t)
          → d.lt window (d.sub now t) ≡ false
          → last_known_good_price now (run es (new_state threshold window feed)) ≡ some p
      to_price a t e fresh = ground (arith, a.price, a.time, a.same_window)
