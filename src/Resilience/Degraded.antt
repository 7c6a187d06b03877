-- ===== src/Resilience/Degraded.antt =====
-- `DegradedModeState`. Times are floats; `now` is what `time.time()` returns.
use stellar_kraal_contract.Common.{ℕ, ◌+◌, Bool, true, false, Option, none, some, if◌then◌else◌}
use stellar_kraal_contract.Common.Float.{Float}
use stellar_kraal_contract.Common.Int.{ℤ, pos, leb_ℤ}
use stellar_kraal_contract.Common.Text.{Str}

pub record DegradedModeState (F : Type 0) : Type 0 where
  pub consecutive_failures_threshold : ℤ
  pub staleness_window_seconds : F
  pub feed_id : Str
  pub consecutive_failures : ℕ
  pub degraded : Bool
  pub last_good_price : Option ℤ
  pub last_good_timestamp : F

-- `state_info`: the snapshot, with the time of the last good price only if that is above 0. The
-- ISO text of the time is made by `datetime` and stands here as the time itself.
pub record StateInfo (F : Type 0) : Type 0 where
  pub feed_id : Str
  pub degraded : Bool
  pub consecutive_failures : ℕ
  pub last_known_good_price : Option ℤ
  pub last_good_timestamp : Option F
  pub staleness_window_seconds : F

module _ {F : Type 0} ⦃d : Float F⦄ where
  -- `DegradedModeState(…)` with the defaults of the private fields.
  unfoldable pub new_state : ℤ → F → Str → DegradedModeState F
  new_state threshold window feed = record {
    consecutive_failures_threshold = threshold;
    staleness_window_seconds = window;
    feed_id = feed;
    consecutive_failures = 0;
    degraded = false;
    last_good_price = none;
    last_good_timestamp = d.nought;
  }

  -- The property `last_known_good_price`.
  unfoldable pub last_known_good_price : F → DegradedModeState F → Option ℤ
  last_known_good_price now s = elim (s.last_good_price) [
    | none ↦ none
    | some p ↦
        if d.lt s.staleness_window_seconds (d.sub now s.last_good_timestamp) then none else some p
  ]

  unfoldable pub record_success : ℤ → F → DegradedModeState F → DegradedModeState F
  record_success price now s = record s {
    consecutive_failures = 0;
    degraded = false;
    last_good_price = some price;
    last_good_timestamp = now;
  }

  unfoldable pub record_failure : DegradedModeState F → DegradedModeState F
  record_failure s =
      let failures = s.consecutive_failures + 1 in
      if leb_ℤ s.consecutive_failures_threshold (pos failures)
      then record s { consecutive_failures = failures; degraded = true }
      else record s { consecutive_failures = failures }

  unfoldable pub exit_degraded : DegradedModeState F → DegradedModeState F
  exit_degraded s = record s { degraded = false; consecutive_failures = 0 }

  unfoldable pub state_info : DegradedModeState F → StateInfo F
  state_info s = record {
    feed_id = s.feed_id;
    degraded = s.degraded;
    consecutive_failures = s.consecutive_failures;
    last_known_good_price = s.last_good_price;
    last_good_timestamp =
        if d.lt d.nought s.last_good_timestamp then some s.last_good_timestamp else none;
    staleness_window_seconds = s.staleness_window_seconds;
  }
