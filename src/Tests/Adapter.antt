-- ===== src/Tests/Adapter.antt =====
-- One adapter with a feed that answers and a feed that is down.
use stellar_kraal_contract.Common.{ℕ, ◌+◌, ◌≡◌, ◌↔◌, refl, true, false, [], ◌∷◌, none, some}
use stellar_kraal_contract.Common.Int.{ℤ, pos}
use stellar_kraal_contract.Common.Result.{Result, ok, err, value_error}
use stellar_kraal_contract.Common.Sort.{sorted}
use stellar_kraal_contract.Common.Text.{codes, str_eq}
use stellar_kraal_contract.Resilience.Degraded.{last_known_good_price, new_state, record_failure}
use stellar_kraal_contract.Resilience.History.{last_success, trailing_failures, reached}
use stellar_kraal_contract.Resilience.Queue.{DlqEntry, enqueue, list_unreplayed}
use stellar_kraal_contract.Resilience.Retry.{retry, back_off, compute_backoff, doubled_delay}
use stellar_kraal_contract.Adapter.Calls.{after_calls, history, after_calls_degraded}
use stellar_kraal_contract.Adapter.Fetch.{
  Env, World, FeedAdapter, FeedAdapterConfig, FeedResult, new_adapter, fetch, replay_dlq_entry,
}
use stellar_kraal_contract.Adapter.Outcome.{Outcome, fetch-Outcome}
use stellar_kraal_contract.Adapter.Replay.{Replayed, replay_dlq_entry-Replayed}
use stellar_kraal_contract.Tests.Fixed.{Fixed, fixed_float}

-- The world is the clock in seconds.
abbrev pub env : Env Fixed ℕ
env = record {
  runtime = record { uniform = λ a b s. (a, s); sleep = λ t s. (ok tt, s + 1) };
  now = λ s. (pos (s + 1000), s + 1);
  now_text = λ s. (codes "12:00", s + 1);
  class_name = λ e. codes "ValueError";
  message = λ e. codes "down";
}

abbrev pub down : ℕ → Result (FeedResult Fixed) × ℕ
down s = (err value_error, s + 5)

abbrev pub up : ℕ → Result (FeedResult Fixed) × ℕ
up s = (
  ok (record {
    price = pos 250;
    feed_id = codes "BCT";
    timestamp_utc = pos 17;
    metadata = [];
    degraded = false;
  }),
  s + 5,
)

abbrev config : FeedAdapterConfig Fixed
config = record {
  feed_id = codes "BCT";
  retry = some (record {
    max_retries = pos 1;
    base_delay_seconds = pos 1000;
    max_delay_seconds = pos 60_000;
    jitter_factor = pos 0;
  });
  degraded_mode_threshold = pos 2;
  staleness_window_seconds = pos 60_000;
  dlq_db_path = some (codes "dlq.db");
}

abbrev adapter : FeedAdapter Fixed
adapter = new_adapter env (codes "ToucanAdapter") config

abbrev pub waiting : DlqEntry
waiting = record {
  id = 1;
  feed_id = codes "BCT";
  payload_json = codes "{}";
  error_message = codes "down";
  attempt_count = pos 2;
  created_at = codes "09:00";
  replayed = false;
  replayed_at = none;
}

abbrev pub world : World Fixed ℕ
world = record {
  outside = 3;
  tables = λ p. record { rows = waiting ∷ []; last_id = 1 };
  metrics = record {
    success_total = λ f a. 0;
    failure_total = λ f a r. 0;
    degraded_mode = λ f a. pos 0;
    retry_attempts_total = λ f a. 0;
    dlq_entries_total = λ f a. 0;
    fetch_duration_seconds = λ f a. pos 0;
  };
}

fetch-Outcome_example :
    let t = fetch env down adapter world in Outcome env down adapter world t.0 t.1 t.2
fetch-Outcome_example = fetch-Outcome env down adapter world

after_calls_degraded_example :
    let state = (after_calls env down 3 adapter world).0.degraded_state in
    let es = history env down 3 adapter world in
    (state.degraded ≡ reached (pos 2) (trailing_failures es))
    × ((now : Fixed) (p : ℤ)
        → (last_known_good_price now state ≡ some p) ↔ (
            (t : Fixed) × (last_success es ≡ some (p, t))
            × (fixed_float.lt (pos 60_000) (fixed_float.sub now t) ≡ false)))
after_calls_degraded_example = after_calls_degraded env down 3 (codes "ToucanAdapter") config world

has_queue : adapter.dlq ≡ some (codes "dlq.db")
unfolding new_adapter
has_queue = refl

replay_succeeds : (replay_dlq_entry env up 1 adapter world).0 ≡ true
unfolding replay_dlq_entry new_adapter list_unreplayed sorted fetch retry
replay_succeeds = refl

replay_dlq_entry-Replayed_example :
    Replayed env up 1
      (world.tables (codes "dlq.db"))
      ((replay_dlq_entry env up 1 adapter world).2.tables (codes "dlq.db"))
replay_dlq_entry-Replayed_example =
    replay_dlq_entry-Replayed env up (codes "dlq.db") 1 adapter world has_queue replay_succeeds

-- A failed replay adds a dead letter.
failed_replay :
    let q = (replay_dlq_entry env down 1 adapter world).2.tables (codes "dlq.db") in
    (q.last_id ≡ 2) × ((replay_dlq_entry env down 1 adapter world).0 ≡ false)
unfolding replay_dlq_entry new_adapter list_unreplayed sorted fetch retry record_failure new_state
    str_eq enqueue back_off compute_backoff doubled_delay
failed_replay = (refl, refl)
