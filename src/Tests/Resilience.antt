-- ===== src/Tests/Resilience.antt =====
-- Retries of a call that fails twice, a history of feeds, and a small queue.
use stellar_kraal_contract.Common.{
  ℕ, ◌+◌, ◌≡◌, ◌≢◌, ◌↔◌, refl, false, List, [], ◌∷◌, none, arith, ltb, length, In, All, ◌⊎◌,
  if◌then◌else◌,
}
use stellar_kraal_contract.Common.Float.{◌≼◌}
use stellar_kraal_contract.Common.Int.{ℤ, pos, ◌*ℤ◌, ◌+ℤ◌, ◌-ℤ◌}
use stellar_kraal_contract.Common.Result.{Result, ok, err, overflow_error, value_error}
use stellar_kraal_contract.Common.Sort.{IsSorted}
use stellar_kraal_contract.Common.Text.{Str, codes}
use stellar_kraal_contract.Resilience.Attempts.{IsLast, retry-IsLast}
use stellar_kraal_contract.Resilience.Backoff.{compute_backoff_bounds}
use stellar_kraal_contract.Resilience.Degraded.{new_state}
use stellar_kraal_contract.Resilience.History.{
  Event, success, failure, operator_exit, run, Agrees, run-Agrees,
}
use stellar_kraal_contract.Resilience.Queue.{
  DlqEntry, DeadLetterQueue, enqueue, list_unreplayed, count_unreplayed, by_time,
}
use stellar_kraal_contract.Resilience.Queue.Laws.{IsValid, enqueue-IsValid, list_unreplayed_lem}
use stellar_kraal_contract.Resilience.Retry.{
  RetryConfig, Runtime, at_most_max, doubled_delay, compute_backoff, retry,
}
use stellar_kraal_contract.Tests.Fixed.{Fixed, fixed_float, Fixed-IsOrdered}

-- The world is the number of calls so far; the draw is the lower end.
abbrev runtime : Runtime Fixed ℕ
runtime = record { uniform = λ a b s. (a, s); sleep = λ t s. (ok tt, s) }

abbrev flaky : ℕ → Result ℤ × ℕ
flaky s = (if ltb s 2 then err value_error else ok (pos 7), s + 1)

abbrev one_retry : RetryConfig Fixed
one_retry = record {
  max_retries = pos 1;
  base_delay_seconds = pos 1000;
  max_delay_seconds = pos 60_000;
  jitter_factor = pos 100;
}

compute_backoff_bounds_example :
    (pause : Fixed) × ((compute_backoff runtime 3 one_retry 0).0 ≡ ok pause)
    × (pos 0 ≼ pause)
    × (at_most_max one_retry (pos 8000) ≼ pos 60_000)
    × ((pause ≡ pos 0) ⊎ (pause ≼ pos 8800))
unfolding ◌*ℤ◌ at_most_max ◌-ℤ◌ ◌+ℤ◌
compute_backoff_bounds_example =
    compute_backoff_bounds Fixed-IsOrdered runtime 3 one_retry 0 (omega arith) refl refl refl refl
      refl

-- From attempt 1024 on, the delay is no float.
overflow_run : (compute_backoff runtime 1024 one_retry 0).0 ≡ err overflow_error
unfolding compute_backoff doubled_delay
overflow_run = refl

abbrev past : List (Event Fixed)
past = failure ∷ failure ∷ success (pos 250) (pos 5000) ∷ failure ∷ operator_exit ∷ []

run-Agrees_example :
    Agrees
      (pos 2)
      (pos 1000)
      (codes "BCT")
      past
      (run past (new_state (pos 2) (pos 1000) (codes "BCT")))
run-Agrees_example = run-Agrees (pos 2) (pos 1000) (codes "BCT") past

abbrev entry : ℕ → Str → DlqEntry
entry n stamp = record {
  id = n;
  feed_id = codes "BCT";
  payload_json = codes "{}";
  error_message = codes "down";
  attempt_count = pos 4;
  created_at = stamp;
  replayed = false;
  replayed_at = none;
}

abbrev queue : DeadLetterQueue
queue = record { rows = entry 1 (codes "09:00") ∷ entry 2 (codes "08:00") ∷ []; last_id = 2 }

queue-IsValid : IsValid queue
queue-IsValid = record {
  distinct = ((λ e. absurd (omega (arith, e)), tt), (tt, tt));
  below = (omega arith, (omega arith, tt));
}

enqueue-IsValid_example :
    IsValid (enqueue (codes "BCT") (codes "{}") (codes "down") (pos 4) (codes "10:00") queue).0
    × All
        (λ e.
          e.id
          ≢ (enqueue (codes "BCT") (codes "{}") (codes "down") (pos 4) (codes "10:00") queue).1)
        queue.rows
enqueue-IsValid_example =
    enqueue-IsValid (codes "BCT") (codes "{}") (codes "down") (codes "10:00") (pos 4) queue
      queue-IsValid

list_unreplayed_lem_example :
    ((e : DlqEntry) → In e (list_unreplayed queue) ↔ (In e queue.rows × (e.replayed ≡ false)))
    × (length (list_unreplayed queue) ≡ count_unreplayed queue)
    × IsSorted by_time (list_unreplayed queue)
list_unreplayed_lem_example = list_unreplayed_lem queue

retry-IsLast_example :
    (k : ℕ) × IsLast runtime flaky one_retry 0 1 k (retry runtime flaky one_retry 0)
retry-IsLast_example = retry-IsLast runtime flaky one_retry 0 1 refl
