-- ===== src/Adapter/Metrics.antt =====
-- oracle_bridge/metrics.py with `prometheus_client` at hand: a series is a function of its labels.
-- Counters start at 0 and gauges at 0.0.
use stellar_kraal_contract.Common.{ℕ, ◌+◌, Bool, ◌&&◌, if◌then◌else◌}
use stellar_kraal_contract.Common.Float.{Float}
use stellar_kraal_contract.Common.Int.{pos}
use stellar_kraal_contract.Common.Text.{Str, str_eq}

pub record Metrics (F : Type 0) : Type 0 where
  pub success_total : Str → Str → ℕ
  pub failure_total : Str → Str → Str → ℕ
  pub degraded_mode : Str → Str → F
  pub retry_attempts_total : Str → Str → ℕ
  pub dlq_entries_total : Str → Str → ℕ
  pub fetch_duration_seconds : Str → Str → F

-- `series.labels(feed_id=…, adapter=…)` given a new value.
abbrev pub at_labels : {V : Type 0} → Str → Str → V → (Str → Str → V) → Str → Str → V
at_labels feed adapter v series f a = if str_eq feed f && str_eq adapter a then v else series f a

module _ {F : Type 0} where
  unfoldable pub record_success : Str → Str → Metrics F → Metrics F
  record_success feed adapter m = record m {
    success_total = at_labels feed adapter (m.success_total feed adapter + 1) m.success_total;
  }

  unfoldable pub record_failure : Str → Str → Str → Metrics F → Metrics F
  record_failure feed adapter reason m = record m {
    failure_total = λ f a r.
        if str_eq reason r
        then at_labels feed adapter (m.failure_total feed adapter r + 1)
            (λ f' a'. m.failure_total f' a' r) f a
        else m.failure_total f a r;
  }

  unfoldable pub record_retry : Str → Str → Metrics F → Metrics F
  record_retry feed adapter m = record m {
    retry_attempts_total =
        at_labels feed adapter (m.retry_attempts_total feed adapter + 1) m.retry_attempts_total;
  }

  unfoldable pub record_dlq_entry : Str → Str → Metrics F → Metrics F
  record_dlq_entry feed adapter m = record m {
    dlq_entries_total =
        at_labels feed adapter (m.dlq_entries_total feed adapter + 1) m.dlq_entries_total;
  }

  unfoldable pub record_fetch_duration : Str → Str → F → Metrics F → Metrics F
  record_fetch_duration feed adapter duration m = record m {
    fetch_duration_seconds = at_labels feed adapter duration m.fetch_duration_seconds;
  }

module _ {F : Type 0} ⦃d : Float F⦄ where
  unfoldable pub set_degraded : Str → Str → Bool → Metrics F → Metrics F
  set_degraded feed adapter degraded m = record m {
    degraded_mode =
        at_labels feed adapter (if degraded then d.of_ℤ (pos 1) else d.nought) m.degraded_mode;
  }
