-- ===== src/Adapter/Fetch.antt =====
-- `FeedAdapter`: `__init__`, `fetch` and `replay_dlq_entry`. The abstract method `_fetch_price`, the
-- clock, the random generator and `sleep` are the environment; the SQLite files are tables by path,
-- shared by all who open the path.
use stellar_kraal_contract.Common.{
  ℕ, List, select, ◌==◌, Bool, true, false, [], ◌∷◌, ◌++◌, Option, none, some, if◌then◌else◌,
}
use stellar_kraal_contract.Common.Dict.{Dict}
use stellar_kraal_contract.Common.Float.{Float}
use stellar_kraal_contract.Common.Int.{ℤ, pos, ◌+ℤ◌}
use stellar_kraal_contract.Common.Result.{Result, ok, err, Error}
use stellar_kraal_contract.Common.Text.{Str, str_eq, codes}
use stellar_kraal_contract.Resilience.Degraded.{DegradedModeState, new_state, last_known_good_price}
use stellar_kraal_contract.Resilience.Degraded as Degraded
use stellar_kraal_contract.Resilience.Queue.{
  DlqEntry, DeadLetterQueue, enqueue, list_unreplayed, mark_replayed,
}
use stellar_kraal_contract.Resilience.Retry.{RetryConfig, Runtime, default_config, retry}
use stellar_kraal_contract.Adapter.Metrics as Metrics
use stellar_kraal_contract.Adapter.Metrics.{Metrics}

-- A value of `metadata`.
pub data Meta (F : Type 0) : Type 0 where
  flag : Bool → Meta F
  text : Str → Meta F
  whole : ℤ → Meta F
  real : F → Meta F

pub record FeedResult (F : Type 0) : Type 0 where
  pub price : ℤ
  pub feed_id : Str
  pub timestamp_utc : ℤ
  pub metadata : Dict (Meta F)
  pub degraded : Bool

pub record FeedAdapterConfig (F : Type 0) : Type 0 where
  pub feed_id : Str
  pub retry : Option (RetryConfig F)
  pub degraded_mode_threshold : ℤ
  pub staleness_window_seconds : F
  pub dlq_db_path : Option Str

-- `dlq` is the path of the open database.
pub record FeedAdapter (F : Type 0) : Type 0 where
  pub config : FeedAdapterConfig F
  pub adapter_name : Str
  pub retry_config : RetryConfig F
  pub degraded_state : DegradedModeState F
  pub dlq : Option Str

-- What the program does not implement. `class_name` is `type(exc).__name__`, and `message` is
-- `str(exc)`.
pub record Env (F S : Type 0) : Type 0 where
  pub runtime : Runtime F S
  pub now : S → F × S
  pub now_text : S → Str × S
  pub class_name : Error → Str
  pub message : Error → Str

pub record World (F S : Type 0) : Type 0 where
  pub outside : S
  pub tables : Str → DeadLetterQueue
  pub metrics : Metrics F

abbrev pub set_table : {V : Type 0} → Str → V → (Str → V) → Str → V
set_table path v tables p = if str_eq path p then v else tables p

-- `[e for e in entries if e.id == n]`
abbrev pub with_id : ℕ → List DlqEntry → List DlqEntry
with_id n = select (λ e. e.id == n)

-- `if config.dlq_db_path`: the empty path is no path.
abbrev pub opened : Option Str → Option Str
opened none = none
opened (some []) = none
opened (some (c ∷ p)) = some (c ∷ p)

module _ {F S : Type 0} ⦃d : Float F⦄ (env : Env F S) where
  abbrev retry_or_default : Option (RetryConfig F) → RetryConfig F
  retry_or_default none = default_config
  retry_or_default (some c) = c

  -- `FeedAdapter.__init__`
  unfoldable pub new_adapter : Str → FeedAdapterConfig F → FeedAdapter F
  new_adapter name c = record {
    config = c;
    adapter_name = name;
    retry_config = retry_or_default c.retry;
    degraded_state = new_state c.degraded_mode_threshold c.staleness_window_seconds c.feed_id;
    dlq = opened c.dlq_db_path;
  }

  -- The f-string of `fetch`; the texts are put in as they are.
  unfoldable pub dlq_payload : Str → Str → Str
  dlq_payload feed message =
      codes "{\"feed_id\": \"" ++ (feed ++ (codes "\", \"error\": \"" ++ (message ++ codes "\"}")))

  module _ (a : FeedAdapter F) (w : World F S) where
    -- The branch of `fetch` after `retry` has returned.
    unfoldable pub fetch_ok :
        F → FeedResult F → S → Result (FeedResult F) × FeedAdapter F × World F S
    fetch_ok start result s =
        let feed = a.config.feed_id in
        let (t, s1) = env.now s in
        let (end_time, s2) = env.now s1 in
        let m1 = Metrics.record_success feed a.adapter_name w.metrics in
        let m2 = Metrics.set_degraded feed a.adapter_name false m1 in
        let m3 = Metrics.record_fetch_duration feed a.adapter_name (d.sub end_time start) m2 in
        (
          ok result,
          record a { degraded_state = Degraded.record_success result.price t a.degraded_state },
          record w { outside = s2; metrics = m3 },
        )

    -- `self.degraded_state.last_known_good_price`; the clock is read only if there is a price.
    unfoldable pub read_price : Option ℤ → DegradedModeState F → S → Option ℤ × S
    read_price none state s = (none, s)
    read_price (some p) state s = let (t, s') = env.now s in (last_known_good_price t state, s')

    -- The dead letter, if there is a queue, and the exception once more.
    unfoldable pub give_up :
        Option Str
        → Error
        → DegradedModeState F
        → Metrics F
        → S
        → Result (FeedResult F) × FeedAdapter F × World F S
    give_up none e state m s =
        (err e, record a { degraded_state = state }, record w { outside = s; metrics = m })
    give_up (some path) e state m s =
        let feed = a.config.feed_id in
        let (stamp, s') = env.now_text s in
        let (table, _) =
          enqueue feed (dlq_payload feed (env.message e)) (env.message e)
            (a.retry_config.max_retries +ℤ pos 1) stamp (w.tables path) in
        (
          err e,
          record a { degraded_state = state },
          record w {
            outside = s';
            tables = set_table path table w.tables;
            metrics = Metrics.record_dlq_entry feed a.adapter_name m;
          },
        )

    -- The answer in degraded mode.
    unfoldable pub serve_fallback :
        Error
        → ℤ
        → DegradedModeState F
        → Metrics F
        → S
        → Result (FeedResult F) × FeedAdapter F × World F S
    serve_fallback e price state m s =
        let (t, s') = env.now s in
        (
          ok (record {
            price = price;
            feed_id = a.config.feed_id;
            timestamp_utc = d.trunc t;
            metadata =
                (codes "degraded_fallback", flag true)
                ∷ (codes "original_error", text (env.message e))
                ∷ [];
            degraded = true;
          }),
          record a { degraded_state = state },
          record w { outside = s'; metrics = m },
        )

    -- `if degraded`, with the price that is offered.
    unfoldable pub offer :
        Option ℤ
        → Error
        → DegradedModeState F
        → Metrics F
        → S
        → Result (FeedResult F) × FeedAdapter F × World F S
    offer none e state m s = give_up a.dlq e state m s
    offer (some price) e state m s = serve_fallback e price state m s

    -- The end of the `except` branch, in degraded mode and otherwise.
    unfoldable pub respond :
        Bool
        → Error
        → DegradedModeState F
        → Metrics F
        → S
        → Result (FeedResult F) × FeedAdapter F × World F S
    respond true e state m s =
        let (fallback, s') = read_price state.last_good_price state s in offer fallback e state m s'
    respond false e state m s = give_up a.dlq e state m s

    -- The `except` branch of `fetch`.
    unfoldable pub fetch_failed : F → Error → S → Result (FeedResult F) × FeedAdapter F × World F S
    unfolding read_price give_up serve_fallback offer respond
    fetch_failed start e s =
        let feed = a.config.feed_id in
        let state = Degraded.record_failure a.degraded_state in
        let m1 = Metrics.record_failure feed a.adapter_name (env.class_name e) w.metrics in
        let m2 = Metrics.set_degraded feed a.adapter_name state.degraded m1 in
        let (end_time, s1) = env.now s in
        let m3 = Metrics.record_fetch_duration feed a.adapter_name (d.sub end_time start) m2 in
        respond state.degraded e state m3 s1

    -- `try` and `except`.
    unfoldable pub conclude :
        F → Result (FeedResult F) × S → Result (FeedResult F) × FeedAdapter F × World F S
    conclude start (ok result, s) = fetch_ok start result s
    conclude start (err e, s) = fetch_failed start e s

  -- `fetch`
  unfoldable pub fetch :
      (S → Result (FeedResult F) × S)
      → FeedAdapter F
      → World F S
      → Result (FeedResult F) × FeedAdapter F × World F S
  unfolding fetch_ok fetch_failed conclude
  fetch fetch_price a w =
      let (start, s) = env.now w.outside in
      conclude a w start (retry env.runtime fetch_price a.retry_config s)

  -- The end of `replay_dlq_entry`: `try` and `except` around the fetch.
  unfoldable pub after_fetch :
      Str → ℕ → Result (FeedResult F) × FeedAdapter F × World F S → Bool × FeedAdapter F × World F S
  after_fetch path entry_id (err e, a, w) = (false, a, w)
  after_fetch path entry_id (ok result, a, w) =
      let (stamp, s) = env.now_text w.outside in
      let table = mark_replayed entry_id stamp (w.tables path) in
      (true, a, record w { outside = s; tables = set_table path table w.tables })

  unfoldable pub replay_target :
      (S → Result (FeedResult F) × S)
      → Str
      → ℕ
      → List DlqEntry
      → FeedAdapter F
      → World F S
      → Bool × FeedAdapter F × World F S
  replay_target fetch_price path entry_id [] a w = (false, a, w)
  replay_target fetch_price path entry_id (entry ∷ more) a w =
      after_fetch path entry_id (fetch fetch_price a w)

  unfoldable pub replay_in :
      (S → Result (FeedResult F) × S)
      → Option Str
      → ℕ
      → FeedAdapter F
      → World F S
      → Bool × FeedAdapter F × World F S
  replay_in fetch_price none entry_id a w = (false, a, w)
  replay_in fetch_price (some path) entry_id a w =
      replay_target fetch_price path entry_id (with_id entry_id (list_unreplayed (w.tables path))) a
        w

  -- `replay_dlq_entry`: whether the replay succeeded. Any answer of `fetch` counts as success.
  unfoldable pub replay_dlq_entry :
      (S → Result (FeedResult F) × S)
      → ℕ
      → FeedAdapter F
      → World F S
      → Bool × FeedAdapter F × World F S
  unfolding after_fetch replay_target replay_in
  replay_dlq_entry fetch_price entry_id a w = replay_in fetch_price a.dlq entry_id a w
