-- ===== src/Adapter/Outcome.antt =====
-- What one call of `fetch` does, on every branch, and that a sequence of calls is a history of the
-- degraded mode.
use stellar_kraal_contract.Common.{
  ◌+◌, ◌≡◌, ◌≢◌, refl, sym, ◌⊎◌, inl, inr, Bool, true, false, [], ◌∷◌, ◌++◌, Option, none, some,
  arith, Bool-cases,
}
use stellar_kraal_contract.Common.Float.{Float}
use stellar_kraal_contract.Common.Int.{ℤ, pos, ◌+ℤ◌}
use stellar_kraal_contract.Common.Result.{Result, ok, err, Error}
use stellar_kraal_contract.Common.Text.{Str, codes, str_eq, str_eq_refl, str_eq_iff}
use stellar_kraal_contract.Resilience.Degraded.{DegradedModeState, last_known_good_price}
use stellar_kraal_contract.Resilience.Degraded as Degraded
use stellar_kraal_contract.Resilience.History.{success, failure, step}
use stellar_kraal_contract.Resilience.Queue.{DlqEntry, DeadLetterQueue, new_entry, enqueue}
use stellar_kraal_contract.Resilience.Retry.{retry}
use stellar_kraal_contract.Adapter.Fetch.{
  read_price, offer, respond, conclude, Env, World, FeedAdapter, FeedResult, Meta, dlq_payload,
  fetch_ok, give_up, serve_fallback, fetch_failed, fetch,
}
use stellar_kraal_contract.Adapter.Metrics.{Metrics}

last_known_good_price_none :
    {F : Type 0} ⦃d : Float F⦄ (t : F) (s : DegradedModeState F)
    → s.last_good_price ≡ none
    → last_known_good_price t s ≡ none
unfolding last_known_good_price
last_known_good_price_none t s h = ground arith

module _ {F S : Type 0} ⦃d : Float F⦄ (env : Env F S)
    (fetch_price : S → Result (FeedResult F) × S) where
  -- What `retry` makes of the feed in this call.
  abbrev pub attempt : FeedAdapter F → World F S → Result (FeedResult F) × S
  attempt a w = retry env.runtime fetch_price a.retry_config (env.now w.outside).1

  -- One new row at the end of the table of the adapter, and no other change of a table.
  pub record Queued (a : FeedAdapter F) (e : Error) (path : Str)
      (before after : Str → DeadLetterQueue) : Type 0 where
    pub entry : DlqEntry
    pub appended : (after path).rows ≡ (before path).rows ++ entry ∷ []
    pub new_id : entry.id ≡ (before path).last_id + 1
    pub counter : (after path).last_id ≡ (before path).last_id + 1
    pub feed : entry.feed_id ≡ a.config.feed_id
    pub message : entry.error_message ≡ env.message e
    pub payload : entry.payload_json ≡ dlq_payload env a.config.feed_id (env.message e)
    pub attempts : entry.attempt_count ≡ a.retry_config.max_retries +ℤ pos 1
    pub waiting : entry.replayed ≡ false
    pub others : (p : Str) → p ≢ path → after p ≡ before p

  -- After a failure the clock is read for the duration, in degraded mode for the age of the price,
  -- and for the time of the answer.
  abbrev pub asked : FeedAdapter F → World F S → F × S
  asked a w = env.now (env.now (attempt a w).1).1

  -- The mode is normal, or the last good price is missing or stale at the time of the question.
  abbrev pub NothingToOffer : FeedAdapter F → World F S → DegradedModeState F → Type 0
  NothingToOffer a w s = (s.degraded ≡ false) ⊎ (last_known_good_price (asked a w).0 s ≡ none)

  -- The answer in degraded mode: the price, with the time of the clock and the text of the error.
  abbrev pub fallback_result : FeedAdapter F → World F S → Error → ℤ → FeedResult F
  fallback_result a w e price = record {
    price = price;
    feed_id = a.config.feed_id;
    timestamp_utc = d.trunc (env.now (asked a w).1).0;
    metadata =
        (codes "degraded_fallback", Meta.flag true)
        ∷ (codes "original_error", Meta.text (env.message e))
        ∷ [];
    degraded = true;
  }

  -- A call ends in one of four ways.
  pub data Outcome (a : FeedAdapter F) (w : World F S)
      : Result (FeedResult F) → FeedAdapter F → World F S → Type 0 where
    -- The feed answered: its result comes back, and the failures are forgotten.
    answered :
        {a' : FeedAdapter F} {w' : World F S} (r : FeedResult F)
        → (attempt a w).0 ≡ ok r
        → a' ≡ record a {
          degraded_state = step (success r.price (env.now (attempt a w).1).0) a.degraded_state;
        }
        → w'.tables ≡ w.tables
        → Outcome a w (ok r) a' w'
    -- The feed failed in degraded mode, and the last good price is fresh at the time of the question.
    fell_back :
        {a' : FeedAdapter F} {w' : World F S} (e : Error) (price : ℤ)
        → (attempt a w).0 ≡ err e
        → a' ≡ record a { degraded_state = step failure a.degraded_state }
        → a'.degraded_state.degraded ≡ true
        → last_known_good_price (asked a w).0 a'.degraded_state ≡ some price
        → w'.tables ≡ w.tables
        → Outcome a w (ok (fallback_result a w e price)) a' w'
    -- The feed failed with nothing to offer: the error is raised and kept as a dead letter.
    queued :
        {a' : FeedAdapter F} {w' : World F S} (e : Error) (path : Str)
        → (attempt a w).0 ≡ err e
        → a' ≡ record a { degraded_state = step failure a.degraded_state }
        → NothingToOffer a w a'.degraded_state
        → a.dlq ≡ some path
        → Queued a e path w.tables w'.tables
        → Outcome a w (err e) a' w'
    -- The same with no dead-letter queue.
    lost :
        {a' : FeedAdapter F} {w' : World F S} (e : Error)
        → (attempt a w).0 ≡ err e
        → a' ≡ record a { degraded_state = step failure a.degraded_state }
        → NothingToOffer a w a'.degraded_state
        → a.dlq ≡ none
        → w'.tables ≡ w.tables
        → Outcome a w (err e) a' w'

  abbrev IsOutcome :
      FeedAdapter F → World F S → Result (FeedResult F) × FeedAdapter F × World F S → Type 0
  IsOutcome a w t = Outcome a w t.0 t.1 t.2

  module _ (a : FeedAdapter F) (w : World F S) (e : Error) (failed : (attempt a w).0 ≡ err e) where
    abbrev failed_state : DegradedModeState F
    failed_state = step failure a.degraded_state

    give_up-Outcome :
        (o : Option Str)
        → a.dlq ≡ o
        → NothingToOffer a w failed_state
        → (m : Metrics F) (s : S) → IsOutcome a w (give_up env a w o e failed_state m s)
    unfolding give_up enqueue
    give_up-Outcome none no_queue empty m s = Outcome.lost e failed refl empty no_queue refl
    give_up-Outcome (some path) queue empty m s =
        Outcome.queued e path failed refl empty queue (record {
          entry =
              new_entry a.config.feed_id (dlq_payload env a.config.feed_id (env.message e))
                (env.message e) (a.retry_config.max_retries +ℤ pos 1) (env.now_text s).0
                ((w.tables path).last_id + 1);
          appended = rw (str_eq_refl path);
          new_id = refl;
          counter = rw (str_eq_refl path);
          feed = refl;
          message = refl;
          payload = refl;
          attempts = refl;
          waiting = refl;
          others = λ p ne. elim (Bool-cases (str_eq path p)) [
            | inl same ↦ absurd (ne (sym ((str_eq_iff path p).0 same)))
            | inr other ↦ rw other
          ];
        })

    offer-Outcome :
        (o : Option ℤ)
        → last_known_good_price (asked a w).0 failed_state ≡ o
        → failed_state.degraded ≡ true
        → (m : Metrics F) → IsOutcome a w (offer env a w o e failed_state m (asked a w).1)
    unfolding offer serve_fallback
    offer-Outcome none p h m = give_up-Outcome a.dlq refl (inr p) m (asked a w).1
    offer-Outcome (some price) p h m = Outcome.fell_back e price failed refl h p refl

    price-Outcome :
        (o : Option ℤ)
        → failed_state.last_good_price ≡ o
        → failed_state.degraded ≡ true
        → (m : Metrics F)
        → let t = read_price env a w o failed_state (env.now (attempt a w).1).1 in
          IsOutcome a w (offer env a w t.0 e failed_state m t.1)
    unfolding read_price offer
    price-Outcome none p h m =
        give_up-Outcome a.dlq refl (inr (last_known_good_price_none (asked a w).0 failed_state p)) m
          _
    price-Outcome (some price) p h m =
        offer-Outcome (last_known_good_price (asked a w).0 failed_state) refl h m

    respond-Outcome :
        (b : Bool)
        → failed_state.degraded ≡ b
        → (m : Metrics F)
        → IsOutcome a w (respond env a w b e failed_state m (env.now (attempt a w).1).1)
    unfolding respond
    respond-Outcome true h m = price-Outcome failed_state.last_good_price refl h m
    respond-Outcome false h m = give_up-Outcome a.dlq refl (inl h) m _

  conclude-Outcome :
      (a : FeedAdapter F) (w : World F S) (start : F) (r : Result (FeedResult F))
      → (attempt a w).0 ≡ r
      → IsOutcome a w (conclude env a w start (r, (attempt a w).1))
  unfolding conclude fetch_ok fetch_failed step
  conclude-Outcome a w start (ok result) h = Outcome.answered result h refl refl
  conclude-Outcome a w start (err e) h =
      respond-Outcome a w e h (Degraded.record_failure a.degraded_state).degraded refl _

  -- Every call of `fetch` ends in one of the four ways of `Outcome`: answered, fell back to the last
  -- good price, which is fresh at the time of the clock, raised with a dead letter, or raised without
  -- a queue; each with the state, the answer and the change of the tables written out.
  pub fetch-Outcome :
      (a : FeedAdapter F) (w : World F S)
      → let t = fetch env fetch_price a w in Outcome a w t.0 t.1 t.2
  unfolding fetch
  fetch-Outcome a w = conclude-Outcome a w (env.now w.outside).0 (attempt a w).0 refl
