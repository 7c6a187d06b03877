-- ===== src/Adapter/Calls.antt =====
-- Repeated calls of `fetch` by one adapter, against the history of the degraded mode.
use mathlib.Core.Path.{subst}
use stellar_kraal_contract.Common.{
  ℕ, zero, suc, ◌≡◌, refl, sym, ap, ◌∙◌, ◌↔◌, false, List, [], ◌∷◌, some,
}
use stellar_kraal_contract.Common.Float.{Float}
use stellar_kraal_contract.Common.Int.{ℤ}
use stellar_kraal_contract.Common.Result.{Result, Error, ok, err}
use stellar_kraal_contract.Common.Text.{Str}
use stellar_kraal_contract.Resilience.Degraded.{last_known_good_price}
use stellar_kraal_contract.Resilience.History.{
  Event, success, failure, step, run, last_success, trailing_failures, reached, run-Agrees,
  last_known_good_price_iff,
}
use stellar_kraal_contract.Adapter.Fetch.{
  Env, World, FeedAdapter, FeedAdapterConfig, FeedResult, new_adapter, fetch,
}
use stellar_kraal_contract.Adapter.Outcome.{Outcome, attempt, fetch-Outcome}

module _ {F S : Type 0} ⦃d : Float F⦄ (env : Env F S)
    (fetch_price : S → Result (FeedResult F) × S) where
  -- The adapter and the world after `n` calls, whatever they returned or raised.
  pub after_calls : ℕ → FeedAdapter F → World F S → FeedAdapter F × World F S
  after_calls zero a w = (a, w)
  after_calls (suc n) a w =
      let (a', w') = after_calls n a w in
      let (_, a'', w'') = fetch env fetch_price a' w' in (a'', w'')

  -- What one call tells the degraded mode: a success with its price and time, or a failure.
  abbrev event_of : Result (FeedResult F) × S → Event F
  event_of (ok r, s) = success r.price (env.now s).0
  event_of (err e, s) = failure

  -- The events of the first `n` calls, the latest first.
  abbrev pub history : ℕ → FeedAdapter F → World F S → List (Event F)
  history zero a w = []
  history (suc n) a w =
      let (a', w') = after_calls n a w in event_of (attempt env fetch_price a' w') ∷ history n a w

  event_of-ok :
      (t : Result (FeedResult F) × S) (r : FeedResult F)
      → t.0 ≡ ok r
      → event_of t ≡ success r.price (env.now t.1).0
  event_of-ok (ok q, s) r h = cc h
  event_of-ok (err e, s) r h = absurd (cc h)

  event_of-err : (t : Result (FeedResult F) × S) (e : Error) → t.0 ≡ err e → event_of t ≡ failure
  event_of-err (ok q, s) e h = absurd (cc h)
  event_of-err (err f, s) e h = refl

  module _ {a a' : FeedAdapter F} {w w' : World F S} where
    stepped :
        {r : Result (FeedResult F)}
        → Outcome env fetch_price a w r a' w'
        → a'.degraded_state ≡ step (event_of (attempt env fetch_price a w)) a.degraded_state
    stepped (Outcome.answered x h p _) =
        rw (event_of-ok (attempt env fetch_price a w) x h) (ap (λ b. b.degraded_state) p)
    stepped (Outcome.fell_back e _ h p _ _ _) =
        rw (event_of-err (attempt env fetch_price a w) e h) (ap (λ b. b.degraded_state) p)
    stepped (Outcome.queued e _ h p _ _ _) =
        rw (event_of-err (attempt env fetch_price a w) e h) (ap (λ b. b.degraded_state) p)
    stepped (Outcome.lost e h p _ _ _) =
        rw (event_of-err (attempt env fetch_price a w) e h) (ap (λ b. b.degraded_state) p)

  after_calls-run :
      (n : ℕ) (a : FeedAdapter F) (w : World F S)
      → (after_calls n a w).0.degraded_state ≡ run (history n a w) a.degraded_state
  unfolding after_calls run
  after_calls-run zero a w = refl
  after_calls-run (suc n) a w =
      let (a', w') = after_calls n a w in
      stepped (fetch-Outcome env fetch_price a' w')
      ∙ ap (step (event_of (attempt env fetch_price a' w'))) (after_calls-run n a w)

  -- After any number of calls of a new adapter, with `history` as the success or failure of each
  -- call: the adapter is degraded exactly if the number of failures since the last success is
  -- positive and at least the configured threshold; and it offers a price at a time exactly if that
  -- is the price of the last success, which is then not older than the configured window.
  pub after_calls_degraded :
      (n : ℕ) (name : Str) (c : FeedAdapterConfig F) (w : World F S)
      → let state = (after_calls n (new_adapter env name c) w).0.degraded_state in
        let es = history n (new_adapter env name c) w in
        (state.degraded ≡ reached c.degraded_mode_threshold (trailing_failures es))
        × ((now : F) (p : ℤ)
            → (last_known_good_price now state ≡ some p) ↔ (
                (t : F) × (last_success es ≡ some (p, t))
                × (d.lt c.staleness_window_seconds (d.sub now t) ≡ false)))
  unfolding new_adapter
  after_calls_degraded n name c w =
      let es = history n (new_adapter env name c) w in
      let told = after_calls-run n (new_adapter env name c) w in
      let agrees = run-Agrees c.degraded_mode_threshold c.staleness_window_seconds c.feed_id es in
      (
        ap (λ s. s.degraded) told ∙ agrees.mode,
        λ now p.
            subst
              (λ o. (o ≡ some p) ↔ (
                (t : F) × (last_success es ≡ some (p, t))
                × (d.lt c.staleness_window_seconds (d.sub now t) ≡ false)))
              (ap (last_known_good_price now) (sym told))
              (last_known_good_price_iff c.degraded_mode_threshold c.staleness_window_seconds now
                c.feed_id es p),
      )
