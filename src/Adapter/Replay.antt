-- ===== src/Adapter/Replay.antt =====
-- What `replay_dlq_entry` leaves in the queue.
use mathlib.Core.Option.{some-injective}
use mathlib.Core.Path.{subst}
use stellar_kraal_contract.Common.{
  ℕ, ◌≡◌, ◌≢◌, refl, sym, ap, ◌↔◌, inl, true, List, [], ◌∷◌, Option, none, some, ◌==◌, ==_iff, In,
}
use stellar_kraal_contract.Common.Float.{Float}
use stellar_kraal_contract.Common.Result.{Result, ok, err}
use stellar_kraal_contract.Common.Text.{Str, str_eq_refl}
use stellar_kraal_contract.Resilience.Queue.{
  DlqEntry, DeadLetterQueue, list_unreplayed, mark_replayed,
}
use stellar_kraal_contract.Resilience.Queue.Laws.{In-select_iff, mark_replayed-list}
use stellar_kraal_contract.Adapter.Fetch.{
  Env, World, FeedAdapter, FeedResult, fetch, with_id, after_fetch, replay_target, replay_in,
  replay_dlq_entry,
}
use stellar_kraal_contract.Adapter.Outcome.{Outcome, fetch-Outcome}

module _ {F S : Type 0} ⦃d : Float F⦄ (env : Env F S)
    (fetch_price : S → Result (FeedResult F) × S) where
  -- A replay that reports success took an entry that was waiting: afterwards the waiting entries are
  -- exactly those of before with another id.
  pub record Replayed (n : ℕ) (before after : DeadLetterQueue) : Type 0 where
    pub entry : DlqEntry
    pub was_waiting : In entry (list_unreplayed before)
    pub is_entry : entry.id ≡ n
    pub now_waiting :
        (f : DlqEntry) → In f (list_unreplayed after) ↔ (In f (list_unreplayed before) × (f.id ≢ n))

  same_tables :
      {a a' : FeedAdapter F} {w w' : World F S} {r : Result (FeedResult F)} (x : FeedResult F)
      → r ≡ ok x
      → Outcome env fetch_price a w r a' w'
      → w'.tables ≡ w.tables
  same_tables x e (Outcome.answered _ _ _ p) = p
  same_tables x e (Outcome.fell_back _ _ _ _ _ _ p) = p
  same_tables x e (Outcome.queued _ _ _ _ _ _ _) = absurd (cc e)
  same_tables x e (Outcome.lost _ _ _ _ _ _) = absurd (cc e)

  after_fetch-true :
      (path : Str) (n : ℕ) (before : Str → DeadLetterQueue) (r : Result (FeedResult F))
      (a : FeedAdapter F) (w : World F S)
      → (after_fetch env path n (r, a, w)).0 ≡ true
      → ((x : FeedResult F) → r ≡ ok x → w.tables ≡ before)
      → (stamp : Str) × ((after_fetch env path n (r, a, w)).2.tables path
          ≡ mark_replayed n stamp (before path))
  unfolding after_fetch
  after_fetch-true path n before (err e) a w h same = absurd (cc h)
  after_fetch-true path n before (ok x) a w h same = (
    (env.now_text w.outside).0,
    rw (str_eq_refl path)
        (ap (λ t. mark_replayed n (env.now_text w.outside).0 (t path)) (same x refl)),
  )

  replay_target-true :
      (path : Str) (n : ℕ) (a : FeedAdapter F) (w : World F S) (found : List DlqEntry)
      → with_id n (list_unreplayed (w.tables path)) ≡ found
      → (replay_target env fetch_price path n found a w).0 ≡ true
      → Replayed n (w.tables path) ((replay_target env fetch_price path n found a w).2.tables path)
  unfolding replay_target
  replay_target-true path n a w [] e h = absurd (cc h)
  replay_target-true path n a w (entry ∷ more) e h =
      let t = fetch env fetch_price a w in
      let (stamp, marked) =
        after_fetch-true path n w.tables t.0 t.1 t.2 h
          (λ x p. same_tables x p (fetch-Outcome env fetch_price a w)) in
      let (listed, is_entry) =
        (In-select_iff (λ f. f.id == n) entry (list_unreplayed (w.tables path))).0
          (subst (In entry) (sym e) (inl refl)) in
      record {
        entry = entry;
        was_waiting = listed;
        is_entry = (==_iff entry.id n).0 is_entry;
        now_waiting = λ f.
            subst
              (λ q.
                In f (list_unreplayed q) ↔ (In f (list_unreplayed (w.tables path)) × (f.id ≢ n)))
              (sym marked) (mark_replayed-list n stamp (w.tables path) f);
      }

  replay_in-true :
      (path : Str) (o : Option Str) (n : ℕ) (a : FeedAdapter F) (w : World F S)
      → o ≡ some path
      → (replay_in env fetch_price o n a w).0 ≡ true
      → Replayed n (w.tables path) ((replay_in env fetch_price o n a w).2.tables path)
  unfolding replay_in
  replay_in-true path none n a w e h = absurd (cc e)
  replay_in-true path (some p) n a w e h =
      let same : p ≡ path = some-injective _ _ e in
      subst (λ q. Replayed n (w.tables q) ((replay_in env fetch_price (some p) n a w).2.tables q))
        same (replay_target-true p n a w (with_id n (list_unreplayed (w.tables p))) refl h)

  -- If `replay_dlq_entry` returns True, the entry was waiting in the queue of the adapter, and
  -- afterwards exactly the entries with other ids are still waiting.
  pub replay_dlq_entry-Replayed :
      (path : Str) (n : ℕ) (a : FeedAdapter F) (w : World F S)
      → a.dlq ≡ some path
      → (replay_dlq_entry env fetch_price n a w).0 ≡ true
      → Replayed n (w.tables path) ((replay_dlq_entry env fetch_price n a w).2.tables path)
  unfolding replay_dlq_entry
  replay_dlq_entry-Replayed path n a w e h = replay_in-true path a.dlq n a w e h
