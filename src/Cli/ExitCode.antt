-- ===== src/Cli/ExitCode.antt =====
-- What the exit code of `replay-dlq` tells.
use stellar_kraal_contract.Common.{
  ℕ, ◌+◌, ◌≤◌, ◌≡◌, ◌↔◌, refl, true, List, [], ◌∷◌, arith, length, select, all, Bool, if◌then◌else◌,
  Option, ◌∙◌, ◌≢◌, false,
}
use stellar_kraal_contract.Common.Float.{Float}
use stellar_kraal_contract.Common.Result.{Result}
use stellar_kraal_contract.Common.Text.{Str}
use stellar_kraal_contract.Resilience.Queue.{DlqEntry, list_unreplayed}
use stellar_kraal_contract.Adapter.Fetch.{Env, World, FeedResult}
use stellar_kraal_contract.Cli.ReplayDlq.{
  AdapterClass, has_adapter, replay_entries, cmd_replay_dlq, replay_chosen, chosen,
}

select-le : (es : List DlqEntry) → length (select has_adapter es) ≤ length es
select-le [] = omega arith
select-le (e ∷ es) = ground (arith, select-le es)

select-all_iff :
    (es : List DlqEntry)
    → (length (select has_adapter es) ≡ length es) ↔ (all has_adapter es ≡ true)
select-all_iff [] = (λ h. refl, λ h. refl)
select-all_iff (e ∷ es) = ground (arith, select-all_iff es, select-le es)

counted :
    (b : Bool) (n : ℕ) (e : DlqEntry) (xs : List DlqEntry)
    → (if b then n + 1 else n) + length xs ≡ n + length (if b then e ∷ xs else xs)
counted true n e xs = omega arith
counted false n e xs = refl

module _ {F S : Type 0} ⦃d : Float F⦄ (env : Env F S)
    (fetch_price : AdapterClass → S → Result (FeedResult F) × S) (db_path : Str) where
  -- The count does not depend on what the replays return.
  replay_entries-count :
      (es : List DlqEntry) (n : ℕ) (w : World F S)
      → (replay_entries env fetch_price db_path es n w).0 ≡ n + length (select has_adapter es)
  unfolding replay_entries
  replay_entries-count [] n w = omega arith
  replay_entries-count (e ∷ es) n w =
      replay_entries-count es (if has_adapter e then n + 1 else n) _
      ∙ counted (has_adapter e) n e (select has_adapter es)

  replay_chosen-exit_code :
      (id : Option ℕ) (w : World F S) (es : List DlqEntry)
      → es ≢ []
      → ((replay_chosen env fetch_price db_path id false es w).0 ≡ 0) ↔ (all has_adapter es ≡ true)
  unfolding replay_chosen
  replay_chosen-exit_code id w [] ne = absurd (ne refl)
  replay_chosen-exit_code id w (e ∷ es) ne =
      let counted_all = replay_entries-count (e ∷ es) 0 w in
      ground (arith, counted_all, select-all_iff (e ∷ es))

  -- With entries to replay and no dry run, `replay-dlq` exits with 0 exactly if the feed of every
  -- entry has an adapter, whatever the feeds answer and whether or not a replay succeeds.
  pub cmd_replay_dlq-exit_code :
      (id : Option ℕ) (w : World F S)
      → chosen id (list_unreplayed (w.tables db_path)) ≢ []
      → ((cmd_replay_dlq env fetch_price db_path true id false w).0 ≡ 0)
        ↔ (all has_adapter (chosen id (list_unreplayed (w.tables db_path))) ≡ true)
  unfolding cmd_replay_dlq
  cmd_replay_dlq-exit_code id w some_entry =
      replay_chosen-exit_code id w (chosen id (list_unreplayed (w.tables db_path))) some_entry
