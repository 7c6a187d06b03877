-- ===== src/Cli/ReplayDlq.antt =====
-- `cmd_replay_dlq` and `DryRunClient`. What is printed is left out.
use stellar_kraal_contract.Common.{
  ℕ, ◌+◌, Bool, true, false, ◌&&◌, ◌||◌, List, [], ◌∷◌, Option, none, some, ◌==◌, leb, length, map,
  if◌then◌else◌,
}
use stellar_kraal_contract.Common.Float.{Float}
use stellar_kraal_contract.Common.Int.{pos}
use stellar_kraal_contract.Common.Result.{Result, ok}
use stellar_kraal_contract.Common.Text.{occurs_in, Str, str_eq, codes}
use stellar_kraal_contract.Resilience.Queue.{DlqEntry, list_unreplayed}
use stellar_kraal_contract.Adapter.Fetch.{
  Env, World, FeedAdapterConfig, FeedResult, new_adapter, replay_dlq_entry, with_id,
}
use stellar_kraal_contract.Bridge.Submit.{SubmissionClient}

-- `DryRunClient`
abbrev pub dry_run_client : {S : Type 0} → SubmissionClient S
dry_run_client = record {
  submit_price = λ a s. (ok (codes "dry-run-tx"), s);
  submit_price_with_cid = λ a cid s. (ok (codes "dry-run-tx"), s);
  commit_price = λ f h s. (ok (codes "dry-run-tx"), s);
  reveal_price = λ a salt s. (ok (codes "dry-run-tx"), s);
}

pub data AdapterClass : Type 0 where
  xpansiv_cbl toucan_protocol : AdapterClass

abbrev pub class_name : AdapterClass → Str
class_name xpansiv_cbl = codes "XpansivCBLAdapter"
class_name toucan_protocol = codes "ToucanProtocolAdapter"

-- `lower` on ASCII letters. The words looked for have no letter that another character becomes.
unfoldable pub lower : Str → Str
lower = map (λ c. if leb 65 c && leb c 90 then c + 32 else c)

-- The adapter for a feed.
unfoldable pub choose_adapter : Str → Option AdapterClass
choose_adapter feed =
    if occurs_in (codes "xpansiv") (lower feed) || occurs_in (codes "cbl") (lower feed)
    then some xpansiv_cbl
    else if occurs_in (codes "toucan") (lower feed)
        || (str_eq feed (codes "BCT") || str_eq feed (codes "NCT"))
    then some toucan_protocol
    else none

abbrev pub has_adapter : DlqEntry → Bool
has_adapter entry = elim (choose_adapter entry.feed_id) [ none ↦ false | some k ↦ true ]

-- `args.id`
unfoldable pub chosen : Option ℕ → List DlqEntry → List DlqEntry
chosen none entries = entries
chosen (some n) entries = with_id n entries

-- The exit code with no entry to replay.
abbrev pub nothing_found : Option ℕ → ℕ
nothing_found none = 0
nothing_found (some n) = 1

module _ {F S : Type 0} ⦃d : Float F⦄ (env : Env F S)
    (fetch_price : AdapterClass → S → Result (FeedResult F) × S) (db_path : Str) where
  -- `FeedAdapterConfig(feed_id=…, dlq_db_path=…)`: a threshold of 3 and a window of 300.0 seconds.
  abbrev pub entry_config : Str → FeedAdapterConfig F
  entry_config feed = record {
    feed_id = feed;
    retry = none;
    degraded_mode_threshold = pos 3;
    staleness_window_seconds = d.of_ℤ (pos 300);
    dlq_db_path = some db_path;
  }

  -- One round of the loop: the result of `replay_dlq_entry` is not used.
  unfoldable pub replay_entry : DlqEntry → World F S → World F S
  replay_entry entry w = elim (choose_adapter entry.feed_id) [
    | none ↦ w
    | some k ↦
        let (_, _, w') =
          replay_dlq_entry env (fetch_price k) entry.id
            (new_adapter env (class_name k) (entry_config entry.feed_id)) w in
        w'
  ]

  -- The loop, with `success_count`.
  unfoldable pub replay_entries : List DlqEntry → ℕ → World F S → ℕ × World F S
  unfolding replay_entry
  replay_entries [] success_count w = (success_count, w)
  replay_entries (entry ∷ rest) success_count w =
      replay_entries rest (if has_adapter entry then success_count + 1 else success_count)
        (replay_entry entry w)

  unfoldable pub replay_chosen : Option ℕ → Bool → List DlqEntry → World F S → ℕ × World F S
  unfolding replay_entries
  replay_chosen id dry_run [] w = (nothing_found id, w)
  replay_chosen id true (entry ∷ rest) w = (0, w)
  replay_chosen id false (entry ∷ rest) w =
      let (success_count, w') = replay_entries (entry ∷ rest) 0 w in
      ((if success_count == length (entry ∷ rest) then 0 else 1), w')

  -- `cmd_replay_dlq`: the exit code. `exists` tells whether there is a database file.
  unfoldable pub cmd_replay_dlq : Bool → Option ℕ → Bool → World F S → ℕ × World F S
  unfolding replay_chosen chosen
  cmd_replay_dlq false id dry_run w = (1, w)
  cmd_replay_dlq true id dry_run w =
      replay_chosen id dry_run (chosen id (list_unreplayed (w.tables db_path))) w
