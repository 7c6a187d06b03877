-- ===== src/Resilience/Queue.antt =====
-- `DeadLetterQueue`: the SQLite table as its rows in the order of insertion, with the counter of
-- `AUTOINCREMENT`. `now` is the text of the current time.
pub mod Laws
use stellar_kraal_contract.Common.{
  ℕ, zero, suc, ◌+◌, Bool, true, false, not, List, [], ◌∷◌, ◌++◌, map, Option, none, some, ◌==◌,
  if◌then◌else◌, length, select,
}
use stellar_kraal_contract.Common.Int.{ℤ}
use stellar_kraal_contract.Common.Sort.{sorted}
use stellar_kraal_contract.Common.Text.{Str, str_le}

-- A row of the table, and an entry as it is read.
pub record DlqEntry : Type 0 where
  pub id : ℕ
  pub feed_id : Str
  pub payload_json : Str
  pub error_message : Str
  pub attempt_count : ℤ
  pub created_at : Str
  pub replayed : Bool
  pub replayed_at : Option Str

-- `last_id` is the entry of `sqlite_sequence`: ids are never used again.
pub record DeadLetterQueue : Type 0 where
  pub rows : List DlqEntry
  pub last_id : ℕ

-- `_init_db` on a new file.
abbrev pub empty_queue : DeadLetterQueue
empty_queue = record { rows = []; last_id = 0 }

-- The row that `INSERT` makes.
abbrev pub new_entry : Str → Str → Str → ℤ → Str → ℕ → DlqEntry
new_entry feed payload message attempts now n = record {
  id = n;
  feed_id = feed;
  payload_json = payload;
  error_message = message;
  attempt_count = attempts;
  created_at = now;
  replayed = false;
  replayed_at = none;
}

-- `enqueue`: the new queue and the id of the row.
unfoldable pub enqueue : Str → Str → Str → ℤ → Str → DeadLetterQueue → DeadLetterQueue × ℕ
enqueue feed payload message attempts now q =
    let n = q.last_id + 1 in
    (record { rows = q.rows ++ new_entry feed payload message attempts now n ∷ []; last_id = n }, n)

-- `WHERE replayed = 0`
abbrev pub is_unreplayed : DlqEntry → Bool
is_unreplayed e = not e.replayed

-- `ORDER BY created_at ASC`
abbrev pub by_time : DlqEntry → DlqEntry → Bool
by_time e f = str_le e.created_at f.created_at

unfoldable pub list_unreplayed : DeadLetterQueue → List DlqEntry
list_unreplayed q = sorted by_time (select is_unreplayed q.rows)

unfoldable pub mark_row : ℕ → Str → DlqEntry → DlqEntry
mark_row n now e = if e.id == n then record e { replayed = true; replayed_at = some now } else e

unfoldable pub mark_replayed : ℕ → Str → DeadLetterQueue → DeadLetterQueue
unfolding mark_row
mark_replayed n now q = record q { rows = map (mark_row n now) q.rows }

unfoldable pub count : DeadLetterQueue → ℕ
count q = length q.rows

unfoldable pub count_unreplayed : DeadLetterQueue → ℕ
count_unreplayed q = length (select is_unreplayed q.rows)
