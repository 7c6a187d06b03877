-- ===== src/Demo/Pages.antt =====
-- The pages of tools/demo_server.py: what is shown, without the HTML around it.
use mathlib.Core.List.{reverse}
use stellar_kraal_contract.Common.{ℕ, Bool, List, [], ◌∷◌, none, some, length}
use stellar_kraal_contract.Common.Int.{ℤ}
use stellar_kraal_contract.Common.Json.{Fields, Json}
use stellar_kraal_contract.Common.Result.{Result, ok, err, Error, type_error, ◌>>=◌}
use stellar_kraal_contract.Common.Text.{Str}
use stellar_kraal_contract.Attestation.Hex.{hex}
use stellar_kraal_contract.Demo.World.{ServerWorld, LogEntry, Setup}

-- The alert of the form.
pub data Notice : Type 0 where
  empty not_an_integer invalid_json : Notice
  failed : Error → Notice
  submitted : (tx_ref cid : Str) → Notice

-- A row of the table of submissions.
pub record Row (F : Type 0) : Type 0 where
  pub submitted_at_iso : Json F
  pub feed_id : Str
  pub output_value : ℤ
  pub tx_ref : Str
  pub cid : Str

-- The results of the four checks.
pub record Checks : Type 0 where
  pub schema_ok : Bool
  pub params_ok : Bool
  pub payload_ok : Bool
  pub sig_ok : Bool

pub data Page (F : Type 0) : Type 0 where
  home : (pubkey : Str) → (total feeds cids : ℕ) → Page F
  submit_form : Notice → Page F
  submissions : List (Row F) → Page F
  verify_form : Page F
  not_in_store : Str → Page F
  verified : (cid : Str) → Checks → (shown : Json F) → Page F
  schema : Fields F → Page F
  not_found : Page F

module _ {F : Type 0} where
  -- One row; `cid[:30]` raises where there is no CID.
  unfoldable pub row_of : LogEntry F → Result (Row F)
  row_of entry = elim entry.ipfs_cid [
    | none ↦ err type_error
    | some cid ↦ ok (record {
      submitted_at_iso = entry.submitted_at_iso;
      feed_id = entry.feed_id;
      output_value = entry.output_value;
      tx_ref = entry.tx_ref;
      cid = cid;
    })
  ]

  unfoldable pub rows_of : List (LogEntry F) → Result (List (Row F))
  unfolding row_of
  rows_of [] = ok []
  rows_of (entry ∷ entries) = do row ← row_of entry; rows ← rows_of entries; ok (row ∷ rows)

module _ {F T : Type 0} where
  -- `handle_home`
  unfoldable pub handle_home : Setup F T → ServerWorld F T → Page F
  handle_home setup w =
      home (hex (setup.crypto.public_key setup.seed)) (length w.log) (length w.onchain)
        (length w.store)

  -- `handle_submissions`
  unfoldable pub handle_submissions : ServerWorld F T → Result (Page F)
  unfolding rows_of
  handle_submissions w = do rows ← rows_of (reverse w.log); ok (submissions rows)
