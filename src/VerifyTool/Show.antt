-- ===== src/VerifyTool/Show.antt =====
-- `cmd_show`, `cmd_dump` and `main` of tools/verify_provenance.py. What is printed is left out: the
-- commands raise, or end with an exit code.
use stellar_kraal_contract.Common.{ℕ, ◌≡◌, refl, Bool, List, Option, if◌then◌else◌}
use stellar_kraal_contract.Common.Float.{Float}
use stellar_kraal_contract.Common.Json.{
  Json, Fields, Items, nil, item, null, array, object, text, end, get, get_or, as_dict, is_true,
}
use stellar_kraal_contract.Common.Result.{Result, ok, err, type_error, attribute_error, ◌>>=◌, ◌>>◌}
use stellar_kraal_contract.Common.Text.{Str, codes, str_eq}
use stellar_kraal_contract.Attestation.Signer.{Crypto}
use stellar_kraal_contract.Provenance.Record.{ProvenanceRecord, record_dict, aggregation}
use stellar_kraal_contract.VerifyTool.Checks.{get_from, part}
use stellar_kraal_contract.VerifyTool.Command.{Args, Inputs, load, cmd_verify}

module _ {F : Type 0} where
  abbrev pub join_items : Items F → Result (Unit {0})
  join_items nil = ok tt
  join_items (item (text s) vs) = join_items vs
  join_items (item other vs) = err type_error

  -- `', '.join(v)`
  unfoldable pub joined : Json F → Result (Unit {0})
  joined (array vs) = join_items vs
  joined (text s) = ok tt
  joined (object d) = ok tt
  joined other = err type_error

  -- `v[:32] + "…"`: a list may be cut, but not joined to a text.
  unfoldable pub cut_text : Json F → Result (Unit {0})
  cut_text (text s) = ok tt
  cut_text other = err type_error

  -- `v.items()`
  unfoldable pub has_items : Json F → Result (Unit {0})
  has_items (object d) = ok tt
  has_items other = err attribute_error

  -- `v.get(k, …)` for a value that is printed as it is
  unfoldable pub show_value : Str → Json F → Result (Unit {0})
  unfolding get_from
  show_value k v = do shown ← get_from k (text (codes "N/A")) v; ok tt

  -- `v.get(k, "N/A")[:32] + "…"`
  unfoldable pub show_cut : Str → Json F → Result (Unit {0})
  unfolding get_from cut_text
  show_cut k v = do shown ← get_from k (text (codes "N/A")) v; cut_text shown

module _ {F : Type 0} ⦃float : Float F⦄ where
  unfoldable pub show_block : Json F → Result (Unit {0})
  unfolding show_value get_from joined has_items
  show_block agg =
      if is_true agg
      then (do
        show_value (codes "method") agg
        rejected ← get_from (codes "rejected_sources") (array nil) agg
        joined rejected
        values ← get_from (codes "source_values") (object end) agg
        has_items values)
      else ok tt

  -- `cmd_show` behind the loading
  unfoldable pub show_record : Fields F → Result ℕ
  unfolding show_value show_cut show_block get_from has_items
  show_record d = do
    let gs = part (codes "gee_script") d
    let ip = part (codes "input_params") d
    let comp = part (codes "computation") d
    let att = part (codes "attestation") d
    let sub = part (codes "submission") d
    show_value (codes "asset_path") gs
    show_value (codes "version_tag") gs
    show_cut (codes "version_hash") gs
    show_cut (codes "params_hash") ip
    params ← get_from (codes "params") (object end) ip
    has_items params
    show_value (codes "feed_id") comp
    show_value (codes "output_value") comp
    show_value (codes "timestamp_iso") comp
    show_value (codes "schema_version") att
    show_cut (codes "public_key") att
    show_cut (codes "signature") att
    show_value (codes "submitted_at_iso") sub
    show_value (codes "ipfs_cid") sub
    show_value (codes "tx_ref") sub
    show_block (get_or (codes "aggregation") null d)
    ok 0

  -- What `to_dict` writes for a record without an aggregation is shown.
  pub show_record-shows :
      (p : ProvenanceRecord F) (h s t : Str)
      → aggregation p ≡ end
      → show_record (record_dict p h s t) ≡ ok 0
  unfolding show_record show_value show_cut show_block get_from has_items cut_text as_dict get_or
      get str_eq is_true
  show_record-shows p h s t single = rw single refl

-- The three commands, with their arguments.
pub data ToolCommand : Type 0 where
  verify_command show_command dump_command : Args → ToolCommand

module _ {F S : Type 0} ⦃float : Float F⦄ (inputs : Inputs F S) where
  -- `cmd_show`: a value without `get` raises.
  unfoldable pub cmd_show : Args → S → Result ℕ × S
  unfolding load show_record
  cmd_show args s =
      let (loaded, s') = load inputs args s in (do v ← loaded; d ← as_dict v; show_record d, s')

  -- `cmd_dump`
  unfoldable pub cmd_dump : Args → S → Result ℕ × S
  unfolding load
  cmd_dump args s = let (loaded, s') = load inputs args s in (do v ← loaded; ok 0, s')

  -- `main`, behind the parser: the exit code of the process
  unfoldable pub tool_main :
      Crypto (Json F)
      → Option (Fields F → List Str)
      → (available : Bool) → ToolCommand
      → S
      → Result ℕ × S
  unfolding cmd_verify cmd_show cmd_dump
  tool_main c jsonschema available (verify_command args) s =
      cmd_verify inputs c jsonschema available args s
  tool_main c jsonschema available (show_command args) s = cmd_show args s
  tool_main c jsonschema available (dump_command args) s = cmd_dump args s
