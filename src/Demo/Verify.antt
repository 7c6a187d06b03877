-- ===== src/Demo/Verify.antt =====
-- `handle_verify` of tools/demo_server.py: four checks of a record, which are its own and not those
-- of tools/verify_provenance.py.
use stellar_kraal_contract.Common.{
  ℕ, Bool, true, false, List, [], ◌∷◌, Option, none, some, length, ◌==◌, if◌then◌else◌,
}
use stellar_kraal_contract.Common.Float.{Float}
use stellar_kraal_contract.Common.Int.{ℤ}
use stellar_kraal_contract.Common.Json.{
  Json, Fields, null, int, bool, real, array, nil, at, subscript, text, get_or, as_dict, is_true,
  is_text, equals_int,
}
use stellar_kraal_contract.Common.Result.{
  Result, ok, err, Error, key_error, cid_not_found, validation_failed, value_error, type_error,
  require, ◌>>=◌, ◌>>◌,
}
use stellar_kraal_contract.Common.Text.{Str, codes}
use stellar_kraal_contract.Attestation.BigEndian.{Bytes}
use stellar_kraal_contract.Provenance.Record.{from_hex_value, params_hash_text}
use stellar_kraal_contract.Provenance.Validate.{validate_provenance_record}
use stellar_kraal_contract.Provenance.Verify.{slice}
use stellar_kraal_contract.Bridge.Ipfs.{fetch_provenance_record}
use stellar_kraal_contract.VerifyTool.Checks.{int_from_bytes, get_from}
use stellar_kraal_contract.VerifyTool.Command.{record_of}
use stellar_kraal_contract.VerifyTool.Show.{joined}
use stellar_kraal_contract.Demo.Pages.{Page, Checks, verify_form, not_in_store, verified}
use stellar_kraal_contract.Demo.World.{ServerWorld, Setup, demo_ipfs}

-- `except KeyError`
unfoldable pub is_key_error : Error → Bool
is_key_error key_error = true
is_key_error cid_not_found = true
is_key_error other = false

-- `except ProvenanceValidationError`: the errors that are shown
unfoldable pub shown_errors : Result (Unit {0}) → Result (List Str)
shown_errors (ok u) = ok []
shown_errors (err (validation_failed es)) = ok es
shown_errors (err other) = err other

abbrev pub is_nil : List Str → Bool
is_nil [] = true
is_nil (e ∷ es) = false

-- `int.from_bytes(payload[start:start + 8], …) if len(payload) == 113 else None`
unfoldable pub payload_int : ℕ → Bytes → Option ℤ
unfolding int_from_bytes
payload_int start payload =
    if length payload == 113 then some (int_from_bytes (slice start 8 payload)) else none

module _ {F : Type 0} ⦃float : Float F⦄ where
  -- `x == v`, where `x` is an int or `None`
  unfoldable pub equals_value : Option ℤ → Json F → Bool
  equals_value (some n) v = equals_int n v
  equals_value none null = true
  equals_value none other = false

  -- `payload_ok`: the time is looked up only if the value is the same.
  unfoldable pub payload_matches : Bytes → Json F → Result Bool
  unfolding equals_value payload_int
  payload_matches payload comp = do
    value ← subscript (codes "output_value") comp
    if equals_value (payload_int 65 payload) value
        then (do
          time ← subscript (codes "timestamp_utc") comp
          ok (equals_value (payload_int 73 payload) time))
        else ok false

  -- `f"{v:,}"`
  unfoldable pub grouped : Json F → Result (Unit {0})
  grouped (int n) = ok tt
  grouped (bool b) = ok tt
  grouped (real x) = ok tt
  grouped (text s) = err value_error
  grouped other = err type_error

  -- The block of the aggregation, where there is one.
  unfoldable pub show_aggregation : Fields F → Result (Unit {0})
  unfolding joined
  show_aggregation d = do
    let agg = get_or (codes "aggregation") null d
    if is_true agg
        then (do
          fields ← as_dict agg
          joined (get_or (codes "rejected_sources") (array nil) fields))
        else ok tt

  -- The details: the blocks must be dicts, and the value a number.
  unfoldable pub show_details : (gs comp att sub : Json F) → Fields F → Result (Unit {0})
  unfolding show_aggregation grouped get_from
  show_details gs comp att sub d = do
    show_aggregation d
    path ← get_from (codes "asset_path") null gs
    value ← get_from (codes "output_value") null comp
    grouped value
    key ← get_from (codes "public_key") (text []) att
    iso ← get_from (codes "submitted_at_iso") null sub
    ok tt

  module _ {T : Type 0} (setup : Setup F T) where
    unfoldable pub check_signature : Json F → Bytes → Result Bool
    check_signature att payload = do
      key ← subscript (codes "public_key") att
      key_bytes ← from_hex_value key
      require (length key_bytes == 32) value_error
      signature ← subscript (codes "signature") att
      signature_bytes ← from_hex_value signature
      ok (setup.crypto.verifies key_bytes signature_bytes payload)

    -- The check of the signature: what it raises is caught.
    unfoldable pub signature_matches : Json F → Bytes → Bool
    unfolding check_signature
    signature_matches att payload = caught (check_signature att payload)
      where
        caught : Result Bool → Bool
        caught (ok accepted) = accepted
        caught (err e) = false

    -- What follows the validation.
    unfoldable pub check_blocks : (schema_ok : Bool) → Fields F → Result Checks
    unfolding payload_matches signature_matches show_details
    check_blocks schema_ok d = do
      gs ← at (codes "gee_script") d
      ip ← at (codes "input_params") d
      comp ← at (codes "computation") d
      att ← at (codes "attestation") d
      sub ← at (codes "submission") d
      params ← subscript (codes "params") ip
      computed ← params_hash_text setup.crypto params
      stored ← subscript (codes "params_hash") ip
      payload_hex ← subscript (codes "payload_hex") att
      payload ← from_hex_value payload_hex
      payload_ok ← payload_matches payload comp
      show_details gs comp att sub d
      ok (record {
        schema_ok = schema_ok;
        params_ok = is_text computed stored;
        payload_ok = payload_ok;
        sig_ok = signature_matches att payload;
      })

    -- The checks of a record and its details.
    unfoldable pub check_record : Fields F → Result Checks
    unfolding shown_errors check_blocks
    check_record d = do
      errors ← shown_errors (validate_provenance_record setup.jsonschema d)
      check_blocks (is_nil errors) d

    -- The page of a record that was fetched.
    unfoldable pub verify_page : Str → Json F → Result (Page F)
    unfolding check_record record_of
    verify_page cid v = do d ← record_of v; checks ← check_record d; ok (verified cid checks v)

    abbrev pub fetched_page : Str → Result (Json F) → Result (Page F)
    fetched_page cid (ok v) = verify_page cid v
    fetched_page cid (err e) = if is_key_error e then ok (not_in_store cid) else err e

    -- `handle_verify`
    unfoldable pub handle_verify : Str → ServerWorld F T → Result (Page F)
    unfolding fetch_provenance_record
    handle_verify [] w = ok verify_form
    handle_verify (c ∷ cid) w =
        fetched_page (c ∷ cid)
          (fetch_provenance_record setup.json_loads (demo_ipfs setup.crypto.sha256) (c ∷ cid) w).0
