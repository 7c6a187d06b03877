-- ===== src/VerifyTool/Command.antt =====
-- `_load_from_ipfs`, `_load_from_file` and `cmd_verify`. `sys.exit` is an exception with the exit
-- code. The files, `urlopen` and `json.loads` are parameters.
use stellar_kraal_contract.Common.{
  ℕ, Bool, true, false, ◌&&◌, List, [], ◌∷◌, Option, none, some, if◌then◌else◌,
}
use stellar_kraal_contract.Common.Float.{Float}
use stellar_kraal_contract.Common.Json.{
  Fields, Json, null, text, object, array, at, subscript, is_true,
}
use stellar_kraal_contract.Common.Result.{
  value_error, Result, ok, err, Error, raised, system_exit, key_error, cid_not_found,
  validation_failed, attribute_error, type_error, ◌>>=◌, ◌>>◌,
}
use stellar_kraal_contract.Common.Text.{Str, codes, str_eq}
use stellar_kraal_contract.Attestation.BigEndian.{Bytes}
use stellar_kraal_contract.Attestation.Signer.{Crypto}
use stellar_kraal_contract.Provenance.Record.{truthy}
use stellar_kraal_contract.Provenance.Validate.{validate_provenance_record}
use stellar_kraal_contract.Bridge.Ipfs.{
  LocalIpfsClient, IpfsClient, Backend, simulated, local, simulated_client, fetch_provenance_record,
}
use stellar_kraal_contract.VerifyTool.Checks.{
  SignatureCheck, valid, PayloadError, get_from, verify_payload_fields, sliceable,
  verify_script_hash, part, verify_params_hash, verify_signature,
}

-- What a `json` value of the record is taken for: without items it raises at `key not in record`,
-- and without `get` at the first `record.get`.
unfoldable pub record_of : {F : Type 0} → Json F → Result (Fields F)
record_of (object d) = ok d
record_of (text s) = err attribute_error
record_of (array vs) = err attribute_error
record_of other = err type_error

unfoldable pub is_validation_error : Error → Bool
is_validation_error (validation_failed es) = true
is_validation_error other = false

-- `except ProvenanceValidationError`: whether the record conforms
unfoldable pub conforms : Result (Unit {0}) → Result Bool
unfolding is_validation_error
conforms (ok u) = ok true
conforms (err e) = if is_validation_error e then ok false else err e

unfoldable pub is_valid : SignatureCheck → Bool
is_valid valid = true
is_valid other = false

unfoldable pub no_errors : {F : Type 0} → List (PayloadError F) → Bool
no_errors [] = true
no_errors (e ∷ es) = false

module _ {F : Type 0} ⦃float : Float F⦄ (c : Crypto (Json F)) where
  -- The stored hash of the parameters, of which the first 16 characters are shown.
  unfoldable pub shown_hash : (matches : Bool) → Fields F → Result Bool
  unfolding get_from sliceable
  shown_hash true d = do
    ip ← at (codes "input_params") d
    stored ← subscript (codes "params_hash") ip
    sliceable stored
    ok true
  shown_hash false d = do
    stored ← get_from (codes "params_hash") (text (codes "N/A")) (part (codes "input_params") d)
    sliceable stored
    ok false

  unfoldable pub params_step : Fields F → Result Bool
  unfolding verify_params_hash shown_hash
  params_step d = do matches ← verify_params_hash c d; shown_hash matches d

  unfoldable pub payload_step : Fields F → Result Bool
  unfolding verify_payload_fields no_errors
  payload_step d = do errors ← verify_payload_fields c d; ok (no_errors errors)

  -- The script hash is shown, but decides nothing.
  unfoldable pub script_step : Fields F → Result (Unit {0})
  unfolding get_from verify_script_hash
  script_step d = do
    let gs = part (codes "gee_script") d
    preview ← get_from (codes "source_preview") null gs
    if is_true preview
        then (do shown ← verify_script_hash c d; ok tt)
        else (do path ← get_from (codes "asset_path") null gs; ok tt)

  unfoldable pub signature_step : (available check_sig : Bool) → Fields F → Result Bool
  unfolding get_from sliceable verify_signature is_valid
  signature_step available true d = do check ← verify_signature c available d; ok (is_valid check)
  signature_step available false d = do
    key ← get_from (codes "public_key") (text (codes "N/A")) (part (codes "attestation") d)
    sliceable key
    ok true

  -- `cmd_verify` behind the loading: the exit code
  unfoldable pub verify_record :
      Option (Fields F → List Str) → (available check_sig : Bool) → Fields F → Result ℕ
  unfolding conforms params_step payload_step script_step signature_step
  verify_record jsonschema available check_sig d = do
    schema ← conforms (validate_provenance_record jsonschema d)
    params ← params_step d
    payload ← payload_step d
    script_step d
    signature ← signature_step available check_sig d
    ok (if schema && (params && (payload && signature)) then 0 else 1)

-- The arguments of the command line.
pub record Args : Type 0 where
  pub cid : Option Str
  pub file : Option Str
  pub check_sig : Bool

-- `except KeyError` and `except RuntimeError`, of the exceptions of the clients
unfoldable pub is_load_error : Error → Bool
is_load_error key_error = true
is_load_error cid_not_found = true
is_load_error (raised name reason) = str_eq name (codes "RuntimeError")
is_load_error other = false

-- What the tool reads from: the client, which is a new one for every call of `_load_from_ipfs`; a
-- path that exists, with its text; and `json.loads`.
pub record Inputs (F S : Type 0) : Type 0 where
  pub new_client : Backend
  pub local_client : LocalIpfsClient → IpfsClient S
  pub sha256 : Bytes → Bytes
  pub read_file : Str → S → Option (Result Str)
  pub json_loads : Str → Result (Json F)

module _ {F S : Type 0} (inputs : Inputs F S) where
  abbrev exit_on_load_error : Result (Json F) → Result (Json F)
  exit_on_load_error (ok v) = ok v
  exit_on_load_error (err e) = if is_load_error e then err (system_exit 2) else err e

  -- `_load_from_ipfs`: a simulated client starts with an empty store.
  unfoldable pub load_from_ipfs : Str → S → Result (Json F) × S
  unfolding is_load_error fetch_provenance_record
  load_from_ipfs cid s = from_backend inputs.new_client
    where
      from_backend : Backend → Result (Json F) × S
      from_backend simulated =
          let (fetched, _) =
            fetch_provenance_record inputs.json_loads (simulated_client inputs.sha256) cid [] in
          (exit_on_load_error fetched, s)
      from_backend (local client) =
          let (fetched, s') =
            fetch_provenance_record inputs.json_loads (inputs.local_client client) cid s in
          (exit_on_load_error fetched, s')

  -- `_load_from_file`; `json.JSONDecodeError` is a `ValueError`.
  unfoldable pub load_from_file : Str → S → Result (Json F)
  load_from_file path s = elim (inputs.read_file path s) [
    | none ↦ err (system_exit 2)
    | some (err e) ↦ err e
    | some (ok content) ↦ parsed (inputs.json_loads content)
  ]
    where
      parsed : Result (Json F) → Result (Json F)
      parsed (ok v) = ok v
      parsed (err value_error) = err (system_exit 3)
      parsed (err other) = err other

  unfoldable pub load : Args → S → Result (Json F) × S
  unfolding load_from_ipfs load_from_file
  load args s = elim (truthy args.cid) [
    | some cid ↦ load_from_ipfs cid s
    | none ↦ elim args.file [ none ↦ (err type_error, s) | some path ↦ (load_from_file path s, s) ]
  ]

  -- `cmd_verify`
  unfoldable pub cmd_verify :
      ⦃float : Float F⦄
      → Crypto (Json F)
      → Option (Fields F → List Str)
      → (available : Bool) → Args
      → S
      → Result ℕ × S
  unfolding record_of verify_record load
  cmd_verify c jsonschema available args s =
      let (loaded, s') = load args s in
      (do v ← loaded; d ← record_of v; verify_record c jsonschema available args.check_sig d, s')
