-- ===== src/VerifyTool/Checks.antt =====
-- The checks of tools/verify_provenance.py. `available` says whether `cryptography` is installed.
use stellar_kraal_contract.Common.{
  ◌^◌, ℕ, ◌*◌, ◌-◌, Bool, true, false, ◌&&◌, List, [], ◌∷◌, ◌++◌, Option, none, some, length, ltb,
  ◌==◌, if◌then◌else◌,
}
use stellar_kraal_contract.Common.Float.{Float}
use stellar_kraal_contract.Common.Int.{ℤ, pos, negsuc}
use stellar_kraal_contract.Common.Json.{
  Fields, Json, null, text, object, array, end, get_or, as_dict, subscript, len, is_text, is_true,
  equals_int,
}
use stellar_kraal_contract.Common.Result.{
  Result, ok, err, Error, key_error, value_error, attribute_error, type_error, index_error, ◌>>=◌,
}
use stellar_kraal_contract.Common.Text.{Str, codes}
use stellar_kraal_contract.Common.Utf8.{encode_utf8}
use stellar_kraal_contract.Attestation.BigEndian.{Bytes, decode_be}
use stellar_kraal_contract.Attestation.Hex.{hex}
use stellar_kraal_contract.Attestation.Signer.{Crypto}
use stellar_kraal_contract.Provenance.Record.{from_hex_value, params_hash_text}
use stellar_kraal_contract.Provenance.Verify.{slice}

-- The errors that `_verify_payload_fields` lists.
pub data PayloadError (F : Type 0) : Type 0 where
  wrong_length : ℕ → PayloadError F
  wrong_value wrong_time : ℤ → Json F → PayloadError F
  wrong_version : ℕ → PayloadError F

-- What `_verify_signature` says.
pub data SignatureCheck : Type 0 where
  unavailable undecodable invalid valid : SignatureCheck

-- `int.from_bytes(bs, "big", signed=True)` for every number of bytes
unfoldable pub int_from_bytes : Bytes → ℤ
int_from_bytes bs =
    let w = decode_be bs in
    if ltb (2 * w) (256 ^ length bs) then pos w else negsuc (256 ^ length bs - 1 - w)

-- `except (KeyError, ValueError)`, of the exceptions that decoding raises
unfoldable pub is_decode_error : Error → Bool
is_decode_error key_error = true
is_decode_error value_error = true
is_decode_error other = false

-- `payload[0]`
unfoldable pub first_byte : Bytes → Result ℕ
first_byte [] = err index_error
first_byte (b ∷ bs) = ok b

module _ {F : Type 0} where
  -- `record.get(k, {})`
  abbrev pub part : Str → Fields F → Json F
  part k d = get_or k (object end) d

  -- `v.get(k, default)`, where `v` must be a dict
  unfoldable pub get_from : Str → Json F → Json F → Result (Json F)
  get_from k default v = do d ← as_dict v; ok (get_or k default d)

  -- `s.encode("utf-8")`, where `s` must be a text
  unfoldable pub encode_value : Json F → Result Bytes
  encode_value (text s) = encode_utf8 s
  encode_value other = err attribute_error

  -- `v[:n]` is possible.
  unfoldable pub sliceable : Json F → Result (Unit {0})
  sliceable (text s) = ok tt
  sliceable (array vs) = ok tt
  sliceable other = err type_error

module _ {F : Type 0} ⦃float : Float F⦄ (c : Crypto (Json F)) where
  -- `_verify_script_hash`
  unfoldable pub verify_script_hash : Fields F → Result (Option Bool)
  unfolding get_from encode_value
  verify_script_hash d = do
    let gs = part (codes "gee_script") d
    stored_hash ← get_from (codes "version_hash") (text []) gs
    preview ← get_from (codes "source_preview") (text []) gs
    if is_true preview
        then (do
          source ← encode_value preview
          ok (some (is_text (hex (c.sha256 source)) stored_hash)))
        else ok none

  -- `_verify_params_hash`
  unfoldable pub verify_params_hash : Fields F → Result Bool
  unfolding get_from
  verify_params_hash d = do
    let ip = part (codes "input_params") d
    stored ← get_from (codes "params_hash") (text []) ip
    params ← get_from (codes "params") (object end) ip
    computed ← params_hash_text c params
    ok (is_text computed stored)

  -- The fields of a payload against the values of the record.
  unfoldable pub field_errors : Bytes → (version : ℕ) → Json F → Json F → List (PayloadError F)
  unfolding int_from_bytes
  field_errors payload version expected_ov expected_ts =
      let stored_ov = int_from_bytes (slice 65 8 payload) in
      let stored_ts = int_from_bytes (slice 73 8 payload) in
      (if equals_int stored_ov expected_ov then [] else wrong_value stored_ov expected_ov ∷ [])
      ++ ((if equals_int stored_ts expected_ts then [] else wrong_time stored_ts expected_ts ∷ [])
          ++ (if version == 1 then [] else wrong_version version ∷ []))

  -- `_verify_payload_fields`
  unfoldable pub verify_payload_fields : Fields F → Result (List (PayloadError F))
  unfolding field_errors get_from first_byte
  verify_payload_fields d = do
    let att = part (codes "attestation") d
    let comp = part (codes "computation") d
    payload_hex ← get_from (codes "payload_hex") (text []) att
    size ← len payload_hex
    if size == 226
        then (do
          payload ← from_hex_value payload_hex
          expected_ov ← get_from (codes "output_value") null comp
          expected_ts ← get_from (codes "timestamp_utc") null comp
          version ← first_byte payload
          ok (field_errors payload version expected_ov expected_ts))
        else ok (wrong_length size ∷ [])

  -- The three fields that `_verify_signature` decodes.
  unfoldable pub decode_attestation : Json F → Result (Bytes × Bytes × Bytes)
  decode_attestation att = do
    key ← subscript (codes "public_key") att
    pubkey_bytes ← from_hex_value key
    signature ← subscript (codes "signature") att
    sig_bytes ← from_hex_value signature
    payload ← subscript (codes "payload_hex") att
    payload_bytes ← from_hex_value payload
    ok (pubkey_bytes, sig_bytes, payload_bytes)

  -- A key that has not 32 bytes is refused by the library, which is caught, too.
  unfoldable pub check_decoded : Result (Bytes × Bytes × Bytes) → Result SignatureCheck
  unfolding is_decode_error
  check_decoded (err e) = if is_decode_error e then ok undecodable else err e
  check_decoded (ok (key, signature, payload)) =
      ok (if length key == 32 && c.verifies key signature payload then valid else invalid)

  -- `_verify_signature`
  unfoldable pub verify_signature : (available : Bool) → Fields F → Result SignatureCheck
  unfolding decode_attestation check_decoded
  verify_signature false d = ok unavailable
  verify_signature true d = check_decoded (decode_attestation (part (codes "attestation") d))
