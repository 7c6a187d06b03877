-- ===== src/Provenance/Verify.antt =====
-- `ProvenanceRecord.verify_hashes`
use stellar_kraal_contract.Common.{
  ℕ, ◌&&◌, List, [], ◌∷◌, ◌++◌, length, take, drop, ◌==◌, if◌then◌else◌, Bool,
}
use stellar_kraal_contract.Common.Int.{ℤ, leb_ℤ}
use stellar_kraal_contract.Common.Json.{Json, object, at, is_text, subscript}
use stellar_kraal_contract.Common.Result.{Result, ok, ◌>>=◌}
use stellar_kraal_contract.Common.Text.{Str, codes}
use stellar_kraal_contract.Attestation.BigEndian.{Bytes, unpack_q}
use stellar_kraal_contract.Attestation.Signer.{Crypto}
use stellar_kraal_contract.Provenance.Record.{ProvenanceRecord, params_hash_text, to_dict}

-- The errors that `verify_hashes` lists.
pub data HashError : Type 0 where
  params_hash_mismatch : HashError
  payload_length_mismatch : ℕ → HashError
  output_value_mismatch timestamp_mismatch : ℤ → ℤ → HashError

-- `payload[a:b]`
abbrev pub slice : ℕ → ℕ → Bytes → Bytes
slice start size payload = take size (drop start payload)

-- `x == y` for two ints
unfoldable pub int_eq : ℤ → ℤ → Bool
int_eq x y = leb_ℤ x y && leb_ℤ y x

-- The test of a field of the payload against the record.
unfoldable pub compare : (ℤ → ℤ → HashError) → ℤ → ℤ → List HashError
unfolding int_eq
compare mismatch stored expected =
    if int_eq stored expected then [] else mismatch stored expected ∷ []

-- The checks of the payload.
unfoldable pub payload_errors : ℤ → ℤ → Bytes → List HashError
unfolding compare
payload_errors output_value timestamp_utc payload =
    if length payload == 113
    then compare HashError.output_value_mismatch (unpack_q (slice 65 8 payload)) output_value
      ++ compare HashError.timestamp_mismatch (unpack_q (slice 73 8 payload)) timestamp_utc
    else HashError.payload_length_mismatch (length payload) ∷ []

module _ {F : Type 0} (c : Crypto (Json F)) (utc_iso : ℤ → Result Str) where
  -- The hash that is called stored is computed by `to_dict` from the same parameters.
  unfoldable pub verify_hashes : ProvenanceRecord F → Result (List HashError)
  unfolding payload_errors
  verify_hashes r = do
    expected_hash ← params_hash_text c (object r.input_params)
    d ← to_dict c utc_iso r
    input_params ← at (codes "input_params") d
    stored_hash ← subscript (codes "params_hash") input_params
    ok (
        (if is_text expected_hash stored_hash then [] else HashError.params_hash_mismatch ∷ [])
        ++ payload_errors r.output_value r.timestamp_utc r.attestation_payload_bytes)
