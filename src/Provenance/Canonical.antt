-- ===== src/Provenance/Canonical.antt =====
-- `_build_canonical_payload` and `to_json`. The text of `json.dumps` with an indent is a parameter.
use stellar_kraal_contract.Common.{◌≡◌, refl, ◌∷◌, ◌++◌, length, ◌==◌}
use stellar_kraal_contract.Common.Int.{ℤ}
use stellar_kraal_contract.Common.Json.{Json, Fields}
use stellar_kraal_contract.Common.Result.{Result, ok, require, payload_bug, ◌>>=◌, ◌>>◌}
use stellar_kraal_contract.Common.Text.{Str}
use stellar_kraal_contract.Attestation.BigEndian.{Bytes, pack_q, pack_32s, pack_B}
use stellar_kraal_contract.Attestation.Payload.{AttestationPayload, to_bytes}
use stellar_kraal_contract.Attestation.Signer.{Crypto}
use stellar_kraal_contract.Provenance.Record.{ProvenanceRecord, to_dict}

-- `_build_canonical_payload`: `struct.pack` of its arguments, then the assertion on the length.
unfoldable pub build_canonical_payload :
    (schema_version : ℤ)
    → (script_hash_bytes input_params_hash_bytes : Bytes) → (output_value timestamp_utc : ℤ)
    → (feed_id_bytes : Bytes) → Result Bytes
build_canonical_payload schema_version script_hash_bytes input_params_hash_bytes output_value
      timestamp_utc feed_id_bytes =
    do
      version ← pack_B schema_version
      value ← pack_q output_value
      time ← pack_q timestamp_utc
      let buf =
          version ∷ pack_32s script_hash_bytes
          ++ (pack_32s input_params_hash_bytes ++ (value ++ (time ++ pack_32s feed_id_bytes)))
      require (length buf == 113) payload_bug
      ok buf

-- The layout of this copy is that of the payload that is signed.
pub build_canonical_payload-to_bytes :
    (p : AttestationPayload)
    → build_canonical_payload p.schema_version p.script_hash p.input_params_hash p.output_value
        p.timestamp_utc p.feed_id
      ≡ to_bytes p
unfolding build_canonical_payload to_bytes
build_canonical_payload-to_bytes p = refl

-- `to_json`
unfoldable pub to_json :
    {F : Type 0}
    → (indented : Fields F → Result Str) → Crypto (Json F)
    → (ℤ → Result Str)
    → ProvenanceRecord F
    → Result Str
unfolding to_dict
to_json indented c utc_iso r = do d ← to_dict c utc_iso r; indented d
