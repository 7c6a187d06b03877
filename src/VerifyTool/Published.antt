-- ===== src/VerifyTool/Published.antt =====
-- The tool accepts the records that the bridge pins.
use stellar_kraal_contract.Common.{◌≡◌, refl, true, List, Option, length}
use stellar_kraal_contract.Common.Float.{Float}
use stellar_kraal_contract.Common.Int.{ℤ}
use stellar_kraal_contract.Common.Json.{Json, Fields}
use stellar_kraal_contract.Common.Result.{ok}
use stellar_kraal_contract.Common.Text.{Str}
use stellar_kraal_contract.Aggregation.Aggregate.{AggregationResult}
use stellar_kraal_contract.Attestation.BigEndian.{Bytes}
use stellar_kraal_contract.Attestation.Signer.{
  Crypto, attest, InputParams, SignedAttestation, IsSignatureScheme,
}
use stellar_kraal_contract.Attestation.Signing.{IsComplete}
use stellar_kraal_contract.Provenance.Record.{ProvenanceRecord, record_dict}
use stellar_kraal_contract.Provenance.Validate.{validate_provenance_record}
use stellar_kraal_contract.Bridge.Aggregated.{aggregated_record, marker, synthetic_input_params}
use stellar_kraal_contract.Bridge.Commit.{GeeResult, revealed}
use stellar_kraal_contract.Bridge.Process.{single_record, Services, signer_crypto, checked}
use stellar_kraal_contract.VerifyTool.Attested.{
  IsAttested, HasPreview, process_attested, aggregate_attested,
}
use stellar_kraal_contract.VerifyTool.Command.{conforms, verify_record}
use stellar_kraal_contract.VerifyTool.Steps.{
  params_step-passes, payload_step-passes, script_step-passes, signature_step-passes,
}

module _ {F : Type 0} ⦃float : Float F⦄ where
  -- A conforming record that holds an attestation passes all checks.
  pub attested-passes :
      (c : Crypto (Json F)) (jsonschema : Option (Fields F → List Str)) (p : ProvenanceRecord F)
      (d : Fields F)
      → IsAttested c jsonschema p d
      → HasPreview p
      → verify_record c jsonschema true true d ≡ ok 0
  unfolding verify_record conforms
  attested-passes c jsonschema p d k preview =
      let h = k.params_hash in
      let s = k.submitted_iso in
      let t = k.timestamp_iso in
      let clean : validate_provenance_record jsonschema (record_dict p h s t) ≡ ok tt =
        rw k.is_dict at k.conforms_eq in
      rw k.is_dict (
        rw
          (
            clean,
            params_step-passes c p h s t k.hash_eq,
            payload_step-passes c p h s t k.rest k.payload_eq k.payload_bytes k.payload_len
                k.value_eq k.time_eq,
            script_step-passes c p h s t preview.shown preview.encoded preview.preview,
            signature_step-passes c p h s t k.key k.signature k.key_eq k.signature_eq k.key_bytes
                k.signature_bytes k.payload_bytes k.key_len k.accepted,
          )
          refl)

module _ {F S : Type 0} ⦃float : Float F⦄ (env : Services F S)
    (laws : IsSignatureScheme (signer_crypto env.crypto)) (seed : Bytes) (long : length seed ≡ 32)
    (a : SignedAttestation) (complete : IsComplete a) (submitted_at : ℤ) (p : ProvenanceRecord F)
    (d : Fields F) (conforming : checked env (ok p) ≡ ok (p, d)) where
  -- With a key of 32 bytes: if `reveal` signs a result, the record of `process` for it conforms, and
  -- the attestation is made of bytes, then `verify` with the check of the signature ends with exit
  -- code 0 for the dict of that record.
  pub process_verifies :
      (r : GeeResult (Fields F))
      → revealed (signer_crypto env.crypto) seed r ≡ ok a
      → single_record env.crypto r a submitted_at ≡ ok p
      → verify_record env.crypto env.jsonschema true true d ≡ ok 0
  process_verifies r signed built =
      let (attested, preview) =
        process_attested env laws seed long a complete submitted_at p d conforming r signed built in
      attested-passes env.crypto env.jsonschema p d attested preview

  -- With a key of 32 bytes: if the aggregate is signed, its record conforms, and the attestation is
  -- made of bytes, then `verify` with the check of the signature ends with exit code 0 for the dict
  -- of that record.
  pub aggregate_verifies :
      (first : GeeResult (Fields F)) (agg : AggregationResult F) (timestamp_utc : ℤ)
      → attest
          (signer_crypto env.crypto)
          seed
          (marker env.crypto)
          (InputParams.dict (synthetic_input_params agg))
          agg.aggregate_value
          timestamp_utc
          first.feed_id
        ≡ ok a
      → aggregated_record env.crypto first agg timestamp_utc a submitted_at ≡ ok p
      → verify_record env.crypto env.jsonschema true true d ≡ ok 0
  aggregate_verifies first agg timestamp_utc signed built =
      let (attested, preview) =
        aggregate_attested env laws seed long a complete submitted_at p d conforming first agg
          timestamp_utc signed built in
      attested-passes env.crypto env.jsonschema p d attested preview
