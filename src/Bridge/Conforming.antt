-- ===== src/Bridge/Conforming.antt =====
-- The records that the bridge builds for what it signed conform to the schema.
use stellar_kraal_contract.Common.{◌≡◌, refl, inl, inr, none, some, arith, length}
use stellar_kraal_contract.Common.Float.{Float}
use stellar_kraal_contract.Common.Int.{ℤ}
use stellar_kraal_contract.Common.Json.{Fields, object, has}
use stellar_kraal_contract.Common.Result.{ok, >>=-eq-ok}
use stellar_kraal_contract.Common.Text.{Str, str_eq}
use stellar_kraal_contract.Aggregation.Aggregate.{AggregationResult}
use stellar_kraal_contract.Attestation.BigEndian.{Bytes}
use stellar_kraal_contract.Attestation.Hex.{hex, length-hex}
use stellar_kraal_contract.Attestation.Payload.{FeedId, to_bytes}
use stellar_kraal_contract.Attestation.Signer.{
  InputParams, IsSignatureScheme, SignedAttestation, attest, params_hash, canonical_params_hash,
}
use stellar_kraal_contract.Attestation.Signing.{IsSigned, attest-IsSigned}
use stellar_kraal_contract.Attestation.Wire.{to_bytes-from_bytes}
use stellar_kraal_contract.Provenance.Acceptance.{
  HasBlock, HasKeys, IsAcceptable, lightweight_validate_iff,
}
use stellar_kraal_contract.Provenance.Record.{
  ProvenanceRecord, to_dict, record_dict, params_hash_text,
}
use stellar_kraal_contract.Provenance.Validate.{aggregation_keys, validate_provenance_record}
use stellar_kraal_contract.Bridge.Aggregated.{
  synthetic_input_params, aggregated_record, aggregated_of, aggregation_metadata, marker,
}
use stellar_kraal_contract.Bridge.Commit.{GeeResult, revealed, script_hash}
use stellar_kraal_contract.Bridge.Process.{
  Services, checked, validated, single_record, feed_text, signer_crypto, single_of,
}

module _ {F : Type 0} ⦃float : Float F⦄ {S : Type 0} (env : Services F S) where
  checked-acceptable :
      (p : ProvenanceRecord F) (d : Fields F)
      → env.jsonschema ≡ none
      → to_dict env.crypto env.utc_iso p ≡ ok d
      → IsAcceptable p
      → checked env (ok p) ≡ ok (p, d)
  unfolding checked validated validate_provenance_record
  checked-acceptable p d lenient built acceptable =
      let clean = (lightweight_validate_iff env.crypto env.utc_iso p d built).1 acceptable in
      rw (built, clean, lenient)

module _ {F S : Type 0} ⦃float : Float F⦄ (env : Services F S)
    (laws : IsSignatureScheme (signer_crypto env.crypto)) where
  -- The sizes of what was signed.
  signed_sizes :
      {seed script : Bytes} {params : InputParams (Fields F)} {value time : ℤ} {raw : FeedId}
      {a : SignedAttestation}
      → length seed ≡ 32
      → IsSigned (signer_crypto env.crypto) seed script params value time raw a
      → (length (hex a.public_key) ≡ 64)
        × (length (hex a.signature) ≡ 128)
        × (message : Bytes) × (to_bytes a.payload ≡ ok message)
        × (length message ≡ 113)
  signed_sizes {a = a} long s =
      let (bytes, packed, size, _) =
        to_bytes-from_bytes a.payload s.payload_valid
          (record { version = 1; is_version = s.version_eq; small = omega arith }) in
      let key : length a.public_key ≡ 32 = rw s.key_eq (laws.key_len _ long) in
      let signature : length a.signature ≡ 64 =
        rw s.signature_eq (laws.signature_len _ s.message long) in
      (
        omega (arith, key, length-hex a.public_key),
        omega (arith, signature, length-hex a.signature),
        bytes,
        packed,
        size,
      )

  hashed :
      {seed script : Bytes} {params : Fields F} {value time : ℤ} {raw : FeedId}
      {a : SignedAttestation}
      → IsSigned (signer_crypto env.crypto) seed script (InputParams.dict params) value time raw a
      → (canonical : Bytes) × (env.crypto.canonical_json (object params) ≡ ok canonical)
  unfolding params_hash canonical_params_hash
  hashed {params = params} s =
      let (canonical, found, _) =
        >>=-eq-ok (env.crypto.canonical_json (object params)) _ s.hash_eq in
      (canonical, found)

  conforming :
      (p : ProvenanceRecord F) {submitted_iso timestamp_iso : Str}
      → (canonical : Bytes) × (env.crypto.canonical_json (object p.input_params) ≡ ok canonical)
      → env.utc_iso p.submitted_at_utc ≡ ok submitted_iso
      → env.utc_iso p.timestamp_utc ≡ ok timestamp_iso
      → env.jsonschema ≡ none
      → IsAcceptable p
      → (d : Fields F) × (checked env (ok p) ≡ ok (p, d))
  conforming p {submitted_iso} {timestamp_iso} (canonical, found) s_eq t_eq lenient acceptable =
      let d = record_dict p (hex (env.crypto.sha256 canonical)) submitted_iso timestamp_iso in
      let built : to_dict env.crypto env.utc_iso p ≡ ok d =
        unfold to_dict params_hash_text in rw (found, s_eq, t_eq) refl in
      (d, checked-acceptable env p d lenient built acceptable)

  -- If `reveal` can sign a result with a key of 32 bytes, its identifier is a text or decodes to
  -- one, both times have a text, and `jsonschema` is not installed, then the record of `process`
  -- conforms.
  pub process_conforms :
      (seed : Bytes) (r : GeeResult (Fields F)) (a : SignedAttestation) (submitted_at : ℤ)
      (feed submitted_iso timestamp_iso : Str)
      → length seed ≡ 32
      → revealed (signer_crypto env.crypto) seed r ≡ ok a
      → feed_text r.feed_id ≡ ok feed
      → env.utc_iso submitted_at ≡ ok submitted_iso
      → env.utc_iso r.timestamp_utc ≡ ok timestamp_iso
      → env.jsonschema ≡ none
      → (p : ProvenanceRecord F) × (d : Fields F) × (single_record env.crypto r a submitted_at
          ≡ ok p)
        × (checked env (ok p) ≡ ok (p, d))
  unfolding revealed IsAcceptable
  process_conforms seed r a submitted_at feed submitted_iso timestamp_iso long h feed_eq s_eq t_eq
        lenient =
      let (script, script_eq, signed) = >>=-eq-ok (script_hash (signer_crypto env.crypto) r) _ h in
      let s =
        attest-IsSigned (signer_crypto env.crypto) seed script (InputParams.dict r.input_params)
          r.output_value r.timestamp_utc r.feed_id signed in
      let (key, signature, payload, packed, size) = signed_sizes long s in
      let p = single_of env.crypto r a submitted_at script feed payload in
      let built : single_record env.crypto r a submitted_at ≡ ok p =
        unfold single_record in rw (script_eq, feed_eq, packed) refl in
      let (d, conforms) =
        conforming p (hashed s) s_eq t_eq lenient (key, signature, size, inl refl) in
      (p, d, built, conforms)

  -- If the synthetic result of an aggregation is signed with a key of 32 bytes, the identifier is a
  -- text or decodes to one, both times have a text, and `jsonschema` is not installed, then the
  -- record of `aggregate_and_submit` conforms, the aggregation block included.
  pub aggregate_conforms :
      (seed : Bytes) (first : GeeResult (Fields F)) (agg : AggregationResult F) (timestamp_utc : ℤ)
      (a : SignedAttestation) (submitted_at : ℤ) (feed submitted_iso timestamp_iso : Str)
      → length seed ≡ 32
      → attest
          (signer_crypto env.crypto)
          seed
          (marker env.crypto)
          (InputParams.dict (synthetic_input_params agg))
          agg.aggregate_value
          timestamp_utc
          first.feed_id
        ≡ ok a
      → feed_text first.feed_id ≡ ok feed
      → env.utc_iso submitted_at ≡ ok submitted_iso
      → env.utc_iso timestamp_utc ≡ ok timestamp_iso
      → env.jsonschema ≡ none
      → (p : ProvenanceRecord F) × (d : Fields F) × (aggregated_record env.crypto first agg
            timestamp_utc a submitted_at
          ≡ ok p)
        × (checked env (ok p) ≡ ok (p, d))
  unfolding aggregated_of IsAcceptable
  aggregate_conforms seed first agg timestamp_utc a submitted_at feed submitted_iso timestamp_iso
        long signed feed_eq s_eq t_eq lenient =
      let s =
        attest-IsSigned (signer_crypto env.crypto) seed (marker env.crypto)
          (InputParams.dict (synthetic_input_params agg)) agg.aggregate_value timestamp_utc
          first.feed_id signed in
      let (key, signature, payload, packed, size) = signed_sizes long s in
      let p = aggregated_of env.crypto first agg timestamp_utc a submitted_at feed payload in
      let built : aggregated_record env.crypto first agg timestamp_utc a submitted_at ≡ ok p =
        unfold aggregated_record in rw (feed_eq, packed) refl in
      let keys : HasKeys (aggregation_metadata agg) aggregation_keys =
        unfold HasKeys has aggregation_metadata str_eq in
        (refl, (refl, (refl, (refl, (refl, tt))))) in
      let block : HasBlock (some (aggregation_metadata agg)) =
        unfold HasBlock in (aggregation_metadata agg, refl, keys) in
      let (d, conforms) =
        conforming p (hashed s) s_eq t_eq lenient (key, signature, size, inr (refl, block)) in
      (p, d, built, conforms)
