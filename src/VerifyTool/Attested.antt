-- ===== src/VerifyTool/Attested.antt =====
-- What a conforming record that holds an attestation is made of, and that the bridge's records are
-- such records.
use stellar_kraal_contract.Common.{
  ◌≡◌, refl, sym, ◌∙◌, ◌⊎◌, inl, inr, true, List, [], ◌∷◌, Option, none, some, arith, length, take,
  All-append,
}
use stellar_kraal_contract.Common.Float.{Float}
use stellar_kraal_contract.Common.Int.{pos, ℤ}
use stellar_kraal_contract.Common.Json.{Json, object, Fields}
use stellar_kraal_contract.Common.Result.{>>=-eq-ok, ok}
use stellar_kraal_contract.Common.Text.{Str}
use stellar_kraal_contract.Common.Utf8.{encode_utf8}
use stellar_kraal_contract.Aggregation.Aggregate.{AggregationResult}
use stellar_kraal_contract.Attestation.BigEndian.{
  unpack_q, Bytes, IsBytes, encode_be, to_word, encode_be-IsBytes,
}
use stellar_kraal_contract.Attestation.Hex.{hex}
use stellar_kraal_contract.Attestation.Payload.{FeedId, AttestationPayload, IsValid, to_bytes}
use stellar_kraal_contract.Attestation.Signer.{
  Crypto, attest, InputParams, SignedAttestation, IsSignatureScheme,
}
use stellar_kraal_contract.Attestation.Signing.{attest-IsSigned, IsComplete, IsSigned}
use stellar_kraal_contract.Attestation.Wire.{to_bytes-from_bytes, body, to_bytes-eq}
use stellar_kraal_contract.Provenance.Consistency.{read_fields}
use stellar_kraal_contract.Provenance.Record.{
  params_hash_text, ProvenanceRecord, truthy, shorten, record_dict, to_dict,
}
use stellar_kraal_contract.Provenance.Shape.{to_dict_shape}
use stellar_kraal_contract.Provenance.Validate.{validate_provenance_record}
use stellar_kraal_contract.Provenance.Verify.{slice}
use stellar_kraal_contract.Bridge.Aggregated.{
  aggregated_record, aggregated_of, marker, synthetic_input_params,
}
use stellar_kraal_contract.Bridge.Commit.{GeeResult, revealed, script_hash}
use stellar_kraal_contract.Bridge.Process.{
  single_record, single_of, feed_text, Services, signer_crypto, checked, validated,
}
use stellar_kraal_contract.VerifyTool.Encoding.{encode_utf8-take}

-- A valid payload of version 1 that is made of bytes packs into bytes, with the version first.
packed :
    (p : AttestationPayload)
    → IsValid p
    → p.schema_version ≡ pos 1
    → IsBytes p.script_hash
    → IsBytes p.input_params_hash
    → IsBytes p.feed_id
    → (to_bytes p ≡ ok (1 ∷ body p)) × IsBytes (1 ∷ body p)
packed p valid version script params feed = (
  to_bytes-eq p valid 1 version (omega arith),
  (
    omega arith,
    All-append _ p.script_hash _ script (
        All-append _ p.input_params_hash _ params (
          All-append _ (encode_be 8 (to_word p.output_value)) _ (encode_be-IsBytes 8 _)
            (All-append _ (encode_be 8 (to_word p.timestamp_utc)) _ (encode_be-IsBytes 8 _) feed))),
  ),
)

-- A record with its dict, whose checks will pass.
pub record IsAttested {F : Type 0} ⦃float : Float F⦄ (c : Crypto (Json F))
    (jsonschema : Option (Fields F → List Str)) (p : ProvenanceRecord F) (d : Fields F)
    : Type 0 where
  pub params_hash : Str
  pub submitted_iso : Str
  pub timestamp_iso : Str
  pub is_dict : d ≡ record_dict p params_hash submitted_iso timestamp_iso
  pub hash_eq : params_hash_text c (object p.input_params) ≡ ok params_hash
  pub conforms_eq : validate_provenance_record jsonschema d ≡ ok tt
  pub key : Bytes
  pub signature : Bytes
  pub rest : Bytes
  pub key_eq : p.attestation_public_key ≡ hex key
  pub signature_eq : p.attestation_signature ≡ hex signature
  pub payload_eq : p.attestation_payload_bytes ≡ 1 ∷ rest
  pub key_bytes : IsBytes key
  pub signature_bytes : IsBytes signature
  pub payload_bytes : IsBytes p.attestation_payload_bytes
  pub key_len : length key ≡ 32
  pub payload_len : length p.attestation_payload_bytes ≡ 113
  pub value_eq : unpack_q (slice 65 8 p.attestation_payload_bytes) ≡ p.output_value
  pub time_eq : unpack_q (slice 73 8 p.attestation_payload_bytes) ≡ p.timestamp_utc
  pub accepted : c.verifies key signature p.attestation_payload_bytes ≡ true

-- The preview of a record is missing, or is a text that can be encoded.
pub record HasPreview {F : Type 0} (p : ProvenanceRecord F) : Type 0 where
  pub shown : Str
  pub encoded : Bytes
  pub preview :
      (shorten (truthy p.script_source_preview) ≡ none)
      ⊎ ((shorten (truthy p.script_source_preview) ≡ some shown) × (encode_utf8 shown ≡ ok encoded))

module _ {F S : Type 0} ⦃float : Float F⦄ (env : Services F S)
    (laws : IsSignatureScheme (signer_crypto env.crypto)) where
  module _ {seed script : Bytes} {params : InputParams (Fields F)} {value time : ℤ} {raw : FeedId}
      {a : SignedAttestation} (long : length seed ≡ 32)
      (s : IsSigned (signer_crypto env.crypto) seed script params value time raw a)
      (complete : IsComplete a) (p : ProvenanceRecord F) where
    attested :
        {d : Fields F}
        → checked env (ok p) ≡ ok (p, d)
        → p.attestation_public_key ≡ hex a.public_key
        → p.attestation_signature ≡ hex a.signature
        → to_bytes a.payload ≡ ok p.attestation_payload_bytes
        → p.output_value ≡ value
        → p.timestamp_utc ≡ time
        → IsAttested env.crypto env.jsonschema p d
    unfolding checked validated
    attested {d} conforming key_eq signature_eq payload_eq value_eq time_eq =
        let (e, written, h1) = >>=-eq-ok (validated env p) _ conforming in
        let (e2, built, h2) = >>=-eq-ok (to_dict env.crypto env.utc_iso p) _ written in
        let (u, clean, h3) = >>=-eq-ok (validate_provenance_record env.jsonschema e2) _ h2 in
        let same : e2 ≡ d = cc (h1, h3) in
        let (h, t, k, hashed, shape) = to_dict_shape env.crypto env.utc_iso p built in
        let (bytes_eq, are_bytes) =
          packed a.payload s.payload_valid s.version_eq complete.script_bytes complete.params_bytes
            complete.feed_bytes in
        let payload : p.attestation_payload_bytes ≡ 1 ∷ body a.payload =
          cc (payload_eq, bytes_eq) in
        let payload_bytes : IsBytes p.attestation_payload_bytes = rw payload are_bytes in
        let (bs, packs, _, back) =
          to_bytes-from_bytes a.payload s.payload_valid
            (record { version = 1; is_version = s.version_eq; small = omega arith }) in
        let bs_eq : bs ≡ p.attestation_payload_bytes = cc (packs, payload_eq) in
        let (size, value', time') =
          read_fields p.attestation_payload_bytes a.payload (rw bs_eq at back) in
        let message : s.message ≡ p.attestation_payload_bytes = cc (s.message_eq, payload_eq) in
        let accepted : env.crypto.verifies a.public_key a.signature p.attestation_payload_bytes
            ≡ true =
          rw (s.key_eq, s.signature_eq, ← message) (laws.accepts seed s.message long) in
        record {
          params_hash = h;
          submitted_iso = t;
          timestamp_iso = k;
          is_dict = sym same ∙ shape;
          hash_eq = hashed;
          conforms_eq = rw same at clean;
          key = a.public_key;
          signature = a.signature;
          rest = body a.payload;
          key_eq = key_eq;
          signature_eq = signature_eq;
          payload_eq = payload;
          key_bytes = complete.key_bytes;
          signature_bytes = complete.signature_bytes;
          payload_bytes = payload_bytes;
          key_len = complete.key_len;
          payload_len = size;
          value_eq = value' ∙ s.value_eq ∙ sym value_eq;
          time_eq = time' ∙ s.time_eq ∙ sym time_eq;
          accepted = accepted;
        }

preview_encodes :
    (t : Str) {b : Bytes}
    → encode_utf8 t ≡ ok b
    → (x : Str) × (y : Bytes) × ((shorten (truthy (some t)) ≡ none)
        ⊎ ((shorten (truthy (some t)) ≡ some x) × (encode_utf8 x ≡ ok y)))
preview_encodes [] h = ([], [], inl refl)
preview_encodes (k ∷ t) h =
    let (y, encoded) = encode_utf8-take 512 (k ∷ t) h in (take 512 (k ∷ t), y, inr (refl, encoded))

module _ {F S : Type 0} ⦃float : Float F⦄ (env : Services F S)
    (laws : IsSignatureScheme (signer_crypto env.crypto)) (seed : Bytes) (long : length seed ≡ 32)
    (a : SignedAttestation) (complete : IsComplete a) (submitted_at : ℤ) (p : ProvenanceRecord F)
    (d : Fields F) (conforming : checked env (ok p) ≡ ok (p, d)) where
  pub process_attested :
      (r : GeeResult (Fields F))
      → revealed (signer_crypto env.crypto) seed r ≡ ok a
      → single_record env.crypto r a submitted_at ≡ ok p
      → IsAttested env.crypto env.jsonschema p d × HasPreview p
  unfolding revealed single_record script_hash
  process_attested r signed built =
      let c = signer_crypto env.crypto in
      let (script, hashed, h) = >>=-eq-ok (script_hash c r) _ signed in
      let (source, encoded, _) = >>=-eq-ok (encode_utf8 r.script_source) _ hashed in
      let (script', _, b1) = >>=-eq-ok (script_hash c r) _ built in
      let (feed, _, b2) = >>=-eq-ok (feed_text r.feed_id) _ b1 in
      let (payload, packs, b3) = >>=-eq-ok (to_bytes a.payload) _ b2 in
      let is_p : single_of env.crypto r a submitted_at script' feed payload ≡ p = cc b3 in
      let (b, prefix) = encode_utf8-take 512 r.script_source encoded in
      let (x, y, preview) = preview_encodes (take 512 r.script_source) prefix in
      let s =
        attest-IsSigned c seed script (InputParams.dict r.input_params) r.output_value
          r.timestamp_utc r.feed_id h in
      rw (← is_p) (
        attested env laws long s complete
            (single_of env.crypto r a submitted_at script' feed payload) {d = d}
            (rw (← is_p) at conforming) refl refl packs refl refl,
        record { shown = x; encoded = y; preview = preview },
      )

  pub aggregate_attested :
      (first : GeeResult (Fields F)) (agg : AggregationResult F) (timestamp_utc : ℤ)
      → attest
          (signer_crypto env.crypto)
          seed
          (marker env.crypto)
          (InputParams.dict (synthetic_input_params agg))
          agg.aggregate_value
          timestamp_utc
          first.feed_id
        ≡ ok a
      → aggregated_record env.crypto first agg timestamp_utc a submitted_at ≡ ok p
      → IsAttested env.crypto env.jsonschema p d × HasPreview p
  unfolding aggregated_record aggregated_of
  aggregate_attested first agg timestamp_utc signed built =
      let (feed, _, b1) = >>=-eq-ok (feed_text first.feed_id) _ built in
      let (payload, packs, b2) = >>=-eq-ok (to_bytes a.payload) _ b1 in
      let is_p : aggregated_of env.crypto first agg timestamp_utc a submitted_at feed payload ≡ p =
        cc b2 in
      let s =
        attest-IsSigned (signer_crypto env.crypto) seed (marker env.crypto)
          (InputParams.dict (synthetic_input_params agg)) agg.aggregate_value timestamp_utc
          first.feed_id signed in
      rw (← is_p) (
        attested env laws long s complete
            (aggregated_of env.crypto first agg timestamp_utc a submitted_at feed payload) {d = d}
            (rw (← is_p) at conforming) refl refl packs refl refl,
        record { shown = []; encoded = []; preview = inl refl },
      )
