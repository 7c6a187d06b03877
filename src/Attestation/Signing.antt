-- ===== src/Attestation/Signing.antt =====
-- What signing, verifying and the JSON envelope guarantee.
use mathlib.Core.Path.{subst}
use stellar_kraal_contract.Common.{◌≤◌, ◌≡◌, refl, sym, ap, ◌∙◌, ◌++◌, true, arith, length, ◌∷◌}
use stellar_kraal_contract.Common.Int.{ℤ, pos, IsI64}
use stellar_kraal_contract.Common.Result.{ok, >>=-eq-ok}
use stellar_kraal_contract.Attestation.BigEndian.{Bytes, IsBytes}
use stellar_kraal_contract.Attestation.Feed.{pad_feed_id_lem}
use stellar_kraal_contract.Attestation.Hex.{from_hex-hex}
use stellar_kraal_contract.Attestation.Payload.{
  AttestationPayload, schema_version_1, post_init, to_bytes, FeedId, feed_bytes, pad_feed, IsValid,
}
use stellar_kraal_contract.Attestation.Signer.{
  Crypto, IsSignatureScheme, InputParams, SignedAttestation, check_signed, params_hash, attest,
  verify, to_dict, from_dict,
}
use stellar_kraal_contract.Attestation.Wire.{post_init_iff, post_init-eq, to_bytes-eq, body}

check_signed-ok :
    (a : SignedAttestation)
    → length a.public_key ≡ 32
    → length a.signature ≡ 64
    → check_signed a ≡ ok a
unfolding check_signed
check_signed-ok a h k = ground arith

check_signed-eq : (a b : SignedAttestation) → check_signed a ≡ ok b → a ≡ b
unfolding check_signed
check_signed-eq a b h = ground arith

module _ {P : Type 0} (c : Crypto P) where
  abbrev signed_with : Bytes → AttestationPayload → Bytes → SignedAttestation
  signed_with seed p m = record {
    payload = p;
    public_key = c.public_key seed;
    signature = c.sign seed m;
  }

  -- What an attestation holds, of the arguments of `attest`.
  pub record IsSigned (seed script : Bytes) (params : InputParams P) (value time : ℤ) (raw : FeedId)
      (a : SignedAttestation) : Type 0 where
    pub hash_eq : params_hash c params ≡ ok a.payload.input_params_hash
    pub feed_eq : pad_feed raw ≡ ok a.payload.feed_id
    pub script_eq : a.payload.script_hash ≡ script
    pub value_eq : a.payload.output_value ≡ value
    pub time_eq : a.payload.timestamp_utc ≡ time
    pub version_eq : a.payload.schema_version ≡ pos 1
    pub payload_valid : IsValid a.payload
    pub key_eq : a.public_key ≡ c.public_key seed
    pub message : Bytes
    pub message_eq : to_bytes a.payload ≡ ok message
    pub signature_eq : a.signature ≡ c.sign seed message

  pub attest-IsSigned :
      (seed script : Bytes) (params : InputParams P) (value time : ℤ) (raw : FeedId)
      {a : SignedAttestation}
      → attest c seed script params value time raw ≡ ok a
      → IsSigned seed script params value time raw a
  unfolding attest
  attest-IsSigned seed script params value time raw {a} e =
      let (hash, hash_eq, e1) = >>=-eq-ok (params_hash c params) _ e in
      let (feed, feed_eq, e2) = >>=-eq-ok (pad_feed raw) _ e1 in
      let p : AttestationPayload = record {
        script_hash = script;
        input_params_hash = hash;
        output_value = value;
        timestamp_utc = time;
        feed_id = feed;
        schema_version = schema_version_1;
      } in
      let (q, accepted, e3) = >>=-eq-ok (post_init p) _ e2 in
      let (m, packed, e4) = >>=-eq-ok (to_bytes q) _ e3 in
      let same : p ≡ q = post_init-eq p q accepted in
      let valid : IsValid q =
        subst IsValid same ((post_init_iff p).0 (accepted ∙ ap ok (sym same))) in
      subst (IsSigned seed script params value time raw)
        (check_signed-eq (signed_with seed q m) a e4)
        (record {
          hash_eq = hash_eq ∙ ap (λ x. ok x.input_params_hash) same;
          feed_eq = feed_eq ∙ ap (λ x. ok x.feed_id) same;
          script_eq = ap (λ x. x.script_hash) (sym same);
          value_eq = ap (λ x. x.output_value) (sym same);
          time_eq = ap (λ x. x.timestamp_utc) (sym same);
          version_eq = ap (λ x. x.schema_version) (sym same);
          payload_valid = valid;
          key_eq = refl;
          message = m;
          message_eq = packed;
          signature_eq = refl;
        })

  module _ (laws : IsSignatureScheme c) where
    -- What `attest` returns carries the arguments it was given, is valid and of version 1, and is
    -- accepted by `verify` with the public key of the signer.
    pub attest-verify :
        (seed script : Bytes) (params : InputParams P) (value time : ℤ) (raw : FeedId)
        {a : SignedAttestation}
        → length seed ≡ 32
        → attest c seed script params value time raw ≡ ok a
        → IsSigned seed script params value time raw a × (verify c (c.public_key seed) a ≡ true)
    unfolding verify
    attest-verify seed script params value time raw {a} long e =
        let s = attest-IsSigned seed script params value time raw e in
        (s, rw (s.message_eq, s.signature_eq, verify) (laws.accepts seed s.message long))

    -- With a script hash and a parameter hash of 32 bytes, an identifier that is encoded in at most 32 bytes, and a
    -- value and a time that fit in 64 bits, `attest` returns an attestation, and it is accepted.
    pub attest_total :
        (seed script hash raw : Bytes) (params : InputParams P) (value time : ℤ) (feed : FeedId)
        → length seed ≡ 32
        → length script ≡ 32
        → params_hash c params ≡ ok hash
        → length hash ≡ 32
        → IsI64 value
        → IsI64 time
        → feed_bytes feed ≡ ok raw
        → length raw ≤ 32
        → (a : SignedAttestation) × (attest c seed script params value time feed ≡ ok a)
          × (verify c (c.public_key seed) a ≡ true)
    unfolding attest pad_feed
    attest_total seed script hash raw params value time feed long script_len hash_eq hash_len
          value_fits time_fits feed_eq short =
        let (pad, padded, feed_len, _) = (pad_feed_id_lem raw).1 short in
        let p : AttestationPayload = record {
          script_hash = script;
          input_params_hash = hash;
          output_value = value;
          timestamp_utc = time;
          feed_id = raw ++ pad;
          schema_version = schema_version_1;
        } in
        let valid : IsValid p = record {
          script_len = script_len;
          params_len = hash_len;
          feed_len = feed_len;
          value_fits = value_fits;
          time_fits = time_fits;
        } in
        let packed = to_bytes-eq p valid 1 refl (omega arith) in
        let made : attest c seed script params value time feed
            ≡ ok (signed_with seed p (1 ∷ body p)) =
          rw (hash_eq, feed_eq, padded, (post_init_iff p).1 valid, packed)
            (check_signed-ok (signed_with seed p (1 ∷ body p)) (laws.key_len seed long)
              (laws.signature_len seed _ long)) in
        (
          signed_with seed p (1 ∷ body p),
          made,
          (attest-verify seed script params value time feed long made).1,
        )

-- A complete attestation: a valid payload of bytes, a key of 32 and a signature of 64 bytes.
pub record IsComplete (a : SignedAttestation) : Type 0 where
  pub payload_valid : IsValid a.payload
  pub script_bytes : IsBytes a.payload.script_hash
  pub params_bytes : IsBytes a.payload.input_params_hash
  pub feed_bytes : IsBytes a.payload.feed_id
  pub key_bytes : IsBytes a.public_key
  pub signature_bytes : IsBytes a.signature
  pub key_len : length a.public_key ≡ 32
  pub signature_len : length a.signature ≡ 64

-- The JSON envelope of a complete attestation is read back as that attestation.
pub from_dict-to_dict : (a : SignedAttestation) → IsComplete a → from_dict (to_dict a) ≡ ok a
unfolding from_dict to_dict
from_dict-to_dict a h =
    rw
      (
        from_hex-hex a.payload.script_hash h.script_bytes,
        from_hex-hex a.payload.input_params_hash h.params_bytes,
        from_hex-hex a.payload.feed_id h.feed_bytes,
        (post_init_iff a.payload).1 h.payload_valid,
        from_hex-hex a.public_key h.key_bytes,
        from_hex-hex a.signature h.signature_bytes,
      )
      (check_signed-ok a h.key_len h.signature_len)
