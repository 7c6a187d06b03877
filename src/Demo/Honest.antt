-- ===== src/Demo/Honest.antt =====
-- What the server relies on: sizes and bytes of what the key makes, and that `unquote_plus` returns
-- a text. The attestations it signs are then complete.
use stellar_kraal_contract.Common.{
  ◌/◌, ◌%◌, ℕ, zero, suc, ◌+◌, ◌-◌, ◌<◌, ◌≡◌, inl, inr, [], ◌∷◌, ◌++◌, arith, length, ltb,
  Bool-cases, All, All-append, replicate,
}
use stellar_kraal_contract.Common.Json.{Fields}
use stellar_kraal_contract.Common.Result.{Result, ok, >>=-eq-ok}
use stellar_kraal_contract.Common.Text.{Str}
use stellar_kraal_contract.Common.Utf8.{is_surrogate, encode_utf8, encode_char}
use stellar_kraal_contract.Attestation.BigEndian.{Bytes, IsBytes}
use stellar_kraal_contract.Attestation.Payload.{FeedId, pad_feed, pad_feed_id, feed_bytes}
use stellar_kraal_contract.Attestation.Signer.{
  InputParams, SignedAttestation, IsSignatureScheme, params_hash, canonical_params_hash,
}
use stellar_kraal_contract.Attestation.Signing.{attest-IsSigned, IsComplete}
use stellar_kraal_contract.Bridge.Commit.{GeeResult, revealed, script_hash}
use stellar_kraal_contract.Bridge.Process.{signer_crypto}
use stellar_kraal_contract.Demo.World.{Setup}

-- Code points.
abbrev pub IsText : Str → Type 0
IsText = All (λ c. c < 1114112)

pub record IsHonest {F T : Type 0} (setup : Setup F T) : Type 0 where
  pub scheme : IsSignatureScheme (signer_crypto setup.crypto)
  pub seed_len : length setup.seed ≡ 32
  pub digest_bytes : (m : Bytes) → IsBytes (setup.crypto.sha256 m)
  pub key_bytes : IsBytes (setup.crypto.public_key setup.seed)
  pub signature_bytes : (m : Bytes) → IsBytes (setup.crypto.sign setup.seed m)
  pub unquoted : (s : Str) → IsText (setup.unquote_plus s)

encode_char-IsBytes : (c : ℕ) (bs : Bytes) → c < 1114112 → encode_char c ≡ ok bs → IsBytes bs
unfolding encode_char
encode_char-IsBytes c bs h e = elim (Bool-cases (ltb c 128)) [
  | inl one ↦ exact (c ∷ []) (ground arith) (rw one at e)
  | inr more ↦ elim (Bool-cases (ltb c 2048)) [
    | inl two ↦ exact ((192 + c / 64) ∷ (128 + c % 64) ∷ []) (ground arith) (rw (more, two) at e)
    | inr more2 ↦ elim (Bool-cases (is_surrogate c)) [
      | inl surrogate ↦ absurd (cc (rw (more, more2, surrogate) at e))
      | inr char ↦ elim (Bool-cases (ltb c 65536)) [
        | inl three ↦
            exact ((224 + c / 4096) ∷ (128 + c / 64 % 64) ∷ (128 + c % 64) ∷ []) (ground arith)
              (rw (more, more2, char, three) at e)
        | inr four ↦
            exact
              ((240 + c / 262144)
                ∷ (128 + c / 4096 % 64)
                ∷ (128 + c / 64 % 64)
                ∷ (128 + c % 64)
                ∷ [])
              (ground arith) (rw (more, more2, char, four) at e)
      ]
    ]
  ]
]
  where
    exact : (xs : Bytes) → IsBytes xs → ◌≡◌ {A = Result Bytes} (ok xs) (ok bs) → IsBytes bs
    exact xs k same = let q : xs ≡ bs = cc same in rw (← q) k

encode_utf8-IsBytes : (s : Str) (bs : Bytes) → IsText s → encode_utf8 s ≡ ok bs → IsBytes bs
unfolding encode_utf8
encode_utf8-IsBytes [] bs h e = let same : [] ≡ bs = cc e in rw (← same) tt
encode_utf8-IsBytes (c ∷ s) bs h e =
    let (first, e1, h1) = >>=-eq-ok (encode_char c) _ e in
    let (rest, e2, h2) = >>=-eq-ok (encode_utf8 s) _ h1 in
    let same : first ++ rest ≡ bs = cc h2 in
    rw (← same) (
      All-append _ first rest (encode_char-IsBytes c first h.0 e1)
        (encode_utf8-IsBytes s rest h.1 e2))

replicate-IsBytes : (n : ℕ) → IsBytes (replicate n 0)
replicate-IsBytes zero = tt
replicate-IsBytes (suc n) = (omega arith, replicate-IsBytes n)

pad_feed_id-IsBytes : (raw bs : Bytes) → IsBytes raw → pad_feed_id raw ≡ ok bs → IsBytes bs
unfolding pad_feed_id
pad_feed_id-IsBytes raw bs h e = elim (Bool-cases (ltb 32 (length raw))) [
  | inl long ↦ absurd (cc (rw long at e))
  | inr short ↦
      let same : raw ++ replicate (32 - length raw) 0 ≡ bs = cc (rw short at e) in
      rw (← same)
        (All-append _ raw (replicate (32 - length raw) 0) h (replicate-IsBytes (32 - length raw)))
]

module _ {F T : Type 0} (setup : Setup F T) (honest : IsHonest setup) where
  pub revealed-IsComplete :
      (r : GeeResult (Fields F)) (feed : Str) (a : SignedAttestation)
      → r.feed_id ≡ FeedId.as_text feed
      → IsText feed
      → revealed (signer_crypto setup.crypto) setup.seed r ≡ ok a
      → IsComplete a
  unfolding revealed script_hash params_hash canonical_params_hash pad_feed feed_bytes
  revealed-IsComplete r feed a is_text text_feed signed =
      let c = signer_crypto setup.crypto in
      let (script, hashed, h) = >>=-eq-ok (script_hash c r) _ signed in
      let (source, _, h1) = >>=-eq-ok (encode_utf8 r.script_source) _ hashed in
      let s =
        attest-IsSigned c setup.seed script (InputParams.dict r.input_params) r.output_value
          r.timestamp_utc r.feed_id h in
      let (canonical, _, h2) = >>=-eq-ok (c.canonical_json r.input_params) _ s.hash_eq in
      let (raw, encoded, padded) = >>=-eq-ok (encode_utf8 feed) _ (rw is_text at s.feed_eq) in
      let script_eq : a.payload.script_hash ≡ setup.crypto.sha256 source = cc (s.script_eq, h1) in
      let hash_eq : a.payload.input_params_hash ≡ setup.crypto.sha256 canonical = cc h2 in
      record {
        payload_valid = s.payload_valid;
        script_bytes = rw script_eq (honest.digest_bytes source);
        params_bytes = rw hash_eq (honest.digest_bytes canonical);
        feed_bytes =
            pad_feed_id-IsBytes raw a.payload.feed_id
              (encode_utf8-IsBytes feed raw text_feed encoded) padded;
        key_bytes = rw s.key_eq honest.key_bytes;
        signature_bytes = rw s.signature_eq (honest.signature_bytes s.message);
        key_len = rw s.key_eq (honest.scheme.key_len setup.seed honest.seed_len);
        signature_len =
            rw s.signature_eq (honest.scheme.signature_len setup.seed s.message honest.seed_len);
      }
