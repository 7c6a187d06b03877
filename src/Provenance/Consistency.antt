-- ===== src/Provenance/Consistency.antt =====
-- What an empty list of errors says.
use stellar_kraal_contract.Common.{
  append-empty_iff, ℕ, zero, suc, ◌+◌, ◌≡◌, refl, ap, sym, ◌∙◌, ◌↔◌, inl, inr, true, [], ◌∷◌, arith,
  length, take, drop, ◌==◌, Bool-cases, ==_iff,
}
use stellar_kraal_contract.Common.Int.{ℤ}
use stellar_kraal_contract.Common.Json.{Json, is_text, Fields, text, at, get, subscript}
use stellar_kraal_contract.Common.Result.{ok, Result}
use stellar_kraal_contract.Common.Text.{Str, str_eq_refl, str_eq}
use stellar_kraal_contract.Attestation.BigEndian.{Bytes, IsBytes, unpack_q}
use stellar_kraal_contract.Attestation.Payload.{
  AttestationPayload, from_bytes, unpack_fields, payload_len,
}
use stellar_kraal_contract.Attestation.Signer.{Crypto}
use stellar_kraal_contract.Attestation.Wire.{post_init-eq, from_bytes-to_bytes}
use stellar_kraal_contract.Provenance.Record.{to_dict, ProvenanceRecord}
use stellar_kraal_contract.Provenance.Shape.{to_dict_shape}
use stellar_kraal_contract.Provenance.Verify.{
  HashError, slice, int_eq, compare, payload_errors, verify_hashes,
}

int_eq_iff : (x y : ℤ) → (int_eq x y ≡ true) ↔ (x ≡ y)
unfolding int_eq
int_eq_iff x y = ground arith

compare-empty_iff : (mismatch : ℤ → ℤ → HashError) (x y : ℤ) → (compare mismatch x y ≡ []) ↔ (x ≡ y)
unfolding compare
compare-empty_iff mismatch x y = ground (arith, int_eq_iff x y)

payload_errors-empty_iff :
    (value time : ℤ) (payload : Bytes)
    → (payload_errors value time payload ≡ []) ↔ (
        (length payload ≡ 113)
        × (unpack_q (slice 65 8 payload) ≡ value)
        × (unpack_q (slice 73 8 payload) ≡ time))
unfolding payload_errors
payload_errors-empty_iff value time payload =
    let v =
      compare-empty_iff HashError.output_value_mismatch (unpack_q (slice 65 8 payload)) value in
    let t = compare-empty_iff HashError.timestamp_mismatch (unpack_q (slice 73 8 payload)) time in
    let both =
      append-empty_iff
        (compare HashError.output_value_mismatch (unpack_q (slice 65 8 payload)) value)
        (compare HashError.timestamp_mismatch (unpack_q (slice 73 8 payload)) time) in
    elim (Bool-cases (length payload == 113)) [
      | inl long ↦
          rw (long, payload_errors)
            (
              λ h. let (a, b) = both.0 h in ((==_iff (length payload) 113).0 long, v.0 a, t.0 b),
              λ (l, a, b). both.1 (v.1 a, t.1 b),
            )
      | inr other ↦
          rw (other, payload_errors)
            (
              λ h. absurd (cc h),
              λ (l, a, b). absurd (cc ((==_iff (length payload) 113).1 l, other)),
            )
    ]

drop-nil : (k : ℕ) → drop {A = ℕ} k [] ≡ []
drop-nil zero = refl
drop-nil (suc k) = refl

drop-drop : (m n : ℕ) (xs : Bytes) → drop m (drop n xs) ≡ drop (n + m) xs
drop-drop m zero xs = let same : m ≡ 0 + m = omega arith in ap (λ k. drop k xs) same
drop-drop m (suc n) [] = drop-nil m ∙ sym (drop-nil (suc n + m))
drop-drop m (suc n) (x ∷ xs) =
    let same : suc (n + m) ≡ suc n + m = omega arith in
    drop-drop m n xs ∙ ap (λ k. drop k (x ∷ xs)) same

-- A payload that is read has its value and its time where `verify_hashes` looks for them.
pub read_fields :
    (payload : Bytes) (p : AttestationPayload)
    → from_bytes payload ≡ ok p
    → (length payload ≡ 113)
      × (unpack_q (slice 65 8 payload) ≡ p.output_value)
      × (unpack_q (slice 73 8 payload) ≡ p.timestamp_utc)
unfolding from_bytes unpack_fields
read_fields [] p h = absurd (cc h)
read_fields (version ∷ rest) p h = elim (Bool-cases (length (version ∷ rest) == payload_len)) [
  | inr other ↦ absurd (cc (rw other at h))
  | inl long ↦
      let same : unpack_fields version rest ≡ p = post_init-eq _ p (rw long at h) in
      (
        (==_iff (length (version ∷ rest)) 113).0 long,
        ap (λ bs. unpack_q (take 8 bs)) (sym (drop-drop 32 32 rest))
            ∙ ap (λ q. q.output_value) same,
        ap (λ bs. unpack_q (take 8 bs))
              (sym (ap (drop 8) (drop-drop 32 32 rest) ∙ drop-drop 8 64 rest))
            ∙ ap (λ q. q.timestamp_utc) same,
      )
]

is_text_refl : (F : Type 0) (s : Str) → is_text {F = F} s (text s) ≡ true
unfolding is_text
is_text_refl F s = str_eq_refl s

module _ {F : Type 0} (c : Crypto (Json F)) (utc_iso : ℤ → Result Str) where
  -- The hash in the dict is the one that is computed, so only the payload is tested.
  verify_hashes_payload :
      (r : ProvenanceRecord F) {d : Fields F}
      → to_dict c utc_iso r ≡ ok d
      → verify_hashes c utc_iso r
        ≡ ok (payload_errors r.output_value r.timestamp_utc r.attestation_payload_bytes)
  unfolding verify_hashes at get subscript str_eq
  verify_hashes_payload r built =
      let (params_hash, submitted_iso, timestamp_iso, hashed, shape) =
        to_dict_shape c utc_iso r built in
      rw (hashed, built, shape, is_text_refl F params_hash)

  -- For a record that `to_dict` writes and whose payload is made of bytes, `verify_hashes` lists no
  -- error exactly if `from_bytes` reads the payload, with the value and the time of the record.
  pub verify_hashes_iff :
      (r : ProvenanceRecord F) (d : Fields F)
      → to_dict c utc_iso r ≡ ok d
      → IsBytes r.attestation_payload_bytes
      → (verify_hashes c utc_iso r ≡ ok []) ↔ (
          (p : AttestationPayload) × (from_bytes r.attestation_payload_bytes ≡ ok p)
          × (p.output_value ≡ r.output_value)
          × (p.timestamp_utc ≡ r.timestamp_utc))
  verify_hashes_iff r d built are_bytes =
      let payload = r.attestation_payload_bytes in
      let found = payload_errors r.output_value r.timestamp_utc payload in
      let listed = verify_hashes_payload r built in
      let empty = payload_errors-empty_iff r.output_value r.timestamp_utc payload in
      (
        λ h.
            let none_found : found ≡ [] = cc (listed, h) in
            let (long, value, time) = empty.0 none_found in
            let (p, parsed, _, _) = from_bytes-to_bytes payload are_bytes long in
            let (_, value', time') = read_fields payload p parsed in
            (p, parsed, sym value' ∙ value, sym time' ∙ time),
        λ (p, parsed, value, time).
            let (long, value', time') = read_fields payload p parsed in
            listed ∙ ap ok (empty.1 (long, value' ∙ value, time' ∙ time)),
      )
