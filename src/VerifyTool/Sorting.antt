-- ===== src/VerifyTool/Sorting.antt =====
-- The checks of the parameters and of the payload do not see the order of its keys.
use stellar_kraal_contract.Common.{
  ℕ, ◌≡◌, refl, ap, inl, inr, Bool, true, false, [], arith, ◌==◌, Bool-cases,
}
use stellar_kraal_contract.Common.Float.{Float}
use stellar_kraal_contract.Common.Json.{
  Json, Fields, null, text, int, real, bool, object, array, end, as_dict, at, len, subscript,
}
use stellar_kraal_contract.Common.Result.{Result, ok, err, ◌>>=◌}
use stellar_kraal_contract.Common.SortKeys.{
  at-sort_fields, equals_int-sort_json, len-sort_json, subscript-sort_json, of_containers,
  sort_json, sort_fields, sort_result, get_or-sort_fields, is_text-sort_json,
}
use stellar_kraal_contract.Common.Text.{Str, codes}
use stellar_kraal_contract.Attestation.BigEndian.{Bytes}
use stellar_kraal_contract.Attestation.Signer.{Crypto}
use stellar_kraal_contract.Provenance.Record.{from_hex_value, params_hash_text}
use stellar_kraal_contract.Provenance.Sorting.{sorted_part, sort_result-then}
use stellar_kraal_contract.Provenance.Verify.{slice}
use stellar_kraal_contract.VerifyTool.Checks.{
  verify_payload_fields, verify_params_hash, field_errors, int_from_bytes, part, encode_value,
  first_byte, sliceable, get_from,
}
use stellar_kraal_contract.VerifyTool.Command.{payload_step, shown_hash, params_step, no_errors}

module _ {F : Type 0} where
  get_from-sort_json :
      (k : Str) (default v : Json F)
      → sort_json default ≡ default
      → get_from k default (sort_json v) ≡ sort_result (get_from k default v)
  unfolding get_from as_dict sort_json
  get_from-sort_json k default (object d) same = ap ok (get_or-sort_fields k default d same)
  get_from-sort_json k default (array vs) same = refl
  get_from-sort_json k default (text s) same = refl
  get_from-sort_json k default (int n) same = refl
  get_from-sort_json k default (real x) same = refl
  get_from-sort_json k default (bool b) same = refl
  get_from-sort_json k default null same = refl

  pub get_text :
      (k s : Str) (v : Json F)
      → get_from k (text s) (sort_json v) ≡ sort_result (get_from k (text s) v)
  unfolding sort_json
  get_text k s v = get_from-sort_json k (text s) v refl

  pub get_null :
      (k : Str) (v : Json F) → get_from k null (sort_json v) ≡ sort_result (get_from k null v)
  unfolding sort_json
  get_null k v = get_from-sort_json k null v refl

  pub get_dict :
      (k : Str) (v : Json F)
      → get_from k (object end) (sort_json v) ≡ sort_result (get_from k (object end) v)
  unfolding sort_json
  get_dict k v = get_from-sort_json k (object end) v refl

  pub encode_value-sort_json : (v : Json F) → encode_value (sort_json v) ≡ encode_value v
  unfolding encode_value
  encode_value-sort_json = of_containers encode_value (λ vs. refl) (λ d. refl)

  pub sliceable-sort_json : (v : Json F) → sliceable (sort_json v) ≡ sliceable v
  unfolding sliceable
  sliceable-sort_json = of_containers sliceable (λ vs. refl) (λ d. refl)

  pub from_hex_value-sort_json : (v : Json F) → from_hex_value (sort_json v) ≡ from_hex_value v
  unfolding from_hex_value
  from_hex_value-sort_json = of_containers from_hex_value (λ vs. refl) (λ d. refl)

  pub sort_result-twice :
      {A R : Type 0} (r : Result (Json F)) (f g : Json F → Result A) (k : A → Result R)
      → ((v : Json F) → (f (sort_json v) >>= k) ≡ (g v >>= k))
      → ((sort_result r >>= f) >>= k) ≡ ((r >>= g) >>= k)
  sort_result-twice (err e) f g k h = refl
  sort_result-twice (ok v) f g k h = h v

pub same-then :
    {A B : Type 0} (r : Result A) (f g : A → Result B)
    → ((a : A) → f a ≡ g a)
    → (r >>= f) ≡ (r >>= g)
same-then (err e) f g h = refl
same-then (ok a) f g h = h a

same-twice :
    {A B R : Type 0} (r : Result A) (f g : A → Result B) (k : B → Result R)
    → ((a : A) → (f a >>= k) ≡ (g a >>= k))
    → ((r >>= f) >>= k) ≡ ((r >>= g) >>= k)
same-twice (err e) f g k h = refl
same-twice (ok a) f g k h = h a

-- `json.dumps` with sorted keys does not see the order of the keys.
abbrev pub IsOrderFree : {F : Type 0} → Crypto (Json F) → Type 0
IsOrderFree {F} c = (v : Json F) → c.canonical_json (sort_json v) ≡ c.canonical_json v

module _ {F : Type 0} ⦃float : Float F⦄ (c : Crypto (Json F)) (order_free : IsOrderFree c) where
  pub params_hash_text-sort_json :
      (v : Json F) → params_hash_text c (sort_json v) ≡ params_hash_text c v
  unfolding params_hash_text
  params_hash_text-sort_json v = rw (order_free v) refl

  pub verify_params_hash-sort_fields :
      (d : Fields F) → verify_params_hash c (sort_fields d) ≡ verify_params_hash c d
  unfolding verify_params_hash
  verify_params_hash-sort_fields d =
      let ip = part (codes "input_params") d in
      rw
        (
          sorted_part (codes "input_params") d,
          get_text (codes "params_hash") [] ip,
          get_dict (codes "params") ip,
        )
        (sort_result-then (get_from (codes "params_hash") (text []) ip) _ _ (λ stored.
          sort_result-then (get_from (codes "params") (object end) ip) _ _ (λ params.
            rw (params_hash_text-sort_json params) (
              same-then (params_hash_text c params) _ _
                (λ computed. ap ok (is_text-sort_json computed stored))))))

  shown_hash-sort_fields :
      (matches : Bool) (d : Fields F)
      → shown_hash c matches (sort_fields d) ≡ shown_hash c matches d
  unfolding shown_hash
  shown_hash-sort_fields true d = rw (at-sort_fields (codes "input_params") d) (
      sort_result-then (at (codes "input_params") d) _ _ (λ ip.
        rw (subscript-sort_json (codes "params_hash") ip) (
          sort_result-then (subscript (codes "params_hash") ip) _ _
            (λ stored. rw (sliceable-sort_json stored) refl))))
  shown_hash-sort_fields false d =
      let ip = part (codes "input_params") d in
      rw (sorted_part (codes "input_params") d, get_text (codes "params_hash") (codes "N/A") ip)
        (sort_result-then (get_from (codes "params_hash") (text (codes "N/A")) ip) _ _
          (λ stored. rw (sliceable-sort_json stored) refl))

  pub params_step-sort_fields : (d : Fields F) → params_step c (sort_fields d) ≡ params_step c d
  unfolding params_step
  params_step-sort_fields d =
      rw (verify_params_hash-sort_fields d)
        (same-then (verify_params_hash c d) _ _ (λ matches. shown_hash-sort_fields matches d))

  field_errors-sort_json :
      (payload : Bytes) (version : ℕ) (value time : Json F)
      → no_errors (field_errors c payload version (sort_json value) (sort_json time))
        ≡ no_errors (field_errors c payload version value time)
  unfolding field_errors no_errors
  field_errors-sort_json payload version value time =
      let stored_ov = int_from_bytes (slice 65 8 payload) in
      let stored_ts = int_from_bytes (slice 73 8 payload) in
      rw (equals_int-sort_json stored_ov value, equals_int-sort_json stored_ts time) (ground arith)

  pub payload_step-sort_fields : (d : Fields F) → payload_step c (sort_fields d) ≡ payload_step c d
  unfolding payload_step verify_payload_fields
  payload_step-sort_fields d =
      let att = part (codes "attestation") d in
      let comp = part (codes "computation") d in
      rw
        (
          sorted_part (codes "attestation") d,
          sorted_part (codes "computation") d,
          get_text (codes "payload_hex") [] att,
          get_null (codes "output_value") comp,
          get_null (codes "timestamp_utc") comp,
        )
        (sort_result-twice (get_from (codes "payload_hex") (text []) att) _ _ _ (λ payload_hex.
          rw (len-sort_json payload_hex, from_hex_value-sort_json payload_hex)
            (same-twice (len payload_hex) _ _ _ (λ size. elim (Bool-cases (size == 226)) [
              | inr other ↦ rw other refl
              | inl long ↦ rw long (
                  same-twice (from_hex_value payload_hex) _ _ _ (λ payload.
                    sort_result-twice (get_from (codes "output_value") null comp) _ _ _ (λ value.
                      sort_result-twice (get_from (codes "timestamp_utc") null comp) _ _ _ (λ time.
                        same-twice (first_byte payload) _ _ _
                          (λ version. ap ok (field_errors-sort_json payload version value time))))))
            ]))))
