-- ===== src/Provenance/Acceptance.antt =====
-- Which records of `to_dict` pass `_lightweight_validate`.
use stellar_kraal_contract.Common.{
  ap, inl, inr, sym, ◌∙◌, ◌++◌, append-empty_iff, ℕ, ◌≡◌, refl, ◌↔◌, ◌⊎◌, Bool, true, false, List,
  [], ◌∷◌, Option, none, some, arith, length, ◌==◌, if◌then◌else◌, Bool-cases,
}
use stellar_kraal_contract.Common.Float.{Float}
use stellar_kraal_contract.Common.Int.{ℤ}
use stellar_kraal_contract.Common.Json.{
  Json, object, subscript, end, null, get_or, Fields, contained, is_text, has, text, field, get,
  equals_int, at, len,
}
use stellar_kraal_contract.Common.Result.{ok, Result}
use stellar_kraal_contract.Common.Text.{str_eq→eq, str_eq_refl, Str, codes, str_eq_iff, str_eq}
use stellar_kraal_contract.Attestation.Hex.{length-hex, hex}
use stellar_kraal_contract.Attestation.Signer.{Crypto}
use stellar_kraal_contract.Provenance.Record.{
  to_dict, ProvenanceRecord, record_dict, aggregation_block,
}
use stellar_kraal_contract.Provenance.Shape.{to_dict_shape}
use stellar_kraal_contract.Provenance.Validate.{
  missing_keys, check_type, aggregation_keys, check_aggregation, lightweight_validate, check_length,
  required_block,
}

-- `if x == n: no error`
abbrev unless_equal : ℕ → ℕ → Str → List Str
unless_equal n size message = if n == size then [] else message ∷ []

unless_equal-empty_iff :
    (n size : ℕ) (message : Str) → (unless_equal n size message ≡ []) ↔ (n ≡ size)
unless_equal-empty_iff n size message = ground arith

both : {P Q : Type 0} {xs ys : List Str} → (xs ≡ []) ↔ P → (ys ≡ []) ↔ Q → (xs ++ ys ≡ []) ↔ (P × Q)
both {xs = xs} {ys} p q =
    let each = append-empty_iff xs ys in
    (λ h. let (a, b) = each.0 h in (p.0 a, q.0 b), λ (a, b). each.1 (p.1 a, q.1 b))

check_type-empty_iff :
    (F : Type 0) (kind : Str)
    → (check_type {F = F} (text kind) ≡ [])
      ↔ ((kind ≡ codes "single") ⊎ (kind ≡ codes "aggregated"))
unfolding check_type is_text
check_type-empty_iff F kind =
    ground (arith, str_eq_iff kind (codes "single"), str_eq_iff kind (codes "aggregated"))

module _ {F : Type 0} where
  -- The keys that are not in a dict.
  unfoldable absent : Str → Fields F → List Str → List Str
  absent prefix d [] = []
  absent prefix d (k ∷ ks) =
      let rest = absent prefix d ks in if has k d then rest else (prefix ++ k) ∷ rest

  unfoldable pub HasKeys : Fields F → List Str → Type 0
  HasKeys d [] = Unit {0}
  HasKeys d (k ∷ ks) = (has k d ≡ true) × HasKeys d ks

  missing_keys-absent :
      (prefix : Str) (d : Fields F) (ks : List Str)
      → missing_keys prefix (object d) ks ≡ ok (absent prefix d ks)
  unfolding missing_keys absent contained
  missing_keys-absent prefix d [] = refl
  missing_keys-absent prefix d (k ∷ ks) = rw (missing_keys-absent prefix d ks) refl

  absent-empty_iff :
      (prefix : Str) (d : Fields F) (ks : List Str) → (absent prefix d ks ≡ []) ↔ HasKeys d ks
  unfolding absent HasKeys
  absent-empty_iff prefix d [] = (λ h. tt, λ h. refl)
  absent-empty_iff prefix d (k ∷ ks) = elim (Bool-cases (has k d)) [
    | inl there ↦
        rw (there, absent)
          (
            λ h. (refl, (absent-empty_iff prefix d ks).0 h),
            λ (_, h). (absent-empty_iff prefix d ks).1 h,
          )
    | inr other ↦ rw (other, absent) (λ h. absurd (cc h), λ (h, _). absurd (cc h))
  ]

  -- The metadata that the block of an aggregated record needs.
  unfoldable pub HasBlock : Option (Fields F) → Type 0
  HasBlock metadata = (m : Fields F) × (metadata ≡ some m) × HasKeys m aggregation_keys

  -- A record that is accepted.
  unfoldable pub IsAcceptable : ProvenanceRecord F → Type 0
  IsAcceptable r =
      (length r.attestation_public_key ≡ 64)
      × (length r.attestation_signature ≡ 128)
      × (length r.attestation_payload_bytes ≡ 113)
      × ((r.record_type ≡ codes "single")
          ⊎ ((r.record_type ≡ codes "aggregated") × HasBlock r.aggregation_metadata))

  block_errors : Option (Fields F) → List Str
  block_errors none = codes "aggregation block required for aggregated records" ∷ []
  block_errors (some end) = codes "aggregation block required for aggregated records" ∷ []
  block_errors (some (field k v d)) =
      absent (codes "Missing aggregation.") (field k v d) aggregation_keys

  some-HasBlock_iff : (d : Fields F) → HasKeys d aggregation_keys ↔ HasBlock (some d)
  unfolding HasBlock
  some-HasBlock_iff d =
      (λ keys. (d, refl, keys), λ (m, e, keys). let same : d ≡ m = cc e in rw same keys)

  block_errors-empty_iff : (m : Option (Fields F)) → (block_errors m ≡ []) ↔ HasBlock m
  unfolding HasBlock block_errors
  block_errors-empty_iff none = (λ h. absurd (cc h), λ (m, e, h). absurd (cc e))
  block_errors-empty_iff (some end) = (
    λ h. absurd (cc h),
    λ h. let keys = (some-HasBlock_iff end).1 h in unfold HasKeys has in absurd (cc (keys.0)),
  )
  block_errors-empty_iff (some (field k v d)) =
      let keys = absent-empty_iff (codes "Missing aggregation.") (field k v d) aggregation_keys in
      let block = some-HasBlock_iff (field k v d) in
      (λ h. block.0 (keys.0 h), λ h. keys.1 (block.1 h))

  required_block-found :
      (aggregated : Bool) (m : Option (Fields F))
      → (if aggregated
          then required_block
              (get_or (codes "aggregation") null (if aggregated then aggregation_block m else end))
          else ok [])
        ≡ ok (if aggregated then block_errors m else [])
  unfolding required_block get_or get str_eq block_errors
  required_block-found false m = refl
  required_block-found true none = refl
  required_block-found true (some end) = refl
  required_block-found true (some (field k v d)) =
      missing_keys-absent (codes "Missing aggregation.") (field k v d) aggregation_keys

  check_aggregation-block :
      (r : ProvenanceRecord F) (h s t : Str)
      → check_aggregation (record_dict r h s t)
        ≡ ok (
            if str_eq r.record_type (codes "aggregated")
            then block_errors r.aggregation_metadata
            else [])
  unfolding check_aggregation get_or get is_text str_eq
  check_aggregation-block r h s t =
      required_block-found (str_eq r.record_type (codes "aggregated")) r.aggregation_metadata

  -- What the checks of the lengths, the type and the block find.
  found : ProvenanceRecord F → List Str
  found r =
      check_type {F = F} (text r.record_type)
      ++ (unless_equal (length r.attestation_public_key) 64
            (codes "attestation.public_key must be 64 hex chars")
          ++ (unless_equal (length r.attestation_signature) 128
                (codes "attestation.signature must be 128 hex chars")
              ++ (unless_equal (length (hex r.attestation_payload_bytes)) 226
                    (codes "attestation.payload_hex must be 226 hex chars")
                  ++ (if str_eq r.record_type (codes "aggregated")
                      then block_errors r.aggregation_metadata
                      else []))))

  block_found_iff :
      (kind : Str) (m : Option (Fields F))
      → ((kind ≡ codes "single") ⊎ (kind ≡ codes "aggregated"))
          × ((if str_eq kind (codes "aggregated") then block_errors m else []) ≡ [])
        ↔ ((kind ≡ codes "single") ⊎ ((kind ≡ codes "aggregated") × HasBlock m))
  block_found_iff kind m =
      let block = block_errors-empty_iff m in
      elim (Bool-cases (str_eq kind (codes "aggregated"))) [
        | inl aggregated ↦
            let is_aggregated = str_eq→eq kind (codes "aggregated") aggregated in
            rw aggregated (
              λ (_, none_found). inr (is_aggregated, block.0 none_found),
              λ accepted. (inr is_aggregated, block.1 (whole is_aggregated accepted)),
            )
        | inr other ↦ rw other (
          λ (known, _). elim known [
            | inl single ↦ inl single
            | inr e ↦ absurd (cc (e, other, str_eq_refl (codes "aggregated")))
          ],
          λ accepted. (elim accepted [ inl single ↦ inl single | inr (e, _) ↦ inr e ], refl),
        )
      ]
    where
      whole :
          kind ≡ codes "aggregated"
          → (kind ≡ codes "single") ⊎ ((kind ≡ codes "aggregated") × HasBlock m)
          → HasBlock m
      whole e (inl single) = absurd (cc (e, single))
      whole e (inr (_, block)) = block

  found-empty_iff : (r : ProvenanceRecord F) → (found r ≡ []) ↔ IsAcceptable r
  unfolding found IsAcceptable
  found-empty_iff r =
      let kind = r.record_type in
      let block = block_found_iff kind r.aggregation_metadata in
      let parts = both (check_type-empty_iff F kind) (
        both (unless_equal-empty_iff (length r.attestation_public_key) 64 _) (
          both (unless_equal-empty_iff (length r.attestation_signature) 128 _) (
            both (unless_equal-empty_iff (length (hex r.attestation_payload_bytes)) 226 _)
              (λ h. h, λ h. h)))) in
      let size = length-hex r.attestation_payload_bytes in
      (
        λ h.
            let (known, (key, (signature, (payload, none_found)))) = parts.0 h in
            (key, signature, omega (arith, size, payload), block.0 (known, none_found)),
        λ (key, signature, payload, accepted).
            let (known, none_found) = block.1 accepted in
            parts.1 (known, (key, (signature, (omega (arith, size, payload), none_found)))),
      )

module _ {F : Type 0} ⦃float : Float F⦄ where
  listed :
      (r : ProvenanceRecord F) (h s t : Str)
      → lightweight_validate (record_dict r h s t) ≡ ok (found r)
  unfolding lightweight_validate missing_keys check_length contained has get_or get str_eq
      equals_int subscript at len found is_text
  listed r h s t = rw (check_aggregation-block r h s t) refl

module _ {F : Type 0} ⦃float : Float F⦄ (c : Crypto (Json F)) (utc_iso : ℤ → Result Str) where
  -- `_lightweight_validate` lists no error for what `to_dict` writes exactly if the texts of the
  -- public key and of the signature have 64 and 128 characters, the payload has 113 bytes, and the
  -- record is either single, or aggregated with metadata that have the five keys of the block.
  pub lightweight_validate_iff :
      (r : ProvenanceRecord F) (d : Fields F)
      → to_dict c utc_iso r ≡ ok d
      → (lightweight_validate d ≡ ok []) ↔ IsAcceptable r
  lightweight_validate_iff r d built =
      let (h, s, t, _, shape) = to_dict_shape c utc_iso r built in
      let empty = found-empty_iff r in
      let all_found = ap lightweight_validate shape ∙ listed r h s t in
      (
        λ none_found.
            empty.0 (let same : ok (found r) ≡ ok [] = sym all_found ∙ none_found in cc same),
        λ acceptable. all_found ∙ ap ok (empty.1 acceptable),
      )
