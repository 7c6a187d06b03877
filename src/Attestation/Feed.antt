-- ===== src/Attestation/Feed.antt =====
-- `pad_feed_id` against `rstrip("\x00")`, by which the bridge reads a padded identifier back.
use stellar_kraal_contract.Common.{
  ℕ, zero, suc, ◌-◌, ◌≤◌, ◌<◌, ◌≡◌, refl, Bool, true, false, ◌&&◌, [], ◌∷◌, ◌++◌, arith, ltb, ◌==◌,
  if◌then◌else◌, length, replicate, length-append, length-replicate, Bool-cases, inl, inr,
}
use stellar_kraal_contract.Common.Result.{ok, err, feed_id_too_long}
use stellar_kraal_contract.Attestation.BigEndian.{Bytes}
use stellar_kraal_contract.Attestation.Payload.{pad_feed_id}

abbrev is_empty : Bytes → Bool
is_empty [] = true
is_empty (b ∷ bs) = false

-- `s.rstrip("\x00")`
unfoldable pub rstrip : Bytes → Bytes
rstrip [] = []
rstrip (b ∷ bs) = let rest = rstrip bs in if b == 0 && is_empty rest then [] else b ∷ rest

rstrip-zeros : (n : ℕ) → rstrip (replicate n 0) ≡ []
unfolding rstrip
rstrip-zeros zero = refl
rstrip-zeros (suc n) = rw (rstrip-zeros n)

rstrip-append_zeros : (bs : Bytes) (n : ℕ) → rstrip (bs ++ replicate n 0) ≡ rstrip bs
unfolding rstrip
rstrip-append_zeros [] n = rstrip-zeros n
rstrip-append_zeros (b ∷ bs) n = rw (rstrip-append_zeros bs n)

-- `pad_feed_id` raises exactly for more than 32 bytes; otherwise it returns 32 bytes that begin
-- with the identifier, and that strip to what the identifier strips to.
pub pad_feed_id_lem :
    (raw : Bytes)
    → (32 < length raw → pad_feed_id raw ≡ err feed_id_too_long)
      × (length raw ≤ 32
          → (pad : Bytes) × (pad_feed_id raw ≡ ok (raw ++ pad))
            × (length (raw ++ pad) ≡ 32)
            × (rstrip (raw ++ pad) ≡ rstrip raw))
unfolding pad_feed_id
pad_feed_id_lem raw = (
  λ long. ground arith,
  λ short.
      let n = 32 - length raw in
      (
        replicate n 0,
        ground arith,
        omega (arith, length-append {0} raw (replicate n 0), length-replicate {0} {A = ℕ} n 0),
        rstrip-append_zeros raw n,
      ),
)

pad_feed_id-rstrip : (raw padded : Bytes) → pad_feed_id raw ≡ ok padded → rstrip padded ≡ rstrip raw
unfolding pad_feed_id
pad_feed_id-rstrip raw padded h = elim (Bool-cases (ltb 32 (length raw))) [
  | inl long ↦ absurd (cc (rw long at h))
  | inr short ↦
      let same : raw ++ replicate (32 - length raw) 0 ≡ padded = ground arith in
      rw (← same) (rstrip-append_zeros raw (32 - length raw))
]

-- Identifiers that do not end in a zero byte are kept apart by the padding.
pub pad_feed_id_injective :
    (a b padded : Bytes)
    → rstrip a ≡ a
    → rstrip b ≡ b
    → pad_feed_id a ≡ ok padded
    → pad_feed_id b ≡ ok padded
    → a ≡ b
pad_feed_id_injective a b padded sa sb pa pb =
    cc (pad_feed_id-rstrip a padded pa, pad_feed_id-rstrip b padded pb)
