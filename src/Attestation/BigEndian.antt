-- ===== src/Attestation/BigEndian.antt =====
-- What `struct` and `int.to_bytes`/`int.from_bytes` do with the formats `B`, `q` and `32s`.
use mathlib.Core.List.{reverse, reverse-reverse, reverse-append}
use native.Mathlib.Nat.{pow-suc}
use stellar_kraal_contract.Common.{
  ℕ, zero, suc, ◌+◌, ◌-◌, ◌*◌, ◌/◌, ◌%◌, ◌^◌, ◌<◌, ◌≡◌, refl, ap, ◌∙◌, List, [], ◌∷◌, ◌++◌, arith,
  ltb, if◌then◌else◌, length, take, replicate, All, All-append, length-append, take_prefix,
}
use stellar_kraal_contract.Common.Int.{ℤ, pos, negsuc, in_i64, IsI64, in_i64_iff}
use stellar_kraal_contract.Common.Result.{Result, ok, err, struct_error}

abbrev pub Bytes : Type 0
Bytes = List ℕ

abbrev pub IsBytes : Bytes → Type 0
IsBytes = All (λ b. b < 256)

-- The `k` low bytes of `v`, the lowest first.
little : ℕ → ℕ → Bytes
little zero v = []
little (suc k) v = v % 256 ∷ little k (v / 256)

unlittle : Bytes → ℕ
unlittle [] = 0
unlittle (b ∷ bs) = b + 256 * unlittle bs

-- An unsigned number in `k` bytes, big-endian, and back.
unfoldable pub encode_be : ℕ → ℕ → Bytes
unfolding little
encode_be k v = reverse (little k v)

unfoldable pub decode_be : Bytes → ℕ
unfolding unlittle
decode_be bs = unlittle (reverse bs)

unlittle-little : (k v : ℕ) → v < 256 ^ k → unlittle (little k v) ≡ v
unfolding little unlittle
unlittle-little zero v h = omega arith
unlittle-little (suc k) v h =
    omega (arith, pow-suc 256 k, unlittle-little k (v / 256) (omega (arith, pow-suc 256 k)))

little-unlittle : (bs : Bytes) → IsBytes bs → little (length bs) (unlittle bs) ≡ bs
unfolding little unlittle
little-unlittle [] h = refl
little-unlittle (b ∷ bs) h =
    let q : (b + 256 * unlittle bs) / 256 ≡ unlittle bs = omega arith in
    let r : (b + 256 * unlittle bs) % 256 ≡ b = omega arith in rw (q, r, little-unlittle bs h.1)

unlittle-lt : (bs : Bytes) → IsBytes bs → unlittle bs < 256 ^ length bs
unfolding unlittle
unlittle-lt [] h = omega arith
unlittle-lt (b ∷ bs) h = omega (arith, pow-suc 256 (length bs), unlittle-lt bs h.1)

length-little : (k v : ℕ) → length (little k v) ≡ k
unfolding little
length-little zero v = refl
length-little (suc k) v = ap suc (length-little k (v / 256))

little-IsBytes : (k v : ℕ) → IsBytes (little k v)
unfolding little
little-IsBytes zero v = tt
little-IsBytes (suc k) v = (omega arith, little-IsBytes k (v / 256))

length-reverse : (bs : Bytes) → length (reverse bs) ≡ length bs
length-reverse [] = refl
length-reverse (b ∷ bs) = omega (
  arith,
  ap (length {0}) (reverse-append (b ∷ []) bs),
  length-append {0} (reverse bs) (b ∷ []),
  length-reverse bs,
)

reverse-IsBytes : (bs : Bytes) → IsBytes bs → IsBytes (reverse bs)
reverse-IsBytes [] h = tt
reverse-IsBytes (b ∷ bs) h =
    rw (reverse-append (b ∷ []) bs)
      (All-append (λ c. c < 256) (reverse bs) (b ∷ []) (reverse-IsBytes bs h.1) (h.0, tt))

pub length-encode_be : (k v : ℕ) → length (encode_be k v) ≡ k
unfolding encode_be
length-encode_be k v = length-reverse (little k v) ∙ length-little k v

pub encode_be-IsBytes : (k v : ℕ) → IsBytes (encode_be k v)
unfolding encode_be
encode_be-IsBytes k v = reverse-IsBytes (little k v) (little-IsBytes k v)

pub decode_be-encode_be : (k v : ℕ) → v < 256 ^ k → decode_be (encode_be k v) ≡ v
unfolding encode_be decode_be
decode_be-encode_be k v h = rw (reverse-reverse (little k v)) (unlittle-little k v h)

pub encode_be-decode_be : (bs : Bytes) → IsBytes bs → encode_be (length bs) (decode_be bs) ≡ bs
unfolding encode_be decode_be
encode_be-decode_be bs h =
    let back = little-unlittle (reverse bs) (reverse-IsBytes bs h) in
    let same = rw (length-reverse bs) at back in rw same (reverse-reverse bs)

pub decode_be-lt : (bs : Bytes) → IsBytes bs → decode_be bs < 256 ^ length bs
unfolding decode_be
decode_be-lt bs h = rw (length-reverse bs) at (unlittle-lt (reverse bs) (reverse-IsBytes bs h))

-- A signed 64-bit number as its two's complement, and back.
unfoldable pub to_word : ℤ → ℕ
to_word (pos n) = n
to_word (negsuc n) = 2 ^ 64 - 1 - n

unfoldable pub of_word : ℕ → ℤ
of_word w = if ltb w (2 ^ 63) then pos w else negsuc (2 ^ 64 - 1 - w)

of_word-to_word : (v : ℤ) → IsI64 v → of_word (to_word v) ≡ v
unfolding to_word of_word
of_word-to_word (pos n) h = ground arith
of_word-to_word (negsuc n) h = ground arith

to_word-of_word : (w : ℕ) → w < 2 ^ 64 → to_word (of_word w) ≡ w
unfolding to_word of_word
to_word-of_word w h = ground arith

to_word-lt : (v : ℤ) → IsI64 v → to_word v < 256 ^ 8
unfolding to_word
to_word-lt (pos n) h = omega arith
to_word-lt (negsuc n) h = omega arith

pub of_word-IsI64 : (w : ℕ) → w < 2 ^ 64 → IsI64 (of_word w)
unfolding of_word
of_word-IsI64 w h = ground arith

-- Format `q`: eight bytes, or `struct.error` outside the range of an i64.
unfoldable pub pack_q : ℤ → Result Bytes
pack_q v = if in_i64 v then ok (encode_be 8 (to_word v)) else err struct_error

unfoldable pub unpack_q : Bytes → ℤ
unpack_q bs = of_word (decode_be bs)

pub pack_q-ok : (v : ℤ) → IsI64 v → pack_q v ≡ ok (encode_be 8 (to_word v))
unfolding pack_q
pack_q-ok v h = rw ((in_i64_iff v).1 h)

pub unpack_q-encode : (v : ℤ) → IsI64 v → unpack_q (encode_be 8 (to_word v)) ≡ v
unfolding unpack_q
unpack_q-encode v h = rw (decode_be-encode_be 8 (to_word v) (to_word-lt v h)) (of_word-to_word v h)

pub unpack_q-IsI64 : (bs : Bytes) → IsBytes bs → length bs ≡ 8 → IsI64 (unpack_q bs)
unfolding unpack_q
unpack_q-IsI64 bs h e = of_word-IsI64 (decode_be bs) (rw e at (decode_be-lt bs h))

pub encode-unpack_q :
    (bs : Bytes) → IsBytes bs → length bs ≡ 8 → encode_be 8 (to_word (unpack_q bs)) ≡ bs
unfolding unpack_q
encode-unpack_q bs h e =
    let small : decode_be bs < 2 ^ 64 = rw e at (decode_be-lt bs h) in
    rw (to_word-of_word (decode_be bs) small) (rw e at (encode_be-decode_be bs h))

-- Format `32s`: cut or padded with zero bytes to 32.
unfoldable pub pack_32s : Bytes → Bytes
pack_32s bs = take 32 (bs ++ replicate 32 0)

-- Format `B`.
unfoldable pub pack_B : ℤ → Result ℕ
pack_B (pos n) = if ltb n 256 then ok n else err struct_error
pack_B (negsuc n) = err struct_error

pub pack_32s_exact : (bs : Bytes) → length bs ≡ 32 → pack_32s bs ≡ bs
unfolding pack_32s
pack_32s_exact bs e = take_prefix 32 bs (replicate 32 0) e
