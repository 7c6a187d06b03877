-- ===== src/Common/Utf8.antt =====
-- `str.encode("utf-8")` and `bytes.decode("utf-8")`; their exceptions are `ValueError`s.
use Prim.Native.Nat.{ℕ, zero, suc, ◌+◌, ◌-◌, ◌*◌, ◌/◌, ◌%◌}
use mathlib.Core.Bool.{Bool, true, false, not, ◌&&◌}
use mathlib.Core.List.{List, [], ◌∷◌, ◌++◌}
use stellar_kraal_contract.Common.Result.{Result, ok, err, ◌>>=◌, value_error}
use stellar_kraal_contract.Common.Tests.{ltb, leb, if◌then◌else◌}
use stellar_kraal_contract.Common.Text.{Str}

-- A surrogate is a code point, but no character.
abbrev pub is_surrogate : ℕ → Bool
is_surrogate c = leb 55296 c && ltb c 57344

unfoldable pub encode_char : ℕ → Result (List ℕ)
encode_char c =
    if ltb c 128
    then ok (c ∷ [])
    else if ltb c 2048
    then ok ((192 + c / 64) ∷ (128 + c % 64) ∷ [])
    else if is_surrogate c
    then err value_error
    else if ltb c 65536
    then ok ((224 + c / 4096) ∷ (128 + c / 64 % 64) ∷ (128 + c % 64) ∷ [])
    else ok ((240 + c / 262144) ∷ (128 + c / 4096 % 64) ∷ (128 + c / 64 % 64) ∷ (128 + c % 64) ∷ [])

unfoldable pub encode_utf8 : Str → Result (List ℕ)
unfolding encode_char
encode_utf8 [] = ok []
encode_utf8 (c ∷ s) = do bytes ← encode_char c; rest ← encode_utf8 s; ok (bytes ++ rest)

-- What a first byte says: the bytes that follow, its own bits, and the least code point that needs
-- as many bytes.
pub data Lead : Type 0 where
  ascii : Lead
  lead : ℕ → ℕ → ℕ → Lead
  bad : Lead

lead_of : ℕ → Lead
lead_of b =
    if ltb b 128
    then ascii
    else if leb 194 b && ltb b 224
    then lead 1 (b - 192) 128
    else if leb 224 b && ltb b 240
    then lead 2 (b - 224) 2048
    else if leb 240 b && ltb b 245
    then lead 3 (b - 240) 65536
    else bad

is_char : ℕ → ℕ → Bool
is_char least c = leb least c && (ltb c 1114112 && not (is_surrogate c))

-- `left` bytes of a character are still to come, of which the bits so far are `acc`.
decode_from : (left acc least : ℕ) → List ℕ → Result Str
unfolding lead_of is_char
decode_from zero acc least [] = ok []
decode_from (suc left) acc least [] = err value_error
decode_from zero acc least (b ∷ bs) = elim (lead_of b) [
  | ascii ↦ do rest ← decode_from 0 0 0 bs; ok (b ∷ rest)
  | lead left bits lowest ↦ decode_from left bits lowest bs
  | bad ↦ err value_error
]
decode_from (suc zero) acc least (b ∷ bs) =
    elim (leb 128 b && (ltb b 192 && is_char least (acc * 64 + (b - 128)))) [
      | true ↦ do rest ← decode_from 0 0 0 bs; ok ((acc * 64 + (b - 128)) ∷ rest)
      | false ↦ err value_error
    ]
decode_from (suc (suc left)) acc least (b ∷ bs) = elim (leb 128 b && ltb b 192) [
  | true ↦ decode_from (suc left) (acc * 64 + (b - 128)) least bs
  | false ↦ err value_error
]

unfoldable pub decode_utf8 : List ℕ → Result Str
unfolding decode_from
decode_utf8 bytes = decode_from 0 0 0 bytes
