-- ===== src/Attestation/Hex.antt =====
-- `bytes.hex` and `bytes.fromhex`.
use stellar_kraal_contract.Common.{
  ℕ, ◌+◌, ◌-◌, ◌*◌, ◌/◌, ◌%◌, ◌<◌, ◌≡◌, refl, Bool, true, false, ◌&&◌, ◌||◌, [], ◌∷◌, arith, length,
  ltb, leb, ◌==◌, if◌then◌else◌, ◌∙◌, ap,
}
use stellar_kraal_contract.Common.Result.{Result, ok, err, ◌>>=◌, value_error}
use stellar_kraal_contract.Common.Text.{Str}
use stellar_kraal_contract.Attestation.BigEndian.{Bytes, IsBytes}

-- A lower-case digit, for a number below 16.
unfoldable pub hex_digit : ℕ → ℕ
hex_digit n = if ltb n 10 then 48 + n else 87 + n

unfoldable pub hex : Bytes → Str
unfolding hex_digit
hex [] = []
hex (b ∷ bs) = hex_digit (b / 16) ∷ hex_digit (b % 16) ∷ hex bs

-- A digit of either case.
unfoldable pub digit_value : ℕ → Result ℕ
digit_value c =
    if leb 48 c && leb c 57
    then ok (c - 48)
    else if leb 97 c && leb c 102
    then ok (c - 87)
    else if leb 65 c && leb c 70
    then ok (c - 55)
    else err value_error

-- ASCII white space.
unfoldable pub is_space : ℕ → Bool
is_space c = (leb 9 c && leb c 13) || c == 32

-- White space may stand between two bytes, not within one.
unfoldable pub from_hex : Str → Result Bytes
unfolding digit_value is_space
from_hex [] = ok []
from_hex (c ∷ []) = if is_space c then ok [] else err value_error
from_hex (c ∷ d ∷ s) = elim (is_space c) [
  | true ↦ from_hex (d ∷ s)
  | false ↦ do hi ← digit_value c; lo ← digit_value d; rest ← from_hex s; ok ((hi * 16 + lo) ∷ rest)
]

digit_value-hex_digit : (n : ℕ) → n < 16 → digit_value (hex_digit n) ≡ ok n
unfolding digit_value hex_digit
digit_value-hex_digit n h = ground arith

is_space-hex_digit : (n : ℕ) → n < 16 → is_space (hex_digit n) ≡ false
unfolding is_space hex_digit
is_space-hex_digit n h = ground arith

from_hex-pair :
    (c d hi lo : ℕ) (s : Str) (rest : Bytes)
    → is_space c ≡ false
    → digit_value c ≡ ok hi
    → digit_value d ≡ ok lo
    → from_hex s ≡ ok rest
    → from_hex (c ∷ d ∷ s) ≡ ok ((hi * 16 + lo) ∷ rest)
unfolding from_hex
from_hex-pair c d hi lo s rest a b e f = rw (a, b, e, f, from_hex)

-- Reading the hex text of some bytes gives those bytes.
pub from_hex-hex : (bs : Bytes) → IsBytes bs → from_hex (hex bs) ≡ ok bs
unfolding hex
from_hex-hex [] h = unfold from_hex in refl
from_hex-hex (b ∷ bs) h =
    let joined : b / 16 * 16 + b % 16 ≡ b = omega arith in
    from_hex-pair (hex_digit (b / 16)) (hex_digit (b % 16)) (b / 16) (b % 16) (hex bs) bs
      (is_space-hex_digit (b / 16) (omega (arith, h.0)))
      (digit_value-hex_digit (b / 16) (omega (arith, h.0)))
      (digit_value-hex_digit (b % 16) (omega arith)) (from_hex-hex bs h.1)
    ∙ ap (λ n. ok (n ∷ bs)) joined

pub length-hex : (bs : Bytes) → length (hex bs) ≡ length bs * 2
unfolding hex
length-hex [] = refl
length-hex (b ∷ bs) = omega (arith, length-hex bs)
