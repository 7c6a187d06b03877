-- ===== src/Common/Words.antt =====
-- Texts taken apart and made: `strip`, `split`, `int`, `:04d`.
use stellar_kraal_contract.Common.{
  replicate, select, ℕ, zero, suc, ◌+◌, ◌*◌, ◌-◌, ◌≡◌, refl, ap, sym, ◌∙◌, Bool, true, false, ◌&&◌,
  ◌||◌, List, [], ◌∷◌, ◌++◌, Option, none, some, length, ltb, leb, ◌==◌, if◌then◌else◌,
}
use stellar_kraal_contract.Common.Decimal.{decimal, number_from, number_from-decimal}
use stellar_kraal_contract.Common.Int.{ℤ, pos, negsuc}
use stellar_kraal_contract.Common.Text.{Str}

-- `c.isspace()`
unfoldable pub is_whitespace : ℕ → Bool
is_whitespace c =
    (leb 9 c && leb c 13)
    || (leb 28 c && leb c 32)
    || (c == 133 || c == 160 || c == 5760)
    || (leb 8192 c && leb c 8202)
    || (c == 8232 || c == 8233 || c == 8239 || c == 8287 || c == 12288)

unfoldable pub lstrip_space : Str → Str
unfolding is_whitespace
lstrip_space [] = []
lstrip_space (c ∷ s) = let rest = lstrip_space s in if is_whitespace c then rest else c ∷ s

-- A character before what is left of the others.
abbrev pub kept_after : ℕ → Str → Str
kept_after c [] = if is_whitespace c then [] else c ∷ []
kept_after c (d ∷ t) = c ∷ d ∷ t

unfoldable pub rstrip_space : Str → Str
rstrip_space [] = []
rstrip_space (c ∷ s) = kept_after c (rstrip_space s)

-- `s.strip()`
unfoldable pub strip : Str → Str
unfolding lstrip_space rstrip_space
strip s = rstrip_space (lstrip_space s)

-- `s.split(c)` for one character
unfoldable pub split_on : ℕ → Str → List Str
split_on c [] = [] ∷ []
split_on c (d ∷ s) = let rest = split_on c s in if d == c then [] ∷ rest else put d rest
  where
    put : ℕ → List Str → List Str
    put d [] = (d ∷ []) ∷ []
    put d (w ∷ ws) = (d ∷ w) ∷ ws

-- `s.split(c, 1)`, where `c in s`
unfoldable pub cut_at : ℕ → Str → Option (Str × Str)
cut_at c [] = none
cut_at c (d ∷ s) = let rest = cut_at c s in if d == c then some ([], s) else after d rest
  where
    after : ℕ → Option (Str × Str) → Option (Str × Str)
    after d none = none
    after d (some (k, v)) = some (d ∷ k, v)

-- `int` on a text. `digit` is the value of a decimal digit of Unicode.
module _ (digit : ℕ → Option ℕ) where
  -- Digits with single underscores between them; `after` tells whether a digit came before.
  unfoldable digits_value : (after : Bool) → ℕ → Str → Option ℕ
  digits_value after n [] = if after then some n else none
  digits_value after n (c ∷ s) = elim (digit c) [
    | some v ↦ digits_value true (10 * n + v) s
    | none ↦ let rest = digits_value false n s in if after && c == 95 then rest else none
  ]

  abbrev is_digit : ℕ → Bool
  is_digit c = elim (digit c) [ none ↦ false | some v ↦ true ]

  -- More than 4300 digits are refused.
  unfoldable unsigned_int : Str → Option ℕ
  unfolding digits_value
  unsigned_int s = if ltb 4300 (length (select is_digit s)) then none else digits_value false 0 s

  abbrev negated : Option ℕ → Option ℤ
  negated none = none
  negated (some zero) = some (pos 0)
  negated (some (suc n)) = some (negsuc n)

  abbrev nonnegative : Option ℕ → Option ℤ
  nonnegative none = none
  nonnegative (some n) = some (pos n)

  unfoldable signed_int : Str → Option ℤ
  unfolding unsigned_int
  signed_int [] = none
  signed_int (c ∷ s) =
      if c == 45
      then negated (unsigned_int s)
      else nonnegative (unsigned_int (if c == 43 then s else c ∷ s))

  -- `int(s)`, with none for `ValueError`
  unfoldable pub parse_int : Str → Option ℤ
  unfolding signed_int strip
  parse_int s = signed_int (strip s)

-- `f"{n:04d}"`
unfoldable pub four_digits : ℕ → Str
unfolding decimal
four_digits n = let s = decimal n in replicate (4 - length s) 48 ++ s

number_from-zeros : (k : ℕ) (s : Str) → number_from 0 (replicate k 48 ++ s) ≡ number_from 0 s
number_from-zeros zero s = refl
number_from-zeros (suc k) s = number_from-zeros k s

-- Different numbers are written differently.
pub four_digits_injective : (m n : ℕ) → four_digits m ≡ four_digits n → m ≡ n
unfolding four_digits
four_digits_injective m n h = sym (written m) ∙ ap (number_from 0) h ∙ written n
  where
    written : (k : ℕ) → number_from 0 (four_digits k) ≡ k
    written k = number_from-zeros (4 - length (decimal k)) (decimal k) ∙ number_from-decimal k
