-- ===== src/Common/Text.antt =====
-- Python's `str` as its code points: equality, the lexicographic order, and literals.
use Prim.Native.Char.{code}
use Prim.Native.Nat.{ℕ}
use Prim.Native.String.{String}
use mathlib.Core.Bool.{Bool, true, false, ◌&&◌, ◌||◌}
use mathlib.Core.List.{List, [], ◌∷◌}
use mathlib.Core.Logic.{◌⊎◌, inl, inr, ◌↔◌}
use mathlib.Core.Path.{◌≡◌, refl}
use native.Mathlib.Omega.{arith}
use stellar_kraal_contract.Common.Tests.{◌==◌, ltb, if◌then◌else◌}

abbrev pub Str : Type 0
Str = List ℕ

-- A literal of the source; `String` has its own `[]` and `∷`.
abbrev pub codes : String → Str
codes String.[] = []
codes (String.◌∷◌ c s) = code c ∷ codes s

-- `s == t`
unfoldable pub str_eq : Str → Str → Bool
str_eq [] [] = true
str_eq [] (d ∷ t) = false
str_eq (c ∷ s) [] = false
str_eq (c ∷ s) (d ∷ t) = c == d && str_eq s t

-- `s <= t`, by code point
unfoldable pub str_le : Str → Str → Bool
str_le [] t = true
str_le (c ∷ s) [] = false
str_le (c ∷ s) (d ∷ t) = ltb c d || (c == d && str_le s t)

-- `s.startswith(t)`
unfoldable pub starts_with : Str → Str → Bool
starts_with [] s = true
starts_with (c ∷ t) [] = false
starts_with (c ∷ t) (d ∷ s) = c == d && starts_with t s

-- `t in s`
unfoldable pub occurs_in : Str → Str → Bool
unfolding starts_with
occurs_in t [] = starts_with t []
occurs_in t (c ∷ s) = starts_with t (c ∷ s) || occurs_in t s

-- `s.rstrip(c)` for one character
unfoldable pub rstrip : ℕ → Str → Str
rstrip c [] = []
rstrip c (d ∷ s) = strip_after d (rstrip c s)
  where
    strip_after : ℕ → Str → Str
    strip_after d [] = if d == c then [] else d ∷ []
    strip_after d (e ∷ t) = d ∷ e ∷ t

pub str_eq→eq : (s t : Str) → str_eq s t ≡ true → s ≡ t
unfolding str_eq
str_eq→eq [] [] h = refl
str_eq→eq [] (d ∷ t) h = ground arith
str_eq→eq (c ∷ s) [] h = ground arith
str_eq→eq (c ∷ s) (d ∷ t) h = ground (arith, str_eq→eq s t)

pub str_eq_refl : (s : Str) → str_eq s s ≡ true
unfolding str_eq
str_eq_refl [] = refl
str_eq_refl (c ∷ s) = ground (arith, str_eq_refl s)

pub str_eq_iff : (s t : Str) → (str_eq s t ≡ true) ↔ (s ≡ t)
str_eq_iff s t = (str_eq→eq s t, λ e. rw e (str_eq_refl t))

pub str_le_refl : (s : Str) → str_le s s ≡ true
unfolding str_le
str_le_refl [] = refl
str_le_refl (c ∷ s) = ground (arith, str_le_refl s)

pub str_le_total : (s t : Str) → (str_le s t ≡ true) ⊎ (str_le t s ≡ true)
unfolding str_le
str_le_total [] t = inl refl
str_le_total (c ∷ s) [] = inr refl
str_le_total (c ∷ s) (d ∷ t) = ground (arith, str_le_total s t)

pub str_le_trans : (s t u : Str) → str_le s t ≡ true → str_le t u ≡ true → str_le s u ≡ true
unfolding str_le
str_le_trans [] t u p q = refl
str_le_trans (c ∷ s) [] u p q = ground arith
str_le_trans (c ∷ s) (d ∷ t) [] p q = ground arith
str_le_trans (c ∷ s) (d ∷ t) (e ∷ u) p q = ground (arith, str_le_trans s t u)

pub str_le_antisymm : (s t : Str) → str_le s t ≡ true → str_le t s ≡ true → s ≡ t
unfolding str_le
str_le_antisymm [] [] p q = refl
str_le_antisymm [] (d ∷ t) p q = ground arith
str_le_antisymm (c ∷ s) [] p q = ground arith
str_le_antisymm (c ∷ s) (d ∷ t) p q = ground (arith, str_le_antisymm s t)
