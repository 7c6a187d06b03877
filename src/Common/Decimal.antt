-- ===== src/Common/Decimal.antt =====
-- `str(n)` of a natural number.
use stellar_kraal_contract.Common.{
  ℕ, zero, suc, ◌+◌, ◌*◌, ◌-◌, ◌/◌, ◌%◌, ◌<◌, ◌≤◌, ◌≡◌, refl, inl, inr, [], ◌∷◌, ◌++◌, arith, ltb,
  if◌then◌else◌, Bool-cases,
}
use stellar_kraal_contract.Common.Text.{Str}

-- The digits of a number below `10 ^ fuel`.
unfoldable digits : (fuel : ℕ) → ℕ → Str
digits zero n = []
digits (suc fuel) n =
    let rest = digits fuel (n / 10) in
    if ltb n 10 then (48 + n) ∷ [] else rest ++ ((48 + n % 10) ∷ [])

-- `str(n)`
unfoldable pub decimal : ℕ → Str
unfolding digits
decimal n = digits (suc n) n

-- The number that ASCII digits write behind `n`.
abbrev pub number_from : ℕ → Str → ℕ
number_from n [] = n
number_from n (c ∷ s) = number_from (10 * n + (c - 48)) s

pub number_from-append :
    (n : ℕ) (s t : Str) → number_from n (s ++ t) ≡ number_from (number_from n s) t
number_from-append n [] t = refl
number_from-append n (c ∷ s) t = number_from-append (10 * n + (c - 48)) s t

-- With a fuel above the number all its digits are there.
number_from-digits : (fuel n : ℕ) → n < fuel → number_from 0 (digits fuel n) ≡ n
unfolding digits
number_from-digits zero n h = absurd (omega (arith, h))
number_from-digits (suc fuel) n h = elim (Bool-cases (ltb n 10)) [
  | inl small ↦ rw small (omega arith)
  | inr big ↦
      let above : 10 ≤ n = ground arith in
      let shorter : n / 10 < fuel = omega (arith, above, h) in
      rw
        (
          big,
          number_from-append 0 (digits fuel (n / 10)) ((48 + n % 10) ∷ []),
          number_from-digits fuel (n / 10) shorter,
        )
        (omega arith)
]

-- The digits of a number write it.
pub number_from-decimal : (n : ℕ) → number_from 0 (decimal n) ≡ n
unfolding decimal
number_from-decimal n = number_from-digits (suc n) n (omega arith)
