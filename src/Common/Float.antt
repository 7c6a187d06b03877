-- ===== src/Common/Float.antt =====
-- Python's `float` as an interface: the operations that the bridge uses, with Python's exact
-- comparisons between an int and a float, and the laws of IEEE 754 doubles that it relies on.
-- No law is stated for NaN, which is the value that is not `<=` itself.
use mathlib.Core.Bool.{Bool, true, false}
use mathlib.Core.Path.{◌≡◌}
use stellar_kraal_contract.Common.Int.{ℤ, pos}

pub record Float (F : Type 0) : Type 0 where
  -- 0.0, and `float(n)`
  pub nought : F
  pub of_ℤ : ℤ → F
  pub add : F → F → F
  pub sub : F → F → F
  pub mul : F → F → F
  pub div : F → F → F
  pub abs : F → F
  -- `x <= y` and `x < y`
  pub le : F → F → Bool
  pub lt : F → F → Bool
  -- `n <= x` and `x <= n` for an int n
  pub int_le : ℤ → F → Bool
  pub le_int : F → ℤ → Bool
  -- `n / m` for ints
  pub int_div : ℤ → ℤ → F
  -- `int(x)`
  pub trunc : F → ℤ

infix 4 ◌≼◌
abbrev pub ◌≼◌ : {F : Type 0} ⦃d : Float F⦄ → F → F → Type 0
◌≼◌ ⦃d⦄ x y = d.le x y ≡ true

-- Not NaN.
abbrev pub IsNumber : {F : Type 0} ⦃d : Float F⦄ → F → Type 0
IsNumber ⦃d⦄ x = d.le x x ≡ true

-- The laws of the order, and of sums and halves of numbers that are not negative. All hold of IEEE
-- doubles, infinities included.
pub record IsOrdered (F : Type 0) ⦃d : Float F⦄ : Type 0 where
  pub nought_refl : d.nought ≼ d.nought
  pub nought_le-add : (x y : F) → d.nought ≼ x → d.nought ≼ y → d.nought ≼ d.add x y
  pub half_le : (x : F) → d.nought ≼ x → d.div x (d.of_ℤ (pos 2)) ≼ x
  pub le_of_lt : (x y : F) → d.lt x y ≡ true → x ≼ y
  pub le_of_not_lt : (x y : F) → IsNumber x → IsNumber y → d.lt y x ≡ false → x ≼ y
  pub add-le-add :
      (x y z : F) → IsNumber (d.add x y) → IsNumber (d.add x z) → y ≼ z → d.add x y ≼ d.add x z
