-- ===== src/Tests/Fixed.antt =====
-- Fixed-point numbers with three decimals: a concrete `Float` that meets the laws.
use stellar_kraal_contract.Common.{ℕ, suc, ◌/◌, ◌≡◌, refl, true, false, arith}
use stellar_kraal_contract.Common.Float.{Float, IsOrdered}
use stellar_kraal_contract.Common.Int as Int
use stellar_kraal_contract.Common.Int.{
  ℤ, pos, negsuc, pos_part, neg_part, sub_ℕ, ◌+ℤ◌, ◌-ℤ◌, ◌*ℤ◌, leb_ℤ, ltb_ℤ,
}

abbrev pub Fixed : Type 0
Fixed = ℤ

-- Division towards zero by a positive number.
abbrev pub quot : ℤ → ℕ → ℤ
quot a k = sub_ℕ (pos_part a / k) (neg_part a / k)

abbrev divide : ℤ → ℤ → ℤ
divide a (pos k) = quot a k
divide a (negsuc k) = quot (pos 0 -ℤ a) (suc k)

abbrev thousand : ℤ → ℤ
thousand n = n *ℤ pos 1000

instance abbrev pub fixed_float : Float Fixed
fixed_float = record {
  nought = pos 0;
  of_ℤ = thousand;
  add = ◌+ℤ◌;
  sub = ◌-ℤ◌;
  mul = λ a b. quot (a *ℤ b) 1000;
  div = λ a b. divide (thousand a) b;
  abs = Int.abs;
  le = leb_ℤ;
  lt = ltb_ℤ;
  int_le = λ n x. leb_ℤ (thousand n) x;
  le_int = λ x n. leb_ℤ x (thousand n);
  int_div = λ a b. divide (thousand a) b;
  trunc = λ x. quot x 1000;
}

half_le :
    (x : Fixed)
    → leb_ℤ (pos 0) x ≡ true
    → leb_ℤ (fixed_float.div x (fixed_float.of_ℤ (pos 2))) x ≡ true
unfolding ◌*ℤ◌
half_le (pos n) h = ground arith
half_le (negsuc n) h = ground arith

nought_le-add :
    (x y : Fixed) → leb_ℤ (pos 0) x ≡ true → leb_ℤ (pos 0) y ≡ true → leb_ℤ (pos 0) (x +ℤ y) ≡ true
unfolding ◌+ℤ◌
nought_le-add x y h k = ground arith

add-le-add : (x y z : Fixed) → leb_ℤ y z ≡ true → leb_ℤ (x +ℤ y) (x +ℤ z) ≡ true
unfolding ◌+ℤ◌
add-le-add x y z h = ground arith

lt-le : (x y : Fixed) → ltb_ℤ x y ≡ true → leb_ℤ x y ≡ true
lt-le x y h = ground arith

not_lt-le : (x y : Fixed) → ltb_ℤ y x ≡ false → leb_ℤ x y ≡ true
not_lt-le x y h = ground arith

pub Fixed-IsOrdered : IsOrdered Fixed
Fixed-IsOrdered = record {
  nought_refl = refl;
  nought_le-add = nought_le-add;
  half_le = half_le;
  le_of_lt = lt-le;
  le_of_not_lt = λ x y _ _ h. not_lt-le x y h;
  add-le-add = λ x y z _ _ h. add-le-add x y z h;
}
