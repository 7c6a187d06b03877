-- ===== src/Aggregation/Number.antt =====
-- Python numbers that are an int or a float, `statistics.median`, and indexing of a list.
use stellar_kraal_contract.Common.{
  ℕ, suc, ◌-◌, ◌/◌, ◌%◌, ◌==◌, Bool, ◌&&◌, List, if◌then◌else◌, length, get_elem?, none, some, leb,
}
use stellar_kraal_contract.Common.Float.{Float}
use stellar_kraal_contract.Common.Int as Int
use stellar_kraal_contract.Common.Int.{ℤ, pos, negsuc, ◌+ℤ◌, ◌-ℤ◌, leb_ℤ}
use stellar_kraal_contract.Common.Result.{Result, ok, err, index_error, value_error}
use stellar_kraal_contract.Common.Sort.{sorted}

pub data Num (F : Type 0) : Type 0 where
  int : ℤ → Num F
  float : F → Num F

-- `xs[i]`; a negative index counts from the end.
unfoldable pub index : {A : Type 0} → List A → ℤ → Result A
index xs (pos n) = elim (get_elem? xs n) [ none ↦ err index_error | some x ↦ ok x ]
index xs (negsuc n) =
    if leb (length xs) n
    then err index_error
    else elim (get_elem? xs (length xs - suc n)) [ none ↦ err index_error | some x ↦ ok x ]

module _ {F : Type 0} ⦃d : Float F⦄ where
  -- `x <= y`
  unfoldable pub num_le : Num F → Num F → Bool
  num_le (int a) (int b) = leb_ℤ a b
  num_le (int a) (float y) = d.int_le a y
  num_le (float x) (int b) = d.le_int x b
  num_le (float x) (float y) = d.le x y

  -- `(x + y) / 2`
  unfoldable pub midpoint : Num F → Num F → F
  midpoint (int a) (int b) = d.int_div (a +ℤ b) (pos 2)
  midpoint (int a) (float y) = d.div (d.add (d.of_ℤ a) y) (d.of_ℤ (pos 2))
  midpoint (float x) (int b) = d.div (d.add x (d.of_ℤ b)) (d.of_ℤ (pos 2))
  midpoint (float x) (float y) = d.div (d.add x y) (d.of_ℤ (pos 2))

  -- `abs(v - x)` for an int v
  unfoldable pub distance : ℤ → Num F → Num F
  distance v (int a) = int (Int.abs (v -ℤ a))
  distance v (float x) = float (d.abs (d.sub (d.of_ℤ v) x))

  -- `x == 0`
  unfoldable pub is_zero : Num F → Bool
  is_zero (int a) = leb_ℤ a (pos 0) && leb_ℤ (pos 0) a
  is_zero (float x) = d.le_int x (pos 0) && d.int_le (pos 0) x

  -- `m * x` for a float m
  unfoldable pub scale : F → Num F → F
  scale m (int a) = d.mul m (d.of_ℤ a)
  scale m (float x) = d.mul m x

  unfoldable pub middle : List (Num F) → ℕ → Result (Num F)
  middle xs n = elim (get_elem? xs (n / 2)) [
    | none ↦ err value_error
    | some hi ↦ if n % 2 == 1 then ok hi else elim (get_elem? xs (n / 2 - 1)) [
      | none ↦ err value_error
      | some lo ↦ ok (float (midpoint lo hi))
    ]
  ]

  -- `statistics.median`; an empty list raises `StatisticsError`, a `ValueError`.
  unfoldable pub median : List (Num F) → Result (Num F)
  unfolding middle
  median xs = middle (sorted num_le xs) (length xs)
