-- ===== src/Common/Sort.antt =====
-- Python's `sorted(xs, key=…)`, for an order `le` by the key: a stable sort. Elements with equal
-- keys keep the order of the input.
use Prim.Native.Nat.{suc}
use mathlib.Core.Bool.{Bool, true}
use mathlib.Core.List.{List, [], ◌∷◌, ◌++◌, Permᴰ}
use mathlib.Core.Logic.{◌⊎◌, inl, inr}
use mathlib.Core.List.Permᴰ
use mathlib.Core.Path.{◌≡◌, refl, sym, ap, ◌∙◌, subst}
use native.Mathlib.Omega.{arith}
use stellar_kraal_contract.Common.Lists.{length, All, In, All-In, In-append_right}
use stellar_kraal_contract.Common.Tests.{if◌then◌else◌, Bool-cases}

module _ {A : Type 0} (le : A → A → Bool) where
  unfoldable pub insort : A → List A → List A
  insort x [] = x ∷ []
  insort x (y ∷ ys) = if le x y then x ∷ y ∷ ys else y ∷ insort x ys

  unfoldable pub sorted : List A → List A
  unfolding insort
  sorted [] = []
  sorted (x ∷ xs) = insort x (sorted xs)

  -- Each element is at most every later one.
  abbrev pub IsSorted : List A → Type 0
  IsSorted [] = Unit
  IsSorted (x ∷ xs) = All (λ y. le x y ≡ true) xs × IsSorted xs

  length-insort : (x : A) (ys : List A) → length (insort x ys) ≡ suc (length ys)
  unfolding insort
  length-insort x [] = refl
  length-insort x (y ∷ ys) = ground (arith, length-insort x ys)

  pub length-sorted : (xs : List A) → length (sorted xs) ≡ length xs
  unfolding sorted
  length-sorted [] = refl
  length-sorted (x ∷ xs) = length-insort x (sorted xs) ∙ ap suc (length-sorted xs)

  insort-perm : (x : A) (ys : List A) → Permᴰ (insort x ys) (x ∷ ys)
  unfolding insort
  insort-perm x [] = Permᴰ.refl (x ∷ [])
  insort-perm x (y ∷ ys) = elim (Bool-cases (le x y)) [
    | inl e ↦ rw e (Permᴰ.refl (x ∷ y ∷ ys))
    | inr e ↦ rw e (Permᴰ.trans (Permᴰ.cons {a = y} refl (insort-perm x ys)) (Permᴰ.swap refl refl))
  ]

  -- `sorted` loses and invents nothing.
  pub sorted-perm : (xs : List A) → Permᴰ (sorted xs) xs
  unfolding sorted
  sorted-perm [] = Permᴰ.nil
  sorted-perm (x ∷ xs) = Permᴰ.trans (insort-perm x (sorted xs)) (Permᴰ.cons refl (sorted-perm xs))

  abbrev pub IsTotal : Type 0
  IsTotal = (x y : A) → (le x y ≡ true) ⊎ (le y x ≡ true)

  abbrev pub IsTransitive : Type 0
  IsTransitive = (x y z : A) → le x y ≡ true → le y z ≡ true → le x z ≡ true

  -- Neither element is below the other both ways: their keys differ.
  abbrev pub Apart : A → A → Type 0
  Apart x y = le x y ≡ true → le y x ≡ true → ⊥

  abbrev pub IsDistinct : List A → Type 0
  IsDistinct [] = Unit
  IsDistinct (x ∷ xs) = All (Apart x) xs × IsDistinct xs

  module _ (total : IsTotal) (trans : IsTransitive) where
    All-insort :
        (z x : A) (ys : List A)
        → le z x ≡ true
        → All (λ y. le z y ≡ true) ys
        → All (λ y. le z y ≡ true) (insort x ys)
    unfolding insort
    All-insort z x [] h p = (h, tt)
    All-insort z x (y ∷ ys) h p = elim (Bool-cases (le x y)) [
      | inl e ↦ rw e (h, p)
      | inr e ↦ rw e (p.0, All-insort z x ys h p.1)
    ]

    All-le_trans :
        (x y : A) (ys : List A)
        → le x y ≡ true
        → All (λ z. le y z ≡ true) ys
        → All (λ z. le x z ≡ true) ys
    All-le_trans x y [] h p = tt
    All-le_trans x y (z ∷ ys) h p = (trans x y z h p.0, All-le_trans x y ys h p.1)

    insort-IsSorted : (x : A) (ys : List A) → IsSorted ys → IsSorted (insort x ys)
    unfolding insort
    insort-IsSorted x [] s = (tt, tt)
    insort-IsSorted x (y ∷ ys) s = elim (Bool-cases (le x y)) [
      | inl e ↦ rw e ((e, All-le_trans x y ys e s.0), (s.0, s.1))
      | inr e ↦
          let back : le y x ≡ true = ground (arith, total x y) in
          rw e (All-insort y x ys back s.0, insort-IsSorted x ys s.1)
    ]

    -- The result ascends.
    pub sorted-IsSorted : (xs : List A) → IsSorted (sorted xs)
    unfolding sorted
    sorted-IsSorted [] = tt
    sorted-IsSorted (x ∷ xs) = insort-IsSorted x (sorted xs) (sorted-IsSorted xs)

    insort_comm :
        (x y : A) (zs : List A) → Apart x y → insort x (insort y zs) ≡ insort y (insort x zs)
    unfolding insort
    insort_comm x y [] d = ground (arith, total x y)
    insort_comm x y (z ∷ zs) d = ground (
      arith,
      total x y,
      total x z,
      total y z,
      trans x y z,
      trans y x z,
      trans x z y,
      trans y z x,
      trans z x y,
      trans z y x,
      insort_comm x y zs d,
    )

    All-Apart_perm : (x : A) {xs ys : List A} → Permᴰ xs ys → All (Apart x) xs → All (Apart x) ys
    All-Apart_perm x Permᴰ.nil h = tt
    All-Apart_perm x (Permᴰ.cons e p) h = (rw e at (h.0), All-Apart_perm x p h.1)
    All-Apart_perm x (Permᴰ.swap e f) h = (rw f at (h.1.0), (rw e at (h.0), h.1.1))
    All-Apart_perm x (Permᴰ.trans p q) h = All-Apart_perm x q (All-Apart_perm x p h)

    IsDistinct-perm : {xs ys : List A} → Permᴰ xs ys → IsDistinct xs → IsDistinct ys
    IsDistinct-perm Permᴰ.nil h = tt
    IsDistinct-perm (Permᴰ.cons {a = x} e p) h =
        (rw e at (All-Apart_perm x p h.0), IsDistinct-perm p h.1)
    IsDistinct-perm (Permᴰ.swap {a = x} {b = y} {l = l} e f) h =
        let first : Apart y x = λ u v. h.0.0 v u in
        (
          (rw (← e, ← f) first, subst (λ z. All (Apart z) l) f h.1.0),
          (subst (λ z. All (Apart z) l) e h.0.1, h.1.1),
        )
    IsDistinct-perm (Permᴰ.trans p q) h = IsDistinct-perm q (IsDistinct-perm p h)

    -- With distinct keys the result does not depend on the order of the input.
    pub sorted-perm_eq : {xs ys : List A} → Permᴰ xs ys → IsDistinct xs → sorted xs ≡ sorted ys
    unfolding sorted
    sorted-perm_eq Permᴰ.nil h = refl
    sorted-perm_eq (Permᴰ.cons {b = b} e p) h = rw (e, sorted-perm_eq p h.1)
    sorted-perm_eq (Permᴰ.swap {a = x} {b = y} {l = l} e f) h =
        rw (← e, ← f) (insort_comm x y (sorted l) h.0.0)
    sorted-perm_eq (Permᴰ.trans p q) h = sorted-perm_eq p h ∙ sorted-perm_eq q (IsDistinct-perm p h)

module _ {A : Type 0} where
  pub All-perm {κ} : (P : A → Type κ) {xs ys : List A} → Permᴰ xs ys → All P xs → All P ys
  All-perm P Permᴰ.nil h = tt
  All-perm P (Permᴰ.cons e p) h = (subst P e h.0, All-perm P p h.1)
  All-perm P (Permᴰ.swap e f) h = (subst P f h.1.0, (subst P e h.0, h.1.1))
  All-perm P (Permᴰ.trans p q) h = All-perm P q (All-perm P p h)

  pub In-perm : (a : A) {xs ys : List A} → Permᴰ xs ys → In a xs → In a ys
  In-perm a Permᴰ.nil m = m
  In-perm a (Permᴰ.cons e p) (inl f) = inl (sym e ∙ f)
  In-perm a (Permᴰ.cons e p) (inr m) = inr (In-perm a p m)
  In-perm a (Permᴰ.swap e f) (inl g) = inr (inl (sym e ∙ g))
  In-perm a (Permᴰ.swap e f) (inr (inl g)) = inl (sym f ∙ g)
  In-perm a (Permᴰ.swap e f) (inr (inr m)) = inr (inr m)
  In-perm a (Permᴰ.trans p q) m = In-perm a q (In-perm a p m)

  -- Around an element of an ascending list, what stands before is below it and what stands after
  -- is above it.
  pub IsSorted-around :
      (le : A → A → Bool) (before : List A) (x : A) (after : List A)
      → IsSorted le (before ++ x ∷ after)
      → All (λ y. le y x ≡ true) before × All (λ y. le x y ≡ true) after
  IsSorted-around le [] x after s = (tt, s.0)
  IsSorted-around le (y ∷ before) x after s =
      let (below, above) = IsSorted-around le before x after s.1 in
      let head =
        All-In (λ z. le y z ≡ true) x (before ++ x ∷ after) s.0
          (In-append_right x before (x ∷ after) (inl refl)) in
      ((head, below), above)
