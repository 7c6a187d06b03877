-- ===== src/Aggregation/Order.antt =====
-- `aggregate` sorts by id first, so it does not see the order in which the sources are given.
use mathlib.Core.List.{Permᴰ}
use stellar_kraal_contract.Common.{
  ◌≡◌, ◌≢◌, refl, ap, ◌↔◌, true, List, [], ◌∷◌, map, arith, all, All, All-map, In, Bool_ext,
}
use mathlib.Core.List.Permᴰ
use stellar_kraal_contract.Common.Float.{Float}
use stellar_kraal_contract.Common.Sort.{
  sorted-perm_eq, IsDistinct, IsTotal, IsTransitive, In-perm, All-perm,
}
use stellar_kraal_contract.Common.Text.{
  Str, str_eq_iff, str_le_total, str_le_trans, str_le_antisymm,
}
use stellar_kraal_contract.Aggregation.Aggregate.{mem, same_set, by_id, aggregate}
use stellar_kraal_contract.Aggregation.Config.{PriceSource, AggregationConfig}
use stellar_kraal_contract.Aggregation.Outliers.{ids}

pub mem_iff : (k : Str) (xs : List Str) → (mem k xs ≡ true) ↔ In k xs
mem_iff k [] = (λ h. absurd (cc h), λ m. elim m [ ])
mem_iff k (x ∷ xs) = ground (arith, str_eq_iff x k, mem_iff k xs)

all-mem_iff : (xs ys : List Str) → (all (λ x. mem x ys) xs ≡ true) ↔ All (λ x. In x ys) xs
all-mem_iff [] ys = (λ h. tt, λ h. refl)
all-mem_iff (x ∷ xs) ys = ground (arith, mem_iff x ys, all-mem_iff xs ys)

-- `same_set` is equality of the sets of elements.
pub same_set_iff :
    (xs ys : List Str) → (same_set xs ys ≡ true) ↔ (All (λ x. In x ys) xs × All (λ y. In y xs) ys)
unfolding same_set
same_set_iff xs ys = ground (arith, all-mem_iff xs ys, all-mem_iff ys xs)

module _ {A B : Type 0} (f : A → B) where
  pub map-perm : {xs ys : List A} → Permᴰ xs ys → Permᴰ (map f xs) (map f ys)
  map-perm Permᴰ.nil = Permᴰ.nil
  map-perm (Permᴰ.cons e p) = Permᴰ.cons (ap f e) (map-perm p)
  map-perm (Permᴰ.swap e g) = Permᴰ.swap (ap f e) (ap f g)
  map-perm (Permᴰ.trans p q) = Permᴰ.trans (map-perm p) (map-perm q)

same_set-perm : (xs ys zs : List Str) → Permᴰ xs ys → same_set xs zs ≡ true → same_set ys zs ≡ true
same_set-perm xs ys zs p h =
    let (sub, sup) = (same_set_iff xs zs).0 h in
    (same_set_iff ys zs).1 (All-perm (λ x. In x zs) p sub, All-map zs (λ z m. In-perm z p m) sup)

module _ {F : Type 0} where
  by_id-IsTotal : IsTotal (by_id {F = F})
  by_id-IsTotal s t = str_le_total s.source_id t.source_id

  by_id-IsTransitive : IsTransitive (by_id {F = F})
  by_id-IsTransitive s t u = str_le_trans s.source_id t.source_id u.source_id

  -- No two sources share an id, as in a dict of sources.
  abbrev pub HasDistinctIds : List (PriceSource F) → Type 0
  HasDistinctIds [] = Unit
  HasDistinctIds (s ∷ ss) = All (λ t. s.source_id ≢ t.source_id) ss × HasDistinctIds ss

  distinct : (ss : List (PriceSource F)) → HasDistinctIds ss → IsDistinct by_id ss
  distinct [] h = tt
  distinct (s ∷ ss) h = (
    All-map ss (λ t ne p q. ne (str_le_antisymm s.source_id t.source_id p q)) h.0,
    distinct ss h.1,
  )

module _ {F : Type 0} ⦃d : Float F⦄ where
  -- Sources with distinct ids give the same result, or the same error, in every order.
  pub aggregate-perm :
      (c : AggregationConfig F) (ss ts : List (PriceSource F))
      → Permᴰ ss ts
      → HasDistinctIds ss
      → aggregate c ss ≡ aggregate c ts
  unfolding aggregate
  aggregate-perm c ss ts p h =
      let names = map-perm (λ (s : PriceSource F). s.source_id) p in
      let forth = same_set-perm (ids ss) (ids ts) c.sources names in
      let back = same_set-perm (ids ts) (ids ss) c.sources (Permᴰ.symm names) in
      let same : same_set (ids ss) c.sources ≡ same_set (ids ts) c.sources =
        Bool_ext _ _ (forth, back) in
      rw (same, sorted-perm_eq by_id by_id-IsTotal by_id-IsTransitive p (distinct ss h))
