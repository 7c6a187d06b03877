-- ===== src/Common/SortKeys.antt =====
-- What `json.loads` makes of what `json.dumps(…, sort_keys=True)` wrote: the keys of every dict
-- stand in ascending order. Reading a value by its keys does not see the order.
use stellar_kraal_contract.Common.{
  suc, ◌≡◌, refl, ap, sym, ◌∙◌, inl, inr, Bool, true, false, Option, none, some, arith,
  if◌then◌else◌, Bool-cases, Option-cases,
}
use stellar_kraal_contract.Common.Float.{Float}
use stellar_kraal_contract.Common.Int.{ℤ}
use stellar_kraal_contract.Common.Json.{
  Json, Fields, Items, null, text, int, real, bool, object, array, end, field, nil, item, get, at,
  get_or, has, is_text, contained, count_items, count_fields, len, subscript, equals_int, is_true,
  item_in,
}
use stellar_kraal_contract.Common.Result.{Result, ok, err}
use stellar_kraal_contract.Common.Text.{Str, str_eq, str_le, str_le_refl, str_eq→eq}

-- Before the keys that are not smaller.
abbrev insert_field : {F : Type 0} → Str → Json F → Fields F → Fields F
insert_field k v end = field k v end
insert_field k v (field j w d) =
    if str_le k j then field k v (field j w d) else field j w (insert_field k v d)

unfoldable mutual
  pub sort_json : {F : Type 0} → Json F → Json F
  sort_json (array vs) = array (sort_items vs)
  sort_json (object d) = object (sort_fields d)
  sort_json (text s) = text s
  sort_json (int n) = int n
  sort_json (real x) = real x
  sort_json (bool b) = bool b
  sort_json null = null

  pub sort_items : {F : Type 0} → Items F → Items F
  sort_items nil = nil
  sort_items (item v vs) = item (sort_json v) (sort_items vs)

  pub sort_fields : {F : Type 0} → Fields F → Fields F
  sort_fields end = end
  sort_fields (field k v d) = insert_field k (sort_json v) (sort_fields d)

-- `sort_json` on a value that may be missing, or may not be there for an exception.
abbrev pub sort_option : {F : Type 0} → Option (Json F) → Option (Json F)
sort_option none = none
sort_option (some v) = some (sort_json v)

abbrev pub sort_result : {F : Type 0} → Result (Json F) → Result (Json F)
sort_result (err e) = err e
sort_result (ok v) = ok (sort_json v)

module _ {F : Type 0} where
  get-insert_field :
      (k j : Str) (v : Json F) (d : Fields F)
      → get k (insert_field j v d) ≡ (if str_eq j k then some v else get k d)
  unfolding get
  get-insert_field k j v end = refl
  get-insert_field k j v (field i w d) =
      ground (arith, get-insert_field k j v d, str_eq→eq i k, str_eq→eq j k, str_le_refl k)

  pub get-sort_fields : (k : Str) (d : Fields F) → get k (sort_fields d) ≡ sort_option (get k d)
  unfolding get sort_json
  get-sort_fields k end = refl
  get-sort_fields k (field j v d) =
      get-insert_field k j (sort_json v) (sort_fields d)
      ∙ elim (Bool-cases (str_eq j k)) [ inl e ↦ rw e refl | inr e ↦ rw e (get-sort_fields k d) ]

  abbrev is_there : Option (Json F) → Bool
  is_there none = false
  is_there (some v) = true

  has-get : (k : Str) (d : Fields F) → has k d ≡ is_there (get k d)
  unfolding has get
  has-get k end = refl
  has-get k (field j v d) = ground (arith, has-get k d)

  is_there-sort_option : (o : Option (Json F)) → is_there (sort_option o) ≡ is_there o
  is_there-sort_option none = refl
  is_there-sort_option (some v) = refl

  pub has-sort_fields : (k : Str) (d : Fields F) → has k (sort_fields d) ≡ has k d
  has-sort_fields k d =
      rw (has-get k (sort_fields d), has-get k d, get-sort_fields k d)
        (is_there-sort_option (get k d))

  pub at-sort_fields : (k : Str) (d : Fields F) → at k (sort_fields d) ≡ sort_result (at k d)
  unfolding at
  at-sort_fields k d = elim (Option-cases (get k d)) [
    | inl e ↦ rw (at, get-sort_fields k d, e) refl
    | inr (v, e) ↦ rw (at, get-sort_fields k d, e) refl
  ]

  pub get_or-sort_fields :
      (k : Str) (default : Json F) (d : Fields F)
      → sort_json default ≡ default
      → get_or k default (sort_fields d) ≡ sort_json (get_or k default d)
  unfolding get_or
  get_or-sort_fields k default d same = elim (Option-cases (get k d)) [
    | inl e ↦ rw (get_or, get-sort_fields k d, e) (sym same)
    | inr (v, e) ↦ rw (get_or, get-sort_fields k d, e) refl
  ]

  -- What is the same for sorted arrays and dicts is the same for every sorted value.
  pub of_containers {ℓ} :
      {X : Type ℓ} (f : Json F → X)
      → ((vs : Items F) → f (array (sort_items vs)) ≡ f (array vs))
      → ((d : Fields F) → f (object (sort_fields d)) ≡ f (object d))
      → (v : Json F) → f (sort_json v) ≡ f v
  unfolding sort_json
  of_containers f of_array of_object (object d) = of_object d
  of_containers f of_array of_object (array vs) = of_array vs
  of_containers f of_array of_object (text s) = refl
  of_containers f of_array of_object (int n) = refl
  of_containers f of_array of_object (real x) = refl
  of_containers f of_array of_object (bool b) = refl
  of_containers f of_array of_object null = refl

  pub subscript-sort_json :
      (k : Str) (v : Json F) → subscript k (sort_json v) ≡ sort_result (subscript k v)
  unfolding subscript sort_json
  subscript-sort_json k (object d) = at-sort_fields k d
  subscript-sort_json k (array vs) = refl
  subscript-sort_json k (text s) = refl
  subscript-sort_json k (int n) = refl
  subscript-sort_json k (real x) = refl
  subscript-sort_json k (bool b) = refl
  subscript-sort_json k null = refl

  pub is_text-sort_json : (k : Str) (v : Json F) → is_text k (sort_json v) ≡ is_text k v
  unfolding is_text
  is_text-sort_json k = of_containers (is_text k) (λ vs. refl) (λ d. refl)

  item_in-sort_items : (k : Str) (vs : Items F) → item_in k (sort_items vs) ≡ item_in k vs
  unfolding item_in sort_json
  item_in-sort_items k nil = refl
  item_in-sort_items k (item v vs) = rw (is_text-sort_json k v, item_in-sort_items k vs) refl

  pub contained-sort_json : (k : Str) (v : Json F) → contained k (sort_json v) ≡ contained k v
  unfolding contained
  contained-sort_json k =
      of_containers (contained k) (λ vs. ap ok (item_in-sort_items k vs))
        (λ d. ap ok (has-sort_fields k d))

  count_items-sort_items : (vs : Items F) → count_items (sort_items vs) ≡ count_items vs
  unfolding count_items sort_json
  count_items-sort_items nil = refl
  count_items-sort_items (item v vs) = ap suc (count_items-sort_items vs)

  count_fields-insert_field :
      (k : Str) (v : Json F) (d : Fields F)
      → count_fields (insert_field k v d) ≡ suc (count_fields d)
  unfolding count_fields
  count_fields-insert_field k v end = refl
  count_fields-insert_field k v (field j w d) = ground (arith, count_fields-insert_field k v d)

  count_fields-sort_fields : (d : Fields F) → count_fields (sort_fields d) ≡ count_fields d
  unfolding count_fields sort_json
  count_fields-sort_fields end = refl
  count_fields-sort_fields (field k v d) =
      count_fields-insert_field k (sort_json v) (sort_fields d)
      ∙ ap suc (count_fields-sort_fields d)

  pub len-sort_json : (v : Json F) → len (sort_json v) ≡ len v
  unfolding len
  len-sort_json =
      of_containers len (λ vs. ap ok (count_items-sort_items vs))
        (λ d. ap ok (count_fields-sort_fields d))

module _ {F : Type 0} ⦃d : Float F⦄ where
  pub equals_int-sort_json : (n : ℤ) (v : Json F) → equals_int n (sort_json v) ≡ equals_int n v
  unfolding equals_int
  equals_int-sort_json n = of_containers (equals_int n) (λ vs. refl) (λ e. refl)

  pub is_true-sort_json : (v : Json F) → is_true (sort_json v) ≡ is_true v
  unfolding is_true sort_json
  is_true-sort_json (object end) = refl
  is_true-sort_json (object (field k v e)) = filled k (sort_json v) (sort_fields e)
    where
      filled : (k : Str) (v : Json F) (e : Fields F) → is_true (object (insert_field k v e)) ≡ true
      filled k v end = refl
      filled k v (field j w e) = ground arith
  is_true-sort_json (array nil) = refl
  is_true-sort_json (array (item v vs)) = refl
  is_true-sort_json (text s) = refl
  is_true-sort_json (int n) = refl
  is_true-sort_json (real x) = refl
  is_true-sort_json (bool b) = refl
  is_true-sort_json null = refl
