-- ===== src/Common/Json.antt =====
-- What `json` reads and writes: `dict[str, Any]` and the values in it. `F` are the floats.
use Prim.Native.Nat.{ℕ, suc}
use mathlib.Core.Bool.{not, Bool, true, false, ◌&&◌, ◌||◌}
use mathlib.Core.List.{[], ◌∷◌}
use mathlib.Core.Option.{Option, none, some}
use stellar_kraal_contract.Common.Float.{Float}
use stellar_kraal_contract.Common.Int.{ℤ, pos, leb_ℤ}
use stellar_kraal_contract.Common.Lists.{length}
use stellar_kraal_contract.Common.Result.{Result, ok, err, key_error, type_error, attribute_error}
use stellar_kraal_contract.Common.Tests.{if◌then◌else◌}
use stellar_kraal_contract.Common.Text.{Str, str_eq, occurs_in}

mutual
  pub data Json (F : Type 0) : Type 0 where
    null : Json F
    bool : Bool → Json F
    int : ℤ → Json F
    real : F → Json F
    text : Str → Json F
    array : Items F → Json F
    object : Fields F → Json F

  pub data Items (F : Type 0) : Type 0 where
    nil : Items F
    item : Json F → Items F → Items F

  pub data Fields (F : Type 0) : Type 0 where
    end : Fields F
    field : Str → Json F → Fields F → Fields F

module _ {F : Type 0} where
  -- `d.get(k)` where the key is missing: `none`.
  unfoldable pub get : Str → Fields F → Option (Json F)
  get k end = none
  get k (field j v d) = if str_eq j k then some v else get k d

  -- `d[k]`
  unfoldable pub at : Str → Fields F → Result (Json F)
  unfolding get
  at k d = elim (get k d) [ none ↦ err key_error | some v ↦ ok v ]

  -- `d.get(k, default)`
  unfoldable pub get_or : Str → Json F → Fields F → Json F
  unfolding get
  get_or k default d = elim (get k d) [ none ↦ default | some v ↦ v ]

  -- `k in d`
  unfoldable pub has : Str → Fields F → Bool
  has k end = false
  has k (field j v d) = str_eq j k || has k d

  -- `d[k] = v`
  unfoldable pub set : Str → Json F → Fields F → Fields F
  set k v end = field k v end
  set k v (field j w d) = if str_eq j k then field j v d else field j w (set k v d)

  -- `v == k`
  unfoldable pub is_text : Str → Json F → Bool
  is_text k (text s) = str_eq s k
  is_text k other = false

  unfoldable pub item_in : Str → Items F → Bool
  unfolding is_text
  item_in k nil = false
  item_in k (item v vs) = is_text k v || item_in k vs

  -- `k in v` for a text `k`
  unfoldable pub contained : Str → Json F → Result Bool
  unfolding item_in
  contained k (object d) = ok (has k d)
  contained k (text s) = ok (occurs_in k s)
  contained k (array vs) = ok (item_in k vs)
  contained k other = err type_error

  -- The methods of a dict on a value that may be none.
  unfoldable pub as_dict : Json F → Result (Fields F)
  as_dict (object d) = ok d
  as_dict other = err attribute_error

  unfoldable pub count_items : Items F → ℕ
  count_items nil = 0
  count_items (item v vs) = suc (count_items vs)

  unfoldable pub count_fields : Fields F → ℕ
  count_fields end = 0
  count_fields (field k v d) = suc (count_fields d)

  -- `len(v)`
  unfoldable pub len : Json F → Result ℕ
  unfolding count_items count_fields
  len (text s) = ok (length s)
  len (array vs) = ok (count_items vs)
  len (object d) = ok (count_fields d)
  len other = err type_error

  -- `v[k]` for a text `k`: only a dict has such an item.
  unfoldable pub subscript : Str → Json F → Result (Json F)
  unfolding at
  subscript k (object d) = at k d
  subscript k other = err type_error

module _ {F : Type 0} ⦃d : Float F⦄ where
  -- `v == n`: `True` is 1, and a float may be an int.
  unfoldable pub equals_int : ℤ → Json F → Bool
  equals_int n (int m) = leb_ℤ n m && leb_ℤ m n
  equals_int n (bool true) = leb_ℤ n (pos 1) && leb_ℤ (pos 1) n
  equals_int n (bool false) = leb_ℤ n (pos 0) && leb_ℤ (pos 0) n
  equals_int n (real x) = d.int_le n x && d.le_int x n
  equals_int n other = false

  -- `bool(v)`: a float is false if it is zero; NaN is true.
  unfoldable pub is_true : Json F → Bool
  is_true null = false
  is_true (bool b) = b
  is_true (int m) = not (leb_ℤ m (pos 0) && leb_ℤ (pos 0) m)
  is_true (real x) = not (d.le_int x (pos 0) && d.int_le (pos 0) x)
  is_true (text s) = not (is_empty_text s)
    where
      is_empty_text : Str → Bool
      is_empty_text [] = true
      is_empty_text (c ∷ t) = false
  is_true (array nil) = false
  is_true (array (item v vs)) = true
  is_true (object end) = false
  is_true (object (field k v e)) = true
