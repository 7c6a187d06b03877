-- ===== src/Common/Result.antt =====
-- Exceptions: a value or a raised error, and `do` blocks over them.
use Prim.Native.Nat.{ℕ}
use mathlib.Core.Bool.{Bool, true, false}
use mathlib.Core.List.{List}
use mathlib.Core.Logic.{◌⊎◌, inl, inr}
use mathlib.Core.Path.{◌≡◌, refl}
use stellar_kraal_contract.Common.Text.{Str}

-- One constructor for each place that raises; `raised` is an exception that comes out of code
-- which is injected (a client, a feed), by its class name and its text.
pub data Error : Type 0 where
  script_hash_length params_hash_length feed_id_length : Error
  output_value_range timestamp_range payload_length payload_bug : Error
  feed_id_too_long seed_length public_key_length signature_length : Error
  struct_error overflow_error value_error type_error key_error index_error attribute_error : Error
  weight_not_positive source_without_weight min_sources_below_one : Error
  sources_mismatch too_few_sources no_sources empty_values : Error
  validation_failed : List Str → Error
  cid_not_found cid_empty cid_too_long not_configured : Error
  system_exit : ℕ → Error
  raised : Str → Str → Error

pub data Result {ℓ} (A : Type ℓ) : Type ℓ where
  ok : A → Result A
  err : Error → Result A

module _ {ℓ κ} {E : Type ℓ} {R : Type κ} where
  infixl 5 ◌>>=◌
  -- The rest of the block runs on the value; an exception ends it.
  abbrev pub ◌>>=◌ : Result E → (E → Result R) → Result R
  err raised_here >>= rest = err raised_here
  ok value >>= rest = rest value

  -- A block that returned has returned at its first step.
  pub >>=-eq-ok :
      (first : Result E) (rest : E → Result R) {r : R}
      → (first >>= rest) ≡ ok r
      → (value : E) × (first ≡ ok value) × (rest value ≡ ok r)
  >>=-eq-ok (err raised_here) rest h = cc
  >>=-eq-ok (ok value) rest h = (value, refl, h)

infixl 5 ◌>>◌
abbrev pub ◌>>◌ {κ} : {R : Type κ} → Result (Unit {0}) → Result R → Result R
first >> rest = first >>= λ done. rest

-- `if not ok: raise e`
abbrev pub require : Bool → Error → Result (Unit {0})
require true e = ok tt
require false e = err e

-- `if bad: raise e`
abbrev pub raise_if : Bool → Error → Result (Unit {0})
raise_if true e = err e
raise_if false e = ok tt

abbrev pub is_ok {ℓ} : {A : Type ℓ} → Result A → Bool
is_ok (ok a) = true
is_ok (err e) = false

pub result_cases {ℓ} :
    {A : Type ℓ} (r : Result A) → ((e : Error) × (r ≡ err e)) ⊎ ((a : A) × (r ≡ ok a))
result_cases (err e) = inl (e, refl)
result_cases (ok a) = inr (a, refl)

-- `except ValueError`, of the exceptions that parsing raises
unfoldable pub is_value_error : Error → Bool
is_value_error value_error = true
is_value_error other = false
