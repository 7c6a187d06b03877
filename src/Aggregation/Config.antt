-- ===== src/Aggregation/Config.antt =====
-- `PriceSource` and `AggregationConfig` with the checks of their `__post_init__`.
use stellar_kraal_contract.Common.{◌≡◌, refl, ◌↔◌, true, false, List, [], ◌∷◌, arith, All}
use stellar_kraal_contract.Common.Dict.{Dict, contains}
use stellar_kraal_contract.Common.Float.{Float}
use stellar_kraal_contract.Common.Int.{ℤ, pos, ltb_ℤ, ◌≤ℤ◌}
use stellar_kraal_contract.Common.Result.{
  Result, ok, ◌>>◌, raise_if, require, weight_not_positive, source_without_weight,
  min_sources_below_one,
}
use stellar_kraal_contract.Common.Text.{Str}

pub data OutlierRejectionMethod : Type 0 where
  iqr mad none_method : OutlierRejectionMethod

-- `metadata` is carried along by the source and read nowhere; it is left out.
pub record PriceSource (F : Type 0) : Type 0 where
  pub source_id : Str
  pub value : ℤ
  pub weight : F

pub record AggregationConfig (F : Type 0) : Type 0 where
  pub sources : List Str
  pub weights : Dict F
  pub outlier_method : OutlierRejectionMethod
  pub iqr_multiplier : F
  pub mad_multiplier : F
  pub min_sources_after_rejection : ℤ

module _ {F : Type 0} ⦃d : Float F⦄ where
  -- `PriceSource.__post_init__`
  unfoldable pub check_source : PriceSource F → Result (PriceSource F)
  check_source s = do raise_if (d.le_int s.weight (pos 0)) weight_not_positive; ok s

  check_sources_have_weights : Dict F → List Str → Result (Unit {0})
  check_sources_have_weights weights [] = ok tt
  check_sources_have_weights weights (s ∷ ss) =
      require (contains s weights) source_without_weight >> check_sources_have_weights weights ss

  check_weights_positive : Dict F → Result (Unit {0})
  check_weights_positive [] = ok tt
  check_weights_positive ((s, w) ∷ ws) =
      raise_if (d.le_int w (pos 0)) weight_not_positive >> check_weights_positive ws

  -- `AggregationConfig.__post_init__`
  unfoldable pub check_config : AggregationConfig F → Result (AggregationConfig F)
  unfolding check_sources_have_weights check_weights_positive
  check_config c = do
    check_sources_have_weights c.weights c.sources
    check_weights_positive c.weights
    raise_if (ltb_ℤ c.min_sources_after_rejection (pos 1)) min_sources_below_one
    ok c

  -- Every configured source has a weight, no weight is at most zero, and at least one source must
  -- remain.
  pub record IsValid (c : AggregationConfig F) : Type 0 where
    pub covered : All (λ s. contains s c.weights ≡ true) c.sources
    pub positive : All {A = Str × F} (λ e. d.le_int e.1 (pos 0) ≡ false) c.weights
    pub at_least_one : pos 1 ≤ℤ c.min_sources_after_rejection

  check_sources_have_weights_iff :
      (weights : Dict F) (ss : List Str)
      → (check_sources_have_weights weights ss ≡ ok tt) ↔ All (λ s. contains s weights ≡ true) ss
  unfolding check_sources_have_weights
  check_sources_have_weights_iff weights [] = (λ h. tt, λ h. refl)
  check_sources_have_weights_iff weights (s ∷ ss) =
      ground (arith, check_sources_have_weights_iff weights ss)

  check_weights_positive_iff :
      (ws : Dict F)
      → (check_weights_positive ws ≡ ok tt)
        ↔ All {A = Str × F} (λ e. d.le_int e.1 (pos 0) ≡ false) ws
  unfolding check_weights_positive
  check_weights_positive_iff [] = (λ h. tt, λ h. refl)
  check_weights_positive_iff ((s, w) ∷ ws) = ground (arith, check_weights_positive_iff ws)

  -- Construction succeeds exactly for a valid configuration.
  pub check_config_iff : (c : AggregationConfig F) → (check_config c ≡ ok c) ↔ IsValid c
  unfolding check_config
  check_config_iff c = ground (
    arith,
    check_sources_have_weights_iff c.weights c.sources,
    check_weights_positive_iff c.weights,
  )
