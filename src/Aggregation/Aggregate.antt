-- ===== src/Aggregation/Aggregate.antt =====
-- `PriceAggregator.aggregate`.
use stellar_kraal_contract.Common.{Bool, ◌&&◌, List, [], ◌∷◌, length, any, all, none, some}
use stellar_kraal_contract.Common.Dict.{Dict, lookup, insert}
use stellar_kraal_contract.Common.Float.{Float}
use stellar_kraal_contract.Common.Int.{ℤ, pos, ltb_ℤ}
use stellar_kraal_contract.Common.Result.{
  Result, ok, err, ◌>>=◌, ◌>>◌, require, raise_if, sources_mismatch, too_few_sources, key_error,
}
use stellar_kraal_contract.Common.Sort.{sorted}
use stellar_kraal_contract.Common.Text.{Str, str_eq, str_le, codes}
use stellar_kraal_contract.Aggregation.Config.{
  PriceSource, AggregationConfig, OutlierRejectionMethod, iqr, mad, none_method,
}
use stellar_kraal_contract.Aggregation.Median.{weighted_median}
use stellar_kraal_contract.Aggregation.Outliers.{reject_outliers, ids}

pub record AggregationResult (F : Type 0) : Type 0 where
  pub aggregate_value : ℤ
  pub source_values : Dict ℤ
  pub weights_used : Dict F
  pub rejected_sources : List Str
  pub method_used : Str
  pub outlier_method : Str

-- `OutlierRejectionMethod.value`
abbrev pub method_name : OutlierRejectionMethod → Str
method_name iqr = codes "iqr"
method_name mad = codes "mad"
method_name none_method = codes "none"

abbrev pub mem : Str → List Str → Bool
mem k = any (λ j. str_eq j k)

-- `set(xs) == set(ys)`
unfoldable pub same_set : List Str → List Str → Bool
same_set xs ys = all (λ x. mem x ys) xs && all (λ y. mem y xs) ys

module _ {F : Type 0} where
  -- `key=lambda s: s.source_id`
  abbrev pub by_id : PriceSource F → PriceSource F → Bool
  by_id s t = str_le s.source_id t.source_id

  -- `{s.source_id: s.value for s in sources}`
  unfoldable pub collect_values : Dict ℤ → List (PriceSource F) → Dict ℤ
  collect_values acc [] = acc
  collect_values acc (s ∷ ss) = collect_values (insert s.source_id s.value acc) ss

  -- `{s.source_id: self.config.weights[s.source_id] for s in sources}`
  unfoldable pub collect_weights : Dict F → Dict F → List (PriceSource F) → Result (Dict F)
  collect_weights weights acc [] = ok acc
  collect_weights weights acc (s ∷ ss) =
      let rest = λ (w : F). collect_weights weights (insert s.source_id w acc) ss in
      elim (lookup s.source_id weights) [ none ↦ err key_error | some w ↦ rest w ]

module _ {F : Type 0} ⦃d : Float F⦄ where
  -- `aggregate` behind the rejection: the count, the median and the two dicts.
  unfoldable pub conclude :
      AggregationConfig F → List (PriceSource F) → List Str → Result (AggregationResult F)
  unfolding collect_values collect_weights
  conclude c kept rejected = do
    raise_if (ltb_ℤ (pos (length kept)) c.min_sources_after_rejection) too_few_sources
    value ← weighted_median kept
    weights ← collect_weights c.weights [] kept
    ok (record {
      aggregate_value = value;
      source_values = collect_values [] kept;
      weights_used = weights;
      rejected_sources = rejected;
      method_used = codes "weighted_median";
      outlier_method = method_name c.outlier_method;
    })

  -- The test `outlier_method != NONE` is made by `reject_outliers`, which then keeps all sources.
  unfoldable pub aggregate :
      AggregationConfig F → List (PriceSource F) → Result (AggregationResult F)
  unfolding conclude
  aggregate c sources = do
    require (same_set (ids sources) c.sources) sources_mismatch
    (kept, rejected) ← reject_outliers c (sorted by_id sources)
    conclude c kept rejected
