-- ===== src/Tests/Aggregation.antt =====
-- Prices of four markets, with decimal weights.
use mathlib.Core.List.{Permᴰ}
use stellar_kraal_contract.Common.{◌≡◌, refl, true, false, List, [], ◌∷◌, arith, ◌≢◌}
use stellar_kraal_contract.Common.Int.{ℤ, pos, ◌*ℤ◌, ◌+ℤ◌, ◌-ℤ◌}
use stellar_kraal_contract.Common.Result.{ok, err, sources_mismatch}
use stellar_kraal_contract.Common.Sort.{sorted}
use stellar_kraal_contract.Common.Text.{Str, codes, str_eq, str_eq_iff, str_le}
use stellar_kraal_contract.Aggregation.Aggregate.{same_set, aggregate, AggregationResult}
use stellar_kraal_contract.Aggregation.Config.{PriceSource, AggregationConfig, mad, IsValid}
use stellar_kraal_contract.Aggregation.Crossing.{Crosses, weighted_median-Crosses}
use stellar_kraal_contract.Aggregation.Failure.{Fails, aggregate-Fails}
use stellar_kraal_contract.Aggregation.Median.{weighted_median}
use stellar_kraal_contract.Aggregation.Number.{
  distance, is_zero, median, midpoint, num_le, scale, index,
}
use stellar_kraal_contract.Aggregation.Order.{HasDistinctIds, aggregate-perm}
use stellar_kraal_contract.Aggregation.Outcome.{Explains, aggregate-Explains}
use stellar_kraal_contract.Aggregation.Outliers.{
  ids, near, reject_outliers, reject_outliers_mad, inside, percentile, reject_outliers_iqr,
}
use stellar_kraal_contract.Tests.Fixed.{Fixed, fixed_float, Fixed-IsOrdered}

abbrev north : PriceSource Fixed
north = record { source_id = codes "n"; value = pos 100; weight = pos 500 }

abbrev south : PriceSource Fixed
south = record { source_id = codes "s"; value = pos 104; weight = pos 300 }

abbrev east : PriceSource Fixed
east = record { source_id = codes "e"; value = pos 98; weight = pos 200 }

abbrev rogue : PriceSource Fixed
rogue = record { source_id = codes "x"; value = pos 900; weight = pos 1000 }

abbrev settings : AggregationConfig Fixed
settings = record {
  sources = codes "n" ∷ codes "s" ∷ codes "e" ∷ codes "x" ∷ [];
  weights =
      (codes "n", pos 500)
      ∷ (codes "s", pos 300)
      ∷ (codes "e", pos 200)
      ∷ (codes "x", pos 1000)
      ∷ [];
  outlier_method = mad;
  iqr_multiplier = pos 1500;
  mad_multiplier = pos 3000;
  min_sources_after_rejection = pos 2;
}

abbrev given : List (PriceSource Fixed)
given = north ∷ south ∷ east ∷ rogue ∷ []

differ : {s t : Str} → str_eq s t ≡ false → s ≢ t
differ {s} {t} h e = absurd (cc ((str_eq_iff s t).1 e, h))

given-distinct : HasDistinctIds given
unfolding str_eq
given-distinct = (
  (differ refl, (differ refl, (differ refl, tt))),
  ((differ refl, (differ refl, tt)), ((differ refl, tt), (tt, tt))),
)

abbrev expected : AggregationResult Fixed
expected = record {
  aggregate_value = pos 100;
  source_values = (codes "e", pos 98) ∷ (codes "n", pos 100) ∷ (codes "s", pos 104) ∷ [];
  weights_used = (codes "e", pos 200) ∷ (codes "n", pos 500) ∷ (codes "s", pos 300) ∷ [];
  rejected_sources = codes "x" ∷ [];
  method_used = codes "weighted_median";
  outlier_method = codes "mad";
}

-- The market far off is rejected, and the rest has its median.
aggregated : aggregate settings given ≡ ok expected
unfolding aggregate str_eq same_set reject_outliers reject_outliers_mad sorted str_le median num_le
    distance ◌-ℤ◌ ◌*ℤ◌ midpoint ◌+ℤ◌ is_zero near scale weighted_median
aggregated = refl

mismatched : aggregate settings (north ∷ south ∷ []) ≡ err sources_mismatch
unfolding aggregate str_eq same_set
mismatched = refl

weighted_median-Crosses_example :
    (v : ℤ) × (weighted_median (north ∷ south ∷ east ∷ []) ≡ ok v)
    × Crosses (north ∷ south ∷ east ∷ []) v
weighted_median-Crosses_example =
    weighted_median-Crosses Fixed-IsOrdered north (south ∷ east ∷ []) (refl, (refl, (refl, tt)))

aggregate-Explains_example :
    (same_set (ids given) settings.sources ≡ true) × Explains settings given expected
aggregate-Explains_example = aggregate-Explains settings given expected given-distinct aggregated

aggregate-perm_example :
    aggregate settings given ≡ aggregate settings (south ∷ north ∷ east ∷ rogue ∷ [])
aggregate-perm_example =
    aggregate-perm settings given (south ∷ north ∷ east ∷ rogue ∷ []) (Permᴰ.swap refl refl)
      given-distinct

settings-IsValid : IsValid settings
unfolding str_eq ◌*ℤ◌
settings-IsValid = record {
  covered = (refl, (refl, (refl, (refl, tt))));
  positive = (refl, (refl, (refl, (refl, tt))));
  at_least_one = omega arith;
}

aggregate-Fails_example : Fails settings (north ∷ south ∷ []) sources_mismatch
aggregate-Fails_example =
    aggregate-Fails settings (north ∷ south ∷ []) sources_mismatch settings-IsValid mismatched

abbrev spread_out : List (PriceSource Fixed)
spread_out =
    record { source_id = codes "n"; value = pos 1000; weight = pos 500 }
    ∷ record { source_id = codes "s"; value = pos 1010; weight = pos 300 }
    ∷ record { source_id = codes "e"; value = pos 2000; weight = pos 200 }
    ∷ []

-- The IQR method rejects none of 1000, 1010 and 2000, since a quartile of three values is one of them.
kept_far : reject_outliers_iqr settings spread_out ≡ ok (spread_out, [])
unfolding reject_outliers_iqr percentile ◌*ℤ◌ sorted ◌+ℤ◌ ◌-ℤ◌ index inside
kept_far = refl

split_lem : reject_outliers settings given ≡ ok (north ∷ south ∷ east ∷ [], codes "x" ∷ [])
unfolding reject_outliers reject_outliers_mad median sorted num_le distance ◌-ℤ◌ ◌*ℤ◌ midpoint ◌+ℤ◌
    is_zero near scale
split_lem = refl
