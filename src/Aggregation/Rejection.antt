-- ===== src/Aggregation/Rejection.antt =====
-- What the outlier tests keep and reject.
use mathlib.Core.Path.{subst}
use stellar_kraal_contract.Common.{
  ◌≤◌, ◌≡◌, ◌↔◌, refl, sym, ap, ◌⊎◌, Bool, true, false, not, List, [], ◌∷◌, map, arith, ◌&&◌, leb,
  if◌then◌else◌, length, select, Bool-cases, inl, inr,
}
use stellar_kraal_contract.Common.Float.{Float}
use stellar_kraal_contract.Common.Int.{pos}
use stellar_kraal_contract.Common.Result.{Result, ok, err, ◌>>=◌}
use stellar_kraal_contract.Common.Text.{Str}
use stellar_kraal_contract.Aggregation.Config.{
  PriceSource, AggregationConfig, OutlierRejectionMethod, iqr, mad, none_method,
}
use stellar_kraal_contract.Aggregation.Number.{
  Num, int, float, num_le, distance, is_zero, scale, median,
}
use stellar_kraal_contract.Aggregation.Outliers.{
  partition_loop, partition_loop-eq-select, values_of, inside, near, reject_outliers_iqr,
  reject_outliers_mad, reject_outliers, ids, percentile,
}

both_true : (a b : Bool) → (a && b ≡ true) ↔ ((a ≡ true) × (b ≡ true))
both_true a b = (λ h. ground arith, λ (h, k). rw (h, k) refl)

module _ {F : Type 0} ⦃d : Float F⦄ where
  -- The value lies between the fences, which are the multiple of the distance of the quartiles below
  -- the first and above the third; two sources or fewer are not tested.
  abbrev pub IsInFences : AggregationConfig F → List (PriceSource F) → PriceSource F → Type 0
  IsInFences c ss s =
      (length ss ≤ 2)
      ⊎ ((q1 : F) × (q3 : F) × (percentile (values_of ss) (pos 25) ≡ ok q1)
          × (percentile (values_of ss) (pos 75) ≡ ok q3)
          × (d.le_int (d.sub q1 (d.mul c.iqr_multiplier (d.sub q3 q1))) s.value ≡ true)
          × (d.int_le s.value (d.add q3 (d.mul c.iqr_multiplier (d.sub q3 q1))) ≡ true))

  -- The distance of the value from the median is at most the multiple of the median distance, or
  -- that is zero; a single source is not tested.
  abbrev pub IsNearMedian : AggregationConfig F → List (PriceSource F) → PriceSource F → Type 0
  IsNearMedian c ss s =
      (length ss ≤ 1)
      ⊎ ((centre : Num F) × (spread : Num F) × (median (map int (values_of ss)) ≡ ok centre)
          × (median (map (λ v. distance v centre) (values_of ss)) ≡ ok spread)
          × ((is_zero spread ≡ true)
              ⊎ (num_le (distance s.value centre) (float (scale c.mad_multiplier spread)) ≡ true)))

  -- What each method asks of a source.
  abbrev pub Passes :
      OutlierRejectionMethod → AggregationConfig F → List (PriceSource F) → PriceSource F → Type 0
  Passes iqr c ss s = IsInFences c ss s
  Passes mad c ss s = IsNearMedian c ss s
  Passes none_method c ss s = Unit

  -- The sources that pass are kept, in their order, and the ids of those that do not are listed.
  pub record Splits (Test : PriceSource F → Type 0) (ss kept : List (PriceSource F))
      (rejected : List Str) : Type 0 where
    pub keep : PriceSource F → Bool
    pub kept_eq : kept ≡ select keep ss
    pub rejected_eq : rejected ≡ ids (select (λ s. not (keep s)) ss)
    pub keep_iff : (s : PriceSource F) → (keep s ≡ true) ↔ Test s

  select-all : (ss : List (PriceSource F)) → ss ≡ select (λ s. true) ss
  select-all [] = refl
  select-all (s ∷ ss) = ap (◌∷◌ s) (select-all ss)

  select-none : (ss : List (PriceSource F)) → select (λ s. false) ss ≡ []
  select-none [] = refl
  select-none (s ∷ ss) = select-none ss

  module _ {Test : PriceSource F → Type 0} where
    keep_all : (ss : List (PriceSource F)) → ((s : PriceSource F) → Test s) → Splits Test ss ss []
    keep_all ss passes = record {
      keep = λ s. true;
      kept_eq = select-all ss;
      rejected_eq = ap ids (sym (select-none ss));
      keep_iff = λ s. (λ h. passes s, λ h. refl);
    }

    Splits-loop :
        (keep : PriceSource F → Bool) (ss : List (PriceSource F))
        → ((s : PriceSource F) → (keep s ≡ true) ↔ Test s)
        → Splits Test ss (partition_loop keep [] [] ss).0 (partition_loop keep [] [] ss).1
    Splits-loop keep ss h =
        rw (partition_loop-eq-select keep [] [] ss)
          (record { keep = keep; kept_eq = refl; rejected_eq = refl; keep_iff = h })

  abbrev SplitsResult :
      (PriceSource F → Type 0)
      → List (PriceSource F)
      → Result (List (PriceSource F) × List Str)
      → Type 0
  SplitsResult Test ss (ok r) = Splits Test ss r.0 r.1
  SplitsResult Test ss (err e) = Unit

  module _ (c : AggregationConfig F) (ss : List (PriceSource F)) where
    inside_iff :
        (q1 q3 : F)
        → leb (length ss) 2 ≡ false
        → percentile (values_of ss) (pos 25) ≡ ok q1
        → percentile (values_of ss) (pos 75) ≡ ok q3
        → (s : PriceSource F)
        → (inside
              (d.sub q1 (d.mul c.iqr_multiplier (d.sub q3 q1)))
              (d.add q3 (d.mul c.iqr_multiplier (d.sub q3 q1)))
              s
            ≡ true)
          ↔ IsInFences c ss s
    unfolding inside
    inside_iff q1 q3 many e1 e3 s = (
      λ h. let (low, high) = (both_true _ _).0 h in inr (q1, q3, e1, e3, low, high),
      λ test. elim test [
        | inl few ↦ absurd (ground (arith, many, few))
        | inr (r1, r3, f1, f3, low, high) ↦
            let same1 : r1 ≡ q1 = cc (f1, e1) in
            let same3 : r3 ≡ q3 = cc (f3, e3) in
            (both_true _ _).1 (rw (same1, same3) at low, rw (same1, same3) at high)
      ],
    )

    near_iff :
        (centre spread : Num F)
        → leb (length ss) 1 ≡ false
        → median (map int (values_of ss)) ≡ ok centre
        → median (map (λ v. distance v centre) (values_of ss)) ≡ ok spread
        → is_zero spread ≡ false
        → (s : PriceSource F)
        → (near centre (scale c.mad_multiplier spread) s ≡ true) ↔ IsNearMedian c ss s
    unfolding near
    near_iff centre spread many e1 e2 z s = (
      λ h. inr (centre, spread, e1, e2, inr h),
      λ test. elim test [
        | inl few ↦ absurd (ground (arith, many, few))
        | inr (centre', spread', f1, f2, which) ↦
            let same : centre' ≡ centre = cc (f1, e1) in
            let same_spread : spread' ≡ spread = cc (rw same at f2, e2) in
            elim which [
              | inl zero ↦ absurd (cc (rw same_spread at zero, z))
              | inr close ↦ rw (same, same_spread) at close
            ]
      ],
    )

    reject_outliers_iqr-Splits : SplitsResult (IsInFences c ss) ss (reject_outliers_iqr c ss)
    unfolding reject_outliers_iqr
    reject_outliers_iqr-Splits = elim (Bool-cases (leb (length ss) 2)) [
      | inl few ↦ rw few (keep_all ss (λ s. inl (ground arith)))
      | inr many ↦ rw many (
          q1-cases many (percentile (values_of ss) (pos 25)) (percentile (values_of ss) (pos 75))
            refl refl)
    ]
      where
        q1-cases :
            leb (length ss) 2 ≡ false
            → (r1 r3 : Result F) → percentile (values_of ss) (pos 25) ≡ r1
            → percentile (values_of ss) (pos 75) ≡ r3
            → SplitsResult (IsInFences c ss) ss (do
              q1 ← r1
              q3 ← r3
              ok (
                  partition_loop
                    (inside
                      (d.sub q1 (d.mul c.iqr_multiplier (d.sub q3 q1)))
                      (d.add q3 (d.mul c.iqr_multiplier (d.sub q3 q1))))
                    []
                    []
                    ss))
        q1-cases many (ok q1) (ok q3) e1 e3 = Splits-loop _ ss (inside_iff q1 q3 many e1 e3)
        q1-cases many (ok q1) (err e) e1 e3 = tt
        q1-cases many (err e) r3 e1 e3 = tt

    reject_outliers_mad-Splits : SplitsResult (IsNearMedian c ss) ss (reject_outliers_mad c ss)
    unfolding reject_outliers_mad
    reject_outliers_mad-Splits = elim (Bool-cases (leb (length ss) 1)) [
      | inl few ↦ rw few (keep_all ss (λ s. inl (ground arith)))
      | inr many ↦ rw many (centre-cases many (median (map int (values_of ss))) refl)
    ]
      where
        spread-cases :
            leb (length ss) 1 ≡ false
            → (centre : Num F) (r : Result (Num F)) → median (map int (values_of ss)) ≡ ok centre
            → median (map (λ v. distance v centre) (values_of ss)) ≡ r
            → SplitsResult (IsNearMedian c ss) ss (do
              spread ← r
              if is_zero spread
                  then ok (ss, [])
                  else ok (partition_loop (near centre (scale c.mad_multiplier spread)) [] [] ss))
        spread-cases many centre (err e) e1 e2 = tt
        spread-cases many centre (ok spread) e1 e2 = elim (Bool-cases (is_zero spread)) [
          | inl z ↦ rw z (keep_all ss (λ s. inr (centre, spread, e1, e2, inl z)))
          | inr z ↦ rw z (Splits-loop _ ss (near_iff centre spread many e1 e2 z))
        ]

        centre-cases :
            leb (length ss) 1 ≡ false
            → (r : Result (Num F)) → median (map int (values_of ss)) ≡ r
            → SplitsResult (IsNearMedian c ss) ss (do
              centre ← r
              spread ← median (map (λ v. distance v centre) (values_of ss))
              if is_zero spread
                  then ok (ss, [])
                  else ok (partition_loop (near centre (scale c.mad_multiplier spread)) [] [] ss))
        centre-cases many (err e) e1 = tt
        centre-cases many (ok centre) e1 =
            spread-cases many centre (median (map (λ v. distance v centre) (values_of ss))) e1 refl

    method-Splits :
        (m : OutlierRejectionMethod)
        → SplitsResult (Passes m c ss) ss (elim m [
          | iqr ↦ reject_outliers_iqr c ss
          | mad ↦ reject_outliers_mad c ss
          | none_method ↦ ok (ss, [])
        ])
    method-Splits iqr = reject_outliers_iqr-Splits
    method-Splits mad = reject_outliers_mad-Splits
    method-Splits none_method = keep_all ss (λ s. tt)

    -- A result keeps the sources that pass the test of the method, and rejects the ids of all others,
    -- in order.
    pub reject_outliers-Splits :
        (kept : List (PriceSource F)) (rejected : List Str)
        → reject_outliers c ss ≡ ok (kept, rejected)
        → Splits (Passes c.outlier_method c ss) ss kept rejected
    unfolding reject_outliers
    reject_outliers-Splits kept rejected e =
        subst (SplitsResult (Passes c.outlier_method c ss) ss) e (method-Splits c.outlier_method)
