-- ===== src/Bridge/AggregateOutcome.antt =====
-- What `aggregate_and_submit` does, by how far it comes.
use mathlib.Core.Path.{subst}
use stellar_kraal_contract.Common.{
  ◌≡◌, refl, sym, ◌⊎◌, inl, inr, List, [], ◌∷◌, Option, none, some, arith, All, In, Bool-cases,
}
use stellar_kraal_contract.Common.Dict.{Dict}
use stellar_kraal_contract.Common.Float.{Float}
use stellar_kraal_contract.Common.Int.{ℤ, ltb_ℤ, ◌≤ℤ◌}
use stellar_kraal_contract.Common.Json.{Fields}
use stellar_kraal_contract.Common.Result.{Result, ok, err, Error, raised, not_configured}
use stellar_kraal_contract.Common.Text.{Str, codes}
use stellar_kraal_contract.Aggregation.Aggregate.{AggregationResult}
use stellar_kraal_contract.Aggregation.Config.{AggregationConfig}
use stellar_kraal_contract.Attestation.BigEndian.{Bytes}
use stellar_kraal_contract.Attestation.Signer.{SignedAttestation}
use stellar_kraal_contract.Provenance.Record.{ProvenanceRecord}
use stellar_kraal_contract.Bridge.Aggregated.{
  Answer, aggregated, sign_aggregate, latest, aggregated_record, with_result, publish_aggregate,
  with_aggregate, with_first_result, submit_aggregate, aggregate_and_submit,
}
use stellar_kraal_contract.Bridge.Commit.{GeeResult}
use stellar_kraal_contract.Bridge.Process.{Services}
use stellar_kraal_contract.Bridge.Processed.{Published, publish-Published}
use stellar_kraal_contract.Bridge.Submit.{Alert}

module _ {F : Type 0} where
  -- The time is that of a result, and no result has a later one.
  pub record IsLatest (rs : Dict (GeeResult (Fields F))) (t : ℤ) : Type 0 where
    pub key : Str
    pub result : GeeResult (Fields F)
    pub given : In (key, result) rs
    pub time_eq : result.timestamp_utc ≡ t
    pub none_later : All (λ kr. kr.1.timestamp_utc ≤ℤ t) rs

  latest_bound : (t : ℤ) (rs : Dict (GeeResult (Fields F))) → t ≤ℤ latest t rs
  unfolding latest
  latest_bound t [] = omega arith
  latest_bound t ((k, r) ∷ rs) = elim (Bool-cases (ltb_ℤ t r.timestamp_utc)) [
    | inl later ↦
        let rest = latest_bound r.timestamp_utc rs in rw later (ground (arith, rest, later))
    | inr earlier ↦ rw earlier (latest_bound t rs)
  ]

  latest_All :
      (t top : ℤ) (rs : Dict (GeeResult (Fields F)))
      → latest t rs ≡ top
      → All (λ kr. kr.1.timestamp_utc ≤ℤ top) rs
  unfolding latest
  latest_All t top [] e = tt
  latest_All t top ((k, r) ∷ rs) e = elim (Bool-cases (ltb_ℤ t r.timestamp_utc)) [
    | inl later ↦
        let is_top : latest r.timestamp_utc rs ≡ top = rw later at e in
        (
          subst (λ u. r.timestamp_utc ≤ℤ u) is_top (latest_bound r.timestamp_utc rs),
          latest_All r.timestamp_utc top rs is_top,
        )
    | inr earlier ↦
        let is_top : latest t rs ≡ top = rw earlier at e in
        let above = subst (λ u. t ≤ℤ u) is_top (latest_bound t rs) in
        (ground (arith, above, earlier), latest_All t top rs is_top)
  ]

  latest_In :
      (t : ℤ) (rs : Dict (GeeResult (Fields F)))
      → (latest t rs ≡ t)
        ⊎ ((k : Str) × (r : GeeResult (Fields F)) × In (k, r) rs × (r.timestamp_utc ≡ latest t rs))
  unfolding latest
  latest_In t [] = inl refl
  latest_In t ((k, r) ∷ rs) = elim (Bool-cases (ltb_ℤ t r.timestamp_utc)) [
    | inl later ↦ rw later (elim (latest_In r.timestamp_utc rs) [
      | inl same ↦ inr (k, r, inl refl, sym same)
      | inr (j, q, given, same) ↦ inr (j, q, inr given, same)
    ])
    | inr earlier ↦ rw earlier (elim (latest_In t rs) [
      | inl same ↦ inl same
      | inr (j, q, given, same) ↦ inr (j, q, inr given, same)
    ])
  ]

  latest-IsLatest :
      (k : Str) (first : GeeResult (Fields F)) (rest : Dict (GeeResult (Fields F)))
      → IsLatest ((k, first) ∷ rest) (latest first.timestamp_utc rest)
  latest-IsLatest k first rest = elim (latest_In first.timestamp_utc rest) [
    | inl same ↦ record {
      key = k;
      result = first;
      given = inl refl;
      time_eq = sym same;
      none_later =
          (latest_bound first.timestamp_utc rest, latest_All first.timestamp_utc _ rest refl);
    }
    | inr (j, r, given, same) ↦ record {
      key = j;
      result = r;
      given = inr given;
      time_eq = same;
      none_later =
          (latest_bound first.timestamp_utc rest, latest_All first.timestamp_utc _ rest refl);
    }
  ]

module _ {F S : Type 0} ⦃float : Float F⦄ (env : Services F S) (seed : Bytes) where
  -- The outcome, for a configuration, the results by source and the world.
  pub data Aggregated (config : Option (AggregationConfig F)) (rs : Dict (GeeResult (Fields F)))
      (s : S) : Answer env → Type 0 where
    unconfigured : config ≡ none → Aggregated config rs s (err not_configured, s, [])
    -- The sources are not aggregated: an unknown one, or what `aggregate` raises.
    unaggregated :
        (c : AggregationConfig F) (e : Error)
        → config ≡ some c
        → aggregated env c rs ≡ err e
        → Aggregated config rs s (err e, s, [])
    no_results :
        (c : AggregationConfig F)
        → config ≡ some c
        → rs ≡ []
        → Aggregated config rs s (err (raised (codes "StopIteration") []), s, [])
    -- The aggregate cannot be signed.
    unsigned :
        (c : AggregationConfig F) (agg : AggregationResult F) (k : Str)
        (first : GeeResult (Fields F)) (rest : Dict (GeeResult (Fields F))) (e : Error)
        → config ≡ some c
        → aggregated env c rs ≡ ok agg
        → rs ≡ (k, first) ∷ rest
        → IsLatest rs (latest first.timestamp_utc rest)
        → sign_aggregate env seed first (latest first.timestamp_utc rest) agg ≡ err e
        → Aggregated config rs s (err e, s, [])
    -- The record of the signed aggregate is published like that of a single result.
    published :
        (c : AggregationConfig F) (agg : AggregationResult F) (k : Str)
        (first : GeeResult (Fields F)) (rest : Dict (GeeResult (Fields F))) (a : SignedAttestation)
        (submitted_at : ℤ) (s' : S)
        {o : Result (SignedAttestation × Str × ProvenanceRecord F) × S × List Alert}
        → config ≡ some c
        → aggregated env c rs ≡ ok agg
        → rs ≡ (k, first) ∷ rest
        → IsLatest rs (latest first.timestamp_utc rest)
        → sign_aggregate env seed first (latest first.timestamp_utc rest) agg ≡ ok a
        → env.clock s ≡ (submitted_at, s')
        → Published env a
            (aggregated_record env.crypto first agg
              (latest first.timestamp_utc rest)
              a
              submitted_at)
            s'
            o
        → Aggregated config rs s (
            with_result env
              (λ p. record {
                aggregate_value = agg.aggregate_value;
                source_values = agg.source_values;
                weights_used = agg.weights_used;
                rejected_sources = agg.rejected_sources;
                feed_id = first.feed_id;
                timestamp_utc = latest first.timestamp_utc rest;
                outlier_method = agg.outlier_method;
                ipfs_cid = p.ipfs_cid;
              })
              o)

  module _ (c : AggregationConfig F) (s : S) where
    signed-Aggregated :
        (agg : AggregationResult F) (k : Str) (first : GeeResult (Fields F))
        (rest : Dict (GeeResult (Fields F)))
        → aggregated env c ((k, first) ∷ rest) ≡ ok agg
        → (signed : Result SignedAttestation)
        → sign_aggregate env seed first (latest first.timestamp_utc rest) agg ≡ signed
        → Aggregated
            (some c)
            ((k, first) ∷ rest)
            s
            (publish_aggregate env first (latest first.timestamp_utc rest) agg s signed)
    unfolding publish_aggregate
    signed-Aggregated agg k first rest h (err e) signs =
        Aggregated.unsigned c agg k first rest e refl h refl (latest-IsLatest k first rest) signs
    signed-Aggregated agg k first rest h (ok a) signs =
        let (submitted_at, s') = env.clock s in
        Aggregated.published c agg k first rest a submitted_at s' refl h refl
          (latest-IsLatest k first rest) signs refl (publish-Published env a _ s')

    with_aggregate-Aggregated :
        (rs : Dict (GeeResult (Fields F))) (r : Result (AggregationResult F))
        → aggregated env c rs ≡ r
        → Aggregated (some c) rs s (with_aggregate env seed rs s r)
    unfolding with_aggregate with_first_result submit_aggregate
    with_aggregate-Aggregated rs (err e) h = Aggregated.unaggregated c e refl h
    with_aggregate-Aggregated [] (ok agg) h = Aggregated.no_results c refl refl
    with_aggregate-Aggregated ((k, first) ∷ rest) (ok agg) h =
        signed-Aggregated agg k first rest h _ refl

  -- Every run of `aggregate_and_submit` ends in one of five ways: no configuration; sources that are
  -- not aggregated; no results; an aggregate that is not signed, all with the world as before; or the
  -- record of the signed aggregate is published in one of the ways of `Published`, with the time of a
  -- result than which no result has a later one, and the answer has the values, weights and rejected
  -- sources of the aggregation.
  pub aggregate_and_submit-Aggregated :
      (config : Option (AggregationConfig F)) (rs : Dict (GeeResult (Fields F))) (s : S)
      → Aggregated config rs s (aggregate_and_submit env config seed rs s)
  unfolding aggregate_and_submit
  aggregate_and_submit-Aggregated none rs s = Aggregated.unconfigured refl
  aggregate_and_submit-Aggregated (some c) rs s =
      with_aggregate-Aggregated c s rs (aggregated env c rs) refl
