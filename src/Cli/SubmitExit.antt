-- ===== src/Cli/SubmitExit.antt =====
-- Exit code 0 of `submit`.
use stellar_kraal_contract.Common.{
  ◌≡◌, refl, ap, inl, inr, true, List, [], ◌∷◌, Option, none, some, arith, Bool-cases,
}
use stellar_kraal_contract.Common.Dict.{Dict, keys}
use stellar_kraal_contract.Common.Float.{Float}
use stellar_kraal_contract.Common.Json.{Fields}
use stellar_kraal_contract.Common.Result.{Result, ok, err, result_cases, is_value_error}
use stellar_kraal_contract.Common.Text.{Str}
use stellar_kraal_contract.Aggregation.Config.{AggregationConfig, check_config}
use stellar_kraal_contract.Attestation.BigEndian.{Bytes}
use stellar_kraal_contract.Attestation.Signer.{SignedAttestation}
use stellar_kraal_contract.Provenance.Record.{ProvenanceRecord}
use stellar_kraal_contract.Bridge.AggregateOutcome.{aggregate_and_submit-Aggregated}
use stellar_kraal_contract.Bridge.Aggregated.{Answer, AggregatedPriceResult}
use stellar_kraal_contract.Bridge.Commit.{GeeResult}
use stellar_kraal_contract.Bridge.Ipfs.{IpfsClient}
use stellar_kraal_contract.Bridge.Submit.{Alert}
use stellar_kraal_contract.Cli.DryRun.{IsAggregateRun, Aggregated-IsAggregateRun}
use stellar_kraal_contract.Cli.Submit.{
  SubmitInputs, SubmitArgs, ResultsFile, collect, signer_seed, submit_config, submit_services,
  exit_code, run_pipeline, with_signer, with_results, with_file, cmd_submit, Collected,
}

module _ {F S : Type 0} ⦃float : Float F⦄ (inputs : SubmitInputs F S) (args : SubmitArgs F) where
  abbrev ipfs : IpfsClient S
  ipfs = inputs.ipfs_of args.ipfs_mode

  -- A run of `submit` that succeeded: a file with results, a key, a dry run, a configuration that is
  -- accepted, and the pipeline.
  pub record IsSuccess (s s' : S) (alerts : List Alert) : Type 0 where
    pub file : ResultsFile F
    pub results : Dict (GeeResult (Fields F))
    pub collected_at : S
    pub seed : Bytes
    pub signed_at : S
    pub config : AggregationConfig F
    pub answer : AggregatedPriceResult F
    pub attestation : SignedAttestation
    pub tx : Str
    pub provenance : ProvenanceRecord F
    pub file_eq : inputs.read_results args.results_file s ≡ some (ok file)
    pub results_eq : collect inputs args file s ≡ some (ok results, collected_at)
    pub seed_eq : signer_seed inputs args collected_at ≡ some (ok seed, signed_at)
    pub dry_run_eq : args.dry_run ≡ true
    pub config_eq : check_config (submit_config inputs args (keys results)) ≡ ok config
    pub run :
        IsAggregateRun inputs.services ipfs config seed results signed_at answer attestation tx
          provenance s' alerts

  exit_code-zero :
      (o : Answer (submit_services inputs args)) (s' : S) (alerts : List Alert)
      → exit_code inputs args o ≡ (ok 0, s', alerts)
      → (r : AggregatedPriceResult F) × (a : SignedAttestation) × (tx : Str) × (p : ProvenanceRecord
          F)
        × (o ≡ (ok (r, a, tx, p), s', alerts))
  exit_code-zero (err e, t, log) s' alerts same = absurd (ground (arith, ap (λ x. x.0) same))
  exit_code-zero (ok (r, a, tx, p), t, log) s' alerts same =
      (r, a, tx, p, (λ i. (ok (r, a, tx, p), (same i).1, (same i).2)))

  run_pipeline-zero :
      (seed : Bytes) (rs : Dict (GeeResult (Fields F))) (s s' : S) (alerts : List Alert)
      → run_pipeline inputs args seed rs s ≡ (ok 0, s', alerts)
      → (config : AggregationConfig F) × (check_config (submit_config inputs args (keys rs))
          ≡ ok config)
        × (r : AggregatedPriceResult F) × (a : SignedAttestation) × (tx : Str)
        × (p : ProvenanceRecord F) × IsAggregateRun inputs.services ipfs config seed rs s r a tx p
            s' alerts
  unfolding run_pipeline
  run_pipeline-zero seed rs s s' alerts same =
      elim (result_cases (check_config (submit_config inputs args (keys rs)))) [
        | inl (e, h) ↦ absurd (cc (ap (λ x. x.0) (rw (h, run_pipeline) at same)))
        | inr (config, h) ↦
            let (r, a, tx, p, ran) = exit_code-zero _ s' alerts (rw (h, run_pipeline) at same) in
            (
              config,
              h,
              r,
              a,
              tx,
              p,
              Aggregated-IsAggregateRun inputs.services ipfs (some config) config seed rs s refl
                  (aggregate_and_submit-Aggregated (submit_services inputs args) seed (some config)
                    rs s)
                  r a tx p s' alerts ran,
            )
      ]

  module _ (s s' : S) (alerts : List Alert) where
    with_signer-zero :
        (file : ResultsFile F) (rs : Dict (GeeResult (Fields F))) (t : S)
        (o : Option (Result Bytes × S))
        → inputs.read_results args.results_file s ≡ some (ok file)
        → collect inputs args file s ≡ some (ok rs, t)
        → signer_seed inputs args t ≡ o
        → with_signer inputs args rs t o ≡ (ok 0, s', alerts)
        → IsSuccess s s' alerts
    unfolding with_signer
    with_signer-zero file rs t none h k l same = absurd (ground (arith, ap (λ x. x.0) same))
    with_signer-zero file rs t (some (err e, u)) h k l same = absurd (cc (ap (λ x. x.0) same))
    with_signer-zero file rs t (some (ok seed, u)) h k l same = elim (Bool-cases args.dry_run) [
      | inr live ↦ absurd (ground (arith, ap (λ x. x.0) (rw live at same)))
      | inl dry ↦
          let (config, accepted, r, a, tx, p, ran) =
            run_pipeline-zero seed rs u s' alerts (rw dry at same) in
          record {
            file = file;
            results = rs;
            collected_at = t;
            seed = seed;
            signed_at = u;
            config = config;
            answer = r;
            attestation = a;
            tx = tx;
            provenance = p;
            file_eq = h;
            results_eq = k;
            seed_eq = l;
            dry_run_eq = dry;
            config_eq = accepted;
            run = ran;
          }
    ]

    with_results-zero :
        (file : ResultsFile F) (o : Option (Collected inputs args))
        → inputs.read_results args.results_file s ≡ some (ok file)
        → collect inputs args file s ≡ o
        → with_results inputs args s o ≡ (ok 0, s', alerts)
        → IsSuccess s s' alerts
    unfolding with_results
    with_results-zero file none h k same = absurd (ground (arith, ap (λ x. x.0) same))
    with_results-zero file (some (err e, t)) h k same = absurd (cc (ap (λ x. x.0) same))
    with_results-zero file (some (ok [], t)) h k same = absurd (ground (arith, ap (λ x. x.0) same))
    with_results-zero file (some (ok (r ∷ rs), t)) h k same =
        with_signer-zero file (r ∷ rs) t (signer_seed inputs args t) h k refl same

    with_file-zero :
        (o : Option (Result (ResultsFile F)))
        → inputs.read_results args.results_file s ≡ o
        → with_file inputs args s o ≡ (ok 0, s', alerts)
        → IsSuccess s s' alerts
    unfolding with_file
    with_file-zero none h same = absurd (ground (arith, ap (λ x. x.0) same))
    with_file-zero (some (err e)) h same = elim (Bool-cases (is_value_error e)) [
      | inl caught ↦ absurd (ground (arith, ap (λ x. x.0) (rw caught at same)))
      | inr other ↦ absurd (cc (ap (λ x. x.0) (rw other at same)))
    ]
    with_file-zero (some (ok file)) h same =
        with_results-zero file (collect inputs args file s) h refl same

  -- If `submit` exits with 0, it was a dry run, the file has results and the configuration is
  -- accepted; the sources were aggregated and the aggregate was signed with the latest time of the
  -- results; its record conforms and was pinned, and nothing else changed after the clock was read;
  -- and the reference of the transaction is that of the dry-run client.
  pub cmd_submit-IsSuccess :
      (s s' : S) (alerts : List Alert)
      → cmd_submit inputs args s ≡ (ok 0, s', alerts)
      → IsSuccess s s' alerts
  unfolding cmd_submit
  cmd_submit-IsSuccess s s' alerts done =
      with_file-zero s s' alerts (inputs.read_results args.results_file s) refl done
