-- ===== src/Cli/DryRun.antt =====
-- What exit code 0 of `submit` tells.
use stellar_kraal_contract.Common.{◌≡◌, ap, sym, ◌∙◌, inl, inr, List, [], ◌∷◌, Option, some}
use stellar_kraal_contract.Common.Dict.{Dict}
use stellar_kraal_contract.Common.Float.{Float}
use stellar_kraal_contract.Common.Int.{ℤ}
use stellar_kraal_contract.Common.Json.{Fields}
use stellar_kraal_contract.Common.Result.{ok, result_cases, Result, err}
use stellar_kraal_contract.Common.Text.{Str, codes}
use stellar_kraal_contract.Aggregation.Aggregate.{AggregationResult}
use stellar_kraal_contract.Aggregation.Config.{AggregationConfig}
use stellar_kraal_contract.Attestation.BigEndian.{Bytes}
use stellar_kraal_contract.Attestation.Signer.{SignedAttestation}
use stellar_kraal_contract.Provenance.Record.{ProvenanceRecord}
use stellar_kraal_contract.Bridge.AggregateOutcome.{Aggregated}
use stellar_kraal_contract.Bridge.Aggregated.{
  AggregatedPriceResult, Answer, with_result, aggregated, sign_aggregate, latest, aggregated_record,
}
use stellar_kraal_contract.Bridge.Commit.{GeeResult}
use stellar_kraal_contract.Bridge.Ipfs.{pin_provenance_record, IpfsClient}
use stellar_kraal_contract.Bridge.Process.{checked, Services}
use stellar_kraal_contract.Bridge.Processed.{Published, Conforms-checked, IsPinned-pin}
use stellar_kraal_contract.Bridge.Submit.{Alert, submit_with_cid, fall_back, validate_cid}
use stellar_kraal_contract.Cli.ReplayDlq.{dry_run_client}

module _ {F S : Type 0} ⦃float : Float F⦄ (env : Services F S) (ipfs : IpfsClient S) where
  abbrev dry : Services F S
  dry = record env { client = dry_run_client; ipfs = ipfs }

  -- The dry-run client answers every submission, and does nothing.
  submit_with_cid-dry :
      (a : SignedAttestation) (cid : Str) (s : S) {tx : Str} {s' : S} {alerts : List Alert}
      → submit_with_cid dry_run_client env.message a cid s ≡ (ok tx, s', alerts)
      → (tx ≡ codes "dry-run-tx") × (s' ≡ s) × (alerts ≡ [])
  unfolding submit_with_cid fall_back
  submit_with_cid-dry a cid s h = elim (result_cases (validate_cid cid)) [
    | inl (e, refused) ↦ absurd (cc (rw (refused, submit_with_cid) at h))
    | inr (u, taken) ↦
        let same = rw (taken, submit_with_cid) at h in
        (cc (ap (λ x. x.0) same), sym (ap (λ x. x.1) same), sym (ap (λ x. x.2) same))
  ]

  -- A run whose record conforms and is pinned, and nothing else: the state is that after pinning.
  pub record IsDryRun (a a' : SignedAttestation) (built : Result (ProvenanceRecord F)) (s : S)
      (tx : Str) (p : ProvenanceRecord F) (s' : S) (alerts : List Alert) : Type 0 where
    pub attestation_eq : a ≡ a'
    pub bare : ProvenanceRecord F
    pub dict : Fields F
    pub cid : Str
    pub conforms_eq : checked dry built ≡ ok (bare, dict)
    pub pinned_eq : pin_provenance_record env.crypto.canonical_json ipfs dict s ≡ (ok cid, s')
    pub cid_eq : p.ipfs_cid ≡ some cid
    pub tx_eq : tx ≡ codes "dry-run-tx"
    pub silent : alerts ≡ []

  Published-IsDryRun :
      (a : SignedAttestation) (built : Result (ProvenanceRecord F)) (s : S)
      {o : Result (SignedAttestation × Str × ProvenanceRecord F) × S × List Alert}
      → Published dry a built s o
      → (a' : SignedAttestation) (tx : Str) (p : ProvenanceRecord F) (s' : S) (alerts : List Alert)
      → o ≡ (ok (a', tx, p), s', alerts)
      → IsDryRun a a' built s tx p s' alerts
  Published-IsDryRun a built s (Published.rejected e h) a' tx p s' alerts same =
      absurd (cc (ap (λ x. x.0) same))
  Published-IsDryRun a built s (Published.unpinned q d e t h k) a' tx p s' alerts same =
      absurd (cc (ap (λ x. x.0) same))
  Published-IsDryRun a built s (Published.unsubmitted q d cid e t u log h k l m) a' tx p s' alerts
        same =
      absurd (cc (ap (λ x. x.0) same))
  Published-IsDryRun a built s (Published.submitted q d cid tx' t u log h k l m) a' tx p s' alerts
        same =
      let (is_tx, is_state, is_silent) = submit_with_cid-dry a cid t l in
      let answer : ◌≡◌ {A = Result (SignedAttestation × Str × ProvenanceRecord F)}
          (ok (a, tx', record q { ipfs_cid = some cid; tx_ref = some tx' })) (ok (a', tx, p)) =
        ap (λ x. x.0) same in
      let parts : ◌≡◌ {A = SignedAttestation × Str × ProvenanceRecord F}
          (a, tx', record q { ipfs_cid = some cid; tx_ref = some tx' }) (a', tx, p) =
        cc answer in
      let state : t ≡ s' = sym is_state ∙ ap (λ x. x.1) same in
      record {
        attestation_eq = ap (λ x. x.0) parts;
        bare = q;
        dict = d;
        cid = cid;
        conforms_eq = Conforms-checked dry built q d h;
        pinned_eq = IsPinned-pin dry d cid s t k ∙ ap (λ x. (ok cid, x)) state;
        cid_eq = sym (ap (λ x. x.2.ipfs_cid) parts);
        tx_eq = sym (ap (λ x. x.1) parts) ∙ is_tx;
        silent = sym (ap (λ x. x.2) same) ∙ is_silent;
      }

  with_result-ok :
      (f : ProvenanceRecord F → AggregatedPriceResult F)
      (o : Result (SignedAttestation × Str × ProvenanceRecord F) × S × List Alert)
      (r : AggregatedPriceResult F) (a : SignedAttestation) (tx : Str) (p : ProvenanceRecord F)
      (s' : S) (alerts : List Alert)
      → with_result dry f o ≡ (ok (r, a, tx, p), s', alerts)
      → (o ≡ (ok (a, tx, p), s', alerts)) × (r ≡ f p)
  unfolding with_result
  with_result-ok f (err e, t, log) r a tx p s' alerts same = absurd (cc (ap (λ x. x.0) same))
  with_result-ok f (ok (a', tx', p'), t, log) r a tx p s' alerts same =
      let parts : ◌≡◌ {A = AggregatedPriceResult F × SignedAttestation × Str × ProvenanceRecord F}
          (f p', a', tx', p') (r, a, tx, p) =
        cc (ap (λ x. x.0) same) in
      let is_p : p' ≡ p = ap (λ x. x.3) parts in
      (
        λ i. (ok ((parts i).1, (parts i).2, (parts i).3), (same i).1, (same i).2),
        sym (ap (λ x. x.0) parts) ∙ ap f is_p,
      )

  -- A run of `aggregate_and_submit`: the sources are aggregated, the aggregate is signed with the
  -- latest time of the results, and its record is pinned.
  pub record IsAggregateRun (c : AggregationConfig F) (seed : Bytes)
      (rs : Dict (GeeResult (Fields F))) (s : S) (r : AggregatedPriceResult F)
      (a : SignedAttestation) (tx : Str) (p : ProvenanceRecord F) (s' : S) (alerts : List Alert)
      : Type 0 where
    pub agg : AggregationResult F
    pub key : Str
    pub first : GeeResult (Fields F)
    pub rest : Dict (GeeResult (Fields F))
    pub submitted_at : ℤ
    pub before : S
    pub signed : SignedAttestation
    pub aggregated_eq : aggregated dry c rs ≡ ok agg
    pub results_eq : rs ≡ (key, first) ∷ rest
    pub signed_eq : sign_aggregate dry seed first (latest first.timestamp_utc rest) agg ≡ ok signed
    pub clock_eq : env.clock s ≡ (submitted_at, before)
    pub value_eq : r.aggregate_value ≡ agg.aggregate_value
    pub dry_run :
        IsDryRun signed a
          (aggregated_record env.crypto first agg
            (latest first.timestamp_utc rest)
            signed
            submitted_at)
          before
          tx
          p
          s'
          alerts

  pub Aggregated-IsAggregateRun :
      (config : Option (AggregationConfig F)) (c : AggregationConfig F) (seed : Bytes)
      (rs : Dict (GeeResult (Fields F))) (s : S) {o : Answer dry}
      → config ≡ some c
      → Aggregated dry seed config rs s o
      → (r : AggregatedPriceResult F) (a : SignedAttestation) (tx : Str) (p : ProvenanceRecord F)
        (s' : S) (alerts : List Alert)
      → o ≡ (ok (r, a, tx, p), s', alerts)
      → IsAggregateRun c seed rs s r a tx p s' alerts
  Aggregated-IsAggregateRun config c seed rs s is_c (Aggregated.unconfigured h) r a tx p s' alerts
        same =
      absurd (cc (ap (λ x. x.0) same))
  Aggregated-IsAggregateRun config c seed rs s is_c (Aggregated.unaggregated c' e h k) r a tx p s'
        alerts same =
      absurd (cc (ap (λ x. x.0) same))
  Aggregated-IsAggregateRun config c seed rs s is_c (Aggregated.no_results c' h k) r a tx p s'
        alerts same =
      absurd (cc (ap (λ x. x.0) same))
  Aggregated-IsAggregateRun config c seed rs s is_c
        (Aggregated.unsigned c' agg key first rest e h k l top m) r a tx p s' alerts same =
      absurd (cc (ap (λ x. x.0) same))
  Aggregated-IsAggregateRun config c seed rs s is_c
        (Aggregated.published c' agg key first rest a' submitted_at before {o = o'} h k l top m n
          published)
        r a tx p s' alerts same =
      let (ran, is_r) = with_result-ok _ o' r a tx p s' alerts same in
      let dry_run = Published-IsDryRun a' _ before published a tx p s' alerts ran in
      let is_config : c' ≡ c = cc (h, is_c) in
      record {
        agg = agg;
        key = key;
        first = first;
        rest = rest;
        submitted_at = submitted_at;
        before = before;
        signed = a';
        aggregated_eq = rw (← is_config) k;
        results_eq = l;
        signed_eq = m;
        clock_eq = n;
        value_eq = ap (λ x. x.aggregate_value) is_r;
        dry_run = dry_run;
      }
