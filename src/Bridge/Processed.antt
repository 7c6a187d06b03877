-- ===== src/Bridge/Processed.antt =====
-- What publishing a record and `process` do, by how far they come.
use mathlib.Core.Path.{subst}
use stellar_kraal_contract.Common.{◌≡◌, refl, sym, ap, ◌∙◌, ◌⊎◌, inl, inr, List, [], some}
use stellar_kraal_contract.Common.Float.{Float}
use stellar_kraal_contract.Common.Int.{ℤ}
use stellar_kraal_contract.Common.Json.{Fields, object}
use stellar_kraal_contract.Common.Result.{Result, ok, err, Error, result_cases, >>=-eq-ok}
use stellar_kraal_contract.Common.Text.{Str}
use stellar_kraal_contract.Attestation.BigEndian.{Bytes}
use stellar_kraal_contract.Attestation.Signer.{SignedAttestation}
use stellar_kraal_contract.Provenance.Record.{ProvenanceRecord, to_dict}
use stellar_kraal_contract.Provenance.Validate.{validate_provenance_record}
use stellar_kraal_contract.Bridge.Commit.{GeeResult, revealed}
use stellar_kraal_contract.Bridge.Ipfs.{pin_provenance_record}
use stellar_kraal_contract.Bridge.Process.{
  publish_checked, process, single_record, signer_crypto, Services, checked, validated, publish,
  submit_pinned, with_tx,
}
use stellar_kraal_contract.Bridge.Submission.{Submitted, submit_with_cid-Submitted}
use stellar_kraal_contract.Bridge.Submit.{Alert, submit_with_cid}

module _ {F S : Type 0} ⦃float : Float F⦄ (env : Services F S) where
  abbrev Outcome : Type 0
  Outcome = Result (SignedAttestation × Str × ProvenanceRecord F) × S × List Alert

  -- The record was built, and its dict conforms to the schema.
  pub record Conforms (built : Result (ProvenanceRecord F)) (p : ProvenanceRecord F) (d : Fields F)
      : Type 0 where
    pub built_eq : built ≡ ok p
    pub dict_eq : to_dict env.crypto env.utc_iso p ≡ ok d
    pub valid_eq : validate_provenance_record env.jsonschema d ≡ ok tt

  -- No record was built, it has no dict, or the dict does not conform.
  abbrev pub Fails : Result (ProvenanceRecord F) → Error → Type 0
  Fails built e =
      (built ≡ err e)
      ⊎ ((p : ProvenanceRecord F) × (built ≡ ok p)
          × ((to_dict env.crypto env.utc_iso p ≡ err e)
              ⊎ ((d : Fields F) × (to_dict env.crypto env.utc_iso p ≡ ok d)
                  × (validate_provenance_record env.jsonschema d ≡ err e))))

  -- The canonical JSON of the dict was pinned under the CID.
  pub record IsPinned (d : Fields F) (cid : Str) (s s' : S) : Type 0 where
    pub content : Bytes
    pub content_eq : env.crypto.canonical_json (object d) ≡ ok content
    pub pinned_eq : env.ipfs.pin content s ≡ (ok cid, s')

  -- It could not be written, or the IPFS client raised.
  abbrev pub IsUnpinned : Fields F → Error → S → S → Type 0
  IsUnpinned d e s s' =
      ((env.crypto.canonical_json (object d) ≡ err e) × (s' ≡ s))
      ⊎ ((content : Bytes) × (env.crypto.canonical_json (object d) ≡ ok content)
          × (env.ipfs.pin content s ≡ (err e, s')))

  -- The outcome of publishing a record that was built for an attestation.
  pub data Published (a : SignedAttestation) (built : Result (ProvenanceRecord F)) (s : S)
      : Outcome → Type 0 where
    -- No record that conforms: nothing is pinned or submitted.
    rejected : (e : Error) → Fails built e → Published a built s (err e, s, [])
    -- A conforming record that could not be pinned: nothing is submitted.
    unpinned :
        (p : ProvenanceRecord F) (d : Fields F) (e : Error) (s' : S)
        → Conforms built p d
        → IsUnpinned d e s s'
        → Published a built s (err e, s', [])
    -- The pinned record's CID was submitted with the attestation, in vain.
    unsubmitted :
        (p : ProvenanceRecord F) (d : Fields F) (cid : Str) (e : Error) (s' s'' : S)
        (log : List Alert)
        → Conforms built p d
        → IsPinned d cid s s'
        → submit_with_cid env.client env.message a cid s' ≡ (err e, s'', log)
        → Submitted env.client env.message a cid s' (err e, s'', log)
        → Published a built s (err e, s'', log)
    -- The pinned record's CID was submitted with the attestation.
    submitted :
        (p : ProvenanceRecord F) (d : Fields F) (cid tx : Str) (s' s'' : S) (log : List Alert)
        → Conforms built p d
        → IsPinned d cid s s'
        → submit_with_cid env.client env.message a cid s' ≡ (ok tx, s'', log)
        → Submitted env.client env.message a cid s' (ok tx, s'', log)
        → Published a built s
            (ok (a, tx, record p { ipfs_cid = some cid; tx_ref = some tx }), s'', log)

  pub Conforms-checked :
      (built : Result (ProvenanceRecord F)) (p : ProvenanceRecord F) (d : Fields F)
      → Conforms built p d
      → checked env built ≡ ok (p, d)
  unfolding checked validated
  Conforms-checked built p d c = rw (c.built_eq, checked, c.dict_eq, c.valid_eq) refl

  checked-Conforms :
      (built : Result (ProvenanceRecord F)) (p : ProvenanceRecord F) (d : Fields F)
      → checked env built ≡ ok (p, d)
      → Conforms built p d
  unfolding checked validated
  checked-Conforms built p d h =
      let (q, built_eq, h1) = >>=-eq-ok built _ h in
      let (e, valid_eq, h2) = >>=-eq-ok (validated env q) _ h1 in
      let (e', dict_eq, h3) = >>=-eq-ok (to_dict env.crypto env.utc_iso q) _ valid_eq in
      let (u, conforms, h4) = >>=-eq-ok (validate_provenance_record env.jsonschema e') _ h3 in
      let is_p : q ≡ p = cc h2 in
      let is_d : e' ≡ d = cc (h4, h2) in
      record {
        built_eq = built_eq ∙ ap ok is_p;
        dict_eq = rw (← is_p, ← is_d) dict_eq;
        valid_eq = rw (← is_d) conforms;
      }

  checked-Fails :
      (built : Result (ProvenanceRecord F)) (e : Error) → checked env built ≡ err e → Fails built e
  unfolding checked validated
  checked-Fails (err f) e h = inl (cc h)
  checked-Fails (ok p) e h = elim (result_cases (to_dict env.crypto env.utc_iso p)) [
    | inl (f, unread) ↦
        let same : f ≡ e = cc (rw (checked, unread) at h) in
        inr (p, refl, inl (unread ∙ ap err same))
    | inr (d, read) ↦ elim (result_cases (validate_provenance_record env.jsonschema d)) [
      | inl (f, refuses) ↦
          let same : f ≡ e = cc (rw (checked, read, refuses) at h) in
          inr (p, refl, inr (d, read, refuses ∙ ap err same))
      | inr (u, conforms) ↦ absurd (cc (rw (checked, read, conforms) at h))
    ]
  ]

  pub IsPinned-pin :
      (d : Fields F) (cid : Str) (s s' : S)
      → IsPinned d cid s s'
      → pin_provenance_record env.crypto.canonical_json env.ipfs d s ≡ (ok cid, s')
  unfolding pin_provenance_record
  IsPinned-pin d cid s s' k = rw (k.content_eq, pin_provenance_record) k.pinned_eq

  pin-IsPinned :
      (d : Fields F) (cid : Str) (s s' : S)
      → pin_provenance_record env.crypto.canonical_json env.ipfs d s ≡ (ok cid, s')
      → IsPinned d cid s s'
  unfolding pin_provenance_record
  pin-IsPinned d cid s s' h = elim (result_cases (env.crypto.canonical_json (object d))) [
    | inl (e, unwritten) ↦ absurd (cc (ap (λ x. x.0) (rw (unwritten, pin_provenance_record) at h)))
    | inr (content, written) ↦ record {
      content = content;
      content_eq = written;
      pinned_eq = rw (written, pin_provenance_record) at h;
    }
  ]

  pin-IsUnpinned :
      (d : Fields F) (e : Error) (s s' : S)
      → pin_provenance_record env.crypto.canonical_json env.ipfs d s ≡ (err e, s')
      → IsUnpinned d e s s'
  unfolding pin_provenance_record
  pin-IsUnpinned d e s s' h = elim (result_cases (env.crypto.canonical_json (object d))) [
    | inl (f, unwritten) ↦
        let both = rw (unwritten, pin_provenance_record) at h in
        let same : f ≡ e = cc (ap (λ x. x.0) both) in
        inl (unwritten ∙ ap err same, sym (ap (λ x. x.1) both))
    | inr (content, written) ↦ inr (content, written, rw (written, pin_provenance_record) at h)
  ]

  module _ (a : SignedAttestation) (built : Result (ProvenanceRecord F)) (s : S) where
    submit_pinned-Published :
        (p : ProvenanceRecord F) (d : Fields F)
        → Conforms built p d
        → (pinned : Result Str × S)
        → pin_provenance_record env.crypto.canonical_json env.ipfs d s ≡ pinned
        → Published a built s (submit_pinned env a p pinned)
    unfolding submit_pinned
    submit_pinned-Published p d conforms (err e, s') h =
        Published.unpinned p d e s' conforms (pin-IsUnpinned d e s s' h)
    submit_pinned-Published p d conforms (ok cid, s') h =
        with_tx-Published (submit_with_cid env.client env.message a cid s') refl
      where
        with_tx-Published :
            (t : Result Str × S × List Alert)
            → submit_with_cid env.client env.message a cid s' ≡ t
            → Published a built s
                (with_tx env (λ tx. (a, tx, record p { ipfs_cid = some cid; tx_ref = some tx })) t)
        with_tx-Published (err e, s'', log) k =
            Published.unsubmitted p d cid e s' s'' log conforms (pin-IsPinned d cid s s' h) k (
              subst (Submitted env.client env.message a cid s') k
                (submit_with_cid-Submitted env.client env.message a cid s'))
        with_tx-Published (ok tx, s'', log) k =
            Published.submitted p d cid tx s' s'' log conforms (pin-IsPinned d cid s s' h) k (
              subst (Submitted env.client env.message a cid s') k
                (submit_with_cid-Submitted env.client env.message a cid s'))

    publish_checked-Published :
        (t : Result (ProvenanceRecord F × Fields F))
        → checked env built ≡ t
        → Published a built s (publish_checked env a s t)
    unfolding publish_checked
    publish_checked-Published (err e) h = Published.rejected e (checked-Fails built e h)
    publish_checked-Published (ok (p, d)) h =
        submit_pinned-Published p d (checked-Conforms built p d h) _ refl

    pub publish-Published : Published a built s (publish env a built s)
    unfolding publish
    publish-Published = publish_checked-Published (checked env built) refl

  -- The outcome of processing a result.
  pub data Processed (seed : Bytes) (r : GeeResult (Fields F)) (s : S) : Outcome → Type 0 where
    -- The result could not be signed: nothing happens, and the clock is not read.
    unsigned :
        (e : Error)
        → revealed (signer_crypto env.crypto) seed r ≡ err e
        → Processed seed r s (err e, s, [])
    -- The attestation is the one that `reveal` would sign; its record is published.
    signed :
        (a : SignedAttestation) (submitted_at : ℤ) (s' : S) {o : Outcome}
        → revealed (signer_crypto env.crypto) seed r ≡ ok a
        → env.clock s ≡ (submitted_at, s')
        → Published a (single_record env.crypto r a submitted_at) s' o
        → Processed seed r s o

  -- Every run of `process` ends in one of five ways: the result is not signed and the world is as
  -- before; the record is not built, has no dict or its dict does not conform to the schema, and
  -- nothing is pinned or submitted; the canonical JSON of a dict that conforms is not pinned, and
  -- nothing is submitted; it is pinned, and its CID is submitted with the attestation, in one of the
  -- ways of `Submitted`, which raises; or this succeeds, and the record that is returned is the pinned
  -- one with the CID and the reference of the transaction.
  pub process-Processed :
      (seed : Bytes) (r : GeeResult (Fields F)) (s : S) → Processed seed r s (process env seed r s)
  unfolding process
  process-Processed seed r s = elim (result_cases (revealed (signer_crypto env.crypto) seed r)) [
    | inl (e, h) ↦ rw (h, process) (Processed.unsigned e h)
    | inr (a, h) ↦
        let (submitted_at, s') = env.clock s in
        rw (h, process)
          (Processed.signed a submitted_at s' h refl
            (publish-Published a (single_record env.crypto r a submitted_at) s'))
  ]
