-- ===== src/Demo/Processed.antt =====
-- `BRIDGE.process` has one of the two effects on the state of the server.
use stellar_kraal_contract.Common.{◌+◌, ◌≡◌, refl, ap, ◌∙◌, ◌⊎◌, inl, inr, some}
use stellar_kraal_contract.Common.Dict.{insert}
use stellar_kraal_contract.Common.Float.{Float}
use stellar_kraal_contract.Common.Int.{ℤ}
use stellar_kraal_contract.Common.Json.{Fields, object}
use stellar_kraal_contract.Common.Result.{Result, ok, err, Error, >>=-eq-ok, result_cases}
use stellar_kraal_contract.Common.Text.{Str}
use stellar_kraal_contract.Attestation.BigEndian.{Bytes}
use stellar_kraal_contract.Attestation.Payload.{FeedId}
use stellar_kraal_contract.Attestation.Signer.{SignedAttestation}
use stellar_kraal_contract.Attestation.Signing.{IsComplete}
use stellar_kraal_contract.Provenance.Record.{ProvenanceRecord, to_dict}
use stellar_kraal_contract.Provenance.Validate.{validate_provenance_record}
use stellar_kraal_contract.Bridge.Commit.{GeeResult, revealed}
use stellar_kraal_contract.Bridge.Ipfs.{simulated_cid, pin, pin_provenance_record}
use stellar_kraal_contract.Bridge.Process.{
  Services, validated, publish, publish_checked, submit_pinned, signer_crypto, single_record,
  process, checked,
}
use stellar_kraal_contract.VerifyTool.Attested.{process_attested}
use stellar_kraal_contract.VerifyTool.Published.{attested-passes}
use stellar_kraal_contract.Demo.Checked.{check_record-passes}
use stellar_kraal_contract.Demo.Effect.{
  Effect, IsGenuine, single_record-single, submit_with_cid-taken, submitted_at-referenced,
}
use stellar_kraal_contract.Demo.Honest.{IsHonest, IsText, revealed-IsComplete}
use stellar_kraal_contract.Demo.World.{Setup, ServerWorld, demo_services, tx_ref_of, demo_ipfs}

module _ {F S : Type 0} ⦃float : Float F⦄ (env : Services F S) where
  checked-built :
      (built : Result (ProvenanceRecord F)) (p : ProvenanceRecord F) (d : Fields F)
      → checked env built ≡ ok (p, d)
      → (built ≡ ok p)
        × (checked env (ok p) ≡ ok (p, d))
        × (to_dict env.crypto env.utc_iso p ≡ ok d)
  unfolding checked validated
  checked-built built p d h =
      let (q, built_eq, h1) = >>=-eq-ok built _ h in
      let (e, valid_eq, h2) = >>=-eq-ok (validated env q) _ h1 in
      let (e', dict_eq, h3) = >>=-eq-ok (to_dict env.crypto env.utc_iso q) _ valid_eq in
      let (u, _, h4) = >>=-eq-ok (validate_provenance_record env.jsonschema e') _ h3 in
      let is_p : q ≡ p = cc h2 in
      let is_d : e ≡ d = cc h2 in
      let is_e : e' ≡ e = cc h4 in
      let whole : built ≡ ok p = built_eq ∙ ap ok is_p in
      let read : to_dict env.crypto env.utc_iso p ≡ ok d = rw (← is_p, ← is_d, ← is_e) dict_eq in
      (whole, rw whole at h, read)

module _ {F T : Type 0} ⦃float : Float F⦄ (setup : Setup F T) (honest : IsHonest setup)
    (r : GeeResult (Fields F)) (feed : Str) (is_text : r.feed_id ≡ FeedId.as_text feed)
    (text_feed : IsText feed) where
  module _ (a : SignedAttestation)
      (signed : revealed (signer_crypto setup.crypto) setup.seed r ≡ ok a) where
    complete : IsComplete a
    complete = revealed-IsComplete setup honest r feed a is_text text_feed signed

    -- The record of a signed result is genuine, if it conforms.
    pinned-IsGenuine :
        (now : ℤ) (p : ProvenanceRecord F) (d : Fields F) (content : Bytes)
        → single_record setup.crypto r a now ≡ ok p
        → checked (demo_services setup) (ok p) ≡ ok (p, d)
        → setup.crypto.canonical_json (object d) ≡ ok content
        → IsGenuine setup content
    pinned-IsGenuine now p d content built conforms written =
        let (attested, preview) =
          process_attested (demo_services setup) honest.scheme setup.seed honest.seed_len a complete
            now p d conforms r signed built in
        record {
          dict = d;
          written = written;
          accepted = attested-passes setup.crypto setup.jsonschema p d attested preview;
          passed =
              check_record-passes setup p d attested (single_record-single setup r a now built);
        }

    pinned_cases :
        (d : Fields F) (w : ServerWorld F T)
        → ((e : Error) × (pin_provenance_record setup.crypto.canonical_json
                (demo_ipfs setup.crypto.sha256)
                d
                w
              ≡ (err e, w)))
          ⊎ ((content : Bytes) × (setup.crypto.canonical_json (object d) ≡ ok content)
              × (pin_provenance_record setup.crypto.canonical_json
                    (demo_ipfs setup.crypto.sha256)
                    d
                    w
                  ≡ (
                    ok (simulated_cid setup.crypto.sha256 content),
                    record w {
                      store = insert (simulated_cid setup.crypto.sha256 content) content w.store;
                    },
                  )))
    unfolding pin_provenance_record pin
    pinned_cases d w = elim (result_cases (setup.crypto.canonical_json (object d))) [
      | inl (e, h) ↦ inl (e, rw (h, pin_provenance_record) refl)
      | inr (content, h) ↦ inr (content, h, rw (h, pin_provenance_record) refl)
    ]

    referenced-Effect :
        (w : ServerWorld F T) (now : ℤ) (time : T) (p : ProvenanceRecord F) (d : Fields F)
        → checked (demo_services setup) (single_record setup.crypto r a now) ≡ ok (p, d)
        → Effect setup w (
            submit_pinned (demo_services setup) a p (
              pin_provenance_record setup.crypto.canonical_json
                (demo_ipfs setup.crypto.sha256)
                d
                (record w { time = time })))
    unfolding submit_pinned
    referenced-Effect w now time p d conforms = elim (pinned_cases d (record w { time = time })) [
      | inl (e, unpinned) ↦ rw unpinned (Effect.nothing e time)
      | inr (content, written, pinned) ↦
          let (built, conforms', as_dict) =
            checked-built (demo_services setup) (single_record setup.crypto r a now) p d conforms in
          let cid = simulated_cid setup.crypto.sha256 content in
          let tx = tx_ref_of (w.tx_counter + 1) in
          let (iso, read) = submitted_at-referenced setup p d cid tx as_dict in
          let genuine = pinned-IsGenuine now p d content built conforms' written in
          rw
            (
              pinned,
              submit_with_cid-taken setup a content time w complete.payload_valid.feed_len
                  (honest.scheme.digest_len content),
            )
            (Effect.done a (record p { ipfs_cid = some cid; tx_ref = some tx }) content time iso
              genuine refl read)
    ]

    published-Effect :
        (w : ServerWorld F T) (now : ℤ) (time : T)
        → Effect setup w (
            publish
              (demo_services setup)
              a
              (single_record setup.crypto r a now)
              (record w { time = time }))
    unfolding publish publish_checked
    published-Effect w now time =
        elim (result_cases (checked (demo_services setup) (single_record setup.crypto r a now))) [
          | inl (e, h) ↦ rw (publish, h, publish_checked) (Effect.nothing e time)
          | inr ((p, d), h) ↦ rw (publish, h, publish_checked) (referenced-Effect w now time p d h)
        ]

  pub process-Effect :
      (w : ServerWorld F T) → Effect setup w (process (demo_services setup) setup.seed r w)
  unfolding process
  process-Effect w = elim (result_cases (revealed (signer_crypto setup.crypto) setup.seed r)) [
    | inl (e, h) ↦ rw (h, process) (Effect.nothing e w.time)
    | inr (a, h) ↦
        let (now, time) = setup.read_clock w.time in
        rw (h, process) (published-Effect a h w now time)
  ]
