-- ===== src/Demo/Effect.antt =====
-- What `BRIDGE.process` does to the state of the server.
use stellar_kraal_contract.Common.{◌+◌, ◌≡◌, refl, ap, true, List, [], some, length, append-nil}
use stellar_kraal_contract.Common.Dict.{insert}
use stellar_kraal_contract.Common.Float.{Float}
use stellar_kraal_contract.Common.Int.{ℤ}
use stellar_kraal_contract.Common.Json.{Json, Fields, object, end, at, get, subscript, text}
use stellar_kraal_contract.Common.Result.{Result, ok, err, Error, >>=-eq-ok}
use stellar_kraal_contract.Common.Text.{Str, str_eq}
use stellar_kraal_contract.Attestation.BigEndian.{Bytes}
use stellar_kraal_contract.Attestation.Hex.{hex}
use stellar_kraal_contract.Attestation.Payload.{FeedId, pad_feed, pad_feed_id, feed_bytes, to_bytes}
use stellar_kraal_contract.Attestation.Signer.{SignedAttestation}
use stellar_kraal_contract.Provenance.Record.{
  ProvenanceRecord, aggregation, to_dict, params_hash_text,
}
use stellar_kraal_contract.Bridge.Commit.{GeeResult, script_hash}
use stellar_kraal_contract.Bridge.Ipfs.{pin, simulated_cid}
use stellar_kraal_contract.Bridge.Pinning.{get-pin}
use stellar_kraal_contract.Bridge.Process.{signer_crypto, single_record, single_of, feed_text}
use stellar_kraal_contract.Bridge.Submit.{validate_cid, Alert, submit_with_cid, fall_back}
use stellar_kraal_contract.VerifyTool.Command.{verify_record}
use stellar_kraal_contract.Demo.Checked.{all_passed}
use stellar_kraal_contract.Demo.Submit.{submitted_at}
use stellar_kraal_contract.Demo.Verify.{check_record}
use stellar_kraal_contract.Demo.World.{
  Setup, ServerWorld, fake_client, tx_ref_of, fake_submit_price_with_cid, onchain_entry,
}

validate_cid-simulated_cid :
    (sha256 : Bytes → Bytes) (content : Bytes)
    → length (sha256 content) ≡ 32
    → validate_cid (simulated_cid sha256 content) ≡ ok tt
unfolding pin
validate_cid-simulated_cid sha256 content digest =
    let (_, _, _, accepted) = get-pin sha256 content [] digest in accepted

module _ {F T : Type 0} ⦃float : Float F⦄ (setup : Setup F T) where
  -- Content that is the canonical JSON of a record which the verification tool accepts, and for
  -- which the page `/verify` shows four passed checks.
  pub record IsGenuine (content : Bytes) : Type 0 where
    pub dict : Fields F
    pub written : setup.crypto.canonical_json (object dict) ≡ ok content
    pub accepted : verify_record setup.crypto setup.jsonschema true true dict ≡ ok 0
    pub passed : check_record setup dict ≡ ok all_passed

  pub single_record-single :
      (r : GeeResult (Fields F)) (a : SignedAttestation) (now : ℤ) {p : ProvenanceRecord F}
      → single_record setup.crypto r a now ≡ ok p
      → aggregation p ≡ end
  unfolding single_record str_eq
  single_record-single r a now {p} built =
      let c = signer_crypto setup.crypto in
      let (script, _, b1) = >>=-eq-ok (script_hash c r) _ built in
      let (feed, _, b2) = >>=-eq-ok (feed_text r.feed_id) _ b1 in
      let (payload, _, b3) = >>=-eq-ok (to_bytes a.payload) _ b2 in
      let is_p : single_of setup.crypto r a now script feed payload ≡ p = cc b3 in rw (← is_p) refl

  -- `submitted_at` reads the time of the record whatever the references.
  pub submitted_at-referenced :
      (p : ProvenanceRecord F) (d : Fields F) (cid tx : Str)
      → to_dict setup.crypto setup.utc_iso p ≡ ok d
      → (iso : Json F) × (submitted_at setup (record p { ipfs_cid = some cid; tx_ref = some tx })
          ≡ ok iso)
  unfolding submitted_at to_dict at get str_eq subscript
  submitted_at-referenced p d cid tx built =
      let (h, h_eq, b1) =
        >>=-eq-ok (params_hash_text setup.crypto (object p.input_params)) _ built in
      let (s, s_eq, b2) = >>=-eq-ok (setup.utc_iso p.submitted_at_utc) _ b1 in
      let (t, t_eq, b3) = >>=-eq-ok (setup.utc_iso p.timestamp_utc) _ b2 in
      (text s, rw (h_eq, s_eq, t_eq) refl)

  pad_feed-whole : (b : Bytes) → length b ≡ 32 → pad_feed (FeedId.as_bytes b) ≡ ok b
  unfolding pad_feed pad_feed_id feed_bytes
  pad_feed-whole b size = rw size (ap ok (append-nil b))

  -- The state after a submission.
  abbrev pub submitted_world :
      SignedAttestation → (cid : Str) → (content : Bytes) → T → ServerWorld F T → ServerWorld F T
  submitted_world a cid content time w = record {
    store = insert cid content w.store;
    onchain =
        insert (hex a.payload.feed_id) (onchain_entry a cid (tx_ref_of (w.tx_counter + 1)))
          w.onchain;
    log = w.log;
    tx_counter = w.tx_counter + 1;
    time = time;
  }

  fake_submit_price_with_cid-taken :
      (a : SignedAttestation) (cid : Str) (w : ServerWorld F T)
      → length a.payload.feed_id ≡ 32
      → fake_submit_price_with_cid a cid w ≡ (
        ok (tx_ref_of (w.tx_counter + 1)),
        record w {
          tx_counter = w.tx_counter + 1;
          onchain =
              insert
                (hex a.payload.feed_id)
                (onchain_entry a cid (tx_ref_of (w.tx_counter + 1)))
                w.onchain;
        },
      )
  unfolding fake_submit_price_with_cid
  fake_submit_price_with_cid-taken a cid w feed =
      rw (fake_submit_price_with_cid, pad_feed-whole a.payload.feed_id feed) refl

  -- `FakeClient` takes every CID of the simulated store.
  pub submit_with_cid-taken :
      (a : SignedAttestation) (content : Bytes) (time : T) (w : ServerWorld F T)
      → length a.payload.feed_id ≡ 32
      → length (setup.crypto.sha256 content) ≡ 32
      → let cid = simulated_cid setup.crypto.sha256 content in
        submit_with_cid fake_client setup.message a cid
          (record w { store = insert cid content w.store; time = time })
        ≡ (ok (tx_ref_of (w.tx_counter + 1)), submitted_world a cid content time w, [])
  unfolding submit_with_cid fall_back
  submit_with_cid-taken a content time w feed digest =
      rw
        (
          validate_cid-simulated_cid setup.crypto.sha256 content digest,
          submit_with_cid,
          fake_submit_price_with_cid-taken a (simulated_cid setup.crypto.sha256 content)
              (record w {
                store = insert (simulated_cid setup.crypto.sha256 content) content w.store;
                time = time;
              })
              feed,
        )
        refl

  pub data Effect (w : ServerWorld F T)
      : Result (SignedAttestation × Str × ProvenanceRecord F) × ServerWorld F T × List Alert
        → Type 0 where
    -- An exception, with nothing pinned or submitted.
    nothing : (e : Error) (time : T) → Effect w (err e, record w { time = time }, [])
    -- A genuine record is pinned, its CID is submitted, and the transaction has the next number.
    done :
        (a : SignedAttestation) (p : ProvenanceRecord F) (content : Bytes) (time : T) (iso : Json F)
        → IsGenuine content
        → p.ipfs_cid ≡ some (simulated_cid setup.crypto.sha256 content)
        → submitted_at setup p ≡ ok iso
        → Effect w (
          ok (a, tx_ref_of (w.tx_counter + 1), p),
          submitted_world a (simulated_cid setup.crypto.sha256 content) content time w,
          [],
        )
