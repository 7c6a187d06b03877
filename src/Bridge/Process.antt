-- ===== src/Bridge/Process.antt =====
-- `OracleBridge.process` and the steps that `aggregate_and_submit` shares with it. Injected are the
-- submission client, the IPFS client and the clock; `jsonschema` and the text of a time are
-- parameters, as for the provenance records.
use stellar_kraal_contract.Common.{List, [], Option, none, some, take}
use stellar_kraal_contract.Common.Float.{Float}
use stellar_kraal_contract.Common.Int.{ℤ}
use stellar_kraal_contract.Common.Json.{Json, Fields, object}
use stellar_kraal_contract.Common.Result.{Result, ok, err, Error, ◌>>=◌, ◌>>◌}
use stellar_kraal_contract.Common.Text.{rstrip, Str, codes}
use stellar_kraal_contract.Common.Utf8.{decode_utf8}
use stellar_kraal_contract.Attestation.BigEndian.{Bytes}
use stellar_kraal_contract.Attestation.Hex.{hex}
use stellar_kraal_contract.Attestation.Payload.{FeedId, as_text, as_bytes, to_bytes}
use stellar_kraal_contract.Attestation.Signer.{Crypto, SignedAttestation}
use stellar_kraal_contract.Provenance.Record.{ProvenanceRecord, to_dict}
use stellar_kraal_contract.Provenance.Validate.{validate_provenance_record}
use stellar_kraal_contract.Bridge.Commit.{GeeResult, revealed, script_hash}
use stellar_kraal_contract.Bridge.Ipfs.{pin_provenance_record, IpfsClient}
use stellar_kraal_contract.Bridge.Submit.{SubmissionClient, Alert, submit_with_cid}

-- What the bridge calls: `canonical_json` is `json.dumps` with sorted keys, for every value.
pub record Services (F S : Type 0) : Type 0 where
  pub crypto : Crypto (Json F)
  pub utc_iso : ℤ → Result Str
  pub jsonschema : Option (Fields F → List Str)
  pub client : SubmissionClient S
  pub ipfs : IpfsClient S
  -- `int(time.time())`
  pub clock : S → ℤ × S
  -- `str(exc)`
  pub message : Error → Str

-- The signer hashes a dict of parameters.
abbrev pub signer_crypto : {F : Type 0} → Crypto (Json F) → Crypto (Fields F)
signer_crypto c = record {
  canonical_json = λ d. c.canonical_json (object d);
  sha256 = c.sha256;
  public_key = c.public_key;
  sign = c.sign;
  verifies = c.verifies;
}

-- The identifier as a text: of bytes without the zeros at the end.
unfoldable pub feed_text : FeedId → Result Str
feed_text (as_text s) = ok s
feed_text (as_bytes b) = do s ← decode_utf8 b; ok (rstrip 0 s)

module _ {F : Type 0} (c : Crypto (Json F)) where
  abbrev pub single_of :
      GeeResult (Fields F)
      → SignedAttestation
      → ℤ
      → (script : Bytes) → Str
      → (payload : Bytes) → ProvenanceRecord F
  single_of r a submitted_at script feed_id payload = record {
    script_asset_path = r.script_asset_path;
    script_version_hash = hex script;
    script_version_tag = r.script_version_tag;
    input_params = r.input_params;
    output_value = r.output_value;
    feed_id = feed_id;
    timestamp_utc = r.timestamp_utc;
    attestation_public_key = hex a.public_key;
    attestation_signature = hex a.signature;
    attestation_payload_bytes = payload;
    record_type = codes "single";
    script_source_preview = some (take 512 r.script_source);
    aggregation_metadata = none;
    submitted_at_utc = submitted_at;
    tx_ref = none;
    ipfs_cid = none;
  }

  -- The record of a single result.
  unfoldable pub single_record :
      GeeResult (Fields F) → SignedAttestation → ℤ → Result (ProvenanceRecord F)
  unfolding feed_text
  single_record r a submitted_at = do
    script ← script_hash (signer_crypto c) r
    feed_id ← feed_text r.feed_id
    payload ← to_bytes a.payload
    ok (single_of r a submitted_at script feed_id payload)

module _ {F S : Type 0} ⦃float : Float F⦄ (env : Services F S) where
  -- `to_dict`, then the schema.
  unfoldable pub validated : ProvenanceRecord F → Result (Fields F)
  validated p = do
    d ← to_dict env.crypto env.utc_iso p
    validate_provenance_record env.jsonschema d
    ok d

  abbrev pub with_tx :
      {X : Type 0} → (Str → X) → Result Str × S × List Alert → Result X × S × List Alert
  with_tx answer (ok tx, s, log) = (ok (answer tx), s, log)
  with_tx answer (err e, s, log) = (err e, s, log)

  -- After pinning: the submission with the CID, and the record with both references.
  unfoldable pub submit_pinned :
      SignedAttestation
      → ProvenanceRecord F
      → Result Str × S
      → Result (SignedAttestation × Str × ProvenanceRecord F) × S × List Alert
  submit_pinned a p (err e, s) = (err e, s, [])
  submit_pinned a p (ok cid, s) =
      with_tx (λ tx. (a, tx, record p { ipfs_cid = some cid; tx_ref = some tx }))
        (submit_with_cid env.client env.message a cid s)

  -- A record that was built, with its dict.
  unfoldable pub checked : Result (ProvenanceRecord F) → Result (ProvenanceRecord F × Fields F)
  unfolding validated
  checked built = do p ← built; d ← validated p; ok (p, d)

  -- Pinning and submission of a record that conforms.
  unfoldable pub publish_checked :
      SignedAttestation
      → S
      → Result (ProvenanceRecord F × Fields F)
      → Result (SignedAttestation × Str × ProvenanceRecord F) × S × List Alert
  unfolding submit_pinned
  publish_checked a s (err e) = (err e, s, [])
  publish_checked a s (ok (p, d)) =
      submit_pinned a p (pin_provenance_record env.crypto.canonical_json env.ipfs d s)

  -- Validation, pinning and submission of a record.
  unfoldable pub publish :
      SignedAttestation
      → Result (ProvenanceRecord F)
      → S
      → Result (SignedAttestation × Str × ProvenanceRecord F) × S × List Alert
  unfolding checked publish_checked
  publish a built s = publish_checked a s (checked built)

  -- `OracleBridge.process`, with the signer's seed.
  unfoldable pub process :
      Bytes
      → GeeResult (Fields F)
      → S
      → Result (SignedAttestation × Str × ProvenanceRecord F) × S × List Alert
  unfolding publish single_record
  process seed r s = elim (revealed (signer_crypto env.crypto) seed r) [
    | err e ↦ (err e, s, [])
    | ok a ↦
        let (submitted_at, s') = env.clock s in
        publish a (single_record env.crypto r a submitted_at) s'
  ]
