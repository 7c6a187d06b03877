-- ===== src/Bridge/Aggregated.antt =====
-- `OracleBridge.aggregate_and_submit` and `AggregatedPriceResult`.
use stellar_kraal_contract.Common.{List, [], ◌∷◌, Option, none, some, length, if◌then◌else◌}
use stellar_kraal_contract.Common.Dict.{Dict, keys, lookup}
use stellar_kraal_contract.Common.Float.{Float}
use stellar_kraal_contract.Common.Int.{ℤ, ltb_ℤ, pos}
use stellar_kraal_contract.Common.Json.{
  Json, Fields, Items, nil, item, end, field, object, text, array, int, real,
}
use stellar_kraal_contract.Common.Result.{Result, ok, err, raised, key_error, not_configured, ◌>>=◌}
use stellar_kraal_contract.Common.Sort.{sorted}
use stellar_kraal_contract.Common.Text.{Str, codes, str_le}
use stellar_kraal_contract.Aggregation.Aggregate.{AggregationResult, aggregate}
use stellar_kraal_contract.Aggregation.Config.{PriceSource, AggregationConfig, check_source}
use stellar_kraal_contract.Attestation.BigEndian.{Bytes}
use stellar_kraal_contract.Attestation.Hex.{hex}
use stellar_kraal_contract.Attestation.Payload.{FeedId, to_bytes}
use stellar_kraal_contract.Attestation.Signer.{Crypto, SignedAttestation, attest, InputParams}
use stellar_kraal_contract.Provenance.Record.{ProvenanceRecord}
use stellar_kraal_contract.Bridge.Commit.{GeeResult, script_hash}
use stellar_kraal_contract.Bridge.Process.{feed_text, Services, signer_crypto, publish}
use stellar_kraal_contract.Bridge.Submit.{Alert}

pub record AggregatedPriceResult (F : Type 0) : Type 0 where
  pub aggregate_value : ℤ
  pub source_values : Dict ℤ
  pub weights_used : Dict F
  pub rejected_sources : List Str
  pub feed_id : FeedId
  pub timestamp_utc : ℤ
  pub outlier_method : Str
  pub ipfs_cid : Option Str

module _ {F : Type 0} where
  -- The dicts and lists of an aggregation, as `json` sees them.
  unfoldable pub json_values : Dict ℤ → Fields F
  json_values [] = end
  json_values ((k, v) ∷ d) = field k (int v) (json_values d)

  unfoldable pub json_weights : Dict F → Fields F
  json_weights [] = end
  json_weights ((k, w) ∷ d) = field k (real w) (json_weights d)

  unfoldable pub json_texts : List Str → Items F
  json_texts [] = nil
  json_texts (s ∷ ss) = item (text s) (json_texts ss)

  -- `{**provenance_agg_meta, "per_source_values": ...}`
  unfoldable pub synthetic_input_params : AggregationResult F → Fields F
  unfolding json_values json_weights json_texts
  synthetic_input_params agg = field (codes "method") (text agg.method_used) (
      field (codes "outlier_method") (text agg.outlier_method) (
        field (codes "sources") (array (json_texts (sorted str_le (keys agg.source_values)))) (
          field (codes "weights") (object (json_weights agg.weights_used)) (
            field (codes "rejected_sources") (array (json_texts agg.rejected_sources)) (
              field (codes "num_sources_accepted") (int (pos (length agg.source_values))) (
                field (codes "num_sources_rejected") (int (pos (length agg.rejected_sources))) (
                  field (codes "per_source_values") (object (json_values agg.source_values))
                    end)))))))

  unfoldable pub aggregation_metadata : AggregationResult F → Fields F
  unfolding json_values json_weights json_texts
  aggregation_metadata agg = field (codes "method") (text agg.method_used) (
      field (codes "outlier_method") (text agg.outlier_method) (
        field (codes "source_values") (object (json_values agg.source_values)) (
          field (codes "weights_used") (object (json_weights agg.weights_used))
            (field (codes "rejected_sources") (array (json_texts agg.rejected_sources)) end))))

  -- `max(result.timestamp_utc for ...)`, with the first result apart
  unfoldable pub latest : ℤ → Dict (GeeResult (Fields F)) → ℤ
  latest t [] = t
  latest t ((k, r) ∷ rs) = latest (if ltb_ℤ t r.timestamp_utc then r.timestamp_utc else t) rs

  -- `sha256(b"aggregated")`
  abbrev pub marker : Crypto (Json F) → Bytes
  marker c = c.sha256 (codes "aggregated")

  unfoldable pub aggregated_of :
      Crypto (Json F)
      → GeeResult (Fields F)
      → AggregationResult F
      → (timestamp_utc : ℤ) → SignedAttestation
      → (submitted_at : ℤ) → Str
      → (payload : Bytes) → ProvenanceRecord F
  unfolding synthetic_input_params aggregation_metadata
  aggregated_of c first agg timestamp_utc a submitted_at feed_id payload = record {
    script_asset_path = first.script_asset_path;
    script_version_hash = hex (marker c);
    script_version_tag = codes "aggregated";
    input_params = synthetic_input_params agg;
    output_value = agg.aggregate_value;
    feed_id = feed_id;
    timestamp_utc = timestamp_utc;
    attestation_public_key = hex a.public_key;
    attestation_signature = hex a.signature;
    attestation_payload_bytes = payload;
    record_type = codes "aggregated";
    script_source_preview = none;
    aggregation_metadata = some (aggregation_metadata agg);
    submitted_at_utc = submitted_at;
    tx_ref = none;
    ipfs_cid = none;
  }

  -- The record of an aggregate.
  unfoldable pub aggregated_record :
      Crypto (Json F)
      → GeeResult (Fields F)
      → AggregationResult F
      → (timestamp_utc : ℤ) → SignedAttestation
      → (submitted_at : ℤ) → Result (ProvenanceRecord F)
  unfolding feed_text aggregated_of
  aggregated_record c first agg timestamp_utc a submitted_at = do
    feed_id ← feed_text first.feed_id
    payload ← to_bytes a.payload
    ok (aggregated_of c first agg timestamp_utc a submitted_at feed_id payload)

module _ {F : Type 0} ⦃float : Float F⦄ where
  -- The sources: an unknown one has no weight, which is a `KeyError`.
  unfoldable pub price_sources :
      Crypto (Json F)
      → AggregationConfig F
      → Dict (GeeResult (Fields F))
      → Result (List (PriceSource F))
  price_sources c config [] = ok []
  price_sources c config ((source_id, r) ∷ rs) = do
    weight ← weight_of (lookup source_id config.weights)
    script ← script_hash (signer_crypto c) r
    source ←
        check_source (record { source_id = source_id; value = r.output_value; weight = weight })
    sources ← price_sources c config rs
    ok (source ∷ sources)
    where
      weight_of : Option F → Result F
      weight_of none = err key_error
      weight_of (some w) = ok w

  module _ {S : Type 0} (env : Services F S) where
    abbrev pub Answer : Type 0
    Answer =
        Result (AggregatedPriceResult F × SignedAttestation × Str × ProvenanceRecord F)
        × S
        × List Alert

    unfoldable pub with_result :
        (ProvenanceRecord F → AggregatedPriceResult F)
        → Result (SignedAttestation × Str × ProvenanceRecord F) × S × List Alert
        → Answer
    with_result result_of (ok (a, tx, p), s, log) = (ok (result_of p, a, tx, p), s, log)
    with_result result_of (err e, s, log) = (err e, s, log)

    abbrev pub result_of :
        AggregationResult F → FeedId → ℤ → ProvenanceRecord F → AggregatedPriceResult F
    result_of agg feed timestamp_utc p = record {
      aggregate_value = agg.aggregate_value;
      source_values = agg.source_values;
      weights_used = agg.weights_used;
      rejected_sources = agg.rejected_sources;
      feed_id = feed;
      timestamp_utc = timestamp_utc;
      outlier_method = agg.outlier_method;
      ipfs_cid = p.ipfs_cid;
    }

    unfoldable pub aggregated :
        AggregationConfig F → Dict (GeeResult (Fields F)) → Result (AggregationResult F)
    unfolding price_sources
    aggregated config rs = do sources ← price_sources env.crypto config rs; aggregate config sources

    unfoldable pub publish_aggregate :
        GeeResult (Fields F) → ℤ → AggregationResult F → S → Result SignedAttestation → Answer
    unfolding with_result aggregated_record
    publish_aggregate first timestamp_utc agg s (err e) = (err e, s, [])
    publish_aggregate first timestamp_utc agg s (ok a) =
        let (submitted_at, s') = env.clock s in
        with_result (result_of agg first.feed_id timestamp_utc)
          (publish env a (aggregated_record env.crypto first agg timestamp_utc a submitted_at) s')

    -- What is signed for the aggregate; `first` is the first result of the dict.
    abbrev pub sign_aggregate :
        Bytes → GeeResult (Fields F) → ℤ → AggregationResult F → Result SignedAttestation
    sign_aggregate seed first timestamp_utc agg =
        attest (signer_crypto env.crypto) seed (marker env.crypto)
          (InputParams.dict (synthetic_input_params agg)) agg.aggregate_value timestamp_utc
          first.feed_id

    -- Signing and publishing the aggregate
    unfoldable pub submit_aggregate :
        Bytes → GeeResult (Fields F) → ℤ → AggregationResult F → S → Answer
    unfolding publish_aggregate
    submit_aggregate seed first timestamp_utc agg s =
        publish_aggregate first timestamp_utc agg s (sign_aggregate seed first timestamp_utc agg)

    unfoldable pub with_first_result :
        Bytes → AggregationResult F → Dict (GeeResult (Fields F)) → S → Answer
    unfolding submit_aggregate
    with_first_result seed agg [] s = (err (raised (codes "StopIteration") []), s, [])
    with_first_result seed agg ((k, r) ∷ rs) s =
        submit_aggregate seed r (latest r.timestamp_utc rs) agg s

    unfoldable pub with_aggregate :
        Bytes → Dict (GeeResult (Fields F)) → S → Result (AggregationResult F) → Answer
    unfolding with_first_result
    with_aggregate seed rs s (err e) = (err e, s, [])
    with_aggregate seed rs s (ok agg) = with_first_result seed agg rs s

    -- `OracleBridge.aggregate_and_submit`; `next` of no results raises `StopIteration`.
    unfoldable pub aggregate_and_submit :
        Option (AggregationConfig F) → Bytes → Dict (GeeResult (Fields F)) → S → Answer
    unfolding aggregated with_aggregate
    aggregate_and_submit none seed rs s = (err not_configured, s, [])
    aggregate_and_submit (some config) seed rs s = with_aggregate seed rs s (aggregated config rs)
