-- ===== src/Tests/Aggregate.antt =====
-- An aggregate of one source that the bridge publishes with the simulated IPFS client.
use stellar_kraal_contract.Common.{◌≡◌, refl, true, [], ◌∷◌, ◌++◌, none, some, arith, replicate}
use stellar_kraal_contract.Common.Int.{pos}
use stellar_kraal_contract.Common.Json.{Fields, contained, equals_int, get_or, has, len, subscript}
use stellar_kraal_contract.Common.Result.{ok}
use stellar_kraal_contract.Common.Text.{codes, str_eq}
use stellar_kraal_contract.Common.Utf8.{encode_utf8}
use stellar_kraal_contract.Aggregation.Aggregate.{AggregationResult}
use stellar_kraal_contract.Aggregation.Config.{AggregationConfig, none_method}
use stellar_kraal_contract.Attestation.BigEndian.{
  pack_B, pack_q, pack_32s, encode_be, Bytes, to_word,
}
use stellar_kraal_contract.Attestation.Hex.{hex}
use stellar_kraal_contract.Attestation.Payload.{
  post_init, to_bytes, pad_feed, feed_bytes, pad_feed_id,
}
use stellar_kraal_contract.Attestation.Signer.{
  attest, params_hash, canonical_params_hash, check_signed, InputParams, SignedAttestation,
}
use stellar_kraal_contract.Attestation.Signing.{IsComplete}
use stellar_kraal_contract.Provenance.Record.{
  ProvenanceRecord, record_dict, params_hash_text, to_dict,
}
use stellar_kraal_contract.Provenance.Validate.{validate_provenance_record}
use stellar_kraal_contract.Bridge.AggregateOutcome.{Aggregated, aggregate_and_submit-Aggregated}
use stellar_kraal_contract.Bridge.Aggregated.{
  aggregate_and_submit, marker, synthetic_input_params, aggregated_record, aggregated_of,
}
use stellar_kraal_contract.Bridge.Conforming.{aggregate_conforms}
use stellar_kraal_contract.Bridge.Process.{signer_crypto, checked, feed_text}
use stellar_kraal_contract.VerifyTool.Command.{verify_record}
use stellar_kraal_contract.VerifyTool.Published.{aggregate_verifies}
use stellar_kraal_contract.Tests.Bridge.{seed, feed}
use stellar_kraal_contract.Tests.Fixed.{Fixed, fixed_float}
use stellar_kraal_contract.Tests.Provenance.{dict_crypto}
use stellar_kraal_contract.Tests.Publish.{dict_laws, services, result, signed_result, instant}

abbrev agg : AggregationResult Fixed
agg = record {
  aggregate_value = pos 5;
  source_values = (codes "north", pos 5) ∷ [];
  weights_used = (codes "north", pos 1000) ∷ [];
  rejected_sources = codes "rogue" ∷ [];
  method_used = codes "weighted_median";
  outlier_method = codes "iqr";
}

abbrev signed_aggregate : SignedAttestation
signed_aggregate = record signed_result {
  payload = record signed_result.payload { script_hash = replicate 32 10 };
}

attested_aggregate :
    attest
      (signer_crypto dict_crypto)
      seed
      (marker dict_crypto)
      (InputParams.dict (synthetic_input_params agg))
      (pos 5)
      (pos 9)
      feed
    ≡ ok signed_aggregate
unfolding attest params_hash canonical_params_hash pad_feed_id post_init to_bytes pack_B pack_q
    pack_32s encode_be check_signed encode_utf8 pad_feed feed_bytes
attested_aggregate = refl

aggregate_conforms_example :
    (p : ProvenanceRecord Fixed) × (d : Fields Fixed) × (aggregated_record dict_crypto result agg
        (pos 9)
        signed_aggregate
        (pos 10)
      ≡ ok p)
    × (checked services (ok p) ≡ ok (p, d))
unfolding feed_text
aggregate_conforms_example =
    aggregate_conforms services dict_laws seed result agg (pos 9) signed_aggregate (pos 10)
      (codes "BCT") instant instant refl attested_aggregate refl refl refl refl

signed_aggregate-IsComplete : IsComplete signed_aggregate
signed_aggregate-IsComplete = record {
  payload_valid = record {
    script_len = refl;
    params_len = refl;
    feed_len = refl;
    value_fits = omega arith;
    time_fits = omega arith;
  };
  script_bytes = omega arith;
  params_bytes = omega arith;
  feed_bytes = omega arith;
  key_bytes = omega arith;
  signature_bytes = omega arith;
  key_len = refl;
  signature_len = refl;
}

abbrev aggregate_payload : Bytes
aggregate_payload =
    1 ∷ replicate 32 10
    ++ (replicate 32 1
        ++ (replicate 7 0 ++ (5 ∷ replicate 7 0 ++ (9 ∷ codes "BCT" ++ replicate 29 0))))

abbrev aggregate_made : ProvenanceRecord Fixed
aggregate_made =
    aggregated_of dict_crypto result agg (pos 9) signed_aggregate (pos 10) (codes "BCT")
      aggregate_payload

abbrev aggregate_written : Fields Fixed
aggregate_written = record_dict aggregate_made (hex (replicate 32 1)) instant instant

aggregate_record_run :
    aggregated_record dict_crypto result agg (pos 9) signed_aggregate (pos 10) ≡ ok aggregate_made
unfolding aggregated_record to_bytes pack_B pack_q pack_32s encode_be to_word
aggregate_record_run = refl

aggregate_checked_run :
    checked services (ok aggregate_made) ≡ ok (aggregate_made, aggregate_written)
unfolding checked to_dict params_hash_text validate_provenance_record contained get_or str_eq has
    subscript len aggregated_of equals_int hex
aggregate_checked_run = refl

aggregate_verifies_example : verify_record dict_crypto none true true aggregate_written ≡ ok 0
aggregate_verifies_example =
    aggregate_verifies services dict_laws seed refl signed_aggregate signed_aggregate-IsComplete
      (pos 10) aggregate_made aggregate_written aggregate_checked_run result agg (pos 9)
      attested_aggregate aggregate_record_run

abbrev config : AggregationConfig Fixed
config = record {
  sources = codes "north" ∷ [];
  weights = (codes "north", pos 1000) ∷ [];
  outlier_method = none_method;
  iqr_multiplier = pos 1500;
  mad_multiplier = pos 3000;
  min_sources_after_rejection = pos 1;
}

aggregate_and_submit-Aggregated_example :
    Aggregated services seed
      (some config)
      ((codes "north", result) ∷ [])
      []
      (aggregate_and_submit services (some config) seed ((codes "north", result) ∷ []) [])
aggregate_and_submit-Aggregated_example =
    aggregate_and_submit-Aggregated services seed (some config) ((codes "north", result) ∷ []) []
