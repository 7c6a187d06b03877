-- ===== src/Tests/Submit.antt =====
-- A dry run of `submit` with one result.
use stellar_kraal_contract.Common.{◌≡◌, refl, true, [], ◌∷◌, none, some, replicate}
use stellar_kraal_contract.Common.Decimal.{decimal}
use stellar_kraal_contract.Common.Int.{◌*ℤ◌, ◌+ℤ◌, pos}
use stellar_kraal_contract.Common.Json.{
  at, contained, count_fields, count_items, equals_int, get, get_or, has, is_text, item_in, len,
  subscript, int,
}
use stellar_kraal_contract.Common.Result.{ok, err, value_error}
use stellar_kraal_contract.Common.Sort.{sorted}
use stellar_kraal_contract.Common.Text.{occurs_in, rstrip, starts_with, str_eq, codes}
use stellar_kraal_contract.Common.Utf8.{decode_utf8, encode_char, encode_utf8}
use stellar_kraal_contract.Common.Words.{four_digits}
use stellar_kraal_contract.Aggregation.Aggregate.{aggregate, same_set}
use stellar_kraal_contract.Aggregation.Config.{check_config, check_source, OutlierRejectionMethod}
use stellar_kraal_contract.Aggregation.Median.{weighted_median}
use stellar_kraal_contract.Aggregation.Outliers.{reject_outliers}
use stellar_kraal_contract.Attestation.BigEndian.{encode_be, pack_32s, pack_B, pack_q, to_word}
use stellar_kraal_contract.Attestation.Hex.{hex, hex_digit}
use stellar_kraal_contract.Attestation.Payload.{
  feed_bytes, pad_feed_id, post_init, to_bytes, pad_feed,
}
use stellar_kraal_contract.Attestation.Signer.{
  check_signed, attest, canonical_params_hash, params_hash,
}
use stellar_kraal_contract.Provenance.Record.{params_hash_text, to_dict}
use stellar_kraal_contract.Provenance.Validate.{
  check_aggregation, check_length, check_type, lightweight_validate, missing_keys, required_block,
  validate_provenance_record,
}
use stellar_kraal_contract.Bridge.Aggregated.{
  aggregate_and_submit, aggregated, aggregated_record, latest, publish_aggregate, submit_aggregate,
  with_aggregate, with_first_result, with_result,
}
use stellar_kraal_contract.Bridge.Commit.{revealed, script_hash}
use stellar_kraal_contract.Bridge.Ipfs.{
  pin, pin_provenance_record, simulated_cid, Store, simulated_client,
}
use stellar_kraal_contract.Bridge.Process.{
  checked, feed_text, process, publish, publish_checked, single_record, submit_pinned, validated,
}
use stellar_kraal_contract.Bridge.Submit.{
  alerted, fall_back, is_attribute_error, submit_with_cid, submit_with_circuit_breaker_alert, trips,
  validate_cid,
}
use stellar_kraal_contract.Cli.Submit.{
  collect, read_entry, read_in_order, run_pipeline, signer_seed, with_file, with_results,
  with_signer, SubmitInputs, SubmitArgs, ResultsFile, IpfsMode, int_of, cmd_submit,
}
use stellar_kraal_contract.Cli.SubmitExit.{IsSuccess, cmd_submit-IsSuccess}
use stellar_kraal_contract.Tests.Fixed.{Fixed, fixed_float}
use stellar_kraal_contract.Tests.Provenance.{dict_crypto}
use stellar_kraal_contract.Tests.Publish.{services}
use stellar_kraal_contract.Demo.Submit.{append_log, log_processed, submitted_at}
use stellar_kraal_contract.Demo.World.{fake_submit_price_with_cid, tx_ref_of}

abbrev inputs : SubmitInputs Fixed Store
inputs = record {
  services = services;
  ipfs_of = λ mode. simulated_client dict_crypto.sha256;
  read_results = λ path s. some (
      ok (
        ResultsFile.in_order (
          record {
            source_id = none;
            script_source = some (codes "code");
            input_params = none;
            output_value = some (int (pos 5));
            feed_id = none;
            timestamp_utc = some (pos 9);
          }
          ∷ [])));
  from_pem = λ path s. none;
  generate = λ s. (replicate 32 9, s);
  to_int = int_of (λ c. none) (λ x. err value_error);
}

abbrev args : SubmitArgs Fixed
args = record {
  feed_id = codes "BCT";
  results_file = codes "results.json";
  dry_run = true;
  key_file = none;
  outlier_method = OutlierRejectionMethod.none_method;
  iqr_multiplier = fixed_float.of_ℤ (pos 2);
  ipfs_mode = IpfsMode.simulated_mode;
}

exit_run :
    cmd_submit inputs args [] ≡ (ok 0, (cmd_submit inputs args []).1, (cmd_submit inputs args []).2)
unfolding aggregate aggregate_and_submit aggregated aggregated_record alerted append_log at attest
    canonical_params_hash check_aggregation check_config check_length check_signed check_source
    check_type checked cmd_submit collect contained count_fields count_items decimal decode_utf8
    encode_be encode_char encode_utf8 equals_int fake_submit_price_with_cid fall_back feed_bytes
    feed_text four_digits get get_or has hex hex_digit int_of is_attribute_error is_text item_in
    latest len lightweight_validate log_processed missing_keys occurs_in pack_32s pack_B pack_q
    pad_feed pad_feed_id params_hash params_hash_text pin pin_provenance_record post_init process
    publish publish_aggregate publish_checked read_entry read_in_order reject_outliers
    required_block revealed rstrip run_pipeline same_set script_hash signer_seed simulated_cid
    single_record sorted starts_with str_eq submit_aggregate submit_pinned submit_with_cid
    submit_with_circuit_breaker_alert submitted_at subscript to_bytes to_dict to_word trips
    tx_ref_of validate_cid validate_provenance_record validated weighted_median with_aggregate
    with_file with_first_result with_result with_results with_signer ◌*ℤ◌ ◌+ℤ◌
exit_run = refl

cmd_submit-IsSuccess_example :
    IsSuccess inputs args [] (cmd_submit inputs args []).1 (cmd_submit inputs args []).2
cmd_submit-IsSuccess_example =
    cmd_submit-IsSuccess inputs args [] (cmd_submit inputs args []).1 (cmd_submit inputs args []).2
      exit_run
