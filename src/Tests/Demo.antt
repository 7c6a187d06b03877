-- ===== src/Tests/Demo.antt =====
-- The demonstration server with the toy scheme.
use stellar_kraal_contract.Common.{
  ℕ, ◌+◌, ◌-◌, ◌≡◌, refl, ◌&&◌, none, some, arith, leb, if◌then◌else◌, replicate,
}
use stellar_kraal_contract.Common.Int.{pos}
use stellar_kraal_contract.Common.Json.{
  get, at, contained, count_fields, count_items, equals_int, get_or, has, is_text, item_in, len,
  subscript, object,
}
use stellar_kraal_contract.Common.Result.{ok}
use stellar_kraal_contract.Common.SortKeys.{sort_fields}
use stellar_kraal_contract.Common.Text.{occurs_in, rstrip, starts_with, str_eq, codes}
use stellar_kraal_contract.Common.Utf8.{decode_utf8, encode_char, encode_utf8}
use stellar_kraal_contract.Common.Words.{four_digits}
use stellar_kraal_contract.Attestation.BigEndian.{encode_be, pack_32s, pack_B, pack_q, to_word}
use stellar_kraal_contract.Attestation.Hex.{hex, hex_digit}
use stellar_kraal_contract.Attestation.Payload.{
  feed_bytes, pad_feed, pad_feed_id, post_init, to_bytes,
}
use stellar_kraal_contract.Attestation.Signer.{
  attest, canonical_params_hash, check_signed, params_hash,
}
use stellar_kraal_contract.Provenance.Record.{params_hash_text, to_dict}
use stellar_kraal_contract.Provenance.Validate.{
  check_aggregation, check_length, check_type, lightweight_validate, missing_keys, required_block,
  validate_provenance_record,
}
use stellar_kraal_contract.Bridge.Commit.{revealed, script_hash}
use stellar_kraal_contract.Bridge.Ipfs.{pin, pin_provenance_record, simulated_cid}
use stellar_kraal_contract.Bridge.Process.{
  checked, feed_text, process, publish, publish_checked, single_record, submit_pinned, validated,
}
use stellar_kraal_contract.Bridge.Submit.{
  alerted, fall_back, is_attribute_error, submit_with_cid, submit_with_circuit_breaker_alert, trips,
  validate_cid,
}
use stellar_kraal_contract.Tests.Fixed.{Fixed, fixed_float}
use stellar_kraal_contract.Tests.Provenance.{dict_crypto, iso}
use stellar_kraal_contract.Tests.Publish.{dict_laws, written}
use stellar_kraal_contract.Demo.Honest.{IsHonest}
use stellar_kraal_contract.Demo.Invariant.{Reachable-IsKept}
use stellar_kraal_contract.Demo.Kept.{IsKept}
use stellar_kraal_contract.Demo.Server.{PageRequest, answer_request, Reachable, seed_one, seed_log}
use stellar_kraal_contract.Demo.SortedChecks.{check_record-sort_fields}
use stellar_kraal_contract.Demo.Submit.{append_log, log_processed, submitted_at}
use stellar_kraal_contract.Demo.Verify.{check_record}
use stellar_kraal_contract.Demo.World.{
  ServerWorld, fake_submit_price_with_cid, tx_ref_of, Setup, new_world,
}

abbrev setup : Setup Fixed ℕ
setup = record {
  crypto = dict_crypto;
  utc_iso = iso;
  jsonschema = none;
  json_loads = λ t. ok (object (sort_fields written));
  unquote_plus = λ s. codes "x";
  digit = λ c. if leb 48 c && leb c 57 then some (c - 48) else none;
  read_clock = λ n. (pos n, n + 1);
  message = λ e. codes "error";
  seed = replicate 32 9;
}

setup-IsHonest : IsHonest setup
setup-IsHonest = record {
  scheme = dict_laws;
  seed_len = refl;
  digest_bytes = λ m. omega arith;
  key_bytes = omega arith;
  signature_bytes = λ m. omega arith;
  unquoted = λ s. omega arith;
}

ready : (seed_log setup (new_world 7)).0 ≡ ok tt
unfolding seed_log encode_be pack_32s pack_B pack_q to_word hex hex_digit feed_bytes pad_feed
    pad_feed_id post_init to_bytes attest canonical_params_hash check_signed params_hash revealed
    script_hash get pin pin_provenance_record simulated_cid checked feed_text process publish
    publish_checked single_record submit_pinned validated alerted fall_back is_attribute_error
    submit_with_cid submit_with_circuit_breaker_alert trips validate_cid at contained count_fields
    count_items equals_int get_or has is_text item_in len subscript occurs_in rstrip starts_with
    str_eq decode_utf8 encode_char encode_utf8 seed_one append_log log_processed submitted_at
    four_digits fake_submit_price_with_cid tx_ref_of params_hash_text to_dict check_aggregation
    check_length check_type lightweight_validate missing_keys required_block
    validate_provenance_record
ready = refl

abbrev seeded_world : ServerWorld Fixed ℕ
seeded_world = (seed_log setup (new_world 7)).1

abbrev posted_form : PageRequest
posted_form = PageRequest.post_page (codes "/submit") (codes "output_value=5&feed_id=x")

Reachable-IsKept_example : IsKept setup 0 (answer_request setup posted_form seeded_world).1
Reachable-IsKept_example =
    Reachable-IsKept setup setup-IsHonest (answer_request setup posted_form seeded_world).1
      (Reachable.answered (Reachable.started 7 ready) posted_form)

check_record-sort_fields_example :
    check_record setup (sort_fields written) ≡ check_record setup written
check_record-sort_fields_example =
    check_record-sort_fields setup (λ v. refl) written (λ iter_errors d found. absurd (cc found))
