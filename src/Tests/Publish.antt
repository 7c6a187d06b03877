-- ===== src/Tests/Publish.antt =====
-- A result that the bridge publishes with the simulated IPFS client.
use stellar_kraal_contract.Common.{◌≡◌, refl, ◌⊎◌, true, false, [], ◌++◌, none, arith, replicate}
use stellar_kraal_contract.Common.Int.{pos}
use stellar_kraal_contract.Common.Json.{Fields, contained, equals_int, get_or, has, len, subscript}
use stellar_kraal_contract.Common.Result.{ok}
use stellar_kraal_contract.Common.SortKeys.{sort_fields}
use stellar_kraal_contract.Common.Text.{Str, codes, str_eq}
use stellar_kraal_contract.Common.Utf8.{encode_utf8}
use stellar_kraal_contract.Attestation.BigEndian.{pack_B, pack_q, pack_32s, encode_be, to_word}
use stellar_kraal_contract.Attestation.Hex.{hex}
use stellar_kraal_contract.Attestation.Payload.{
  post_init, to_bytes, pad_feed, feed_bytes, pad_feed_id,
}
use stellar_kraal_contract.Attestation.Signer.{
  attest, params_hash, canonical_params_hash, check_signed, SignedAttestation, IsSignatureScheme,
}
use stellar_kraal_contract.Attestation.Signing.{IsComplete}
use stellar_kraal_contract.Provenance.Record.{
  ProvenanceRecord, record_dict, params_hash_text, to_dict,
}
use stellar_kraal_contract.Provenance.Validate.{validate_provenance_record}
use stellar_kraal_contract.Bridge.Commit.{revealed, GeeResult, script_hash}
use stellar_kraal_contract.Bridge.Conforming.{process_conforms}
use stellar_kraal_contract.Bridge.Ipfs.{Store, simulated_client}
use stellar_kraal_contract.Bridge.Process.{
  Services, signer_crypto, checked, process, single_record, single_of, feed_text,
}
use stellar_kraal_contract.Bridge.Processed.{Processed, process-Processed}
use stellar_kraal_contract.Bridge.Submit.{SubmissionClient}
use stellar_kraal_contract.VerifyTool.Command.{verify_record}
use stellar_kraal_contract.VerifyTool.Published.{process_verifies}
use stellar_kraal_contract.VerifyTool.SortedVerdict.{verify_record-sort_fields}
use stellar_kraal_contract.VerifyTool.Facts.{HasParamsHash, HasPayload, HasSignature}
use stellar_kraal_contract.VerifyTool.Verdict.{verify_record_sound}
use stellar_kraal_contract.Tests.Bridge.{crypto-IsSignatureScheme, seed, feed}
use stellar_kraal_contract.Tests.Fixed.{Fixed, fixed_float}
use stellar_kraal_contract.Tests.Provenance.{dict_crypto, iso, params, payload}

pub dict_laws : IsSignatureScheme (signer_crypto dict_crypto)
dict_laws = record {
  digest_len = λ m. refl;
  key_len = λ s h. h;
  signature_len = λ s m h. crypto-IsSignatureScheme.signature_len s m h;
  accepts = λ s m h. crypto-IsSignatureScheme.accepts s m h;
}

abbrev client : SubmissionClient Store
client = record {
  submit_price = λ a s. (ok (codes "tx"), s);
  submit_price_with_cid = λ a cid s. (ok (codes "tx with cid"), s);
  commit_price = λ f h s. (ok (codes "tx"), s);
  reveal_price = λ a salt s. (ok (codes "tx"), s);
}

abbrev pub services : Services Fixed Store
services = record {
  crypto = dict_crypto;
  utc_iso = iso;
  jsonschema = none;
  client = client;
  ipfs = simulated_client dict_crypto.sha256;
  clock = λ s. (pos 10, s);
  message = λ e. codes "Error #13";
}

abbrev pub result : GeeResult (Fields Fixed)
result = record {
  script_source = codes "code";
  input_params = params;
  output_value = pos 5;
  feed_id = feed;
  timestamp_utc = pos 9;
  script_asset_path = codes "users/org/v1";
  script_version_tag = codes "v1";
}

abbrev pub signed_result : SignedAttestation
signed_result = record {
  payload = record {
    script_hash = replicate 32 4;
    input_params_hash = replicate 32 1;
    output_value = pos 5;
    timestamp_utc = pos 9;
    feed_id = codes "BCT" ++ replicate 29 0;
    schema_version = pos 1;
  };
  public_key = replicate 32 9;
  signature = replicate 64 9;
}

signed_run : revealed (signer_crypto dict_crypto) seed result ≡ ok signed_result
unfolding revealed attest params_hash canonical_params_hash pad_feed_id post_init to_bytes pack_B
    pack_q pack_32s encode_be check_signed script_hash encode_utf8 pad_feed feed_bytes
signed_run = refl

signed_result-IsComplete : IsComplete signed_result
signed_result-IsComplete = record {
  payload_valid = record {
    script_len = refl;
    params_len = refl;
    feed_len = refl;
    value_fits = omega arith;
    time_fits = omega arith;
  };
  script_bytes = omega arith;
  params_bytes = omega arith;
  feed_bytes = omega arith;
  key_bytes = omega arith;
  signature_bytes = omega arith;
  key_len = refl;
  signature_len = refl;
}

abbrev pub instant : Str
instant = codes "2024-07-04T00:00:00Z"

process-Processed_example : Processed services seed result [] (process services seed result [])
process-Processed_example = process-Processed services seed result []

process_conforms_example :
    (p : ProvenanceRecord Fixed) × (d : Fields Fixed) × (single_record dict_crypto result
        signed_result
        (pos 10)
      ≡ ok p)
    × (checked services (ok p) ≡ ok (p, d))
unfolding feed_text
process_conforms_example =
    process_conforms services dict_laws seed result signed_result (pos 10) (codes "BCT") instant
      instant refl signed_run refl refl refl refl

abbrev pub made : ProvenanceRecord Fixed
made = single_of dict_crypto result signed_result (pos 10) (replicate 32 4) (codes "BCT") payload

abbrev pub written : Fields Fixed
written = record_dict made (hex (replicate 32 1)) instant instant

record_run : single_record dict_crypto result signed_result (pos 10) ≡ ok made
unfolding single_record script_hash encode_utf8 to_bytes pack_B pack_q pack_32s encode_be to_word
record_run = refl

checked_run : checked services (ok made) ≡ ok (made, written)
unfolding checked to_dict params_hash_text validate_provenance_record contained get_or str_eq has
    subscript len equals_int hex
checked_run = refl

process_verifies_example : verify_record dict_crypto none true true written ≡ ok 0
process_verifies_example =
    process_verifies services dict_laws seed refl signed_result signed_result-IsComplete (pos 10)
      made written checked_run result signed_run record_run

pub process_verifies_run : verify_record dict_crypto none true true written ≡ ok 0
process_verifies_run =
    process_verifies services dict_laws seed refl signed_result signed_result-IsComplete (pos 10)
      made written checked_run result signed_run record_run

verify_record_sound_example :
    (validate_provenance_record none written ≡ ok tt)
    × HasParamsHash written dict_crypto
    × HasPayload written
    × ((true ≡ false) ⊎ HasSignature written dict_crypto)
verify_record_sound_example =
    verify_record_sound dict_crypto none true true written process_verifies_run

verify_record-sort_fields_example :
    verify_record dict_crypto none true true (sort_fields written)
    ≡ verify_record dict_crypto none true true written
verify_record-sort_fields_example =
    verify_record-sort_fields dict_crypto (λ v. refl) none true true written
      (λ iter_errors d found. absurd (cc found))
