-- ===== src/Tests/Bridge.antt =====
-- A toy signature scheme, an attestation, its envelope, a commitment, and a client without CIDs.
use stellar_kraal_contract.Common.{
  ℕ, ◌+◌, ◌%◌, ◌≡◌, ◌≢◌, refl, true, [], ◌∷◌, ◌++◌, arith, length, replicate, length-append,
}
use stellar_kraal_contract.Common.Int.{pos, negsuc}
use stellar_kraal_contract.Common.Result.{ok, err, Error, attribute_error, raised}
use stellar_kraal_contract.Common.Text.{Str, codes, str_eq, str_eq_refl}
use stellar_kraal_contract.Common.Utf8.{encode_utf8}
use stellar_kraal_contract.Attestation.BigEndian.{Bytes, encode_be, pack_32s, pack_B, pack_q}
use stellar_kraal_contract.Attestation.Hex.{from_hex}
use stellar_kraal_contract.Attestation.Payload.{
  FeedId, to_bytes, pad_feed_id, post_init, feed_bytes, pad_feed,
}
use stellar_kraal_contract.Attestation.Signer.{
  Crypto, IsSignatureScheme, InputParams, SignedAttestation, attest, verify, to_dict, from_dict,
  canonical_params_hash, check_signed, params_hash,
}
use stellar_kraal_contract.Attestation.Signing.{
  IsSigned, attest-verify, attest_total, IsComplete, from_dict-to_dict,
}
use stellar_kraal_contract.Bridge.Commit.{GeeResult, commitment_hash, revealed, script_hash}
use stellar_kraal_contract.Bridge.Ipfs.{pin, get}
use stellar_kraal_contract.Bridge.Opening.{commitment_hash-revealed}
use stellar_kraal_contract.Bridge.Pinning.{get-pin}
use stellar_kraal_contract.Bridge.Submission.{Submitted, submit_with_cid-Submitted}
use stellar_kraal_contract.Bridge.Submit.{SubmissionClient, validate_cid, submit_with_cid}

abbrev pub crypto : Crypto ℕ
crypto = record {
  canonical_json = λ n. ok (n ∷ []);
  sha256 = λ m. replicate 32 (length m % 256);
  public_key = λ seed. seed;
  sign = λ seed m. seed ++ seed;
  verifies = λ key signature m. str_eq (key ++ key) signature;
}

pub crypto-IsSignatureScheme : IsSignatureScheme crypto
crypto-IsSignatureScheme = record {
  digest_len = λ m. refl;
  key_len = λ seed h. h;
  signature_len = λ seed m h. omega (arith, h, length-append {0} seed seed);
  accepts = λ seed m h. str_eq_refl (seed ++ seed);
}

abbrev pub seed : Bytes
seed = replicate 32 9

abbrev pub feed : FeedId
feed = FeedId.as_text (codes "BCT")

abbrev attested : SignedAttestation
attested = record {
  payload = record {
    script_hash = replicate 32 4;
    input_params_hash = replicate 32 1;
    output_value = negsuc 4;
    timestamp_utc = pos 1_720_051_200;
    feed_id = codes "BCT" ++ replicate 29 0;
    schema_version = pos 1;
  };
  public_key = replicate 32 9;
  signature = replicate 64 9;
}

attest_run :
    attest crypto seed (replicate 32 4) (InputParams.dict 77) (negsuc 4) (pos 1_720_051_200) feed
    ≡ ok attested
unfolding attest params_hash canonical_params_hash pad_feed_id pad_feed feed_bytes post_init
    to_bytes pack_B pack_q pack_32s encode_be check_signed encode_utf8
attest_run = refl

attest-verify_example :
    IsSigned crypto seed
      (replicate 32 4)
      (InputParams.dict 77)
      (negsuc 4)
      (pos 1_720_051_200)
      feed
      attested
    × (verify crypto seed attested ≡ true)
attest-verify_example =
    attest-verify crypto crypto-IsSignatureScheme seed (replicate 32 4) (InputParams.dict 77)
      (negsuc 4) (pos 1_720_051_200) feed refl attest_run

attest_total_example :
    (a : SignedAttestation) × (attest crypto seed
        (replicate 32 4)
        (InputParams.hashed (replicate 32 1))
        (negsuc 4)
        (pos 1_720_051_200)
        feed
      ≡ ok a)
    × (verify crypto seed a ≡ true)
unfolding params_hash feed_bytes encode_utf8
attest_total_example =
    attest_total crypto crypto-IsSignatureScheme seed (replicate 32 4) (replicate 32 1)
      (codes "BCT") (InputParams.hashed (replicate 32 1)) (negsuc 4) (pos 1_720_051_200) feed refl
      refl refl refl (omega arith) (omega arith) refl (omega arith)

attested-IsComplete : IsComplete attested
attested-IsComplete = record {
  payload_valid = record {
    script_len = refl;
    params_len = refl;
    feed_len = refl;
    value_fits = omega arith;
    time_fits = omega arith;
  };
  script_bytes = omega arith;
  params_bytes = omega arith;
  feed_bytes = omega arith;
  key_bytes = omega arith;
  signature_bytes = omega arith;
  key_len = refl;
  signature_len = refl;
}

from_dict-to_dict_example : from_dict (to_dict attested) ≡ ok attested
from_dict-to_dict_example = from_dict-to_dict attested attested-IsComplete

-- Upper case and white space between bytes are read, too.
hex_read : from_hex (codes "0A ff") ≡ ok (10 ∷ 255 ∷ [])
unfolding from_hex
hex_read = refl

abbrev computed : GeeResult ℕ
computed = record {
  script_source = codes "code";
  input_params = 77;
  output_value = negsuc 4;
  feed_id = feed;
  timestamp_utc = pos 1_720_051_200;
  script_asset_path = codes "users/org/v1";
  script_version_tag = codes "v1";
}

revealed_run : revealed crypto seed computed ≡ ok attested
unfolding revealed attest params_hash canonical_params_hash pad_feed_id post_init to_bytes pack_B
    pack_q pack_32s encode_be check_signed script_hash encode_utf8 pad_feed feed_bytes
revealed_run = refl

commitment_hash-revealed_example :
    (message : Bytes) × (to_bytes attested.payload ≡ ok (1 ∷ message))
    × (commitment_hash crypto computed (replicate 32 5)
        ≡ ok (crypto.sha256 (message ++ replicate 32 5)))
commitment_hash-revealed_example =
    commitment_hash-revealed crypto seed (replicate 32 5) computed revealed_run

get-pin_example :
    let pinned = pin crypto.sha256 (codes "{}") [] in
    (get pinned.0 pinned.1 ≡ ok (codes "{}"))
    × ((cid : Str) → cid ≢ pinned.0 → get cid pinned.1 ≡ get cid [])
    × (length pinned.0 ≡ 46)
    × (validate_cid pinned.0 ≡ ok tt)
get-pin_example = get-pin crypto.sha256 (codes "{}") [] refl

-- A client without `submit_price_with_cid`, whose circuit breaker is open.
abbrev old_client : SubmissionClient ℕ
old_client = record {
  submit_price = λ a s. (err (raised (codes "RpcError") (codes "Error #13")), s + 1);
  submit_price_with_cid = λ a cid s. (err attribute_error, s);
  commit_price = λ f h s. (ok (codes "tx"), s + 1);
  reveal_price = λ a salt s. (ok (codes "tx"), s + 1);
}

abbrev text_of : Error → Str
text_of e = codes "Error #13"

submit_with_cid-Submitted_example :
    Submitted old_client text_of attested
      (codes "bafk")
      0
      (submit_with_cid old_client text_of attested (codes "bafk") 0)
submit_with_cid-Submitted_example =
    submit_with_cid-Submitted old_client text_of attested (codes "bafk") 0
