-- ===== src/Tests/Attestation.antt =====
-- Payloads and feed identifiers.
use stellar_kraal_contract.Common.{◌≡◌, refl, [], ◌∷◌, ◌++◌, arith, length, replicate, ◌<◌, ◌≤◌}
use stellar_kraal_contract.Common.Int.{pos, negsuc}
use stellar_kraal_contract.Common.Result.{ok, err, feed_id_too_long}
use stellar_kraal_contract.Common.Text.{codes}
use stellar_kraal_contract.Attestation.BigEndian.{Bytes, IsBytes, encode_be, to_word}
use stellar_kraal_contract.Attestation.Feed.{rstrip, pad_feed_id_lem}
use stellar_kraal_contract.Attestation.Payload.{
  AttestationPayload, to_bytes, from_bytes, pad_feed_id, IsValid, HasByteVersion,
}
use stellar_kraal_contract.Attestation.Wire.{to_bytes-from_bytes, from_bytes-to_bytes}

minus_two : encode_be 8 (to_word (negsuc 1)) ≡ replicate 7 255 ++ 254 ∷ []
unfolding encode_be to_word
minus_two = refl

abbrev sample : AttestationPayload
sample = record {
  script_hash = replicate 32 17;
  input_params_hash = replicate 32 34;
  output_value = negsuc 4;
  timestamp_utc = pos 1_720_051_200;
  feed_id = codes "CATTLE-SPOT" ++ replicate 21 0;
  schema_version = pos 1;
}

sample-IsValid : IsValid sample
sample-IsValid = record {
  script_len = refl;
  params_len = refl;
  feed_len = refl;
  value_fits = omega arith;
  time_fits = omega arith;
}

sample-HasByteVersion : HasByteVersion sample
sample-HasByteVersion = record { version = 1; is_version = refl; small = omega arith }

to_bytes-from_bytes_example :
    (bs : Bytes) × (to_bytes sample ≡ ok bs) × (length bs ≡ 113) × (from_bytes bs ≡ ok sample)
to_bytes-from_bytes_example = to_bytes-from_bytes sample sample-IsValid sample-HasByteVersion

abbrev wire : Bytes
wire = replicate 113 200

wire-IsBytes : IsBytes wire
wire-IsBytes = omega arith

from_bytes-to_bytes_example :
    (p : AttestationPayload) × (from_bytes wire ≡ ok p) × IsValid p × (to_bytes p ≡ ok wire)
from_bytes-to_bytes_example = from_bytes-to_bytes wire wire-IsBytes refl

abbrev bct : Bytes
bct = codes "BCT"

pad_feed_id_lem_example :
    (32 < length bct → pad_feed_id bct ≡ err feed_id_too_long)
    × (length bct ≤ 32
        → (pad : Bytes) × (pad_feed_id bct ≡ ok (bct ++ pad))
          × (length (bct ++ pad) ≡ 32)
          × (rstrip (bct ++ pad) ≡ rstrip bct))
pad_feed_id_lem_example = pad_feed_id_lem bct

-- The doc string of `pad_feed_id` says "truncate"; the code raises.
too_long : pad_feed_id (replicate 33 65) ≡ err feed_id_too_long
unfolding pad_feed_id
too_long = refl
