-- ===== src/Attestation/Wire.antt =====
-- The payload and its 113 bytes determine one another.
use stellar_kraal_contract.Common.{
  ℕ, suc, ◌<◌, ◌≡◌, ◌≢◌, refl, ap, ◌∙◌, ◌↔◌, true, [], ◌∷◌, ◌++◌, arith, ◌==◌, lt→ltb, length, take,
  drop, length-append, take_prefix, drop_prefix, take-append-drop, length-take, length-drop,
  All-take, All-drop,
}
use stellar_kraal_contract.Common.Int.{pos, in_i64_iff}
use stellar_kraal_contract.Common.Result.{ok, err, payload_length}
use stellar_kraal_contract.Attestation.BigEndian.{
  Bytes, IsBytes, pack_B, to_word, encode_be, length-encode_be, pack_q-ok, unpack_q-encode,
  encode-unpack_q, pack_32s_exact, unpack_q-IsI64,
}
use stellar_kraal_contract.Attestation.Payload.{
  AttestationPayload, post_init, to_bytes, unpack_fields, from_bytes, IsValid, HasByteVersion,
  payload_len,
}

-- `__post_init__` accepts exactly the payloads within its bounds, and returns them unchanged.
pub post_init_iff : (p : AttestationPayload) → (post_init p ≡ ok p) ↔ IsValid p
unfolding post_init
post_init_iff p = ground (arith, in_i64_iff p.output_value, in_i64_iff p.timestamp_utc)

pub post_init-eq : (p q : AttestationPayload) → post_init p ≡ ok q → p ≡ q
unfolding post_init
post_init-eq p q h = ground arith

-- The five packed fields behind the version byte.
abbrev pub body : AttestationPayload → Bytes
body p =
    p.script_hash
    ++ (p.input_params_hash
        ++ (encode_be 8 (to_word p.output_value)
            ++ (encode_be 8 (to_word p.timestamp_utc) ++ p.feed_id)))

length-body : (p : AttestationPayload) → IsValid p → length (body p) ≡ 112
length-body p v =
    let value = encode_be 8 (to_word p.output_value) in
    let time = encode_be 8 (to_word p.timestamp_utc) in
    omega (
      arith,
      v.script_len,
      v.params_len,
      v.feed_len,
      length-append {0} p.script_hash (p.input_params_hash ++ (value ++ (time ++ p.feed_id))),
      length-append {0} p.input_params_hash (value ++ (time ++ p.feed_id)),
      length-append {0} value (time ++ p.feed_id),
      length-append {0} time p.feed_id,
      length-encode_be 8 (to_word p.output_value),
      length-encode_be 8 (to_word p.timestamp_utc),
    )

-- A valid payload packs, into the version byte and the fields in order.
pub to_bytes-eq :
    (p : AttestationPayload) (v : IsValid p) (n : ℕ)
    → p.schema_version ≡ pos n
    → n < 256
    → to_bytes p ≡ ok (n ∷ body p)
unfolding to_bytes pack_B
to_bytes-eq p v n e small =
    let long : (suc (length (body p)) == payload_len) ≡ true = ground (arith, length-body p v) in
    rw (
      e,
      lt→ltb n 256 small,
      pack_q-ok p.output_value v.value_fits,
      pack_q-ok p.timestamp_utc v.time_fits,
      pack_32s_exact p.script_hash v.script_len,
      pack_32s_exact p.input_params_hash v.params_len,
      pack_32s_exact p.feed_id v.feed_len,
      long,
    )

unpack_fields-body :
    (p : AttestationPayload) (v : IsValid p) (n : ℕ)
    → p.schema_version ≡ pos n
    → unpack_fields n (body p) ≡ p
unfolding unpack_fields
unpack_fields-body p v n e =
    let value = encode_be 8 (to_word p.output_value) in
    let time = encode_be 8 (to_word p.timestamp_utc) in
    let tail3 = time ++ p.feed_id in
    let tail2 = value ++ tail3 in
    let tail1 = p.input_params_hash ++ tail2 in
    let d1 : drop 32 (body p) ≡ tail1 = drop_prefix 32 p.script_hash tail1 v.script_len in
    let d2 : drop 32 tail1 ≡ tail2 = drop_prefix 32 p.input_params_hash tail2 v.params_len in
    let d3 : drop 8 tail2 ≡ tail3 = drop_prefix 8 value tail3 (length-encode_be 8 _) in
    let d4 : drop 8 tail3 ≡ p.feed_id = drop_prefix 8 time p.feed_id (length-encode_be 8 _) in
    let t0 : take 32 (body p) ≡ p.script_hash = take_prefix 32 p.script_hash tail1 v.script_len in
    let t1 : take 32 tail1 ≡ p.input_params_hash =
      take_prefix 32 p.input_params_hash tail2 v.params_len in
    let t2 : take 8 tail2 ≡ value = take_prefix 8 value tail3 (length-encode_be 8 _) in
    let t3 : take 8 tail3 ≡ time = take_prefix 8 time p.feed_id (length-encode_be 8 _) in
    rw (
      t0,
      d1,
      t1,
      d2,
      t2,
      d3,
      t3,
      d4,
      unpack_q-encode p.output_value v.value_fits,
      unpack_q-encode p.timestamp_utc v.time_fits,
      ← e,
    )

-- Every valid payload with a version byte packs into 113 bytes, from which `from_bytes` restores
-- that payload.
pub to_bytes-from_bytes :
    (p : AttestationPayload)
    → IsValid p
    → HasByteVersion p
    → (bs : Bytes) × (to_bytes p ≡ ok bs) × (length bs ≡ 113) × (from_bytes bs ≡ ok p)
unfolding from_bytes
to_bytes-from_bytes p v b =
    let n = b.version in
    let long : (suc (length (body p)) == payload_len) ≡ true = ground (arith, length-body p v) in
    (
      n ∷ body p,
      to_bytes-eq p v n b.is_version b.small,
      omega (arith, length-body p v),
      rw (long, unpack_fields-body p v n b.is_version) ((post_init_iff p).1 v),
    )

module _ (n : ℕ) (rest : Bytes) (short : n < 256) (bytes : IsBytes rest)
    (len : length rest ≡ 112) where
  abbrev r1 : Bytes
  r1 = drop 32 rest

  abbrev r2 : Bytes
  r2 = drop 32 r1

  abbrev r3 : Bytes
  r3 = drop 8 r2

  abbrev r4 : Bytes
  r4 = drop 8 r3

  slices_lengths :
      (length (take 32 rest) ≡ 32)
      × (length (take 32 r1) ≡ 32)
      × (length (take 8 r2) ≡ 8)
      × (length (take 8 r3) ≡ 8)
      × (length r4 ≡ 32)
  slices_lengths = omega (
    arith,
    len,
    length-take {0} 32 rest,
    length-take {0} 32 r1,
    length-take {0} 8 r2,
    length-take {0} 8 r3,
    length-drop {0} 32 rest,
    length-drop {0} 32 r1,
    length-drop {0} 8 r2,
    length-drop {0} 8 r3,
  )

  bytes2 : IsBytes r2
  bytes2 = All-drop _ 32 r1 (All-drop _ 32 rest bytes)

  value-IsBytes : IsBytes (take 8 r2)
  value-IsBytes = All-take _ 8 r2 bytes2

  time-IsBytes : IsBytes (take 8 r3)
  time-IsBytes = All-take _ 8 r3 (All-drop _ 8 r2 bytes2)

  unpack_fields-IsValid : IsValid (unpack_fields n rest)
  unfolding unpack_fields
  unpack_fields-IsValid = record {
    script_len = slices_lengths.0;
    params_len = slices_lengths.1;
    feed_len = slices_lengths.4;
    value_fits = unpack_q-IsI64 (take 8 r2) value-IsBytes slices_lengths.2;
    time_fits = unpack_q-IsI64 (take 8 r3) time-IsBytes slices_lengths.3;
  }

  body-unpack_fields : body (unpack_fields n rest) ≡ rest
  unfolding unpack_fields
  body-unpack_fields = rw (
    encode-unpack_q (take 8 r2) value-IsBytes slices_lengths.2,
    encode-unpack_q (take 8 r3) time-IsBytes slices_lengths.3,
    take-append-drop 8 r3,
    take-append-drop 8 r2,
    take-append-drop 32 r1,
    take-append-drop 32 rest,
  )

  from_bytes-unpack : from_bytes (n ∷ rest) ≡ ok (unpack_fields n rest)
  unfolding from_bytes
  from_bytes-unpack =
      let long : (suc (length rest) == payload_len) ≡ true = ground arith in
      rw long ((post_init_iff (unpack_fields n rest)).1 unpack_fields-IsValid)

  to_bytes-unpack : to_bytes (unpack_fields n rest) ≡ ok (n ∷ rest)
  to_bytes-unpack =
      to_bytes-eq (unpack_fields n rest) unpack_fields-IsValid n (unfold unpack_fields in refl)
        short
      ∙ ap (λ t. ok (n ∷ t)) body-unpack_fields

-- Every string of 113 bytes is a payload: `from_bytes` accepts it with a valid payload, and
-- `to_bytes` of that payload gives the same bytes back.
pub from_bytes-to_bytes :
    (bs : Bytes)
    → IsBytes bs
    → length bs ≡ 113
    → (p : AttestationPayload) × (from_bytes bs ≡ ok p) × IsValid p × (to_bytes p ≡ ok bs)
from_bytes-to_bytes [] h e = absurd (omega arith)
from_bytes-to_bytes (n ∷ rest) h e =
    let len : length rest ≡ 112 = omega arith in
    (
      unpack_fields n rest,
      from_bytes-unpack n rest h.0 h.1 len,
      unpack_fields-IsValid n rest h.0 h.1 len,
      to_bytes-unpack n rest h.0 h.1 len,
    )

-- Any other length is refused.
pub from_bytes_wrong_length : (bs : Bytes) → length bs ≢ 113 → from_bytes bs ≡ err payload_length
unfolding from_bytes
from_bytes_wrong_length [] h = refl
from_bytes_wrong_length (n ∷ rest) h = ground arith

-- Two valid payloads with the same 113 bytes are the same payload.
pub to_bytes_injective :
    (p q : AttestationPayload)
    → IsValid p
    → IsValid q
    → HasByteVersion p
    → HasByteVersion q
    → to_bytes p ≡ to_bytes q
    → p ≡ q
to_bytes_injective p q vp vq bp bq e =
    let (bs, packs, _, back) = to_bytes-from_bytes p vp bp in
    let (cs, packs', _, back') = to_bytes-from_bytes q vq bq in cc
