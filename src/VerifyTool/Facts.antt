-- ===== src/VerifyTool/Facts.antt =====
-- What it means for a record that the checks of its parameters, its payload and its signature pass.
use stellar_kraal_contract.Common.{
  ℕ, ◌≡◌, refl, ap, ◌∙◌, Bool, true, false, ◌&&◌, ◌==◌, [], ◌∷◌, ◌++◌, arith, Bool-cases, inl, inr,
  if◌then◌else◌, length,
}
use stellar_kraal_contract.Common.Float.{Float}
use stellar_kraal_contract.Common.Json.{
  Json, Fields, text, object, null, end, len, subscript, is_text, equals_int,
}
use stellar_kraal_contract.Common.Result.{Result, ok, err, ◌>>=◌, >>=-eq-ok}
use stellar_kraal_contract.Common.Text.{codes}
use stellar_kraal_contract.Attestation.BigEndian.{Bytes}
use stellar_kraal_contract.Attestation.Hex.{hex}
use stellar_kraal_contract.Attestation.Signer.{Crypto}
use stellar_kraal_contract.Provenance.Record.{from_hex_value, params_hash_text}
use stellar_kraal_contract.Provenance.Verify.{slice}
use stellar_kraal_contract.VerifyTool.Checks.{
  get_from, part, PayloadError, int_from_bytes, first_byte, valid, is_decode_error, field_errors,
  verify_params_hash, verify_payload_fields, verify_signature, decode_attestation, check_decoded,
}

no_value :
    {F : Type 0} (a b v : Bool) (x y z : PayloadError F)
    → ((if a then [] else x ∷ []) ++ ((if b then [] else y ∷ []) ++ (if v then [] else z ∷ [])))
      ≡ []
    → (a ≡ true) × (b ≡ true) × (v ≡ true)
no_value true true true x y z h = (refl, refl, refl)
no_value true true false x y z h = absurd (cc h)
no_value true false v x y z h = absurd (cc h)
no_value false b v x y z h = absurd (cc h)

module _ {F : Type 0} ⦃float : Float F⦄ (d : Fields F) where
  -- The text of the payload has 226 characters, and its bytes for the value, the time and the version
  -- hold the value and the time of the record, and 1.
  pub record HasPayload : Type 0 where
    pub payload_hex : Json F
    pub value : Json F
    pub time : Json F
    pub payload : Bytes
    pub hex_eq :
        get_from (codes "payload_hex") (text []) (part (codes "attestation") d) ≡ ok payload_hex
    pub hex_len : len payload_hex ≡ ok 226
    pub payload_eq : from_hex_value payload_hex ≡ ok payload
    pub value_eq : get_from (codes "output_value") null (part (codes "computation") d) ≡ ok value
    pub time_eq : get_from (codes "timestamp_utc") null (part (codes "computation") d) ≡ ok time
    pub same_value : equals_int (int_from_bytes (slice 65 8 payload)) value ≡ true
    pub same_time : equals_int (int_from_bytes (slice 73 8 payload)) time ≡ true
    pub version : first_byte payload ≡ ok 1

  module _ (c : Crypto (Json F)) where
    -- The SHA-256 of the canonical JSON of the parameters is the stored hash.
    pub record HasParamsHash : Type 0 where
      pub stored : Json F
      pub params : Json F
      pub canonical : Bytes
      pub stored_eq :
          get_from (codes "params_hash") (text []) (part (codes "input_params") d) ≡ ok stored
      pub params_eq :
          get_from (codes "params") (object end) (part (codes "input_params") d) ≡ ok params
      pub canonical_eq : c.canonical_json params ≡ ok canonical
      pub same_hash : is_text (hex (c.sha256 canonical)) stored ≡ true

    -- The key of 32 bytes accepts the signature of the payload; all three are those of the record.
    pub record HasSignature : Type 0 where
      pub key : Bytes
      pub signature : Bytes
      pub payload : Bytes
      pub key_eq :
          (subscript (codes "public_key") (part (codes "attestation") d) >>= from_hex_value)
          ≡ ok key
      pub signature_eq :
          (subscript (codes "signature") (part (codes "attestation") d) >>= from_hex_value)
          ≡ ok signature
      pub payload_eq :
          (subscript (codes "payload_hex") (part (codes "attestation") d) >>= from_hex_value)
          ≡ ok payload
      pub key_len : length key ≡ 32
      pub accepted : c.verifies key signature payload ≡ true

    pub verify_params_hash-HasParamsHash : verify_params_hash c d ≡ ok true → HasParamsHash
    unfolding verify_params_hash params_hash_text
    verify_params_hash-HasParamsHash h =
        let ip = part (codes "input_params") d in
        let (stored, e1, h1) = >>=-eq-ok (get_from (codes "params_hash") (text []) ip) _ h in
        let (params, e2, h2) = >>=-eq-ok (get_from (codes "params") (object end) ip) _ h1 in
        let (computed, e3, h3) = >>=-eq-ok (params_hash_text c params) _ h2 in
        let (canonical, e4, h4) = >>=-eq-ok (c.canonical_json params) _ e3 in
        let is_hash : hex (c.sha256 canonical) ≡ computed = cc h4 in
        record {
          stored = stored;
          params = params;
          canonical = canonical;
          stored_eq = e1;
          params_eq = e2;
          canonical_eq = e4;
          same_hash = rw is_hash (cc h3);
        }

    decode_attestation-HasSignature :
        (key signature payload : Bytes)
        → decode_attestation c (part (codes "attestation") d) ≡ ok (key, signature, payload)
        → (length key == 32 && c.verifies key signature payload) ≡ true
        → HasSignature
    unfolding decode_attestation
    decode_attestation-HasSignature key signature payload h accepts =
        let att = part (codes "attestation") d in
        let (k, e1, h1) = >>=-eq-ok (subscript (codes "public_key") att) _ h in
        let (kb, e2, h2) = >>=-eq-ok (from_hex_value k) _ h1 in
        let (s, e3, h3) = >>=-eq-ok (subscript (codes "signature") att) _ h2 in
        let (sb, e4, h4) = >>=-eq-ok (from_hex_value s) _ h3 in
        let (p, e5, h5) = >>=-eq-ok (subscript (codes "payload_hex") att) _ h4 in
        let (pb, e6, h6) = >>=-eq-ok (from_hex_value p) _ h5 in
        let same_key : kb ≡ key = cc h6 in
        let same_signature : sb ≡ signature = cc h6 in
        let same_payload : pb ≡ payload = cc h6 in
        record {
          key = key;
          signature = signature;
          payload = payload;
          key_eq = rw e1 (e2 ∙ ap ok same_key);
          signature_eq = rw e3 (e4 ∙ ap ok same_signature);
          payload_eq = rw e5 (e6 ∙ ap ok same_payload);
          key_len = ground arith;
          accepted = ground arith;
        }

    pub verify_signature-HasSignature :
        (available : Bool) → verify_signature c available d ≡ ok valid → HasSignature
    unfolding verify_signature
    verify_signature-HasSignature false h = absurd (cc h)
    verify_signature-HasSignature true h =
        checked (decode_attestation c (part (codes "attestation") d)) refl h
      where
        checked :
            (r : Result (Bytes × Bytes × Bytes))
            → decode_attestation c (part (codes "attestation") d) ≡ r
            → check_decoded c r ≡ ok valid
            → HasSignature
        checked (err e) is_r h = elim (Bool-cases (is_decode_error e)) [
          | inl caught ↦ absurd (cc (rw (check_decoded, caught) at h))
          | inr raised ↦ absurd (cc (rw (check_decoded, raised) at h))
        ]
        checked (ok (key, signature, payload)) is_r h =
            elim (Bool-cases (length key == 32 && c.verifies key signature payload)) [
              | inl accepts ↦ decode_attestation-HasSignature key signature payload is_r accepts
              | inr refuses ↦ absurd (cc (rw (check_decoded, refuses) at h))
            ]

  version_one : (version : ℕ) → (version == 1) ≡ true → version ≡ 1
  version_one version h = ground arith

  pub verify_payload_fields-HasPayload :
      (c : Crypto (Json F)) → verify_payload_fields c d ≡ ok [] → HasPayload
  unfolding verify_payload_fields field_errors
  verify_payload_fields-HasPayload c h =
      let att = part (codes "attestation") d in
      let (payload_hex, e1, h1) = >>=-eq-ok (get_from (codes "payload_hex") (text []) att) _ h in
      let (size, e2, h2) = >>=-eq-ok (len payload_hex) _ h1 in
      elim (Bool-cases (size == 226)) [
        | inr other ↦ absurd (cc (rw other at h2))
        | inl full ↦ of_size payload_hex size e1 e2 full (rw full at h2)
      ]
    where
      comp : Json F
      comp = part (codes "computation") d

      of_size :
          (payload_hex : Json F) (size : ℕ)
          → get_from (codes "payload_hex") (text []) (part (codes "attestation") d) ≡ ok payload_hex
          → len payload_hex ≡ ok size
          → (size == 226) ≡ true
          → (do
            payload ← from_hex_value payload_hex
            expected_ov ← get_from (codes "output_value") null comp
            expected_ts ← get_from (codes "timestamp_utc") null comp
            version ← first_byte payload
            ok (field_errors c payload version expected_ov expected_ts))
            ≡ ok []
          → HasPayload
      of_size payload_hex size e1 e2 full h2 =
          let is_size : size ≡ 226 = ground arith in
          let (payload, e3, h3) = >>=-eq-ok (from_hex_value payload_hex) _ h2 in
          let (value, e4, h4) = >>=-eq-ok (get_from (codes "output_value") null comp) _ h3 in
          let (time, e5, h5) = >>=-eq-ok (get_from (codes "timestamp_utc") null comp) _ h4 in
          let (version, e6, h6) = >>=-eq-ok (first_byte payload) _ h5 in
          let clean : field_errors c payload version value time ≡ [] = cc h6 in
          let (v, t, n) = no_value _ _ _ _ _ _ clean in
          record {
            payload_hex = payload_hex;
            value = value;
            time = time;
            payload = payload;
            hex_eq = e1;
            hex_len = e2 ∙ ap ok is_size;
            payload_eq = e3;
            value_eq = e4;
            time_eq = e5;
            same_value = v;
            same_time = t;
            version = e6 ∙ ap ok (version_one version n);
          }
