-- ===== src/VerifyTool/Verdict.antt =====
-- What exit code 0 of `verify` means.
use stellar_kraal_contract.Common.{
  ℕ, ◌≡◌, refl, ap, ◌∙◌, ◌⊎◌, inl, inr, Bool, true, false, ◌&&◌, List, [], ◌∷◌, Option, arith,
  if◌then◌else◌,
}
use stellar_kraal_contract.Common.Float.{Float}
use stellar_kraal_contract.Common.Json.{text, Json, Fields}
use stellar_kraal_contract.Common.Result.{Result, ok, err, >>=-eq-ok}
use stellar_kraal_contract.Common.Text.{Str, codes}
use stellar_kraal_contract.Attestation.Signer.{Crypto}
use stellar_kraal_contract.Provenance.Validate.{validate_provenance_record}
use stellar_kraal_contract.VerifyTool.Checks.{
  get_from, sliceable, part, SignatureCheck, unavailable, undecodable, invalid, PayloadError, valid,
  verify_params_hash, verify_payload_fields, verify_signature,
}
use stellar_kraal_contract.VerifyTool.Facts.{
  HasParamsHash, HasPayload, HasSignature, verify_params_hash-HasParamsHash,
  verify_payload_fields-HasPayload, verify_signature-HasSignature,
}
use stellar_kraal_contract.VerifyTool.Command.{
  shown_hash, verify_record, conforms, is_valid, no_errors, params_step, payload_step,
  signature_step, script_step,
}

all_passed :
    (a b p q : Bool)
    → ◌≡◌ {A = Result ℕ} (ok (if a && (b && (p && q)) then 0 else 1)) (ok 0)
    → (a ≡ true) × (b ≡ true) × (p ≡ true) × (q ≡ true)
all_passed a b p q h = ground arith

conforms-true : (r : Result (Unit {0})) → conforms r ≡ ok true → r ≡ ok tt
unfolding conforms
conforms-true (ok u) h = refl
conforms-true (err e) h = ground arith

is_valid-true : (check : SignatureCheck) → is_valid check ≡ true → check ≡ valid
unfolding is_valid
is_valid-true valid h = refl
is_valid-true unavailable h = absurd (cc h)
is_valid-true undecodable h = absurd (cc h)
is_valid-true invalid h = absurd (cc h)

no_errors-true : {F : Type 0} (es : List (PayloadError F)) → no_errors es ≡ true → es ≡ []
unfolding no_errors
no_errors-true [] h = refl
no_errors-true (e ∷ es) h = absurd (cc h)

module _ {F : Type 0} ⦃float : Float F⦄ (c : Crypto (Json F)) where
  shown_hash-true :
      (matches : Bool) (d : Fields F) → shown_hash c matches d ≡ ok true → matches ≡ true
  unfolding shown_hash
  shown_hash-true true d h = refl
  shown_hash-true false d h =
      let (stored, _, h1) =
        >>=-eq-ok
          (get_from (codes "params_hash") (text (codes "N/A")) (part (codes "input_params") d)) _
          h in
      let (u, _, h2) = >>=-eq-ok (sliceable stored) _ h1 in absurd (cc h2)

  params_step-true : (d : Fields F) → params_step c d ≡ ok true → verify_params_hash c d ≡ ok true
  unfolding params_step
  params_step-true d h =
      let (matches, e, h1) = >>=-eq-ok (verify_params_hash c d) _ h in
      e ∙ ap ok (shown_hash-true matches d h1)

  payload_step-true :
      (d : Fields F) → payload_step c d ≡ ok true → verify_payload_fields c d ≡ ok []
  unfolding payload_step
  payload_step-true d h =
      let (errors, e, h1) = >>=-eq-ok (verify_payload_fields c d) _ h in
      e ∙ ap ok (no_errors-true errors (cc h1))

  signature_step-true :
      (available check_sig : Bool) (d : Fields F)
      → signature_step c available check_sig d ≡ ok true
      → (check_sig ≡ false) ⊎ (verify_signature c available d ≡ ok valid)
  unfolding signature_step
  signature_step-true available false d h = inl refl
  signature_step-true available true d h =
      let (check, e, h1) = >>=-eq-ok (verify_signature c available d) _ h in
      inr (e ∙ ap ok (is_valid-true check (cc h1)))

  -- If the checks of a record end with exit code 0, then the record conforms to the schema; the hash
  -- of the canonical JSON of its parameters is the stored one; its payload, a text of 226 characters in
  -- hexadecimal, has the value and the time of the record, and version 1; and, where the signature is asked for,
  -- Ed25519 accepts the decoded signature of the decoded payload with the decoded key, of 32 bytes.
  pub verify_record_sound :
      (jsonschema : Option (Fields F → List Str)) (available check_sig : Bool) (d : Fields F)
      → verify_record c jsonschema available check_sig d ≡ ok 0
      → (validate_provenance_record jsonschema d ≡ ok tt)
        × HasParamsHash d c
        × HasPayload d
        × ((check_sig ≡ false) ⊎ HasSignature d c)
  unfolding verify_record
  verify_record_sound jsonschema available check_sig d h =
      let (schema, e1, h1) = >>=-eq-ok (conforms (validate_provenance_record jsonschema d)) _ h in
      let (params, e2, h2) = >>=-eq-ok (params_step c d) _ h1 in
      let (payload, e3, h3) = >>=-eq-ok (payload_step c d) _ h2 in
      let (shown, _, h4) = >>=-eq-ok (script_step c d) _ h3 in
      let (signature, e5, h5) = >>=-eq-ok (signature_step c available check_sig d) _ h4 in
      let (a, b, p, q) = all_passed schema params payload signature h5 in
      (
        conforms-true (validate_provenance_record jsonschema d) (e1 ∙ ap ok a),
        verify_params_hash-HasParamsHash d c (params_step-true d (e2 ∙ ap ok b)),
        verify_payload_fields-HasPayload d c (payload_step-true d (e3 ∙ ap ok p)),
        elim (signature_step-true available check_sig d (e5 ∙ ap ok q)) [
          | inl unasked ↦ inl unasked
          | inr accepted ↦ inr (verify_signature-HasSignature d c available accepted)
        ],
      )
