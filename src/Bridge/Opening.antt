-- ===== src/Bridge/Opening.antt =====
-- A commitment is opened by the reveal of the same result.
use mathlib.Core.Path.{subst}
use stellar_kraal_contract.Common.{◌≡◌, refl, ap, true, ◌∷◌, ◌++◌, append_assoc, arith}
use stellar_kraal_contract.Common.Int.{ℤ, in_i64, IsI64, in_i64_iff}
use stellar_kraal_contract.Common.Result.{ok, >>=-eq-ok}
use stellar_kraal_contract.Attestation.BigEndian.{Bytes, encode_be, to_word}
use stellar_kraal_contract.Attestation.Payload.{to_bytes}
use stellar_kraal_contract.Attestation.Signer.{Crypto, InputParams, SignedAttestation, params_hash}
use stellar_kraal_contract.Attestation.Signing.{attest-IsSigned}
use stellar_kraal_contract.Attestation.Wire.{body, to_bytes-eq}
use stellar_kraal_contract.Bridge.Commit.{
  GeeResult, int_to_bytes, script_hash, commitment_hash, revealed,
}

int_to_bytes-ok : (v : ℤ) → IsI64 v → int_to_bytes v ≡ ok (encode_be 8 (to_word v))
unfolding int_to_bytes
int_to_bytes-ok v h = let fits : in_i64 v ≡ true = (in_i64_iff v).1 h in rw fits refl

regroup :
    (a b v t f s : Bytes) → ((((a ++ b) ++ v) ++ t) ++ f) ++ s ≡ (a ++ (b ++ (v ++ (t ++ f)))) ++ s
regroup a b v t f s = simp append_assoc

module _ {P : Type 0} (c : Crypto P) where
  -- If `reveal` can sign a result, then for every salt `commit` computes a commitment of that
  -- result, and it is the SHA-256 of the revealed message without its version byte, and the salt.
  pub commitment_hash-revealed :
      (seed salt : Bytes) (r : GeeResult P) {a : SignedAttestation}
      → revealed c seed r ≡ ok a
      → (message : Bytes) × (to_bytes a.payload ≡ ok (1 ∷ message))
        × (commitment_hash c r salt ≡ ok (c.sha256 (message ++ salt)))
  unfolding revealed commitment_hash params_hash
  commitment_hash-revealed seed salt r {a} e =
      let (script, script_eq, e') = >>=-eq-ok (script_hash c r) _ e in
      let s =
        attest-IsSigned c seed script (InputParams.dict r.input_params) r.output_value
          r.timestamp_utc r.feed_id e' in
      let value_fits : IsI64 r.output_value = subst IsI64 s.value_eq s.payload_valid.value_fits in
      let time_fits : IsI64 r.timestamp_utc = subst IsI64 s.time_eq s.payload_valid.time_fits in
      (
        body a.payload,
        to_bytes-eq a.payload s.payload_valid 1 s.version_eq (omega arith),
        rw
            (
              s.feed_eq,
              s.hash_eq,
              script_eq,
              int_to_bytes-ok r.output_value value_fits,
              int_to_bytes-ok r.timestamp_utc time_fits,
            )
            (rw (s.script_eq, s.value_eq, s.time_eq)
              (ap (λ x. ok (c.sha256 x))
                (regroup script a.payload.input_params_hash _ _ a.payload.feed_id salt))),
      )
