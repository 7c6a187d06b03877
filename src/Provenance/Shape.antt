-- ===== src/Provenance/Shape.antt =====
-- What `to_dict` returns.
use stellar_kraal_contract.Common.{◌≡◌}
use stellar_kraal_contract.Common.Int.{ℤ}
use stellar_kraal_contract.Common.Json.{Json, object, Fields}
use stellar_kraal_contract.Common.Result.{Result, ok, >>=-eq-ok}
use stellar_kraal_contract.Common.Text.{Str}
use stellar_kraal_contract.Attestation.Signer.{Crypto}
use stellar_kraal_contract.Provenance.Record.{
  ProvenanceRecord, params_hash_text, record_dict, to_dict,
}

module _ {F : Type 0} (c : Crypto (Json F)) (utc_iso : ℤ → Result Str) where
  -- The texts that `to_dict` computes are those of the dict.
  pub to_dict_shape :
      (r : ProvenanceRecord F) {d : Fields F}
      → to_dict c utc_iso r ≡ ok d
      → (params_hash : Str) × (submitted_iso : Str) × (timestamp_iso : Str) × (params_hash_text c
            (object r.input_params)
          ≡ ok params_hash)
        × (d ≡ record_dict r params_hash submitted_iso timestamp_iso)
  unfolding to_dict
  to_dict_shape r h =
      let (params_hash, hashed, h1) = >>=-eq-ok (params_hash_text c (object r.input_params)) _ h in
      let (submitted_iso, _, h2) = >>=-eq-ok (utc_iso r.submitted_at_utc) _ h1 in
      let (timestamp_iso, _, h3) = >>=-eq-ok (utc_iso r.timestamp_utc) _ h2 in
      (params_hash, submitted_iso, timestamp_iso, hashed, cc h3)
