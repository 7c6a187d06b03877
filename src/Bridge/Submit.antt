-- ===== src/Bridge/Submit.antt =====
-- `SubmissionClient`, `_validate_cid`, `_submit_with_cid` and
-- `_submit_with_circuit_breaker_alert`. A client is injected: its calls change a world `S`.
use stellar_kraal_contract.Common.{
  ℕ, Bool, true, false, ◌||◌, List, [], ◌∷◌, ltb, leb, length, if◌then◌else◌,
}
use stellar_kraal_contract.Common.Int.{ℤ}
use stellar_kraal_contract.Common.Result.{
  Result, ok, err, Error, ◌>>◌, raise_if, cid_empty, cid_too_long, attribute_error, raised,
}
use stellar_kraal_contract.Common.Text.{occurs_in, Str, str_eq, codes}
use stellar_kraal_contract.Attestation.BigEndian.{Bytes}
use stellar_kraal_contract.Attestation.Hex.{hex}
use stellar_kraal_contract.Attestation.Payload.{FeedId}
use stellar_kraal_contract.Attestation.Signer.{SignedAttestation}

pub record SubmissionClient (S : Type 0) : Type 0 where
  pub submit_price : SignedAttestation → S → Result Str × S
  pub submit_price_with_cid : SignedAttestation → Str → S → Result Str × S
  pub commit_price : FeedId → Bytes → S → Result Str × S
  pub reveal_price : SignedAttestation → Bytes → S → Result Str × S

-- The extra fields of the record that is logged when the circuit breaker trips.
pub record Alert : Type 0 where
  pub feed_id : Str
  pub timestamp_utc : ℤ
  pub output_value : ℤ
  pub reason : Str

-- `MAX_CID_LEN` of oracle_bridge/config.py.
abbrev pub max_cid_len : ℕ
max_cid_len = 64

-- `_validate_cid` on a `str`; the length is in characters.
unfoldable pub validate_cid : Str → Result (Unit {0})
validate_cid cid = do
  raise_if (leb (length cid) 0) cid_empty
  raise_if (ltb max_cid_len (length cid)) cid_too_long

-- Whether the text of an exception names the circuit breaker or one of its codes.
unfoldable pub trips : Str → Bool
unfolding occurs_in
trips message =
    occurs_in (codes "CircuitBreaker") message
    || occurs_in (codes "#13") message
    || occurs_in (codes "#14") message
    || occurs_in (codes "#15") message

-- `except AttributeError`
unfoldable pub is_attribute_error : Error → Bool
is_attribute_error attribute_error = true
is_attribute_error (raised name text) = str_eq name (codes "AttributeError")
is_attribute_error other = false

module _ {S : Type 0} (client : SubmissionClient S) (message : Error → Str) where
  abbrev pub alert_of : SignedAttestation → Error → Alert
  alert_of a e = record {
    feed_id = hex a.payload.feed_id;
    timestamp_utc = a.payload.timestamp_utc;
    output_value = a.payload.output_value;
    reason = message e;
  }

  -- The exception is raised again in both cases.
  unfoldable pub alerted : SignedAttestation → Result Str × S → Result Str × S × List Alert
  alerted a (ok tx, s) = (ok tx, s, [])
  alerted a (err e, s) = (err e, s, (if trips (message e) then alert_of a e ∷ [] else []))

  unfoldable pub submit_with_circuit_breaker_alert :
      SignedAttestation → S → Result Str × S × List Alert
  unfolding alerted
  submit_with_circuit_breaker_alert a s = alerted a (client.submit_price a s)

  -- After `submit_price_with_cid`: a client without that method raises `AttributeError`.
  unfoldable pub fall_back : SignedAttestation → Result Str × S → Result Str × S × List Alert
  unfolding submit_with_circuit_breaker_alert
  fall_back a (ok tx, s) = (ok tx, s, [])
  fall_back a (err e, s) =
      if is_attribute_error e then submit_with_circuit_breaker_alert a s else (err e, s, [])

  unfoldable pub submit_with_cid : SignedAttestation → Str → S → Result Str × S × List Alert
  unfolding fall_back
  submit_with_cid a cid s = elim (validate_cid cid) [
    | err e ↦ (err e, s, [])
    | ok u ↦ fall_back a (client.submit_price_with_cid a cid s)
  ]
