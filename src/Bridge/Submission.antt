-- ===== src/Bridge/Submission.antt =====
-- What a submission with a CID does to the client and to the log.
use stellar_kraal_contract.Common.{
  ◌<◌, ◌≡◌, ◌≢◌, refl, ◌⊎◌, inl, inr, true, false, List, [], ◌∷◌, arith, length, Bool-cases,
}
use stellar_kraal_contract.Common.Result.{Result, ok, err, Error, cid_empty, cid_too_long}
use stellar_kraal_contract.Common.Text.{Str}
use stellar_kraal_contract.Attestation.Signer.{SignedAttestation}
use stellar_kraal_contract.Bridge.Submit.{
  SubmissionClient, Alert, validate_cid, trips, is_attribute_error, alert_of, alerted,
  submit_with_circuit_breaker_alert, fall_back, submit_with_cid,
}

validate_cid-cases :
    (cid : Str)
    → ((cid ≡ []) × (validate_cid cid ≡ err cid_empty))
      ⊎ (((64 < length cid) × (validate_cid cid ≡ err cid_too_long))
          ⊎ ((cid ≢ []) × (length cid < 65) × (validate_cid cid ≡ ok tt)))
unfolding validate_cid
validate_cid-cases [] = inl (refl, refl)
validate_cid-cases (k ∷ s) = ground arith

module _ {S : Type 0} (client : SubmissionClient S) (message : Error → Str)
    (a : SignedAttestation) where
  -- One submission: what comes back, the world, and what was logged.
  pub data Submitted (cid : Str) (s : S) : Result Str × S × List Alert → Type 0 where
    -- The CID is empty or too long, and the client is not called.
    refused :
        (e : Error)
        → ((cid ≡ []) × (e ≡ cid_empty)) ⊎ ((64 < length cid) × (e ≡ cid_too_long))
        → Submitted cid s (err e, s, [])
    -- The client answered the call with the CID.
    with_cid :
        (r : Result Str) (s' : S)
        → client.submit_price_with_cid a cid s ≡ (r, s')
        → ((e : Error) → r ≡ err e → is_attribute_error e ≡ false)
        → Submitted cid s (r, s', [])
    -- That call is missing, and the call without the CID returned.
    without_cid :
        (e : Error) (s' s'' : S) (tx : Str)
        → client.submit_price_with_cid a cid s ≡ (err e, s')
        → is_attribute_error e ≡ true
        → client.submit_price a s' ≡ (ok tx, s'')
        → Submitted cid s (ok tx, s'', [])
    -- That call is missing, and the call without the CID raised: logged if the circuit breaker
    -- tripped, and raised again in any case.
    failed :
        (e f : Error) (s' s'' : S) (log : List Alert)
        → client.submit_price_with_cid a cid s ≡ (err e, s')
        → is_attribute_error e ≡ true
        → client.submit_price a s' ≡ (err f, s'')
        → ((trips (message f) ≡ true) × (log ≡ alert_of client message a f ∷ []))
          ⊎ ((trips (message f) ≡ false) × (log ≡ []))
        → Submitted cid s (err f, s'', log)

  alerted-Submitted :
      (cid : Str) (s s' : S) (e : Error)
      → client.submit_price_with_cid a cid s ≡ (err e, s')
      → is_attribute_error e ≡ true
      → (t : Result Str × S) → client.submit_price a s' ≡ t
      → Submitted cid s (alerted client message a t)
  unfolding alerted
  alerted-Submitted cid s s' e h missing (ok tx, s'') k =
      Submitted.without_cid e s' s'' tx h missing k
  alerted-Submitted cid s s' e h missing (err f, s'') k = elim (Bool-cases (trips (message f))) [
    | inl is_so ↦ rw is_so (Submitted.failed e f s' s'' _ h missing k (inl (is_so, refl)))
    | inr is_not ↦ rw is_not (Submitted.failed e f s' s'' _ h missing k (inr (is_not, refl)))
  ]

  fall_back-Submitted :
      (cid : Str) (s : S) (t : Result Str × S)
      → client.submit_price_with_cid a cid s ≡ t
      → Submitted cid s (fall_back client message a t)
  unfolding fall_back submit_with_circuit_breaker_alert
  fall_back-Submitted cid s (ok tx, s') h = Submitted.with_cid (ok tx) s' h (λ e p. absurd (cc p))
  fall_back-Submitted cid s (err e, s') h = elim (Bool-cases (is_attribute_error e)) [
    | inl is_so ↦ rw is_so (alerted-Submitted cid s s' e h is_so (client.submit_price a s') refl)
    | inr is_not ↦ rw is_not (Submitted.with_cid (err e) s' h (λ f p. ground arith))
  ]

  -- Every submission with a CID ends in one of the four ways of `Submitted`: refused before the
  -- client is called, answered with the CID, or, where the client has no such call, answered or
  -- raised by the call without it, with an alert exactly if the circuit breaker tripped.
  pub submit_with_cid-Submitted :
      (cid : Str) (s : S) → Submitted cid s (submit_with_cid client message a cid s)
  unfolding submit_with_cid
  submit_with_cid-Submitted cid s = elim (validate_cid-cases cid) [
    | inl (is_empty, e) ↦
        rw (e, submit_with_cid) (Submitted.refused cid_empty (inl (is_empty, refl)))
    | inr (inl (long, e)) ↦
        rw (e, submit_with_cid) (Submitted.refused cid_too_long (inr (long, refl)))
    | inr (inr (some_cid, short, e)) ↦
        rw (e, submit_with_cid)
          (fall_back-Submitted cid s (client.submit_price_with_cid a cid s) refl)
  ]
