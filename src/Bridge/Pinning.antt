-- ===== src/Bridge/Pinning.antt =====
-- What pinning keeps, and that a pinned CID may be submitted.
use stellar_kraal_contract.Common.{◌≡◌, ◌≢◌, sym, inl, inr, arith, length, Bool-cases, length-take}
use stellar_kraal_contract.Common.Dict.{lookup-insert}
use stellar_kraal_contract.Common.Result.{ok}
use stellar_kraal_contract.Common.Text.{Str, str_eq, str_eq_iff, str_eq_refl}
use stellar_kraal_contract.Attestation.BigEndian.{Bytes}
use stellar_kraal_contract.Attestation.Hex.{hex, length-hex}
use stellar_kraal_contract.Bridge.Ipfs.{Store, simulated_cid, pin, get}
use stellar_kraal_contract.Bridge.Submit.{validate_cid}

module _ (sha256 : Bytes → Bytes) where
  length-simulated_cid :
      (content : Bytes) → length (sha256 content) ≡ 32 → length (simulated_cid sha256 content) ≡ 46
  unfolding simulated_cid
  length-simulated_cid content h =
      omega (arith, h, length-take 39 (hex (sha256 content)), length-hex (sha256 content))

  -- What is pinned is found under its CID, every other CID keeps its content, and with a digest of
  -- 32 bytes the CID has 46 characters and is accepted for submission.
  pub get-pin :
      (content : Bytes) (store : Store)
      → length (sha256 content) ≡ 32
      → let pinned = pin sha256 content store in
        (get pinned.0 pinned.1 ≡ ok content)
        × ((cid : Str) → cid ≢ pinned.0 → get cid pinned.1 ≡ get cid store)
        × (length pinned.0 ≡ 46)
        × (validate_cid pinned.0 ≡ ok tt)
  unfolding pin get validate_cid
  get-pin content store h =
      let cid = simulated_cid sha256 content in
      let long = length-simulated_cid content h in
      (
        rw (lookup-insert cid cid content store, str_eq_refl cid, get),
        (λ k ne. elim (Bool-cases (str_eq cid k)) [
          | inl same ↦ absurd (ne (sym ((str_eq_iff cid k).0 same)))
          | inr other ↦ rw (lookup-insert cid k content store, other, get)
        ]),
        long,
        ground (arith, long),
      )
