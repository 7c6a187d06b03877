-- ===== src/Demo/Kept.antt =====
-- What holds of the state of the server, and that the effects of `BRIDGE.process` keep it.
use stellar_kraal_contract.Common.{
  ℕ, suc, ◌+◌, ◌≡◌, refl, ap, sym, ◌∙◌, inl, inr, List, [], ◌∷◌, ◌++◌, some, arith, length,
  Bool-cases, All, All-append, length-append,
}
use stellar_kraal_contract.Common.Dict.{insert, lookup, lookup-insert, lookup-insert_self}
use stellar_kraal_contract.Common.Float.{Float}
use stellar_kraal_contract.Common.Int.{ℤ}
use stellar_kraal_contract.Common.Json.{Json}
use stellar_kraal_contract.Common.Result.{ok}
use stellar_kraal_contract.Common.Text.{str_eq→eq, Str, str_eq}
use stellar_kraal_contract.Attestation.BigEndian.{Bytes}
use stellar_kraal_contract.Attestation.Hex.{hex}
use stellar_kraal_contract.Attestation.Signer.{SignedAttestation}
use stellar_kraal_contract.Provenance.Record.{ProvenanceRecord}
use stellar_kraal_contract.Bridge.Ipfs.{simulated_cid, Store}
use stellar_kraal_contract.Demo.Effect.{IsGenuine, submitted_world}
use stellar_kraal_contract.Demo.Submit.{append_log, log_processed, submitted_at}
use stellar_kraal_contract.Demo.World.{
  Setup, ServerWorld, LogEntry, OnchainEntry, tx_ref_of, new_world, onchain_entry,
}

abbrev pub IsStored : Store → Str → Type 0
IsStored store cid = (content : Bytes) × (lookup cid store ≡ some content)

IsStored-insert :
    (store : Store) (k cid : Str) (content : Bytes)
    → IsStored store cid
    → IsStored (insert k content store) cid
IsStored-insert store k cid content (c, found) = elim (Bool-cases (str_eq k cid)) [
  | inl same ↦ (content, rw (lookup-insert k cid content store, same) refl)
  | inr other ↦ (c, rw (lookup-insert k cid content store, other) found)
]

module _ {F : Type 0} where
  abbrev pub IsLogged : Store → LogEntry F → Type 0
  IsLogged store entry = (cid : Str) × (entry.ipfs_cid ≡ some cid) × IsStored store cid

  -- The transactions are numbered from `n` on.
  abbrev pub IsNumbered : ℕ → List (LogEntry F) → Type 0
  IsNumbered n [] = Unit
  IsNumbered n (entry ∷ entries) = (entry.tx_ref ≡ tx_ref_of n) × IsNumbered (suc n) entries

  IsNumbered-append :
      (n : ℕ) (entries : List (LogEntry F)) (entry : LogEntry F)
      → IsNumbered n entries
      → entry.tx_ref ≡ tx_ref_of (length entries + n)
      → IsNumbered n (entries ++ (entry ∷ []))
  IsNumbered-append n [] entry h e =
      let same : 0 + n ≡ n = omega arith in (e ∙ ap tx_ref_of same, tt)
  IsNumbered-append n (x ∷ xs) entry h e =
      let same : suc (length xs) + n ≡ length xs + suc n = omega arith in
      (h.0, IsNumbered-append (suc n) xs entry h.1 (e ∙ ap tx_ref_of same))

  IsLogged-insert :
      (store : Store) (k : Str) (content : Bytes) (entries : List (LogEntry F))
      → All (IsLogged store) entries
      → All (IsLogged (insert k content store)) entries
  IsLogged-insert store k content [] h = tt
  IsLogged-insert store k content (e ∷ es) ((cid, is_cid, stored), h) = (
    (cid, is_cid, IsStored-insert store k cid content stored),
    IsLogged-insert store k content es h,
  )

module _ {F T : Type 0} ⦃float : Float F⦄ (setup : Setup F T) where
  -- Every content of the store is genuine and stands under its CID; the CIDs of the log and of the
  -- entries on the chain are in the store; the transactions of the log are numbered, and `pending` ones are not yet logged.
  pub record IsKept (pending : ℕ) (w : ServerWorld F T) : Type 0 where
    pub contents :
        (cid : Str) (content : Bytes)
        → lookup cid w.store ≡ some content
        → IsGenuine setup content × (simulated_cid setup.crypto.sha256 content ≡ cid)
    pub logged : All (IsLogged w.store) w.log
    pub onchain :
        (feed : Str) (entry : OnchainEntry)
        → lookup feed w.onchain ≡ some entry
        → IsStored w.store entry.ipfs_cid
    pub numbered : IsNumbered 1 w.log
    pub counted : length w.log + pending ≡ w.tx_counter

  pub new_world-IsKept : (time : T) → IsKept 0 (new_world time)
  new_world-IsKept time = record {
    contents = λ cid content found. absurd (cc found);
    logged = tt;
    onchain = λ feed entry found. absurd (cc found);
    numbered = tt;
    counted = refl;
  }

  -- The time does not matter.
  pub timed-IsKept :
      (w : ServerWorld F T) (time : T) → IsKept 0 w → IsKept 0 (record w { time = time })
  timed-IsKept w time k = record {
    contents = k.contents;
    logged = k.logged;
    onchain = k.onchain;
    numbered = k.numbered;
    counted = k.counted;
  }

  pub submitted-IsKept :
      (w : ServerWorld F T) (a : SignedAttestation) (content : Bytes) (time : T)
      → IsGenuine setup content
      → IsKept 0 w
      → IsKept 1
          (submitted_world setup a (simulated_cid setup.crypto.sha256 content) content time w)
  submitted-IsKept w a content time genuine k =
      let cid = simulated_cid setup.crypto.sha256 content in
      record {
        contents = λ j found_content found. elim (Bool-cases (str_eq cid j)) [
          | inl same ↦
              let is_content : content ≡ found_content =
                cc (rw (lookup-insert cid j content w.store, same) at found) in
              rw (← is_content) (genuine, str_eq→eq cid j same)
          | inr other ↦
              k.contents j found_content (rw (lookup-insert cid j content w.store, other) at found)
        ];
        logged = IsLogged-insert w.store cid content w.log k.logged;
        onchain = λ feed found_entry found.
            let fid = hex a.payload.feed_id in
            let entry = onchain_entry a cid (tx_ref_of (w.tx_counter + 1)) in
            elim (Bool-cases (str_eq fid feed)) [
              | inl same ↦
                  let is_entry : entry ≡ found_entry =
                    cc (rw (lookup-insert fid feed entry w.onchain, same) at found) in
                  rw (← is_entry) (content, lookup-insert_self cid content w.store)
              | inr other ↦ IsStored-insert w.store cid found_entry.ipfs_cid content (
                  k.onchain feed found_entry
                    (rw (lookup-insert fid feed entry w.onchain, other) at found))
            ];
        numbered = k.numbered;
        counted = omega (arith, k.counted);
      }

  pub append_log-IsKept :
      (w : ServerWorld F T) (feed : Str) (value : ℤ) (p : ProvenanceRecord F) (iso : Json F)
      (cid : Str)
      → p.ipfs_cid ≡ some cid
      → IsStored w.store cid
      → IsKept 1 w
      → IsKept 0 (append_log setup feed value (tx_ref_of w.tx_counter) p iso w)
  unfolding append_log
  append_log-IsKept w feed value p iso cid is_cid stored k = record {
    contents = k.contents;
    logged = All-append _ w.log _ k.logged ((cid, is_cid, stored), tt);
    onchain = k.onchain;
    numbered = IsNumbered-append 1 w.log _ k.numbered (ap tx_ref_of (sym k.counted));
    counted = omega (arith, k.counted, length-append w.log _);
  }

  module _ (feed : Str) (value : ℤ) {w : ServerWorld F T} (k : IsKept 0 w) where
    pub logged-IsKept :
        (a : SignedAttestation) (p : ProvenanceRecord F) (content : Bytes) (time : T) (iso : Json F)
        → IsGenuine setup content
        → p.ipfs_cid ≡ some (simulated_cid setup.crypto.sha256 content)
        → submitted_at setup p ≡ ok iso
        → let cid = simulated_cid setup.crypto.sha256 content in
          let tx = tx_ref_of (w.tx_counter + 1) in
          let before = submitted_world setup a cid content time w in
          (log_processed setup feed value (a, tx, p) before
            ≡ (ok tx, append_log setup feed value tx p iso before))
          × IsKept 0 (append_log setup feed value tx p iso before)
    unfolding log_processed
    logged-IsKept a p content time iso genuine is_cid read =
        let cid = simulated_cid setup.crypto.sha256 content in
        let before = submitted_world setup a cid content time w in
        (
          rw (read, log_processed) refl,
          append_log-IsKept before feed value p iso cid is_cid
              (content, lookup-insert_self cid content w.store)
              (submitted-IsKept w a content time genuine k),
        )
