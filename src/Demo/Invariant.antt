-- ===== src/Demo/Invariant.antt =====
-- Every request keeps what holds of the state of the server.
use stellar_kraal_contract.Common.{refl, inl, inr, ◌&&◌, List, [], arith, Bool-cases, Option-cases}
use stellar_kraal_contract.Common.Dict.{Dict}
use stellar_kraal_contract.Common.Float.{Float}
use stellar_kraal_contract.Common.Int.{ℤ, pos, leb_ℤ}
use stellar_kraal_contract.Common.Json.{Json, object, Fields}
use stellar_kraal_contract.Common.Result.{is_value_error, Result, result_cases, err, ok}
use stellar_kraal_contract.Common.Text.{Str, codes, str_eq}
use stellar_kraal_contract.Common.Utf8.{decode_utf8}
use stellar_kraal_contract.Common.Words.{strip, split_on, parse_int}
use stellar_kraal_contract.Attestation.BigEndian.{Bytes}
use stellar_kraal_contract.Attestation.Signer.{SignedAttestation}
use stellar_kraal_contract.Provenance.Record.{ProvenanceRecord}
use stellar_kraal_contract.Bridge.Submit.{Alert}
use stellar_kraal_contract.Demo.Effect.{Effect}
use stellar_kraal_contract.Demo.FormText.{fields_of-IsText, feed_id-IsText}
use stellar_kraal_contract.Demo.Honest.{IsHonest, IsText}
use stellar_kraal_contract.Demo.Kept.{new_world-IsKept, IsKept, timed-IsKept, logged-IsKept}
use stellar_kraal_contract.Demo.Processed.{process-Effect}
use stellar_kraal_contract.Demo.Server.{
  seeded, second, Reachable, seed_log, seed_one, PageRequest, answer_request, do_post,
}
use stellar_kraal_contract.Demo.Submit.{
  or_zero, answer_processed, submit_result, submit_params, submission_time, submit_fields,
  handle_submit_post, fields_of, field_or, gee_result,
}
use stellar_kraal_contract.Demo.World.{Setup, ServerWorld, new_world}

module _ {F T : Type 0} ⦃float : Float F⦄ (setup : Setup F T) (honest : IsHonest setup) where
  answered-IsKept :
      (feed : Str) (value : ℤ) {w : ServerWorld F T}
      {o : Result (SignedAttestation × Str × ProvenanceRecord F) × ServerWorld F T × List Alert}
      → IsKept setup 0 w
      → Effect setup w o
      → IsKept setup 0 (answer_processed setup feed value o).1
  unfolding answer_processed
  answered-IsKept feed value {w} k (Effect.nothing e time) = timed-IsKept setup w time k
  answered-IsKept feed value {w} k (Effect.done a p content time iso genuine is_cid read) =
      let (logs, kept) =
        logged-IsKept setup feed value k a p content time iso genuine is_cid read in
      rw (logs, answer_processed) kept

  submit_result-IsKept :
      (feed : Str) (value : ℤ) (params : Json F) (ts : ℤ) (asset_path version_tag : Str)
      (w : ServerWorld F T)
      → IsText feed
      → IsKept setup 0 w
      → IsKept setup 0 (submit_result setup feed value params ts asset_path version_tag w).1
  unfolding submit_result answer_processed
  submit_result-IsKept feed value (object params) ts asset_path version_tag w text_feed k =
      answered-IsKept feed value k (
        process-Effect setup honest (gee_result feed value params ts asset_path version_tag) feed
          refl text_feed w)
  submit_result-IsKept feed value other ts asset_path version_tag w text_feed k = k

  submit_params-IsKept :
      (fields : Dict Str) (feed : Str) (value ts : ℤ) (w : ServerWorld F T)
      → IsText feed
      → IsKept setup 0 w
      → IsKept setup 0 (submit_params setup fields feed value ts w).1
  unfolding submit_params
  submit_params-IsKept fields feed value ts w text_feed k =
      elim (result_cases
        (setup.json_loads (strip (field_or (codes "input_params") (codes "{}") fields)))) [
          | inl (e, h) ↦
              rw (h, submit_params)
                (elim (Bool-cases (is_value_error e)) [
                  | inl caught ↦ rw caught k
                  | inr other ↦ rw other k
                ])
          | inr (v, h) ↦
              rw (h, submit_params) (submit_result-IsKept feed value v ts _ _ w text_feed k)
        ]

  submission_time-IsKept :
      (ts : ℤ) (w : ServerWorld F T)
      → IsKept setup 0 w
      → IsKept setup 0 (submission_time setup ts w).1
  unfolding submission_time
  submission_time-IsKept ts w k = elim (Bool-cases (leb_ℤ ts (pos 0) && leb_ℤ (pos 0) ts)) [
    | inl zero_time ↦ rw zero_time (timed-IsKept setup w (setup.read_clock w.time).1 k)
    | inr other ↦ rw other k
  ]

  submit_fields-IsKept :
      (fields : Dict Str) (w : ServerWorld F T)
      → IsText (strip (field_or (codes "feed_id") [] fields))
      → IsKept setup 0 w
      → IsKept setup 0 (submit_fields setup fields w).1
  unfolding submit_fields
  submit_fields-IsKept fields w text_feed k =
      elim (Option-cases
        (parse_int setup.digit (field_or (codes "output_value") (codes "0") fields))) [
          | inl h ↦ rw (h, submit_fields) k
          | inr (value, h) ↦
              elim (Option-cases (
                parse_int setup.digit
                  (or_zero (field_or (codes "timestamp_utc") (codes "0") fields)))) [
                    | inl h' ↦ rw (h, h', submit_fields) k
                    | inr (ts, h') ↦
                        rw (h, h', submit_fields)
                          (submit_params-IsKept fields _ value (submission_time setup ts w).0
                            (submission_time setup ts w).1 text_feed
                            (submission_time-IsKept ts w k))
                  ]
        ]

  handle_submit_post-IsKept :
      (body : Bytes) (w : ServerWorld F T)
      → IsKept setup 0 w
      → IsKept setup 0 (handle_submit_post setup body w).1
  unfolding handle_submit_post
  handle_submit_post-IsKept body w k = elim (result_cases (decode_utf8 body)) [
    | inl (e, h) ↦ rw (h, handle_submit_post) k
    | inr (raw, h) ↦
        let fields = fields_of setup.unquote_plus (split_on 38 raw) [] in
        rw (h, handle_submit_post)
          (submit_fields-IsKept fields w
            (feed_id-IsText fields
              (fields_of-IsText setup.unquote_plus honest.unquoted (split_on 38 raw) [] tt))
            k)
  ]

  answer_request-IsKept :
      (r : PageRequest) (w : ServerWorld F T)
      → IsKept setup 0 w
      → IsKept setup 0 (answer_request setup r w).1
  unfolding answer_request do_post
  answer_request-IsKept (PageRequest.get_page path qs) w k = k
  answer_request-IsKept (PageRequest.post_page path body) w k =
      elim (Bool-cases (str_eq path (codes "/submit"))) [
        | inl e ↦ rw e (handle_submit_post-IsKept body w k)
        | inr e ↦ rw e k
      ]

  seeded-IsKept :
      (feed : Str) (value : ℤ) (params : Fields F) (ts : ℤ) (w : ServerWorld F T)
      → IsText feed
      → IsKept setup 0 w
      → IsKept setup 0 (seed_one setup feed value params ts w).1
  unfolding seed_one
  seeded-IsKept feed value params ts w text_feed k = of_effect (
      process-Effect setup honest
        (gee_result feed value params ts (codes "users/stellarkraal/scripts/carbon_seq_v1")
          (codes "v1.2.3"))
        feed refl text_feed w)
    where
      of_effect :
          {o : Result (SignedAttestation × Str × ProvenanceRecord F) × ServerWorld F T × List Alert}
          → Effect setup w o
          → IsKept setup 0 (seeded setup feed value o).1
      of_effect (Effect.nothing e time) = timed-IsKept setup w time k
      of_effect (Effect.done a p content time iso genuine is_cid read) =
          let (logs, kept) =
            logged-IsKept setup feed value k a p content time iso genuine is_cid read in
          rw logs kept

  seed_log-IsKept : (time : T) → IsKept setup 0 (seed_log setup (new_world time)).1
  unfolding seed_log
  seed_log-IsKept time = second-IsKept _ (
      seeded-IsKept (codes "carbon/rwanda/2024") _ _ _ (new_world time) (omega arith)
        (new_world-IsKept setup time))
    where
      second-IsKept :
          (o : Result (Unit {0}) × ServerWorld F T)
          → IsKept setup 0 o.1
          → IsKept setup 0 (second setup o).1
      second-IsKept (err e, w) k = k
      second-IsKept (ok u, w) k = seeded-IsKept (codes "carbon/kenya/2024") _ _ _ w (omega arith) k

  -- In every state that the server comes to after it is started, whatever the requests: every
  -- content of the store is the canonical JSON of a record which the verification tool accepts with
  -- exit code 0, and stands under its CID; the CIDs of the log and of the entries on the chain are
  -- in the store; and the transactions of the log are numbered from 1 to the counter. This is for a
  -- key of 32 bytes whose signatures are accepted, digests of 32 bytes, and form values that decode
  -- to texts.
  pub Reachable-IsKept : (w : ServerWorld F T) → Reachable setup w → IsKept setup 0 w
  Reachable-IsKept w (Reachable.started time ready) = seed_log-IsKept time
  Reachable-IsKept w (Reachable.answered {w = before} reached r) =
      answer_request-IsKept r before (Reachable-IsKept before reached)
