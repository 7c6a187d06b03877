-- ===== src/Demo/Server.antt =====
-- `_seed`, the routes of `Handler`, and the states that the server of tools/demo_server.py comes to.
-- `urlparse` and `parse_qs` come before a request of the model, and the HTML after its page.
use stellar_kraal_contract.Common.{ℕ, ◌≡◌, List, [], ◌∷◌, none, some, if◌then◌else◌}
use stellar_kraal_contract.Common.Dict.{Dict, lookup}
use stellar_kraal_contract.Common.Float.{Float}
use stellar_kraal_contract.Common.Int.{ℤ, pos}
use stellar_kraal_contract.Common.Json.{Fields, text, field, end}
use stellar_kraal_contract.Common.Result.{Result, ok, err, index_error, ◌>>=◌}
use stellar_kraal_contract.Common.Text.{Str, codes, str_eq}
use stellar_kraal_contract.Attestation.BigEndian.{Bytes}
use stellar_kraal_contract.Attestation.Signer.{SignedAttestation}
use stellar_kraal_contract.Provenance.Record.{ProvenanceRecord}
use stellar_kraal_contract.Provenance.Schema.{provenance_schema}
use stellar_kraal_contract.Bridge.Process.{process}
use stellar_kraal_contract.Bridge.Submit.{Alert}
use stellar_kraal_contract.Demo.Pages.{
  Page, submit_form, empty, schema, not_found, handle_home, handle_submissions,
}
use stellar_kraal_contract.Demo.Submit.{gee_result, log_processed, handle_submit_post}
use stellar_kraal_contract.Demo.Verify.{handle_verify}
use stellar_kraal_contract.Demo.World.{ServerWorld, Setup, demo_services, new_world}

-- A request: the path, and the query or the body.
pub data PageRequest : Type 0 where
  get_page : (path : Str) → (qs : Dict (List Str)) → PageRequest
  post_page : (path : Str) → (body : Bytes) → PageRequest

module _ {F T : Type 0} ⦃float : Float F⦄ (setup : Setup F T) where
  abbrev seed_logged : Result Str × ServerWorld F T → Result (Unit {0}) × ServerWorld F T
  seed_logged (ok tx, w) = (ok tt, w)
  seed_logged (err e, w) = (err e, w)

  abbrev pub seeded :
      Str
      → ℤ
      → Result (SignedAttestation × Str × ProvenanceRecord F) × ServerWorld F T × List Alert
      → Result (Unit {0}) × ServerWorld F T
  seeded feed_id ov (err e, w, alerts) = (err e, w)
  seeded feed_id ov (ok processed, w, alerts) =
      seed_logged (log_processed setup feed_id ov processed w)

  -- One round of `_seed`, in which nothing is caught.
  unfoldable pub seed_one :
      Str → ℤ → Fields F → ℤ → ServerWorld F T → Result (Unit {0}) × ServerWorld F T
  unfolding log_processed
  seed_one feed_id ov params ts w = seeded feed_id ov (
      process (demo_services setup) setup.seed
        (gee_result feed_id ov params ts (codes "users/stellarkraal/scripts/carbon_seq_v1")
          (codes "v1.2.3"))
        w)

  abbrev example_params : (aoi : Str) → Fields F
  example_params aoi = field (codes "aoi") (text aoi) (
      field (codes "startDate") (text (codes "2024-01-01"))
        (field (codes "endDate") (text (codes "2024-06-30")) end))

  abbrev pub second : Result (Unit {0}) × ServerWorld F T → Result (Unit {0}) × ServerWorld F T
  second (err e, w) = (err e, w)
  second (ok u, w) =
      seed_one (codes "carbon/kenya/2024") (pos 3221456789)
        (example_params (codes "POLYGON((36.8 -1.3,37.0 -1.1))")) (pos 1720051200) w

  -- `_seed`
  unfoldable pub seed_log : ServerWorld F T → Result (Unit {0}) × ServerWorld F T
  unfolding seed_one
  seed_log w = second (
      seed_one (codes "carbon/rwanda/2024") (pos 4815162342)
        (example_params (codes "POLYGON((30.1 -1.2,30.3 -1.0))")) (pos 1720051200) w)

  -- `qs.get("cid", [""])[0]`
  unfoldable pub first_value : Dict (List Str) → Result Str
  first_value qs = elim (lookup (codes "cid") qs) [ none ↦ ok [] | some cids ↦ first_of cids ]
    where
      first_of : List Str → Result Str
      first_of [] = err index_error
      first_of (cid ∷ cids) = ok cid

  abbrev with_status : ℕ → Result (Page F) → Result (ℕ × Page F)
  with_status status (ok page) = ok (status, page)
  with_status status (err e) = err e

  -- `do_GET`: the status and the page
  unfoldable pub do_get : Str → Dict (List Str) → ServerWorld F T → Result (ℕ × Page F)
  unfolding handle_home handle_submissions handle_verify first_value
  do_get path qs w =
      if str_eq path (codes "/")
      then ok (200, handle_home setup w)
      else if str_eq path (codes "/submit")
      then ok (200, submit_form empty)
      else if str_eq path (codes "/submissions")
      then with_status 200 (handle_submissions w)
      else if str_eq path (codes "/verify")
      then (do cid ← first_value qs; with_status 200 (handle_verify setup cid w))
      else if str_eq path (codes "/schema")
      then ok (200, schema provenance_schema)
      else ok (404, not_found)

  abbrev posted : Result (Page F) × ServerWorld F T → Result (ℕ × Page F) × ServerWorld F T
  posted (r, w) = (with_status 200 r, w)

  -- `do_POST`
  unfoldable pub do_post : Str → Bytes → ServerWorld F T → Result (ℕ × Page F) × ServerWorld F T
  unfolding handle_submit_post
  do_post path body w =
      if str_eq path (codes "/submit")
      then posted (handle_submit_post setup body w)
      else (ok (404, not_found), w)

  -- A request that raises gets no answer, and the server goes on.
  unfoldable pub answer_request :
      PageRequest → ServerWorld F T → Result (ℕ × Page F) × ServerWorld F T
  unfolding do_get do_post
  answer_request (get_page path qs) w = (do_get path qs w, w)
  answer_request (post_page path body) w = do_post path body w

  -- The states after `_seed` and some requests.
  pub data Reachable : ServerWorld F T → Type 0 where
    started :
        (time : T) → (seed_log (new_world time)).0 ≡ ok tt → Reachable (seed_log (new_world time)).1
    answered :
        {w : ServerWorld F T} → Reachable w → (r : PageRequest) → Reachable (answer_request r w).1
