-- ===== src/Demo/Submit.antt =====
-- `handle_submit_post` of tools/demo_server.py.
use stellar_kraal_contract.Common.{
  ◌&&◌, List, [], ◌∷◌, ◌++◌, Option, none, some, ◌==◌, if◌then◌else◌,
}
use stellar_kraal_contract.Common.Dict.{Dict, insert, lookup}
use stellar_kraal_contract.Common.Float.{Float}
use stellar_kraal_contract.Common.Int.{ℤ, pos, leb_ℤ, in_i64}
use stellar_kraal_contract.Common.Json.{Json, object, at, subscript, len}
use stellar_kraal_contract.Common.Result.{
  is_value_error, Result, ok, err, Error, value_error, struct_error, params_hash_length,
  output_value_range, timestamp_range, require, ◌>>=◌, ◌>>◌,
}
use stellar_kraal_contract.Common.Text.{Str, codes}
use stellar_kraal_contract.Common.Utf8.{decode_utf8, encode_utf8}
use stellar_kraal_contract.Common.Words.{strip, split_on, cut_at, parse_int}
use stellar_kraal_contract.Attestation.BigEndian.{Bytes}
use stellar_kraal_contract.Attestation.Payload.{FeedId, pad_feed}
use stellar_kraal_contract.Attestation.Signer.{SignedAttestation}
use stellar_kraal_contract.Provenance.Record.{ProvenanceRecord, to_dict}
use stellar_kraal_contract.Bridge.Commit.{GeeResult}
use stellar_kraal_contract.Bridge.Process.{process}
use stellar_kraal_contract.Bridge.Submit.{Alert}
use stellar_kraal_contract.Demo.Pages.{
  Page, submit_form, failed, submitted, invalid_json, not_an_integer,
}
use stellar_kraal_contract.Demo.World.{ServerWorld, Setup, demo_services}

abbrev line : Str → Str
line s = s ++ (10 ∷ [])

-- `GEE_SCRIPT`
abbrev pub gee_script_text : Str
gee_script_text =
    line (codes "// GEE carbon sequestration estimator v1.2.3")
    ++ (line (codes "// Pinned: users/stellarkraal/scripts/carbon_seq_v1 @ v1.2.3")
        ++ (line (codes "var dataset = ee.ImageCollection('MODIS/061/MOD13A3')")
            ++ (line (codes "  .filterDate(params.startDate, params.endDate)")
                ++ (line (codes "  .filterBounds(params.aoi);")
                    ++ (line (codes "var ndvi = dataset.mean().select('NDVI');")
                        ++ (line (codes "return ndvi.reduceRegion({")
                            ++ (line (codes "  reducer: ee.Reducer.mean(),")
                                ++ (line (codes "  geometry: params.aoi,")
                                    ++ line (codes "}).get('NDVI');")))))))))

-- The pairs of a form: a part without `=` is left out, and the last value of a key stays.
unfoldable pub fields_of : (unquote_plus : Str → Str) → List Str → Dict Str → Dict Str
fields_of unquote_plus [] fields = fields
fields_of unquote_plus (part ∷ parts) fields = elim (cut_at 61 part) [
  | none ↦ fields_of unquote_plus parts fields
  | some (k, v) ↦ fields_of unquote_plus parts (insert (unquote_plus k) (unquote_plus v) fields)
]

-- `fields.get(k, default)`
unfoldable pub field_or : Str → Str → Dict Str → Str
field_or k default fields = elim (lookup k fields) [ none ↦ default | some v ↦ v ]

-- `s or "0"`
abbrev pub or_zero : Str → Str
or_zero [] = codes "0"
or_zero (c ∷ s) = c ∷ s

abbrev pub gee_result :
    {P : Type 0} → (feed_id : Str) → ℤ → P → ℤ → (asset_path version_tag : Str) → GeeResult P
gee_result feed_id output_value input_params timestamp_utc asset_path version_tag = record {
  script_source = gee_script_text;
  input_params = input_params;
  output_value = output_value;
  feed_id = FeedId.as_text feed_id;
  timestamp_utc = timestamp_utc;
  script_asset_path = asset_path;
  script_version_tag = version_tag;
}

module _ {F T : Type 0} ⦃float : Float F⦄ (setup : Setup F T) where
  -- `ts` of the form: zero stands for the clock.
  unfoldable pub submission_time : ℤ → ServerWorld F T → ℤ × ServerWorld F T
  submission_time ts w =
      if leb_ℤ ts (pos 0) && leb_ℤ (pos 0) ts then (demo_services setup).clock w else (ts, w)

  -- `submitted_at_iso` of the dict of a record
  unfoldable pub submitted_at : ProvenanceRecord F → Result (Json F)
  submitted_at prov = do
    d ← to_dict setup.crypto setup.utc_iso prov
    sub ← at (codes "submission") d
    subscript (codes "submitted_at_iso") sub

  -- `LOG.append`
  unfoldable pub append_log :
      Str → ℤ → (tx_ref : Str) → ProvenanceRecord F → Json F → ServerWorld F T → ServerWorld F T
  append_log feed_id output_value tx_ref prov iso w = record w {
    log =
        w.log
        ++ (record {
          feed_id = feed_id;
          output_value = output_value;
          ipfs_cid = prov.ipfs_cid;
          tx_ref = tx_ref;
          submitted_at_iso = iso;
        }
            ∷ []);
  }

  -- What follows `BRIDGE.process`, where it returned.
  unfoldable pub log_processed :
      Str
      → ℤ
      → SignedAttestation × Str × ProvenanceRecord F
      → ServerWorld F T
      → Result Str × ServerWorld F T
  unfolding submitted_at append_log
  log_processed feed_id output_value (a, tx_ref, prov) w = elim (submitted_at prov) [
    | err e ↦ (err e, w)
    | ok iso ↦ (ok tx_ref, append_log feed_id output_value tx_ref prov iso w)
  ]

  abbrev cid_text : Option Str → Str
  cid_text none = codes "None"
  cid_text (some cid) = cid

  abbrev submitted_page :
      Option Str → Result Str × ServerWorld F T → Result (Page F) × ServerWorld F T
  submitted_page cid (ok tx, w) = (ok (submit_form (submitted tx (cid_text cid))), w)
  submitted_page cid (err e, w) = (err e, w)

  -- The page for the outcome of `BRIDGE.process`: what it raises is shown.
  unfoldable pub answer_processed :
      Str
      → ℤ
      → Result (SignedAttestation × Str × ProvenanceRecord F) × ServerWorld F T × List Alert
      → Result (Page F) × ServerWorld F T
  unfolding log_processed
  answer_processed feed_id output_value (err e, w, alerts) = (ok (submit_form (failed e)), w)
  answer_processed feed_id output_value (ok (a, tx_ref, prov), w, alerts) =
      submitted_page prov.ipfs_cid (log_processed feed_id output_value (a, tx_ref, prov) w)

  -- `attest` takes what is no dict for the hash of the parameters: it is refused by its length, or
  -- cannot be packed.
  unfoldable pub no_dict_error : GeeResult (Json F) → Error
  no_dict_error r = raised_by (do
    source ← encode_utf8 r.script_source
    feed ← pad_feed r.feed_id
    n ← len r.input_params
    require (n == 32) params_hash_length
    require (in_i64 r.output_value) output_value_range
    require (in_i64 r.timestamp_utc) timestamp_range
    ok struct_error)
    where
      raised_by : Result Error → Error
      raised_by (ok e) = e
      raised_by (err e) = e

  -- `GEEResult` and `BRIDGE.process`, for parameters of every type.
  unfoldable pub submit_result :
      Str
      → ℤ
      → Json F
      → ℤ
      → (asset_path version_tag : Str) → ServerWorld F T
      → Result (Page F) × ServerWorld F T
  unfolding answer_processed no_dict_error
  submit_result feed_id output_value (object params) ts asset_path version_tag w =
      answer_processed feed_id output_value (
        process (demo_services setup) setup.seed
          (gee_result feed_id output_value params ts asset_path version_tag) w)
  submit_result feed_id output_value other ts asset_path version_tag w =
      answer_processed feed_id output_value (
        err (no_dict_error (gee_result feed_id output_value other ts asset_path version_tag)),
        w,
        [],
      )

  -- The form behind the two numbers.
  unfoldable pub submit_params :
      Dict Str → Str → ℤ → ℤ → ServerWorld F T → Result (Page F) × ServerWorld F T
  unfolding is_value_error submit_result field_or strip
  submit_params fields feed_id output_value ts w =
      let asset_path =
        strip (field_or (codes "asset_path") (codes "users/oracle/scripts/carbon_seq") fields) in
      let version_tag = strip (field_or (codes "version_tag") (codes "untagged") fields) in
      elim (setup.json_loads (strip (field_or (codes "input_params") (codes "{}") fields))) [
        | err e ↦ if is_value_error e then (ok (submit_form invalid_json), w) else (err e, w)
        | ok input_params ↦
            submit_result feed_id output_value input_params ts asset_path version_tag w
      ]

  unfoldable pub submit_fields : Dict Str → ServerWorld F T → Result (Page F) × ServerWorld F T
  unfolding submit_params submission_time field_or strip parse_int
  submit_fields fields w =
      let feed_id = strip (field_or (codes "feed_id") [] fields) in
      elim (parse_int setup.digit (field_or (codes "output_value") (codes "0") fields)) [
        | none ↦ (ok (submit_form not_an_integer), w)
        | some output_value ↦
            elim (parse_int setup.digit
              (or_zero (field_or (codes "timestamp_utc") (codes "0") fields))) [
                | none ↦ (err value_error, w)
                | some ts ↦
                    let (time, w') = submission_time ts w in
                    submit_params fields feed_id output_value time w'
              ]
      ]

  -- `handle_submit_post`
  unfoldable pub handle_submit_post : Bytes → ServerWorld F T → Result (Page F) × ServerWorld F T
  unfolding submit_fields fields_of split_on
  handle_submit_post body w = elim (decode_utf8 body) [
    | err e ↦ (err e, w)
    | ok raw ↦ submit_fields (fields_of setup.unquote_plus (split_on 38 raw) []) w
  ]
