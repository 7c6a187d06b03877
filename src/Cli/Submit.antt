-- ===== src/Cli/Submit.antt =====
-- `cmd_submit`. What is printed is left out. The entries of the results file have fields of the
-- documented types; `int` of a float, the files and the PEM keys are parameters.
use stellar_kraal_contract.Common.{
  ℕ, suc, Bool, true, false, List, [], ◌∷◌, ◌++◌, Option, none, some, if◌then◌else◌,
}
use stellar_kraal_contract.Common.Decimal.{decimal}
use stellar_kraal_contract.Common.Dict.{Dict, insert, keys}
use stellar_kraal_contract.Common.Float.{Float}
use stellar_kraal_contract.Common.Int.{ℤ, pos}
use stellar_kraal_contract.Common.Json.{Json, Fields, int, bool, real, text, end}
use stellar_kraal_contract.Common.Result.{
  is_value_error, Result, ok, err, value_error, type_error, key_error,
}
use stellar_kraal_contract.Common.Text.{Str, codes}
use stellar_kraal_contract.Common.Words.{parse_int}
use stellar_kraal_contract.Aggregation.Config.{
  OutlierRejectionMethod, AggregationConfig, check_config,
}
use stellar_kraal_contract.Attestation.BigEndian.{Bytes}
use stellar_kraal_contract.Attestation.Payload.{FeedId}
use stellar_kraal_contract.Provenance.Record.{truthy}
use stellar_kraal_contract.Bridge.Aggregated.{aggregate_and_submit, Answer}
use stellar_kraal_contract.Bridge.Commit.{GeeResult}
use stellar_kraal_contract.Bridge.Ipfs.{IpfsClient}
use stellar_kraal_contract.Bridge.Process.{Services}
use stellar_kraal_contract.Bridge.Submit.{Alert}
use stellar_kraal_contract.Cli.ReplayDlq.{dry_run_client}

-- `int(v)`
module _ {F : Type 0} (digit : ℕ → Option ℕ) (int_of_float : F → Result ℤ) where
  abbrev parsed : Option ℤ → Result ℤ
  parsed none = err value_error
  parsed (some n) = ok n

  unfoldable pub int_of : Json F → Result ℤ
  int_of (int n) = ok n
  int_of (bool true) = ok (pos 1)
  int_of (bool false) = ok (pos 0)
  int_of (real x) = int_of_float x
  int_of (text s) = parsed (parse_int digit s)
  int_of other = err type_error

-- An entry of the results file, with none for a key that is missing.
pub record ResultEntry (F : Type 0) : Type 0 where
  pub source_id : Option Str
  pub script_source : Option Str
  pub input_params : Option (Fields F)
  pub output_value : Option (Json F)
  pub feed_id : Option Str
  pub timestamp_utc : Option ℤ

-- The results file: a dict by source, a list, or another value.
pub data ResultsFile (F : Type 0) : Type 0 where
  by_source : Dict (ResultEntry F) → ResultsFile F
  in_order : List (ResultEntry F) → ResultsFile F
  neither : ResultsFile F

pub data IpfsMode : Type 0 where
  simulated_mode local_mode : IpfsMode

pub record SubmitArgs (F : Type 0) : Type 0 where
  pub feed_id : Str
  pub results_file : Str
  pub dry_run : Bool
  pub key_file : Option Str
  pub outlier_method : OutlierRejectionMethod
  pub iqr_multiplier : F
  pub ipfs_mode : IpfsMode

-- A path that does not exist is none. `from_pem` and `generate` make the seed of a signer.
pub record SubmitInputs (F S : Type 0) : Type 0 where
  pub services : Services F S
  pub ipfs_of : IpfsMode → IpfsClient S
  pub read_results : Str → S → Option (Result (ResultsFile F))
  pub from_pem : Str → S → Option (Result Bytes)
  pub generate : S → Bytes × S
  pub to_int : Json F → Result ℤ

abbrev pub default : {A : Type 0} → A → Option A → A
default x none = x
default x (some y) = y

module _ {F S : Type 0} (inputs : SubmitInputs F S) (args : SubmitArgs F) where
  abbrev created : ResultEntry F → ℤ → ℤ → GeeResult (Fields F)
  created entry value time = record {
    script_source = default (codes "// dry-run") entry.script_source;
    input_params = default end entry.input_params;
    output_value = value;
    feed_id = FeedId.as_text (default args.feed_id entry.feed_id);
    timestamp_utc = time;
    script_asset_path = codes "users/oracle/scripts/carbon_sequestration";
    script_version_tag = codes "untagged";
  }

  -- `int(entry["output_value"])`
  unfoldable entry_value : ResultEntry F → Result ℤ
  entry_value entry = elim entry.output_value [ none ↦ err key_error | some v ↦ inputs.to_int v ]

  -- `timestamp_utc`, or that of the clock
  unfoldable entry_time : ResultEntry F → S → ℤ × S
  entry_time entry s = elim entry.timestamp_utc [ none ↦ inputs.services.clock s | some t ↦ (t, s) ]

  -- The `GEEResult` of an entry.
  unfoldable pub read_entry : ResultEntry F → S → Result (GeeResult (Fields F)) × S
  unfolding entry_value entry_time
  read_entry entry s = elim (entry_value entry) [
    | err e ↦ (err e, s)
    | ok value ↦ let (time, s') = entry_time entry s in (ok (created entry value time), s')
  ]

  abbrev pub Collected : Type 0
  Collected = Result (Dict (GeeResult (Fields F))) × S

  abbrev put :
      Str
      → Dict (GeeResult (Fields F))
      → (Dict (GeeResult (Fields F)) → S → Collected)
      → Result (GeeResult (Fields F)) × S
      → Collected
  put key done rest (err e, s) = (err e, s)
  put key done rest (ok r, s) = rest (insert key r done) s

  -- The two loops; `done` is `gee_results` so far.
  unfoldable pub read_by_source : Dict (ResultEntry F) → Dict (GeeResult (Fields F)) → S → Collected
  unfolding read_entry
  read_by_source [] done s = (ok done, s)
  read_by_source ((key, entry) ∷ rest) done s =
      put key done (read_by_source rest) (read_entry entry s)

  unfoldable pub read_in_order :
      (idx : ℕ) → List (ResultEntry F) → Dict (GeeResult (Fields F)) → S → Collected
  unfolding read_entry decimal
  read_in_order idx [] done s = (ok done, s)
  read_in_order idx (entry ∷ rest) done s =
      put (default (codes "source_" ++ decimal idx) entry.source_id) done
        (read_in_order (suc idx) rest) (read_entry entry s)

  -- What the file holds: an exit code, or the results.
  unfoldable pub collect : ResultsFile F → S → Option Collected
  unfolding read_by_source read_in_order
  collect (by_source entries) s = some (read_by_source entries [] s)
  collect (in_order entries) s = some (read_in_order 0 entries [] s)
  collect neither s = none

  -- The seed of the signer, with none for a key file that does not exist.
  unfoldable pub signer_seed : S → Option (Result Bytes × S)
  signer_seed s = elim (truthy args.key_file) [
    | none ↦ let (seed, s') = inputs.generate s in some (ok seed, s')
    | some path ↦ elim (inputs.from_pem path s) [ none ↦ none | some key ↦ some (key, s) ]
  ]

  -- `{s: 1.0 for s in source_ids}`, where the ids are the keys of a dict
  abbrev pub equal_weights : ⦃float : Float F⦄ → List Str → Dict F
  equal_weights [] = []
  equal_weights ⦃float⦄ (s ∷ ss) = (s, float.of_ℤ (pos 1)) ∷ equal_weights ss

  -- `AggregationConfig(…)`, before its checks: the defaults are 2.24 and 1.
  abbrev pub submit_config : ⦃float : Float F⦄ → List Str → AggregationConfig F
  submit_config ⦃float⦄ source_ids = record {
    sources = source_ids;
    weights = equal_weights source_ids;
    outlier_method = args.outlier_method;
    iqr_multiplier = args.iqr_multiplier;
    mad_multiplier = float.int_div (pos 224) (pos 100);
    min_sources_after_rejection = pos 1;
  }

  -- The bridge of the command.
  abbrev pub submit_services : Services F S
  submit_services = record inputs.services {
    client = dry_run_client;
    ipfs = inputs.ipfs_of args.ipfs_mode;
  }

module _ {F S : Type 0} ⦃float : Float F⦄ (inputs : SubmitInputs F S) (args : SubmitArgs F) where
  abbrev Exit : Type 0
  Exit = Result ℕ × S × List Alert

  -- `except Exception`
  abbrev pub exit_code : Answer (submit_services inputs args) → Exit
  exit_code (ok answer, s, alerts) = (ok 0, s, alerts)
  exit_code (err e, s, alerts) = (ok 1, s, alerts)

  -- The pipeline with a configuration that is accepted.
  unfoldable pub run_pipeline : Bytes → Dict (GeeResult (Fields F)) → S → Exit
  unfolding aggregate_and_submit
  run_pipeline seed rs s = elim (check_config (submit_config inputs args (keys rs))) [
    | err e ↦ (err e, s, [])
    | ok config ↦
        exit_code (aggregate_and_submit (submit_services inputs args) (some config) seed rs s)
  ]

  -- What follows the signer: only a dry run is implemented.
  unfoldable pub with_signer : Dict (GeeResult (Fields F)) → S → Option (Result Bytes × S) → Exit
  unfolding run_pipeline
  with_signer rs s none = (ok 1, s, [])
  with_signer rs s (some (err e, s')) = (err e, s', [])
  with_signer rs s (some (ok seed, s')) =
      if args.dry_run then run_pipeline seed rs s' else (ok 1, s', [])

  unfoldable pub with_results : S → Option (Collected inputs args) → Exit
  unfolding with_signer signer_seed
  with_results s none = (ok 1, s, [])
  with_results s (some (err e, s')) = (err e, s', [])
  with_results s (some (ok [], s')) = (ok 1, s', [])
  with_results s (some (ok (r ∷ rs), s')) = with_signer (r ∷ rs) s' (signer_seed inputs args s')

  -- `json.JSONDecodeError` is a `ValueError`.
  unfoldable pub with_file : S → Option (Result (ResultsFile F)) → Exit
  unfolding with_results collect is_value_error
  with_file s none = (ok 1, s, [])
  with_file s (some (err e)) = if is_value_error e then (ok 1, s, []) else (err e, s, [])
  with_file s (some (ok file)) = with_results s (collect inputs args file s)

  -- `cmd_submit`: the exit code
  unfoldable pub cmd_submit : S → Exit
  unfolding with_file
  cmd_submit s = with_file s (inputs.read_results args.results_file s)
