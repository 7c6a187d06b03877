-- ===== src/Demo/World.antt =====
-- The global state of tools/demo_server.py, its `FakeClient`, and its bridge. `BRIDGE` takes the
-- simulated IPFS client.
use stellar_kraal_contract.Common.{ℕ, ◌+◌, List, [], ◌++◌, Option}
use stellar_kraal_contract.Common.Dict.{Dict, insert}
use stellar_kraal_contract.Common.Int.{ℤ}
use stellar_kraal_contract.Common.Json.{Json, Fields}
use stellar_kraal_contract.Common.Result.{Result, ok, err, Error, attribute_error}
use stellar_kraal_contract.Common.Text.{Str, codes}
use stellar_kraal_contract.Common.Words.{four_digits}
use stellar_kraal_contract.Attestation.BigEndian.{Bytes}
use stellar_kraal_contract.Attestation.Hex.{hex}
use stellar_kraal_contract.Attestation.Payload.{FeedId, pad_feed}
use stellar_kraal_contract.Attestation.Signer.{Crypto, SignedAttestation}
use stellar_kraal_contract.Bridge.Ipfs.{Store, IpfsClient, pin, get}
use stellar_kraal_contract.Bridge.Process.{Services}
use stellar_kraal_contract.Bridge.Submit.{SubmissionClient}

-- An entry of `ONCHAIN`.
pub record OnchainEntry : Type 0 where
  pub output_value : ℤ
  pub timestamp_utc : ℤ
  pub script_hash : Str
  pub input_params_hash : Str
  pub ipfs_cid : Str
  pub tx_ref : Str

-- An entry of `LOG`.
pub record LogEntry (F : Type 0) : Type 0 where
  pub feed_id : Str
  pub output_value : ℤ
  pub ipfs_cid : Option Str
  pub tx_ref : Str
  pub submitted_at_iso : Json F

-- `T` is what the clock keeps.
pub record ServerWorld (F T : Type 0) : Type 0 where
  pub store : Store
  pub onchain : Dict OnchainEntry
  pub log : List (LogEntry F)
  pub tx_counter : ℕ
  pub time : T

abbrev pub new_world : {F T : Type 0} → T → ServerWorld F T
new_world time = record { store = []; onchain = []; log = []; tx_counter = 0; time = time }

unfoldable pub tx_ref_of : ℕ → Str
tx_ref_of n = codes "tx_" ++ four_digits n

abbrev pub onchain_entry : SignedAttestation → (ipfs_cid tx : Str) → OnchainEntry
onchain_entry a ipfs_cid tx = record {
  output_value = a.payload.output_value;
  timestamp_utc = a.payload.timestamp_utc;
  script_hash = hex a.payload.script_hash;
  input_params_hash = hex a.payload.input_params_hash;
  ipfs_cid = ipfs_cid;
  tx_ref = tx;
}

module _ {F T : Type 0} where
  -- `FakeClient.submit_price_with_cid`: the counter is raised before the identifier is padded.
  unfoldable pub fake_submit_price_with_cid :
      SignedAttestation → Str → ServerWorld F T → Result Str × ServerWorld F T
  unfolding tx_ref_of
  fake_submit_price_with_cid a ipfs_cid w =
      let n = w.tx_counter + 1 in
      let tx = tx_ref_of n in
      elim (pad_feed (FeedId.as_bytes a.payload.feed_id)) [
        | err e ↦ (err e, record w { tx_counter = n })
        | ok fid ↦ (
          ok tx,
          record w {
            tx_counter = n;
            onchain = insert (hex fid) (onchain_entry a ipfs_cid tx) w.onchain;
          },
        )
      ]

  -- `FakeClient`, which has no methods for commitments.
  abbrev pub fake_client : SubmissionClient (ServerWorld F T)
  fake_client = record {
    submit_price = λ a w. fake_submit_price_with_cid a [] w;
    submit_price_with_cid = fake_submit_price_with_cid;
    commit_price = λ f h w. (err attribute_error, w);
    reveal_price = λ a salt w. (err attribute_error, w);
  }

  -- `IPFS`
  abbrev pub demo_ipfs : (Bytes → Bytes) → IpfsClient (ServerWorld F T)
  demo_ipfs sha256 = record {
    pin = λ content w.
        let (cid, store) = pin sha256 content w.store in (ok cid, record w { store = store });
    get = λ cid w. (get cid w.store, w);
  }

-- What the server calls: `read_clock` is `int(time.time())`, `digit` the value of a decimal digit of
-- Unicode, and the seed is that of `SIGNER`.
pub record Setup (F T : Type 0) : Type 0 where
  pub crypto : Crypto (Json F)
  pub utc_iso : ℤ → Result Str
  pub jsonschema : Option (Fields F → List Str)
  pub json_loads : Str → Result (Json F)
  pub unquote_plus : Str → Str
  pub digit : ℕ → Option ℕ
  pub read_clock : T → ℤ × T
  pub message : Error → Str
  pub seed : Bytes

-- `BRIDGE`
abbrev pub demo_services : {F T : Type 0} → Setup F T → Services F (ServerWorld F T)
demo_services setup = record {
  crypto = setup.crypto;
  utc_iso = setup.utc_iso;
  jsonschema = setup.jsonschema;
  client = fake_client;
  ipfs = demo_ipfs setup.crypto.sha256;
  clock = λ w. let (now, time) = setup.read_clock w.time in (now, record w { time = time });
  message = setup.message;
}
