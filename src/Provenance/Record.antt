-- ===== src/Provenance/Record.antt =====
-- `ProvenanceRecord` with `to_dict` and `from_dict`. The text of a time comes from `datetime` and
-- the C library, and is the parameter `utc_iso`.
use stellar_kraal_contract.Common.{[], ◌∷◌, Option, none, some, take, if◌then◌else◌}
use stellar_kraal_contract.Common.Int.{ℤ, pos}
use stellar_kraal_contract.Common.Json.{
  Json, Fields, text, int, object, end, field, get, at, subscript,
}
use stellar_kraal_contract.Common.Result.{Result, ok, err, ◌>>=◌, type_error, attribute_error}
use stellar_kraal_contract.Common.Text.{Str, str_eq, codes}
use stellar_kraal_contract.Attestation.BigEndian.{Bytes}
use stellar_kraal_contract.Attestation.Hex.{hex, from_hex}
use stellar_kraal_contract.Attestation.Signer.{Crypto}

pub record ProvenanceRecord (F : Type 0) : Type 0 where
  pub script_asset_path : Str
  pub script_version_hash : Str
  pub script_version_tag : Str
  pub input_params : Fields F
  pub output_value : ℤ
  pub feed_id : Str
  pub timestamp_utc : ℤ
  pub attestation_public_key : Str
  pub attestation_signature : Str
  pub attestation_payload_bytes : Bytes
  pub record_type : Str
  pub script_source_preview : Option Str
  pub aggregation_metadata : Option (Fields F)
  pub submitted_at_utc : ℤ
  pub tx_ref : Option Str
  pub ipfs_cid : Option Str

-- `_canonical_params_hash`
unfoldable pub params_hash_text : {P : Type 0} → Crypto P → P → Result Str
params_hash_text c params = do canonical ← c.canonical_json params; ok (hex (c.sha256 canonical))

-- `if x:` for an optional text: the empty text counts as none.
abbrev pub truthy : Option Str → Option Str
truthy none = none
truthy (some []) = none
truthy (some (c ∷ s)) = some (c ∷ s)

-- `x[:512]`
abbrev pub shorten : Option Str → Option Str
shorten none = none
shorten (some s) = some (take 512 s)

module _ {F : Type 0} where
  abbrev pub field_if : Str → Option Str → Fields F → Fields F
  field_if k none rest = rest
  field_if k (some s) rest = field k (text s) rest

  abbrev pub gee_script : ProvenanceRecord F → Fields F
  gee_script r = field (codes "asset_path") (text r.script_asset_path) (
      field (codes "version_hash") (text r.script_version_hash) (
        field (codes "version_tag") (text r.script_version_tag)
          (field_if (codes "source_preview") (shorten (truthy r.script_source_preview)) end)))

  abbrev pub submission : ProvenanceRecord F → Str → Fields F
  submission r iso = field (codes "submitted_at_iso") (text iso) (
      field (codes "submitted_at_utc") (int r.submitted_at_utc) (
        field_if (codes "tx_ref") (truthy r.tx_ref)
          (field_if (codes "ipfs_cid") (truthy r.ipfs_cid) end)))

  abbrev pub computation : ProvenanceRecord F → Str → Fields F
  computation r iso = field (codes "output_value") (int r.output_value) (
      field (codes "feed_id") (text r.feed_id) (
        field (codes "timestamp_utc") (int r.timestamp_utc)
          (field (codes "timestamp_iso") (text iso) end)))

  abbrev pub attestation : ProvenanceRecord F → Fields F
  attestation r = field (codes "schema_version") (int (pos 1)) (
      field (codes "public_key") (text r.attestation_public_key) (
        field (codes "signature") (text r.attestation_signature)
          (field (codes "payload_hex") (text (hex r.attestation_payload_bytes)) end)))

  abbrev pub aggregation_block : Option (Fields F) → Fields F
  aggregation_block none = end
  aggregation_block (some end) = end
  aggregation_block (some (field k v d)) = field (codes "aggregation") (object (field k v d)) end

  -- The block of an aggregated record whose metadata is there and not empty.
  abbrev pub aggregation : ProvenanceRecord F → Fields F
  aggregation r =
      if str_eq r.record_type (codes "aggregated")
      then aggregation_block r.aggregation_metadata
      else end

  abbrev pub record_dict :
      ProvenanceRecord F → (params_hash submitted_iso timestamp_iso : Str) → Fields F
  record_dict r params_hash submitted_iso timestamp_iso =
      field (codes "schema_version") (int (pos 1)) (
        field (codes "record_type") (text r.record_type) (
          field (codes "gee_script") (object (gee_script r)) (
            field (codes "input_params")
              (object (
                field (codes "params") (object r.input_params)
                  (field (codes "params_hash") (text params_hash) end)))
              (field (codes "computation") (object (computation r timestamp_iso)) (
                field (codes "attestation") (object (attestation r)) (
                  field (codes "submission") (object (submission r submitted_iso))
                    (aggregation r)))))))

  -- `ProvenanceRecord.to_dict`
  unfoldable pub to_dict :
      Crypto (Json F) → (ℤ → Result Str) → ProvenanceRecord F → Result (Fields F)
  to_dict c utc_iso r = do
    params_hash ← params_hash_text c (object r.input_params)
    submitted_iso ← utc_iso r.submitted_at_utc
    timestamp_iso ← utc_iso r.timestamp_utc
    ok (record_dict r params_hash submitted_iso timestamp_iso)

-- What `from_dict` makes: the dataclass takes values of every type.
pub record LoadedRecord (F : Type 0) : Type 0 where
  pub script_asset_path : Json F
  pub script_version_hash : Json F
  pub script_version_tag : Json F
  pub input_params : Json F
  pub output_value : Json F
  pub feed_id : Json F
  pub timestamp_utc : Json F
  pub attestation_public_key : Json F
  pub attestation_signature : Json F
  pub attestation_payload_bytes : Bytes
  pub record_type : Json F
  pub script_source_preview : Option (Json F)
  pub aggregation_metadata : Option (Json F)
  pub submitted_at_utc : Json F
  pub tx_ref : Option (Json F)
  pub ipfs_cid : Option (Json F)

module _ {F : Type 0} where
  -- `bytes.fromhex(v)`
  unfoldable pub from_hex_value : Json F → Result Bytes
  from_hex_value (text s) = from_hex s
  from_hex_value other = err type_error

  -- `v.get(k)`
  unfoldable pub get_in : Str → Json F → Result (Option (Json F))
  get_in k (object d) = ok (get k d)
  get_in k other = err attribute_error

  -- `ProvenanceRecord.from_dict`
  unfoldable pub from_dict : Fields F → Result (LoadedRecord F)
  unfolding from_hex_value get_in
  from_dict d = do
    sub ← at (codes "submission") d
    att ← at (codes "attestation") d
    comp ← at (codes "computation") d
    gs ← at (codes "gee_script") d
    ip ← at (codes "input_params") d
    asset_path ← subscript (codes "asset_path") gs
    version_hash ← subscript (codes "version_hash") gs
    version_tag ← subscript (codes "version_tag") gs
    preview ← get_in (codes "source_preview") gs
    params ← subscript (codes "params") ip
    output_value ← subscript (codes "output_value") comp
    feed_id ← subscript (codes "feed_id") comp
    timestamp_utc ← subscript (codes "timestamp_utc") comp
    public_key ← subscript (codes "public_key") att
    signature ← subscript (codes "signature") att
    payload_hex ← subscript (codes "payload_hex") att
    payload ← from_hex_value payload_hex
    record_type ← at (codes "record_type") d
    let aggregation_metadata = get (codes "aggregation") d
    submitted_at_utc ← subscript (codes "submitted_at_utc") sub
    tx_ref ← get_in (codes "tx_ref") sub
    ipfs_cid ← get_in (codes "ipfs_cid") sub
    ok (record {
      script_asset_path = asset_path;
      script_version_hash = version_hash;
      script_version_tag = version_tag;
      input_params = params;
      output_value = output_value;
      feed_id = feed_id;
      timestamp_utc = timestamp_utc;
      attestation_public_key = public_key;
      attestation_signature = signature;
      attestation_payload_bytes = payload;
      record_type = record_type;
      script_source_preview = preview;
      aggregation_metadata = aggregation_metadata;
      submitted_at_utc = submitted_at_utc;
      tx_ref = tx_ref;
      ipfs_cid = ipfs_cid;
    })
