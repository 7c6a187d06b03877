-- ===== src/Provenance/Loading.antt =====
-- `from_dict` of what `to_dict` writes.
use stellar_kraal_contract.Common.{
  ◌≡◌, refl, ap, ◌∙◌, Bool, true, false, Option, none, some, if◌then◌else◌,
}
use stellar_kraal_contract.Common.Int.{ℤ}
use stellar_kraal_contract.Common.Json.{
  Json, object, get, Fields, at, text, end, subscript, field, int,
}
use stellar_kraal_contract.Common.Result.{Result, ok}
use stellar_kraal_contract.Common.Text.{Str, str_eq, codes}
use stellar_kraal_contract.Attestation.BigEndian.{IsBytes}
use stellar_kraal_contract.Attestation.Hex.{from_hex-hex}
use stellar_kraal_contract.Attestation.Signer.{Crypto}
use stellar_kraal_contract.Provenance.Record.{
  from_dict, shorten, record_dict, to_dict, ProvenanceRecord, LoadedRecord, field_if, get_in,
  aggregation_block, from_hex_value, truthy,
}
use stellar_kraal_contract.Provenance.Shape.{to_dict_shape}

-- The metadata that a dict keeps: those of an aggregated record, if there are any.
abbrev nonempty : {F : Type 0} → Option (Fields F) → Option (Fields F)
nonempty none = none
nonempty (some end) = none
nonempty (some (field k v d)) = some (field k v d)

abbrev pub texts : {F : Type 0} → Option Str → Option (Json F)
texts none = none
texts (some s) = some (text s)

abbrev blocks : {F : Type 0} → Option (Fields F) → Option (Json F)
blocks none = none
blocks (some m) = some (object m)

module _ {F : Type 0} where
  -- What is read back: the preview cut to 512 characters, no empty optional text, and metadata only
  -- of an aggregated record.
  unfoldable pub reloaded : ProvenanceRecord F → LoadedRecord F
  reloaded r = record {
    script_asset_path = text r.script_asset_path;
    script_version_hash = text r.script_version_hash;
    script_version_tag = text r.script_version_tag;
    input_params = object r.input_params;
    output_value = int r.output_value;
    feed_id = text r.feed_id;
    timestamp_utc = int r.timestamp_utc;
    attestation_public_key = text r.attestation_public_key;
    attestation_signature = text r.attestation_signature;
    attestation_payload_bytes = r.attestation_payload_bytes;
    record_type = text r.record_type;
    script_source_preview = texts (shorten (truthy r.script_source_preview));
    aggregation_metadata = blocks (
        if str_eq r.record_type (codes "aggregated")
        then nonempty r.aggregation_metadata
        else none);
    submitted_at_utc = int r.submitted_at_utc;
    tx_ref = texts (truthy r.tx_ref);
    ipfs_cid = texts (truthy r.ipfs_cid);
  }

  pub preview_read :
      (x : Option Str)
      → get (codes "source_preview") (field_if (codes "source_preview") x end) ≡ texts {F = F} x
  unfolding get str_eq
  preview_read none = refl
  preview_read (some s) = refl

  tx_ref_read :
      (x y : Option Str)
      → get (codes "tx_ref") (field_if (codes "tx_ref") x (field_if (codes "ipfs_cid") y end))
        ≡ texts {F = F} x
  unfolding get str_eq
  tx_ref_read none none = refl
  tx_ref_read none (some t) = refl
  tx_ref_read (some s) y = refl

  cid_read :
      (x y : Option Str)
      → get (codes "ipfs_cid") (field_if (codes "tx_ref") x (field_if (codes "ipfs_cid") y end))
        ≡ texts {F = F} y
  unfolding get str_eq
  cid_read none none = refl
  cid_read none (some t) = refl
  cid_read (some s) none = refl
  cid_read (some s) (some t) = refl

  aggregation_read :
      (aggregated : Bool) (m : Option (Fields F))
      → get (codes "aggregation") (if aggregated then aggregation_block m else end)
        ≡ blocks (if aggregated then nonempty m else none)
  unfolding get str_eq
  aggregation_read false m = refl
  aggregation_read true none = refl
  aggregation_read true (some end) = refl
  aggregation_read true (some (field k v d)) = refl

  record_dict-read :
      (r : ProvenanceRecord F) (h s t : Str)
      → IsBytes r.attestation_payload_bytes
      → from_dict (record_dict r h s t) ≡ ok (reloaded r)
  unfolding from_dict at get get_in subscript from_hex_value str_eq reloaded
  record_dict-read r h s t are_bytes = rw (
    from_hex-hex r.attestation_payload_bytes are_bytes,
    preview_read (shorten (truthy r.script_source_preview)),
    tx_ref_read (truthy r.tx_ref) (truthy r.ipfs_cid),
    cid_read (truthy r.tx_ref) (truthy r.ipfs_cid),
    aggregation_read (str_eq r.record_type (codes "aggregated")) r.aggregation_metadata,
  )

module _ {F : Type 0} (c : Crypto (Json F)) (utc_iso : ℤ → Result Str) where
  -- If the payload is made of bytes, `from_dict` reads what `to_dict` wrote: every field of the
  -- record as it was, but for the preview, which is cut to 512 characters, an empty optional text,
  -- which is gone, and the metadata, which are there only for an aggregated record with some.
  pub from_dict-reloaded :
      (r : ProvenanceRecord F) (d : Fields F)
      → to_dict c utc_iso r ≡ ok d
      → IsBytes r.attestation_payload_bytes
      → from_dict d ≡ ok (reloaded r)
  from_dict-reloaded r d built are_bytes =
      let (h, s, t, _, shape) = to_dict_shape c utc_iso r built in
      ap from_dict shape ∙ record_dict-read r h s t are_bytes
