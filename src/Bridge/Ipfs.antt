-- ===== src/Bridge/Ipfs.antt =====
-- The IPFS clients, `get_ipfs_client`, `pin_provenance_record` and `fetch_provenance_record`.
-- `sha256`, `urlopen`, `json.loads`, `str` of other values than texts, and the text of an exception
-- are parameters.
use stellar_kraal_contract.Common.{
  ℕ, Bool, false, ◌||◌, [], ◌∷◌, ◌++◌, Option, none, some, take, if◌then◌else◌,
}
use stellar_kraal_contract.Common.Dict.{Dict, lookup, insert}
use stellar_kraal_contract.Common.Json.{Json, Fields, object, text, subscript}
use stellar_kraal_contract.Common.Result.{Result, ok, err, Error, raised, cid_not_found, ◌>>=◌}
use stellar_kraal_contract.Common.Text.{rstrip, Str, codes, str_eq}
use stellar_kraal_contract.Common.Utf8.{decode_utf8}
use stellar_kraal_contract.Attestation.BigEndian.{Bytes}
use stellar_kraal_contract.Attestation.Hex.{hex}

abbrev pub Store : Type 0
Store = Dict Bytes

-- `_simulated_cid`
unfoldable pub simulated_cid : (Bytes → Bytes) → Bytes → Str
simulated_cid sha256 content = codes "bafkrei" ++ take 39 (hex (sha256 content))

unfoldable pub pin : (Bytes → Bytes) → Bytes → Store → Str × Store
pin sha256 content store = let cid = simulated_cid sha256 content in (cid, insert cid content store)

unfoldable pub get : Str → Store → Result Bytes
get cid store = elim (lookup cid store) [ none ↦ err cid_not_found | some content ↦ ok content ]

abbrev slash : ℕ
slash = 47

abbrev crlf : Bytes
crlf = 13 ∷ 10 ∷ []

-- `IPFSClient`: an injected client, whose calls change a world.
pub record IpfsClient (S : Type 0) : Type 0 where
  pub pin : Bytes → S → Result Str × S
  pub get : Str → S → Result Bytes × S

abbrev pub simulated_client : (Bytes → Bytes) → IpfsClient Store
simulated_client sha256 = record {
  pin = λ content store. let (cid, kept) = pin sha256 content store in (ok cid, kept);
  get = λ cid store. (get cid store, store);
}

pub record LocalIpfsClient : Type 0 where
  pub api_url : Str
  pub gateway_url : Str

-- `LocalIPFSClient.__init__`; the time limit is given to `urlopen` only.
unfoldable pub local_ipfs_client : Str → Str → LocalIpfsClient
local_ipfs_client api_url gateway_url = record {
  api_url = rstrip slash api_url;
  gateway_url = rstrip slash gateway_url;
}

-- A `urllib.request.Request`.
pub data Request : Type 0 where
  post : (url content_type : Str) (body : Bytes) → Request
  fetch : (url : Str) → Request

-- `except urllib.error.URLError`, with its subclasses.
unfoldable pub is_url_error : Error → Bool
is_url_error (raised name reason) =
    str_eq name (codes "URLError")
    || (str_eq name (codes "HTTPError") || str_eq name (codes "ContentTooShortError"))
is_url_error other = false

-- `str(v)`
unfoldable pub str_of : {F : Type 0} → (Json F → Str) → Json F → Str
str_of show (text s) = s
str_of show other = show other

abbrev runtime_error : Str → Error
runtime_error s = raised (codes "RuntimeError") s

module _ {F S : Type 0} (urlopen : Request → S → Result Bytes × S)
    (json_loads : Str → Result (Json F)) (show : Json F → Str) (message : Error → Str) where
  -- The handler of both methods.
  unfoldable pub reachable : {A : Type 0} → (Str → Str) → Result A × S → Result A × S
  reachable text_of (ok x, s) = (ok x, s)
  reachable text_of (err e, s) =
      if is_url_error e then (err (runtime_error (text_of (message e))), s) else (err e, s)

  abbrev multipart : Bytes → Bytes
  multipart content =
      codes "------KuboFormBoundary"
      ++ crlf
      ++ codes "Content-Disposition: form-data; name=\"file\"; filename=\"provenance.json\""
      ++ crlf
      ++ codes "Content-Type: application/json"
      ++ crlf
      ++ crlf
      ++ content
      ++ crlf
      ++ codes "------KuboFormBoundary--"
      ++ crlf

  -- The CID in the answer of the node.
  unfoldable pub read_hash : Bytes → Result Str
  unfolding str_of
  read_hash response = do
    answer ← decode_utf8 response
    result ← json_loads answer
    hash ← subscript (codes "Hash") result
    ok (str_of show hash)

  abbrev then_read : Result Bytes × S → Result Str × S
  then_read (ok response, s) = (read_hash response, s)
  then_read (err e, s) = (err e, s)

  -- `LocalIPFSClient.pin`
  unfoldable pub local_pin : LocalIpfsClient → Bytes → S → Result Str × S
  unfolding reachable read_hash
  local_pin client content s =
      let url = client.api_url ++ codes "/api/v0/add?cid-version=1&hash=sha2-256" in
      let kind = codes "multipart/form-data; boundary=----KuboFormBoundary" in
      reachable (λ exc. codes "Cannot reach IPFS API at " ++ client.api_url ++ codes ": " ++ exc)
        (then_read (urlopen (post url kind (multipart content)) s))

  -- `LocalIPFSClient.get`
  unfoldable pub local_get : (repr : Str → Str) → LocalIpfsClient → Str → S → Result Bytes × S
  unfolding reachable
  local_get repr client cid s =
      reachable
        (λ exc.
          codes "Cannot retrieve CID "
          ++ repr cid
          ++ codes " from gateway "
          ++ client.gateway_url
          ++ codes ": "
          ++ exc)
        (urlopen (fetch (client.gateway_url ++ codes "/ipfs/" ++ cid)) s)

-- What `get_ipfs_client` chooses.
pub data Backend : Type 0 where
  simulated : Backend
  local : LocalIpfsClient → Backend

-- The three environment variables are the last arguments.
unfoldable pub get_ipfs_client :
    Option Str → (backend_var api_var gateway_var : Option Str) → Backend
unfolding local_ipfs_client
get_ipfs_client backend backend_var api_var gateway_var =
    if str_eq (chosen backend) (codes "local")
    then local (
        local_ipfs_client (or_default (codes "http://localhost:5001") api_var)
          (or_default (codes "http://localhost:8080") gateway_var))
    else simulated
  where
    or_default : Str → Option Str → Str
    or_default s none = s
    or_default s (some t) = t

    chosen : Option Str → Str
    chosen (some (c ∷ s)) = c ∷ s
    chosen other = or_default (codes "simulated") backend_var

module _ {F S : Type 0} (canonical_json : Json F → Result Bytes) (client : IpfsClient S) where
  -- `pin_provenance_record`
  unfoldable pub pin_provenance_record : Fields F → S → Result Str × S
  pin_provenance_record d s = elim (canonical_json (object d)) [
    | err e ↦ (err e, s)
    | ok content ↦ client.pin content s
  ]

module _ {F S : Type 0} (json_loads : Str → Result (Json F)) (client : IpfsClient S) where
  abbrev then_parse : Result Bytes × S → Result (Json F) × S
  then_parse (ok content, s) = (do t ← decode_utf8 content; json_loads t, s)
  then_parse (err e, s) = (err e, s)

  -- `fetch_provenance_record`
  unfoldable pub fetch_provenance_record : Str → S → Result (Json F) × S
  fetch_provenance_record cid s = then_parse (client.get cid s)
