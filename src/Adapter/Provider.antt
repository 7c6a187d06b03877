-- ===== src/Adapter/Provider.antt =====
-- oracle_bridge/adapters/toucan.py and oracle_bridge/adapters/xpansiv.py: two copies of one adapter,
-- which differ in the constants of `Provider`; their addresses, headers and keys.
use stellar_kraal_contract.Common.{List, [], ◌∷◌, ◌++◌, Option, none, some}
use stellar_kraal_contract.Common.Dict.{Dict, lookup}
use stellar_kraal_contract.Common.Text.{Str, codes, rstrip}

-- `urllib.request.Request` with its headers.
pub record HttpRequest : Type 0 where
  pub url : Str
  pub headers : Dict Str

-- What the copies do not share; `code` is the pool or the product in the address.
pub record Provider : Type 0 where
  pub name : Str
  pub source : Str
  pub kind : Str
  pub instrument : Str
  pub feed_id : Str
  pub url : Str
  pub key_header : Option (Str × Str)
  pub price_keys : List Str
  pub time_keys : List Str

abbrev header_of : Option (Str × Str) → Dict Str
header_of none = []
header_of (some h) = h ∷ []

abbrev pub request_of : Provider → HttpRequest
request_of p = record {
  url = p.url;
  headers =
      (codes "Accept", codes "application/json")
      ∷ (codes "User-Agent", codes "stellar-kraal-oracle-bridge/0.1.0")
      ∷ header_of p.key_header;
}

-- `__init__`, for the address: the default code for an unknown instrument
unfoldable pub code_of : Dict Str → Str → Str → Str
code_of codes_by_name default instrument = elim (lookup instrument codes_by_name) [
  | none ↦ default
  | some c ↦ c
]

abbrev key_if : (key_name prefix api_key : Str) → Option (Str × Str)
key_if key_name prefix [] = none
key_if key_name prefix (c ∷ s) = some (key_name, prefix ++ (c ∷ s))

-- `ToucanProtocolAdapter`
unfoldable pub toucan : (feed_id api_key base_url pool : Str) → Provider
unfolding code_of
toucan feed_id api_key base_url pool = record {
  name = codes "Toucan";
  source = codes "toucan";
  kind = codes "pool";
  instrument = pool;
  feed_id = feed_id;
  url =
      rstrip 47 base_url
      ++ (codes "/pools/"
          ++ (code_of ((codes "BCT", codes "bct") ∷ (codes "NCT", codes "nct") ∷ []) (codes "bct")
                pool
              ++ codes "/price"));
  key_header = key_if (codes "Authorization") (codes "Bearer ") api_key;
  price_keys = codes "price" ∷ codes "lastPrice" ∷ codes "usdPrice" ∷ [];
  time_keys = codes "timestamp" ∷ codes "updatedAt" ∷ [];
}

-- `XpansivCBLAdapter`
unfoldable pub xpansiv : (feed_id api_key base_url product : Str) → Provider
unfolding code_of
xpansiv feed_id api_key base_url product = record {
  name = codes "Xpansiv";
  source = codes "xpansiv";
  kind = codes "product";
  instrument = product;
  feed_id = feed_id;
  url =
      rstrip 47 base_url
      ++ (codes "/prices/"
          ++ (code_of ((codes "CBL-EUA", codes "EUA") ∷ (codes "CBL-CFD", codes "CFD") ∷ [])
                (codes "EUA") product
              ++ codes "/latest"));
  key_header = key_if (codes "X-API-Key") [] api_key;
  price_keys = codes "price" ∷ codes "lastPrice" ∷ [];
  time_keys = codes "timestamp" ∷ codes "asOf" ∷ [];
}
