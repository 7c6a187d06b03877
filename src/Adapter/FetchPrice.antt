-- ===== src/Adapter/FetchPrice.antt =====
-- `_fetch_price` of both providers. `urlopen`, `json.loads`, `round`, the reading of a time, the clock
-- and the texts of values and of exceptions are parameters.
use stellar_kraal_contract.Common.{
  Bool, true, false, List, [], ◌∷◌, ◌++◌, none, some, take, if◌then◌else◌,
}
use stellar_kraal_contract.Common.Float.{Float}
use stellar_kraal_contract.Common.Int.{pos, ℤ, ◌*ℤ◌}
use stellar_kraal_contract.Common.Json.{
  Json, Fields, text, array, object, null, bool, int, real, get, is_true,
}
use stellar_kraal_contract.Common.Result.{
  attribute_error, Result, ok, err, Error, raised, value_error, type_error, ◌>>=◌,
}
use stellar_kraal_contract.Common.Text.{Str, codes, str_eq}
use stellar_kraal_contract.Common.Utf8.{decode_utf8}
use stellar_kraal_contract.Attestation.BigEndian.{Bytes}
use stellar_kraal_contract.Adapter.Fetch.{FeedResult, Meta}
use stellar_kraal_contract.Adapter.Provider.{Provider, HttpRequest, request_of, toucan, xpansiv}
use stellar_kraal_contract.Bridge.Ipfs.{is_url_error}

-- `round` of a float; `urlopen` with `read`; `json.loads`; the clock as an int; `strptime` with
-- `mktime`, which reads the text as local time; and the texts of values and of exceptions.
pub record ProviderEnv (F S : Type 0) : Type 0 where
  pub round : F → Result ℤ
  pub urlopen : HttpRequest → S → Result Bytes × S
  pub json_loads : Str → Result (Json F)
  pub now : S → ℤ × S
  pub local_time : Str → Result ℤ
  pub show : Json F → Str
  pub message : Error → Str
  pub status : Error → Str
  pub reason : Error → Str

abbrev pub failure : Str → Error
failure s = raised (codes "RuntimeError") s

-- `type(v).__name__` of a value that is no number and not none
unfoldable pub type_name : {F : Type 0} → Json F → Str
type_name (text s) = codes "str"
type_name (array vs) = codes "list"
type_name (object d) = codes "dict"
type_name other = []

-- `except (ValueError, TypeError)`, of the exceptions of slicing and of `strptime`
unfoldable pub is_parse_error : Error → Bool
is_parse_error value_error = true
is_parse_error type_error = true
is_parse_error other = false

-- `except urllib.error.HTTPError`
unfoldable pub is_http_error : Error → Bool
is_http_error (raised class_name reason) = str_eq class_name (codes "HTTPError")
is_http_error other = false

module _ {F : Type 0} where
  -- `body.get(k1, body.get(k2, ...))`: the first key that is there decides, whatever its value.
  unfoldable pub first_of : List Str → Fields F → Json F
  first_of [] d = null
  first_of (k ∷ ks) d = elim (get k d) [ none ↦ first_of ks d | some v ↦ v ]

module _ {F S : Type 0} ⦃float : Float F⦄ (env : ProviderEnv F S) (p : Provider) where
  -- `if price_raw is None` and the conversion: an int times a million, a float times a million and
  -- rounded
  unfoldable pub convert_price : Fields F → Json F → Result ℤ
  unfolding type_name
  convert_price body null = err (
      failure (p.name ++ (codes " API response missing 'price' field: " ++ env.show (object body))))
  convert_price body (int n) = ok (n *ℤ pos 1_000_000)
  convert_price body (bool true) = ok (pos 1_000_000)
  convert_price body (bool false) = ok (pos 0)
  convert_price body (real x) = env.round (float.mul x (float.of_ℤ (pos 1_000_000)))
  convert_price body other = err (
      failure
        (codes "Unexpected price type from " ++ (p.name ++ (codes " API: " ++ type_name other))))

  -- `timestamp_raw[:19]` read as a time; only a text can be read (a dict raises `TypeError` before
  -- Python 3.12).
  unfoldable pub read_time : Json F → Result ℤ
  read_time (text s) = env.local_time (take 19 s)
  read_time other = err type_error

  unfoldable pub or_now : Result ℤ → S → Result ℤ × S
  unfolding is_parse_error
  or_now (ok t) s = (ok t, s)
  or_now (err e) s =
      if is_parse_error e then (let (t, s') = env.now s in (ok t, s')) else (err e, s)

  -- The time of the answer, or the clock
  unfoldable pub time_of : Json F → S → Result ℤ × S
  unfolding read_time or_now
  time_of raw s =
      if is_true raw then or_now (read_time raw) s else (let (t, s') = env.now s in (ok t, s'))

  -- `except json.JSONDecodeError`
  unfoldable pub parsed_body : Result (Json F) → Result (Json F)
  parsed_body (ok v) = ok v
  parsed_body (err value_error) =
      err (failure (p.name ++ (codes " API returned invalid JSON: " ++ env.message value_error)))
  parsed_body (err other) = err other

  -- The three handlers of `urlopen` and `json.loads`
  unfoldable pub read_body : Result Bytes → Result (Json F)
  unfolding is_http_error is_url_error parsed_body
  read_body (err e) =
      if is_http_error e
      then err (
          failure (
            p.name
            ++ (codes " API HTTP "
                ++ (env.status e ++ (codes " for " ++ (p.url ++ (codes ": " ++ env.reason e)))))))
      else if is_url_error e
      then err (
          failure (
            p.name
            ++ (codes " API connection failed for " ++ (p.url ++ (codes ": " ++ env.reason e)))))
      else err e
  read_body (ok content) = do t ← decode_utf8 content; parsed_body (env.json_loads t)

  abbrev pub meta_of : Json F → Meta F
  meta_of (bool b) = Meta.flag b
  meta_of (int n) = Meta.whole n
  meta_of (real x) = Meta.real x
  meta_of other = Meta.text []

  abbrev pub result_with : Json F → (price timestamp_utc : ℤ) → FeedResult F
  result_with raw price timestamp_utc = record {
    price = price;
    feed_id = p.feed_id;
    timestamp_utc = timestamp_utc;
    metadata =
        (codes "source", Meta.text p.source)
        ∷ (p.kind, Meta.text p.instrument)
        ∷ (codes "raw_price", meta_of raw)
        ∷ (codes "url", Meta.text p.url)
        ∷ [];
    degraded = false;
  }

  unfoldable pub with_time : Json F → ℤ → Result ℤ × S → Result (FeedResult F) × S
  with_time raw price (err e, s) = (err e, s)
  with_time raw price (ok t, s) = (ok (result_with raw price t), s)

  unfoldable pub with_price : Fields F → Result ℤ → S → Result (FeedResult F) × S
  unfolding time_of with_time
  with_price d (err e) s = (err e, s)
  with_price d (ok price) s =
      with_time (first_of p.price_keys d) price (time_of (first_of p.time_keys d) s)

  unfoldable pub with_body : Result (Json F) → S → Result (FeedResult F) × S
  unfolding with_price convert_price
  with_body (err e) s = (err e, s)
  with_body (ok (object d)) s = with_price d (convert_price d (first_of p.price_keys d)) s
  with_body (ok other) s = (err attribute_error, s)

  -- `_fetch_price`
  unfoldable pub fetch_price : S → Result (FeedResult F) × S
  unfolding with_body read_body
  fetch_price s =
      let (response, s') = env.urlopen (request_of p) s in with_body (read_body response) s'

module _ {F S : Type 0} ⦃float : Float F⦄ (env : ProviderEnv F S)
    (feed_id api_key base_url : Str) where
  -- `ToucanProtocolAdapter._fetch_price`
  unfoldable pub toucan_fetch_price : (pool : Str) → S → Result (FeedResult F) × S
  unfolding toucan fetch_price
  toucan_fetch_price pool = fetch_price env (toucan feed_id api_key base_url pool)

  -- `XpansivCBLAdapter._fetch_price`
  unfoldable pub xpansiv_fetch_price : (product : Str) → S → Result (FeedResult F) × S
  unfolding xpansiv fetch_price
  xpansiv_fetch_price product = fetch_price env (xpansiv feed_id api_key base_url product)
