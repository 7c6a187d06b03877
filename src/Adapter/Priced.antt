-- ===== src/Adapter/Priced.antt =====
-- How a call of `_fetch_price` ends.
use stellar_kraal_contract.Common.{
  ◌≡◌, ◌≢◌, refl, sym, ap, ◌∙◌, ◌⊎◌, inl, inr, true, false, [], ◌∷◌, ◌++◌, take, Bool-cases,
}
use stellar_kraal_contract.Common.Float.{Float}
use stellar_kraal_contract.Common.Int.{ℤ, pos, ◌*ℤ◌}
use stellar_kraal_contract.Common.Json.{
  Json, Fields, text, array, object, null, bool, int, real, is_true,
}
use stellar_kraal_contract.Common.Result.{
  result_cases, Result, ok, err, Error, value_error, >>=-eq-ok, is_value_error, attribute_error,
  type_error,
}
use stellar_kraal_contract.Common.Text.{Str, codes}
use stellar_kraal_contract.Common.Utf8.{decode_utf8}
use stellar_kraal_contract.Attestation.BigEndian.{Bytes}
use stellar_kraal_contract.Adapter.Fetch.{FeedResult, Meta}
use stellar_kraal_contract.Adapter.FetchPrice.{
  failure, type_name, or_now, read_time, is_http_error, ProviderEnv, read_body, convert_price,
  first_of, time_of, is_parse_error, with_time, with_price, with_body, fetch_price, parsed_body,
  meta_of,
}
use stellar_kraal_contract.Adapter.Provider.{Provider, request_of}
use stellar_kraal_contract.Bridge.Ipfs.{is_url_error}

type_error-caught :
    {e : Error} → ◌≡◌ {A = Result ℤ} (err type_error) (err e) → ¬ (is_parse_error e ≡ false)
unfolding is_parse_error
type_error-caught {e} k uncaught =
    let same : type_error ≡ e = cc k in absurd (cc (rw (← same) at uncaught))

module _ {F S : Type 0} ⦃float : Float F⦄ (env : ProviderEnv F S) (p : Provider) where
  -- The price in millionths: an int times a million, a float times a million and rounded, and the
  -- truth values as 1 and 0.
  abbrev pub IsMillionths : Json F → ℤ → Type 0
  IsMillionths (int n) price = price ≡ n *ℤ pos 1_000_000
  IsMillionths (bool true) price = price ≡ pos 1_000_000
  IsMillionths (bool false) price = price ≡ pos 0
  IsMillionths (real x) price = env.round (float.mul x (float.of_ℤ (pos 1_000_000))) ≡ ok price
  IsMillionths other price = ⊥

  -- The error for a value of a type that is no number.
  abbrev pub unexpected : Str → Error
  unexpected kind =
      failure (codes "Unexpected price type from " ++ (p.name ++ (codes " API: " ++ kind)))

  -- No number, which is an error with the name of the provider; or a float that cannot be rounded.
  abbrev pub IsNoPrice : Json F → Error → Type 0
  IsNoPrice (int n) e = ⊥
  IsNoPrice (bool b) e = ⊥
  IsNoPrice (real x) e = env.round (float.mul x (float.of_ℤ (pos 1_000_000))) ≡ err e
  IsNoPrice null e =
      (shown : Str) × (e
        ≡ failure (p.name ++ (codes " API response missing 'price' field: " ++ shown)))
  IsNoPrice (text t) e = e ≡ unexpected (codes "str")
  IsNoPrice (array vs) e = e ≡ unexpected (codes "list")
  IsNoPrice (object o) e = e ≡ unexpected (codes "dict")

  -- The first 19 characters of a text, as a local time; or the clock, if there is nothing to read or
  -- reading it raises what is caught.
  abbrev pub IsTime : Json F → S → ℤ → S → Type 0
  IsTime raw s t s' =
      ((written : Str) × (raw ≡ text written)
        × (is_true raw ≡ true)
        × (env.local_time (take 19 written) ≡ ok t)
        × (s' ≡ s))
      ⊎ (((is_true raw ≡ false)
            ⊎ ((e : Error) × (read_time env p raw ≡ err e) × (is_parse_error e ≡ true)))
          × (env.now s ≡ (t, s')))

  -- Reading the time raises what is not caught.
  abbrev pub IsUntimed : Json F → S → Error → S → Type 0
  IsUntimed raw s e s' =
      (written : Str) × (raw ≡ text written)
      × (env.local_time (take 19 written) ≡ err e)
      × (is_parse_error e ≡ false)
      × (s' ≡ s)

  -- The bytes are the UTF-8 text of a value in JSON.
  abbrev pub IsRead : Bytes → Json F → Type 0
  IsRead content v =
      (written : Str) × (decode_utf8 content ≡ ok written) × (env.json_loads written ≡ ok v)

  -- `urlopen` raised, and its HTTP and connection errors get the name and the address of the provider;
  -- or the bytes are no UTF-8, or no JSON.
  abbrev pub IsUnread : Result Bytes → Error → Type 0
  IsUnread (err f) e =
      ((is_http_error f ≡ true)
        × (e
            ≡ failure (
                p.name
                ++ (codes " API HTTP "
                    ++ (env.status f
                        ++ (codes " for " ++ (p.url ++ (codes ": " ++ env.reason f))))))))
      ⊎ (((is_http_error f ≡ false)
            × (is_url_error f ≡ true)
            × (e
                ≡ failure (
                    p.name
                    ++ (codes " API connection failed for "
                        ++ (p.url ++ (codes ": " ++ env.reason f))))))
          ⊎ ((is_http_error f ≡ false) × (is_url_error f ≡ false) × (e ≡ f)))
  IsUnread (ok content) e =
      (decode_utf8 content ≡ err e)
      ⊎ ((written : Str) × (f : Error) × (decode_utf8 content ≡ ok written)
          × (env.json_loads written ≡ err f)
          × (((is_value_error f ≡ true)
                × (e ≡ failure (p.name ++ (codes " API returned invalid JSON: " ++ env.message f))))
              ⊎ ((is_value_error f ≡ false) × (e ≡ f))))

  pub data Fetched (s : S) : Result (FeedResult F) × S → Type 0 where
    -- No answer, or one that cannot be read.
    unread :
        (response : Result Bytes) (e : Error) (s' : S)
        → env.urlopen (request_of p) s ≡ (response, s')
        → IsUnread response e
        → Fetched s (err e, s')
    -- The answer is no dict.
    no_dict :
        (content : Bytes) (v : Json F) (s' : S)
        → env.urlopen (request_of p) s ≡ (ok content, s')
        → IsRead content v
        → ((d : Fields F) → v ≢ object d)
        → Fetched s (err attribute_error, s')
    -- The value at the first price key is none or no number, or cannot be rounded.
    unpriced :
        (content : Bytes) (d : Fields F) (e : Error) (s' : S)
        → env.urlopen (request_of p) s ≡ (ok content, s')
        → IsRead content (object d)
        → IsNoPrice (first_of p.price_keys d) e
        → Fetched s (err e, s')
    -- The time is read in vain, by an exception that is not caught.
    untimed :
        (content : Bytes) (d : Fields F) (price : ℤ) (e : Error) (s' s'' : S)
        → env.urlopen (request_of p) s ≡ (ok content, s')
        → IsRead content (object d)
        → IsMillionths (first_of p.price_keys d) price
        → IsUntimed (first_of p.time_keys d) s' e s''
        → Fetched s (err e, s'')
    -- The price of the answer, with its time or that of the clock.
    priced :
        (content : Bytes) (d : Fields F) (price t : ℤ) (s' s'' : S)
        → env.urlopen (request_of p) s ≡ (ok content, s')
        → IsRead content (object d)
        → IsMillionths (first_of p.price_keys d) price
        → IsTime (first_of p.time_keys d) s' t s''
        → Fetched s (
          ok (record {
            price = price;
            feed_id = p.feed_id;
            timestamp_utc = t;
            metadata =
                (codes "source", Meta.text p.source)
                ∷ (p.kind, Meta.text p.instrument)
                ∷ (codes "raw_price", meta_of env p (first_of p.price_keys d))
                ∷ (codes "url", Meta.text p.url)
                ∷ [];
            degraded = false;
          }),
          s'',
        )

  parsed_body-ok : (r : Result (Json F)) (v : Json F) → parsed_body env p r ≡ ok v → r ≡ ok v
  unfolding parsed_body
  parsed_body-ok (ok u) v h = h
  parsed_body-ok (err value_error) v h = absurd (cc h)
  parsed_body-ok (err other) v h = absurd (cc h)

  parsed_body-err :
      (f e : Error)
      → parsed_body env p (err f) ≡ err e
      → ((is_value_error f ≡ true)
          × (e ≡ failure (p.name ++ (codes " API returned invalid JSON: " ++ env.message f))))
        ⊎ ((is_value_error f ≡ false) × (e ≡ f))
  unfolding parsed_body is_value_error
  parsed_body-err value_error e h = inl (refl, sym (cc h))
  parsed_body-err other e h = inr (refl, sym (cc h))

  read_body-IsUnread :
      (response : Result Bytes) (e : Error) → read_body env p response ≡ err e → IsUnread response e
  unfolding read_body
  read_body-IsUnread (err f) e h = elim (Bool-cases (is_http_error f)) [
    | inl http ↦ inl (http, sym (cc (rw (read_body, http) at h)))
    | inr other ↦ elim (Bool-cases (is_url_error f)) [
      | inl url ↦ inr (inl (other, url, sym (cc (rw (read_body, other, url) at h))))
      | inr neither ↦ inr (inr (other, neither, sym (cc (rw (read_body, other, neither) at h))))
    ]
  ]
  read_body-IsUnread (ok content) e h = elim (result_cases (decode_utf8 content)) [
    | inl (f, garbled) ↦
        let same : f ≡ e = cc (rw (read_body, garbled) at h) in inl (garbled ∙ ap err same)
    | inr (t, decoded) ↦ elim (result_cases (env.json_loads t)) [
      | inl (f, invalid) ↦
          inr (t, f, decoded, invalid, parsed_body-err f e (rw (read_body, decoded, invalid) at h))
      | inr (v, valid) ↦ absurd (cc (rw (read_body, decoded, valid) at h))
    ]
  ]

  read_body-IsRead :
      (content : Bytes) (v : Json F) → read_body env p (ok content) ≡ ok v → IsRead content v
  unfolding read_body
  read_body-IsRead content v h =
      let (t, decoded, parsed) = >>=-eq-ok (decode_utf8 content) _ h in
      (t, decoded, parsed_body-ok (env.json_loads t) v parsed)

  convert_price-IsMillionths :
      (d : Fields F) (raw : Json F) (price : ℤ)
      → convert_price env p d raw ≡ ok price
      → IsMillionths raw price
  unfolding convert_price
  convert_price-IsMillionths d (int n) price h = sym (cc h)
  convert_price-IsMillionths d (bool true) price h = sym (cc h)
  convert_price-IsMillionths d (bool false) price h = sym (cc h)
  convert_price-IsMillionths d (real x) price h = h
  convert_price-IsMillionths d null price h = absurd (cc h)
  convert_price-IsMillionths d (text t) price h = absurd (cc h)
  convert_price-IsMillionths d (array vs) price h = absurd (cc h)
  convert_price-IsMillionths d (object o) price h = absurd (cc h)

  convert_price-IsNoPrice :
      (d : Fields F) (raw : Json F) (e : Error)
      → convert_price env p d raw ≡ err e
      → IsNoPrice raw e
  unfolding convert_price type_name
  convert_price-IsNoPrice d (int n) e h = absurd (cc h)
  convert_price-IsNoPrice d (bool true) e h = absurd (cc h)
  convert_price-IsNoPrice d (bool false) e h = absurd (cc h)
  convert_price-IsNoPrice d (real x) e h = h
  convert_price-IsNoPrice d null e h = (env.show (object d), sym (cc h))
  convert_price-IsNoPrice d (text t) e h = sym (cc h)
  convert_price-IsNoPrice d (array vs) e h = sym (cc h)
  convert_price-IsNoPrice d (object o) e h = sym (cc h)

  read_body-refuses : (e : Error) (v : Json F) → ¬ (read_body env p (err e) ≡ ok v)
  unfolding read_body
  read_body-refuses e v h = elim (Bool-cases (is_http_error e)) [
    | inl http ↦ absurd (cc (rw http at h))
    | inr other ↦ elim (Bool-cases (is_url_error e)) [
      | inl url ↦ absurd (cc (rw (other, url) at h))
      | inr neither ↦ absurd (cc (rw (other, neither) at h))
    ]
  ]

  read_body-raises : (e : Error) → (f : Error) × (read_body env p (err e) ≡ err f)
  read_body-raises e = elim (result_cases (read_body env p (err e))) [
    | inl raises ↦ raises
    | inr (v, h) ↦ absurd (read_body-refuses e v h)
  ]

  -- What the reading of a time makes of an answer and of an exception.
  read-IsTime :
      (raw : Json F) (s s' : S) (t : ℤ)
      → is_true raw ≡ true
      → (r : Result ℤ) → read_time env p raw ≡ r
      → or_now env p r s ≡ (ok t, s')
      → IsTime raw s t s'
  unfolding or_now read_time
  read-IsTime (text w) s s' t there (ok u) k h =
      let same : u ≡ t = cc (ap (λ x. x.0) h) in
      inl (w, refl, there, k ∙ ap ok same, sym (ap (λ x. x.1) h))
  read-IsTime raw s s' t there (ok u) k h = absurd (cc k)
  read-IsTime raw s s' t there (err e) k h = elim (Bool-cases (is_parse_error e)) [
    | inl caught ↦
        let now = rw (or_now, caught) at h in
        let time : (env.now s).0 ≡ t = cc (ap (λ x. x.0) now) in
        inr (inr (e, k, caught), (λ i. (time i, (now i).1)))
    | inr uncaught ↦ absurd (cc (ap (λ x. x.0) (rw (or_now, uncaught) at h)))
  ]

  read-IsUntimed :
      (raw : Json F) (s s' : S) (e : Error)
      → (r : Result ℤ) → read_time env p raw ≡ r
      → or_now env p r s ≡ (err e, s')
      → IsUntimed raw s e s'
  unfolding or_now read_time
  read-IsUntimed raw s s' e (ok u) k h = absurd (cc (ap (λ x. x.0) h))
  read-IsUntimed raw s s' e (err f) k h = elim (Bool-cases (is_parse_error f)) [
    | inl caught ↦ absurd (cc (ap (λ x. x.0) (rw (or_now, caught) at h)))
    | inr uncaught ↦
        let raised = rw (or_now, uncaught) at h in
        let same : f ≡ e = cc (ap (λ x. x.0) raised) in
        of_text raw (k ∙ ap err same) (rw same at uncaught) (sym (ap (λ x. x.1) raised))
  ]
    where
      of_text :
          (v : Json F)
          → read_time env p v ≡ err e
          → is_parse_error e ≡ false
          → s' ≡ s
          → IsUntimed v s e s'
      of_text (text w) k uncaught same = (w, refl, k, uncaught, same)
      of_text null k uncaught same = absurd (type_error-caught k uncaught)
      of_text (bool b) k uncaught same = absurd (type_error-caught k uncaught)
      of_text (int n) k uncaught same = absurd (type_error-caught k uncaught)
      of_text (real x) k uncaught same = absurd (type_error-caught k uncaught)
      of_text (array vs) k uncaught same = absurd (type_error-caught k uncaught)
      of_text (object o) k uncaught same = absurd (type_error-caught k uncaught)

  time_of-IsTime :
      (raw : Json F) (s s' : S) (t : ℤ) → time_of env p raw s ≡ (ok t, s') → IsTime raw s t s'
  unfolding time_of
  time_of-IsTime raw s s' t h = elim (Bool-cases (is_true raw)) [
    | inl there ↦ read-IsTime raw s s' t there (read_time env p raw) refl (rw (time_of, there) at h)
    | inr missing ↦
        let now = rw (time_of, missing) at h in
        let time : (env.now s).0 ≡ t = cc (ap (λ x. x.0) now) in
        inr (inl missing, (λ i. (time i, (now i).1)))
  ]

  time_of-IsUntimed :
      (raw : Json F) (s s' : S) (e : Error)
      → time_of env p raw s ≡ (err e, s')
      → IsUntimed raw s e s'
  unfolding time_of
  time_of-IsUntimed raw s s' e h = elim (Bool-cases (is_true raw)) [
    | inl there ↦ read-IsUntimed raw s s' e (read_time env p raw) refl (rw (time_of, there) at h)
    | inr missing ↦ absurd (cc (ap (λ x. x.0) (rw (time_of, missing) at h)))
  ]

  module _ (s s' : S) (content : Bytes)
      (answered : env.urlopen (request_of p) s ≡ (ok content, s')) where
    with_time-Fetched :
        (d : Fields F) (price : ℤ)
        → IsRead content (object d)
        → IsMillionths (first_of p.price_keys d) price
        → (t : Result ℤ × S) → time_of env p (first_of p.time_keys d) s' ≡ t
        → Fetched s (with_time env p (first_of p.price_keys d) price t)
    unfolding with_time
    with_time-Fetched d price body converted (err e, s'') h =
        Fetched.untimed content d price e s' s'' answered body converted
          (time_of-IsUntimed _ s' s'' e h)
    with_time-Fetched d price body converted (ok t, s'') h =
        Fetched.priced content d price t s' s'' answered body converted
          (time_of-IsTime _ s' s'' t h)

    with_price-Fetched :
        (d : Fields F)
        → IsRead content (object d)
        → (r : Result ℤ) → convert_price env p d (first_of p.price_keys d) ≡ r
        → Fetched s (with_price env p d r s')
    unfolding with_price
    with_price-Fetched d body (err e) h =
        Fetched.unpriced content d e s' answered body (convert_price-IsNoPrice d _ e h)
    with_price-Fetched d body (ok price) h =
        with_time-Fetched d price body (convert_price-IsMillionths d _ price h) _ refl

    with_body-Fetched :
        (r : Result (Json F)) → read_body env p (ok content) ≡ r → Fetched s (with_body env p r s')
    unfolding with_body
    with_body-Fetched (err e) h =
        Fetched.unread (ok content) e s' answered (read_body-IsUnread (ok content) e h)
    with_body-Fetched (ok (object d)) h =
        with_price-Fetched d (read_body-IsRead content (object d) h) _ refl
    with_body-Fetched (ok null) h =
        Fetched.no_dict content null s' answered (read_body-IsRead content null h)
          (λ d e. absurd (cc e))
    with_body-Fetched (ok (bool b)) h =
        Fetched.no_dict content (bool b) s' answered (read_body-IsRead content (bool b) h)
          (λ d e. absurd (cc e))
    with_body-Fetched (ok (int n)) h =
        Fetched.no_dict content (int n) s' answered (read_body-IsRead content (int n) h)
          (λ d e. absurd (cc e))
    with_body-Fetched (ok (real x)) h =
        Fetched.no_dict content (real x) s' answered (read_body-IsRead content (real x) h)
          (λ d e. absurd (cc e))
    with_body-Fetched (ok (text t)) h =
        Fetched.no_dict content (text t) s' answered (read_body-IsRead content (text t) h)
          (λ d e. absurd (cc e))
    with_body-Fetched (ok (array vs)) h =
        Fetched.no_dict content (array vs) s' answered (read_body-IsRead content (array vs) h)
          (λ d e. absurd (cc e))

  answered-Fetched :
      (s : S) (answer : Result Bytes × S)
      → env.urlopen (request_of p) s ≡ answer
      → Fetched s (with_body env p (read_body env p answer.0) answer.1)
  unfolding with_body
  answered-Fetched s (ok content, s') h = with_body-Fetched s s' content h _ refl
  answered-Fetched s (err e, s') h =
      let (f, raises) = read_body-raises e in
      rw raises (Fetched.unread (err e) f s' h (read_body-IsUnread (err e) f raises))

  -- Every call of `_fetch_price` ends in one of five ways: there is no answer, or no JSON in it, which
  -- raises with the name of the provider where the code catches it; it is no dict; its first price key
  -- holds no number, or one that cannot be rounded; its time raises what is not caught; or it is
  -- returned with the price of the answer in millionths, and the local time that its first 19
  -- characters tell, or that of the clock.
  pub fetch_price-Fetched : (s : S) → Fetched s (fetch_price env p s)
  unfolding fetch_price
  fetch_price-Fetched s = answered-Fetched s (env.urlopen (request_of p) s) refl
