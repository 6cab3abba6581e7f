-- ===== src/Server/RequestFactory/Safety.antt =====
-- The parser calls no method of a null request, and a request that it completes has a safe URI.
use mathlib.Core.Path.{subst}
use thinger_http.Common.{
  ℕ, ◌≡◌, ◌≢◌, refl, ap, Option-cases, ◌⊎◌, inl, inr, Bool, true, false, Option, none, some, [],
  ◌∷◌, ◌++◌, Bytes, arith,
}
use thinger_http.Boost.{Boost}
use thinger_http.Util.Url.{url_decode?}
use thinger_http.Message.Headers.{Tribool, indeterminate, certain}
use thinger_http.Message.Request.{Request}
use thinger_http.Message.Request.Frame.{set_uri-uri, process_header-Same}
use thinger_http.Server.RequestFactory.{
  State, Parser, Step, request_factory, set_headers_only, consume_request, method_start, method,
  uri, header_value, has_dots, is_absolute, with_req, end_uri, consume_value, consume_in, consume,
  after_consume, parse, ◌>>=◌,
}

-- A decoded URI that begins with `/` and has no two dots in a row.
abbrev pub IsSafePath : Bytes → Type 0
IsSafePath path =
    ((rest : Bytes) × (path ≡ b'/' ∷ rest))
    × ((before after : Bytes) → path ≢ before ++ (b'.' ∷ b'.' ∷ after))

abbrev pub DecodesSafely : Option Bytes → Type 0
DecodesSafely none = ⊥
DecodesSafely (some path) = (is_absolute path ≡ true) × (has_dots path ≡ false)

is_absolute-path : (path : Bytes) → is_absolute path ≡ true → (rest : Bytes) × (path ≡ b'/' ∷ rest)
unfolding is_absolute
is_absolute-path [] h = cc
is_absolute-path (c ∷ cs) h = (cs, ground arith)

has_dots-append : (before after : Bytes) → has_dots (before ++ (b'.' ∷ b'.' ∷ after)) ≡ true
unfolding has_dots
has_dots-append [] after = refl
has_dots-append (c ∷ []) after = ground arith
has_dots-append (c ∷ d ∷ before) after = ground (arith, has_dots-append (d ∷ before) after)

DecodesSafely-path :
    (o : Option Bytes) → DecodesSafely o → (path : Bytes) × (o ≡ some path) × IsSafePath path
DecodesSafely-path none h = absurd h
DecodesSafely-path (some path) (absolute, plain) = (
  path,
  refl,
  (
    is_absolute-path path absolute,
    λ before after e. cc (ap has_dots e, has_dots-append before after),
  ),
)

abbrev IsReady : Option Request → Type 0
IsReady none = ⊥
IsReady (some r) = DecodesSafely (url_decode? r.uri)

-- What the parser knows of its request in each state.
abbrev Knows : State → Option Request → Type 0
Knows method_start req = Unit
Knows method req = Unit
Knows uri req = req ≢ none
Knows _ req = IsReady req

abbrev Inv : Parser → Type 0
Inv p = Knows p.state p.req

abbrev Final : Tribool → Parser → Type 0
Final (certain true) p = IsReady p.req
Final _ p = Unit

abbrev Ensures : Step → Type 0
Ensures none = ⊥
Ensures (some (q, t)) = Inv q × Final t q

end_uri-Ensures :
    (o : Option Bytes) (p : Parser)
    → url_decode? p.temp_string1 ≡ o
    → p.state ≡ uri
    → p.req ≢ none
    → Ensures (end_uri o p)
unfolding end_uri
end_uri-Ensures none p e m k = ground arith
end_uri-Ensures (some path) p e m k = elim (Option-cases p.req) [
  | inl absent ↦ absurd (k absent)
  | inr (r, present) ↦ ground (
    arith,
    set_uri-uri p.temp_string1 r,
    ap DecodesSafely e,
    ap DecodesSafely (ap url_decode? (set_uri-uri p.temp_string1 r)),
  )
]

module _ ⦃b : Boost⦄ where
  consume_value-Ensures :
      (p : Parser) (c : ℕ)
      → p.state ≡ header_value
      → (p.req ≡ none) ⊎ ((r : Request) × (p.req ≡ some r))
      → IsReady p.req
      → Ensures (consume_value p c)
  unfolding consume_value
  consume_value-Ensures p c e (inl absent) k = ground arith
  consume_value-Ensures p c e (inr (r, present)) k =
      ground (arith, process_header-Same p.temp_string1 p.temp_string2 r)

  consume_in-Ensures :
      (s : State) (p : Parser) (c : ℕ) → p.state ≡ s → Knows s p.req → Ensures (consume_in s p c)
  unfolding consume_in with_req
  consume_in-Ensures method_start p c e k = ground arith
  consume_in-Ensures method p c e k = ground arith
  consume_in-Ensures uri p c e k =
      ground (arith, end_uri-Ensures (url_decode? p.temp_string1) p refl e k)
  consume_in-Ensures header_value p c e k = consume_value-Ensures p c e (Option-cases p.req) k
  consume_in-Ensures _ p c e k = ground arith

  consume-Ensures : (p : Parser) (c : ℕ) → Inv p → Ensures (consume p c)
  unfolding consume
  consume-Ensures p c k = consume_in-Ensures p.state p c refl k

  abbrev EnsuresParse : Option (Parser × Tribool × Bytes) → Type 0
  EnsuresParse none = ⊥
  EnsuresParse (some (q, t, rest)) = Inv q × Final t q

  parse-Ensures : (p : Parser) (input : Bytes) → Inv p → EnsuresParse (parse p input)
  unfolding parse
  parse-Ensures p [] k = (k, tt)
  parse-Ensures p (c ∷ cs) k =
      after (consume p c) (consume-Ensures p c k) (λ q k'. parse-Ensures q cs k')
    where
      after :
          (s : Step)
          → Ensures s
          → ((q : Parser) → Inv q → EnsuresParse (parse q cs))
          → EnsuresParse (s >>= λ s. after_consume s.0 s.1 cs (λ q. parse q cs))
      after none k ih = k
      after (some (q, indeterminate)) (k, f) ih = ih q k
      after (some (q, certain result)) (k, f) ih = (k, f)

  -- The parsers that a connection can hold: input is fed in, and requests are taken out.
  pub data Reach : Parser → Type 0 where
    start : Reach request_factory
    set : {p : Parser} (only : Bool) → Reach p → Reach (set_headers_only only p)
    fed :
        {p q : Parser} (input rest : Bytes) {t : Tribool}
        → Reach p
        → parse p input ≡ some (q, t, rest)
        → Reach q
    taken : {p : Parser} → Reach p → Reach (consume_request p).0

  Reach-Inv : {p : Parser} → Reach p → Inv p
  unfolding consume_request
  Reach-Inv start = tt
  Reach-Inv (set only r) = Reach-Inv r
  Reach-Inv (fed {p} input rest r e) =
      (subst EnsuresParse e (parse-Ensures p input (Reach-Inv r))).0
  Reach-Inv (taken r) = tt

  -- Whatever a parser that a connection can hold is fed next, it calls no method of a null request.
  pub parse-ne-none : {p : Parser} → Reach p → (input : Bytes) → parse p input ≢ none
  parse-ne-none {p} r input e = subst EnsuresParse e (parse-Ensures p input (Reach-Inv r))

  -- Where a parser that a connection can hold (one that started fresh, was fed any input and may
  -- have had requests taken) reports that a request is complete, the request is there, and its URI
  -- decodes to a path that begins with `/` and has no two dots in a row.
  pub parse-IsSafePath :
      {p q : Parser} (input : Bytes) {rest : Bytes}
      → Reach p
      → parse p input ≡ some (q, certain true, rest)
      → (r : Request) × (path : Bytes) × (q.req ≡ some r)
        × (url_decode? r.uri ≡ some path)
        × IsSafePath path
  parse-IsSafePath {p} {q} input r e =
      ready q.req refl (subst EnsuresParse e (parse-Ensures p input (Reach-Inv r))).1
    where
      ready :
          (req : Option Request)
          → q.req ≡ req
          → IsReady req
          → (r : Request) × (path : Bytes) × (q.req ≡ some r)
            × (url_decode? r.uri ≡ some path)
            × IsSafePath path
      ready none e k = absurd k
      ready (some r) e k =
          let (path, decoded, safe) = DecodesSafely-path (url_decode? r.uri) k in
          (r, path, e, decoded, safe)
