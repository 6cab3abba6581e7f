-- ===== src/Client/CookieStore/Lookups.antt =====
-- What a lookup finds after headers were taken in.
use thinger_http.Common.{
  ◌≡◌, refl, sym, ap, ◌∙◌, Bool, true, false, ◌||◌, ◌&&◌, Option, none, some, List, [], ◌∷◌,
  if◌then◌else◌, Bytes, bytes_eq, bytes_eq_iff, Bool-cases, inl, inr, arith, codes,
}
use thinger_http.Boost.{Boost}
use thinger_http.Message.Header
use thinger_http.Message.Headers.{Headers, HttpHeader, values_with_key, get_headers_with_key}
use thinger_http.Client.Cookie.{Cookie, Clock, parse, is_valid}
use thinger_http.Client.CookieStore.{
  CookieStore, assign, set_cookie, get_cookie, store_all, parse_all, header_cookies,
  update_from_headers,
}

-- The last valid cookie with this name.
abbrev pub latest : Bytes → List Cookie → Option Cookie
latest name [] = none
latest name (c ∷ cs) = elim (latest name cs) [
  | some d ↦ some d
  | none ↦ if is_valid c && bytes_eq c.name name then some c else none
]

-- Whether one of them is valid.
abbrev pub some_valid : List Cookie → Bool
some_valid [] = false
some_valid (c ∷ cs) = if is_valid c then true else some_valid cs

abbrev pub or_else : Option Cookie → Option Cookie → Option Cookie
or_else (some c) o = some c
or_else none o = o

same_key :
    (found : Bool) (c d : Cookie) (o : Option Cookie)
    → (if found then some c else o) ≡ (if found then some c else if found then some d else o)
same_key true c d o = refl
same_key false c d o = refl

other_key :
    (p q : Bool) (c d : Cookie) (o : Option Cookie)
    → (p ≡ true → q ≡ true → ⊥)
    → (if p then some d else if q then some c else o)
      ≡ (if q then some c else if p then some d else o)
other_key true true c d o h = absurd (h refl refl)
other_key true false c d o h = refl
other_key false q c d o h = refl

get_cookie-assign :
    (name : Bytes) (c : Cookie) (s : CookieStore)
    → get_cookie name (assign c.name c s)
      ≡ (if bytes_eq c.name name then some c else get_cookie name s)
unfolding get_cookie assign
get_cookie-assign name c [] = refl
get_cookie-assign name c ((key, d) ∷ s) =
    let names = bytes_eq_iff key c.name in
    let again = get_cookie-assign name c s in
    elim (Bool-cases (bytes_eq key c.name)) [
      | inl e ↦ rw (e, names.0 e) (same_key (bytes_eq c.name name) c d (get_cookie name s))
      | inr e ↦
          rw (e, again)
            (other_key (bytes_eq key name) (bytes_eq c.name name) c d (get_cookie name s) (λ p q.
              let same : bytes_eq key c.name ≡ true =
                names.1 ((bytes_eq_iff key name).0 p ∙ sym ((bytes_eq_iff c.name name).0 q)) in
              absurd (ground arith)))
    ]

get_cookie-set_cookie :
    (name : Bytes) (c : Cookie) (s : CookieStore)
    → get_cookie name (set_cookie c s)
      ≡ (if is_valid c && bytes_eq c.name name then some c else get_cookie name s)
unfolding set_cookie
get_cookie-set_cookie name c s = elim (Bool-cases (is_valid c)) [
  | inl e ↦ rw (e) (get_cookie-assign name c s)
  | inr e ↦ rw (e) refl
]

or_if : (p q : Bool) → (p || q) ≡ (if p then true else q)
or_if true q = refl
or_if false q = refl

later :
    (found : Bool) (c : Cookie) (o p : Option Cookie)
    → or_else o (if found then some c else p)
      ≡ or_else (elim o [ some d ↦ some d | none ↦ if found then some c else none ]) p
later true c (some d) p = refl
later true c none p = refl
later false c (some d) p = refl
later false c none p = refl

get_cookie-store_all :
    (name : Bytes) (cs : List Cookie) (s : CookieStore)
    → get_cookie name (store_all cs s).0 ≡ or_else (latest name cs) (get_cookie name s)
unfolding store_all
get_cookie-store_all name [] s = refl
get_cookie-store_all name (c ∷ cs) s =
    get_cookie-store_all name cs (set_cookie c s)
    ∙ ap (or_else (latest name cs)) (get_cookie-set_cookie name c s)
    ∙ later (is_valid c && bytes_eq c.name name) c (latest name cs) (get_cookie name s)

updated-store_all : (cs : List Cookie) (s : CookieStore) → (store_all cs s).1 ≡ some_valid cs
unfolding store_all
updated-store_all [] s = refl
updated-store_all (c ∷ cs) s =
    ap (λ t. is_valid c || t) (updated-store_all cs (set_cookie c s))
    ∙ or_if (is_valid c) (some_valid cs)

-- What the headers with the name Set-Cookie say, in their order.
abbrev pub cookies_said : ⦃b : Boost⦄ → Clock → List HttpHeader → List Cookie
cookies_said clock [] = []
cookies_said ⦃b⦄ clock ((key, value) ∷ hs) =
    let rest = cookies_said clock hs in
    if b.iequals key (codes "Set-Cookie") then parse clock value ∷ rest else rest

parse_all-if :
    ⦃b : Boost⦄ (clock : Clock) (said : Bool) (value : Bytes) (values : List Bytes)
    → parse_all clock (if said then value ∷ values else values)
      ≡ (if said then parse clock value ∷ parse_all clock values else parse_all clock values)
parse_all-if clock true value values = refl
parse_all-if clock false value values = refl

header_cookies-cookies_said :
    ⦃b : Boost⦄ (clock : Clock) (hs : List HttpHeader)
    → parse_all clock (values_with_key Header.set_cookie hs) ≡ cookies_said clock hs
unfolding values_with_key
header_cookies-cookies_said clock [] = refl
header_cookies-cookies_said ⦃b⦄ clock ((key, value) ∷ hs) =
    let said = b.iequals key (codes "Set-Cookie") in
    parse_all-if clock said value (values_with_key Header.set_cookie hs)
    ∙ ap (λ t. if said then parse clock value ∷ t else t) (header_cookies-cookies_said clock hs)

-- Taking in headers says whether one of the cookies in those named Set-Cookie, up to case, is
-- valid, that is, has a name, and afterwards a lookup finds the last of these with the name, also
-- where it has expired, and what it found before where there is none.
pub get_cookie-update_from_headers :
    ⦃b : Boost⦄ (clock : Clock) (h : Headers) (s : CookieStore)
    → ((update_from_headers clock h s).1 ≡ some_valid (cookies_said clock h.headers))
      × ((name : Bytes)
          → get_cookie name (update_from_headers clock h s).0
            ≡ or_else (latest name (cookies_said clock h.headers)) (get_cookie name s))
unfolding update_from_headers header_cookies get_headers_with_key
get_cookie-update_from_headers clock h s =
    let said = header_cookies-cookies_said clock h.headers in
    rw said (
      updated-store_all (cookies_said clock h.headers) s,
      λ name. get_cookie-store_all name (cookies_said clock h.headers) s,
    )
