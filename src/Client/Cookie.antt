-- ===== src/Client/Cookie.antt =====
-- thinger/http/client/cookie.{hpp,cpp}: a cookie, and what a Set-Cookie header says of it. Dates, the
-- clock and the numbers of `std::stoll` are parameters.
use thinger_http.Common.{
  ℕ, zero, ◌+◌, Bool, true, false, ◌&&◌, ◌||◌, Option, none, some, List, [], ◌∷◌, ◌++◌, ltb, ◌==◌,
  within, if◌then◌else◌, Bytes, codes, is_empty,
}
use thinger_http.Util.Url.{split_at}

-- `int64_t`
pub data ℤ : Type 0 where
  pos : ℕ → ℤ
  negsuc : ℕ → ℤ

pub data SameSite : Type 0 where
  strict lax no_policy : SameSite

pub record Cookie : Type 0 where
  pub name : Bytes
  pub value : Bytes
  pub path : Bytes
  pub domain : Bytes
  pub expires : ℤ
  pub max_age : Option ℤ
  pub secure : Bool
  pub http_only : Bool
  pub same_site : SameSite

-- `cookie(name, value)`
abbrev pub new_cookie : Bytes → Bytes → Cookie
new_cookie name value = record {
  name = name;
  value = value;
  path = [];
  domain = [];
  expires = pos 0;
  max_age = none;
  secure = false;
  http_only = false;
  same_site = lax;
}

-- `std::get_time` on a date that is all zero, `std::mktime` behind it, `std::stoll`, and the clock:
-- the time in so many seconds, and the time.
pub record Clock : Type 0 where
  pub get_time : Bytes → Bytes → Option ℤ
  pub stoll : Bytes → Option ℤ
  pub expires_in : ℤ → ℤ
  pub now : ℤ

-- `trim`
abbrev is_blank : ℕ → Bool
is_blank c = c == b' ' || c == b'\t'

unfoldable pub trim_left : Bytes → Bytes
trim_left [] = []
trim_left (c ∷ cs) = if is_blank c then trim_left cs else c ∷ cs

unfoldable pub trim_right : Bytes → Bytes
trim_right [] = []
trim_right (c ∷ cs) =
    let rest = trim_right cs in if is_blank c && is_empty rest then [] else c ∷ rest

unfoldable pub trim : Bytes → Bytes
unfolding trim_left trim_right
trim s = trim_right (trim_left s)

-- `std::tolower`, in the C locale
unfoldable pub tolower : ℕ → ℕ
tolower c = if within b'A' b'Z' c then c + 32 else c

unfoldable pub iequals : Bytes → Bytes → Bool
unfolding tolower
iequals [] [] = true
iequals (x ∷ xs) (y ∷ ys) = tolower x == tolower y && iequals xs ys
iequals _ _ = false

-- The parts between semicolons, but for empty ones, each trimmed; `current` is what was read of one.
abbrev append_part : Bytes → List Bytes → List Bytes
append_part current parts = if is_empty current then parts else trim current ∷ parts

unfoldable pub split_parts : Bytes → Bytes → List Bytes
unfolding trim
split_parts current [] = append_part current []
split_parts current (c ∷ cs) =
    if c == b';'
    then append_part current (split_parts [] cs)
    else split_parts (current ++ c ∷ []) cs

-- `name.find('=')`, and the two trimmed halves
unfoldable pub halves : Bytes → Option (Bytes × Bytes)
unfolding trim
halves part = elim (split_at b'=' part).1 [
  | [] ↦ none
  | eq ∷ value ↦ some (trim (split_at b'=' part).0, trim value)
]

unfoldable pub read_same_site : Bytes → Cookie → Cookie
unfolding iequals
read_same_site value c =
    if iequals value (codes "Strict")
    then record c { same_site = strict }
    else if iequals value (codes "Lax")
    then record c { same_site = lax }
    else if iequals value (codes "None")
    then record c { same_site = no_policy }
    else c

unfoldable pub read_flag : Bytes → Cookie → Cookie
unfolding iequals
read_flag part c =
    if iequals part (codes "Secure")
    then record c { secure = true }
    else if iequals part (codes "HttpOnly")
    then record c { http_only = true }
    else c

-- `max_age_.has_value() && max_age_.value() <= 0`
abbrev is_over : Option ℤ → Bool
is_over (some (pos zero)) = true
is_over (some (negsuc n)) = true
is_over _ = false

abbrev is_zero : ℤ → Bool
is_zero (pos zero) = true
is_zero _ = false

-- `<`
abbrev before : ℤ → ℤ → Bool
before (pos m) (pos n) = ltb m n
before (pos m) (negsuc n) = false
before (negsuc m) (pos n) = true
before (negsuc m) (negsuc n) = ltb n m

module _ (clock : Clock) where
  -- The three formats of `parse_http_date`.
  unfoldable pub parse_http_date : Bytes → ℤ
  parse_http_date date = elim (clock.get_time (codes "%a, %d %b %Y %H:%M:%S") date) [
    | some t ↦ t
    | none ↦ (elim (clock.get_time (codes "%a, %d-%b-%y %H:%M:%S") date) [
      | some t ↦ t
      | none ↦ (elim (clock.get_time (codes "%a %b %d %H:%M:%S %Y") date) [
        | some t ↦ t
        | none ↦ pos 0
      ])
    ])
  ]

  unfoldable pub read_max_age : Bytes → Cookie → Cookie
  read_max_age value c = elim (clock.stoll value) [
    | none ↦ c
    | some age ↦ record c { max_age = some age; expires = clock.expires_in age }
  ]

  unfoldable pub read_attribute : Bytes → Bytes → Cookie → Cookie
  unfolding iequals parse_http_date read_max_age read_same_site
  read_attribute name value c =
      if iequals name (codes "Path")
      then record c { path = value }
      else if iequals name (codes "Domain")
      then record c { domain = value }
      else if iequals name (codes "Expires")
      then record c { expires = parse_http_date value }
      else if iequals name (codes "Max-Age")
      then read_max_age value c
      else if iequals name (codes "SameSite")
      then read_same_site value c
      else c

  unfoldable pub read_part : Bytes → Cookie → Cookie
  unfolding halves read_attribute read_flag trim
  read_part part c = elim (halves part) [
    | none ↦ read_flag (trim part) c
    | some (name, value) ↦ read_attribute name value c
  ]

  unfoldable pub read_parts : List Bytes → Cookie → Cookie
  unfolding read_part
  read_parts [] c = c
  read_parts (part ∷ parts) c = read_parts parts (read_part part c)

  unfoldable pub parse_first : List Bytes → Cookie
  unfolding halves read_parts
  parse_first [] = new_cookie [] []
  parse_first (first ∷ parts) = elim (halves first) [
    | none ↦ new_cookie [] []
    | some (name, value) ↦ read_parts parts (new_cookie name value)
  ]

  unfoldable pub parse : Bytes → Cookie
  unfolding split_parts parse_first
  parse text = parse_first (split_parts [] text)

  unfoldable pub is_expired : Cookie → Bool
  is_expired c =
      if is_over c.max_age
      then true
      else if is_zero c.expires
      then false
      else before c.expires clock.now

unfoldable pub is_valid : Cookie → Bool
is_valid c = if is_empty c.name then false else true
