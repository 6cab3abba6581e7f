-- ===== src/Client/CookieStore.antt =====
-- thinger/http/client/cookie_store.{hpp,cpp}: the cookies of a client, by name. The order of the list
-- is the one in which the map is walked, which the code leaves open.
pub mod Lookups
pub mod Keys
use thinger_http.Common.{
  ℕ, Bool, true, false, ◌||◌, Option, none, some, List, [], ◌∷◌, ◌++◌, if◌then◌else◌, length, Bytes,
  codes, bytes_eq, is_empty,
}
use thinger_http.Boost.{Boost}
use thinger_http.Message.Header
use thinger_http.Message.Headers.{Headers, get_headers_with_key}
use thinger_http.Client.Cookie.{Cookie, Clock, new_cookie, parse, is_valid}

abbrev pub CookieStore : Type 0
CookieStore = List (Bytes × Cookie)

-- `cookies_[name] = c`
unfoldable pub assign : Bytes → Cookie → CookieStore → CookieStore
assign name c [] = (name, c) ∷ []
assign name c ((key, d) ∷ s) =
    if bytes_eq key name then (key, c) ∷ s else (key, d) ∷ assign name c s

unfoldable pub set_cookie : Cookie → CookieStore → CookieStore
unfolding assign is_valid
set_cookie c s = if is_valid c then assign c.name c s else s

-- `set_cookie(name, value)`
unfoldable pub set_cookie_value : Bytes → Bytes → CookieStore → CookieStore
unfolding set_cookie
set_cookie_value name value s = set_cookie (new_cookie name value) s

unfoldable pub get_cookie : Bytes → CookieStore → Option Cookie
get_cookie name [] = none
get_cookie name ((key, c) ∷ s) = if bytes_eq key name then some c else get_cookie name s

unfoldable pub has_cookie : Bytes → CookieStore → Bool
has_cookie name [] = false
has_cookie name ((key, c) ∷ s) = if bytes_eq key name then true else has_cookie name s

unfoldable pub remove_cookie : Bytes → CookieStore → CookieStore
remove_cookie name [] = []
remove_cookie name ((key, c) ∷ s) = if bytes_eq key name then s else (key, c) ∷ remove_cookie name s

-- The loop of `get_cookie_string`.
unfoldable pub append_cookies : Bytes → CookieStore → Bytes
append_cookies result [] = result
append_cookies result ((key, c) ∷ s) =
    let pair = c.name ++ b'=' ∷ c.value in
    append_cookies (if is_empty result then pair else result ++ (codes "; " ++ pair)) s

unfoldable pub get_cookie_string : CookieStore → Bytes
unfolding append_cookies
get_cookie_string s = append_cookies [] s

-- The loop of `update_from_headers`, over what the headers say.
unfoldable pub store_all : List Cookie → CookieStore → CookieStore × Bool
unfolding set_cookie
store_all [] s = (s, false)
store_all (c ∷ cs) s =
    let (stored, updated) = store_all cs (set_cookie c s) in (stored, is_valid c || updated)

module _ ⦃b : Boost⦄ (clock : Clock) where
  abbrev pub parse_all : List Bytes → List Cookie
  parse_all [] = []
  parse_all (value ∷ values) = parse clock value ∷ parse_all values

  -- The cookies of the Set-Cookie headers.
  unfoldable pub header_cookies : Headers → List Cookie
  unfolding parse
  header_cookies h = parse_all (get_headers_with_key Header.set_cookie h)

  unfoldable pub update_from_headers : Headers → CookieStore → CookieStore × Bool
  unfolding header_cookies store_all
  update_from_headers h s = store_all (header_cookies h) s
