-- ===== src/Tests/Cookies.antt =====
-- A cookie store at concrete inputs.
use thinger_http.Common.{◌≡◌, refl, true, false, none, [], ◌∷◌, Bytes, codes}
use thinger_http.Message.Headers.{Headers, new_headers}
use thinger_http.Util.Url.{split_at}
use thinger_http.Client.Cookie.{pos, Cookie, Clock, new_cookie, parse, is_valid}
use thinger_http.Client.CookieStore.{
  CookieStore, set_cookie, get_cookie, has_cookie, remove_cookie, update_from_headers,
}
use thinger_http.Client.CookieStore.Lookups.{
  latest, some_valid, cookies_said, or_else, get_cookie-update_from_headers,
}
use thinger_http.Client.CookieStore.Keys.{IsStore, operations-IsStore}
use thinger_http.Tests.Ascii.{ascii}

-- A clock that knows no dates.
abbrev pub clock : Clock
clock = record {
  get_time = λ format date. none;
  stoll = λ digits. none;
  expires_in = λ seconds. seconds;
  now = pos 0;
}

abbrev session : Cookie
session = new_cookie (codes "id") (codes "7")

abbrev store : CookieStore
store = (codes "id", session) ∷ []

abbrev received : Headers
received = record new_headers {
  headers = (codes "Set-Cookie", codes "id=8; Secure") ∷ (codes "Set-Cookie", codes " =x") ∷ [];
}

parse_text :
    parse clock (codes " id = 8 ; secure;PATH=/a")
    ≡ record (new_cookie (codes "id") (codes "8")) { path = codes "/a"; secure = true }
unfolding parse split_at
parse_text = refl

get_cookie-update_from_headers_example :
    ((update_from_headers ⦃b = ascii⦄ clock received store).1
      ≡ some_valid (cookies_said ⦃b = ascii⦄ clock received.headers))
    × ((name : Bytes)
        → get_cookie name (update_from_headers ⦃b = ascii⦄ clock received store).0
          ≡ or_else
              (latest name (cookies_said ⦃b = ascii⦄ clock received.headers))
              (get_cookie name store))
get_cookie-update_from_headers_example =
    get_cookie-update_from_headers ⦃b = ascii⦄ clock received store

store-IsStore : IsStore store
unfolding is_valid has_cookie
store-IsStore = (refl, refl, refl, tt)

operations-IsStore_example :
    ((c : Cookie) → IsStore (set_cookie c store))
    × ((name : Bytes)
        → IsStore (remove_cookie name store) × (has_cookie name (remove_cookie name store) ≡ false))
    × ((h : Headers) → IsStore (update_from_headers ⦃b = ascii⦄ clock h store).0)
operations-IsStore_example = operations-IsStore ⦃b = ascii⦄ clock store store-IsStore
