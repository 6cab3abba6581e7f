-- ===== src/Client/CookieStore/Keys.antt =====
-- What a store always is.
use thinger_http.Common.{
  ◌≡◌, refl, sym, ap, ◌∙◌, true, false, List, [], ◌∷◌, Bytes, bytes_eq, bytes_eq_iff, Bool-cases,
  inl, inr, arith,
}
use thinger_http.Boost.{Boost}
use thinger_http.Message.Headers.{Headers}
use thinger_http.Client.Cookie.{Cookie, Clock, is_valid}
use thinger_http.Client.CookieStore.{
  CookieStore, assign, set_cookie, has_cookie, remove_cookie, store_all, header_cookies,
  update_from_headers,
}

-- Every cookie is valid and stands under its name, and no two have the same name.
abbrev pub IsStore : CookieStore → Type 0
IsStore [] = Unit
IsStore ((key, c) ∷ s) =
    (key ≡ c.name) × (is_valid c ≡ true) × (has_cookie key s ≡ false) × IsStore s

has_cookie-assign :
    (key name : Bytes) (c : Cookie) (s : CookieStore)
    → bytes_eq name key ≡ false
    → has_cookie key s ≡ false
    → has_cookie key (assign name c s) ≡ false
unfolding has_cookie assign
has_cookie-assign key name c [] h k = rw (h) refl
has_cookie-assign key name c ((j, d) ∷ s) h k = elim (Bool-cases (bytes_eq j key)) [
  | inl e ↦ ground (arith, e, k)
  | inr e ↦
      let rest : has_cookie key s ≡ false = ground (arith, e, k) in
      elim (Bool-cases (bytes_eq j name)) [
        | inl f ↦ rw (f, e) rest
        | inr f ↦ rw (f, e) (has_cookie-assign key name c s h rest)
      ]
]

bytes_eq_symm : (xs ys : Bytes) → bytes_eq xs ys ≡ false → bytes_eq ys xs ≡ false
bytes_eq_symm xs ys h = elim (Bool-cases (bytes_eq ys xs)) [
  | inl e ↦
      let same : bytes_eq xs ys ≡ true = (bytes_eq_iff xs ys).1 (sym ((bytes_eq_iff ys xs).0 e)) in
      absurd (ground (arith, same, h))
  | inr e ↦ e
]

assign-IsStore :
    (c : Cookie) (s : CookieStore) → is_valid c ≡ true → IsStore s → IsStore (assign c.name c s)
unfolding assign has_cookie
assign-IsStore c [] v h = (refl, v, refl, tt)
assign-IsStore c ((key, d) ∷ s) v (e, w, fresh, h) = elim (Bool-cases (bytes_eq key c.name)) [
  | inl f ↦ rw (f) ((bytes_eq_iff key c.name).0 f, v, fresh, h)
  | inr f ↦ rw (f) (
    e,
    w,
    has_cookie-assign key c.name c s (bytes_eq_symm key c.name f) fresh,
    assign-IsStore c s v h,
  )
]

set_cookie-IsStore : (c : Cookie) (s : CookieStore) → IsStore s → IsStore (set_cookie c s)
unfolding set_cookie
set_cookie-IsStore c s h = elim (Bool-cases (is_valid c)) [
  | inl e ↦ rw (e) (assign-IsStore c s e h)
  | inr e ↦ rw (e) h
]

store_all-IsStore : (cs : List Cookie) (s : CookieStore) → IsStore s → IsStore (store_all cs s).0
unfolding store_all
store_all-IsStore [] s h = h
store_all-IsStore (c ∷ cs) s h = store_all-IsStore cs (set_cookie c s) (set_cookie-IsStore c s h)

has_cookie-remove_cookie :
    (key name : Bytes) (s : CookieStore)
    → has_cookie key s ≡ false
    → has_cookie key (remove_cookie name s) ≡ false
unfolding has_cookie remove_cookie
has_cookie-remove_cookie key name [] h = refl
has_cookie-remove_cookie key name ((j, d) ∷ s) h = elim (Bool-cases (bytes_eq j key)) [
  | inl e ↦ ground (arith, e, h)
  | inr e ↦
      let rest : has_cookie key s ≡ false = ground (arith, e, h) in
      elim (Bool-cases (bytes_eq j name)) [
        | inl f ↦ rw (f) rest
        | inr f ↦ rw (f, e) (has_cookie-remove_cookie key name s rest)
      ]
]

remove_cookie-IsStore :
    (name : Bytes) (s : CookieStore)
    → IsStore s
    → IsStore (remove_cookie name s) × (has_cookie name (remove_cookie name s) ≡ false)
unfolding has_cookie remove_cookie
remove_cookie-IsStore name [] h = (tt, refl)
remove_cookie-IsStore name ((key, c) ∷ s) (e, v, fresh, h) = elim (Bool-cases (bytes_eq key name)) [
  | inl f ↦ rw (f) (h, ap (λ k. has_cookie k s) (sym ((bytes_eq_iff key name).0 f)) ∙ fresh)
  | inr f ↦
      let (rest, gone) = remove_cookie-IsStore name s h in
      rw (f, f) ((e, v, has_cookie-remove_cookie key name s fresh, rest), gone)
]

-- In a store every cookie is valid and stands under its name, and no two have the same name: so it
-- is after a cookie is set, after one is removed, which is then not found, and after Set-Cookie
-- headers were taken in.
pub operations-IsStore :
    ⦃b : Boost⦄ (clock : Clock) (s : CookieStore)
    → IsStore s
    → ((c : Cookie) → IsStore (set_cookie c s))
      × ((name : Bytes)
          → IsStore (remove_cookie name s) × (has_cookie name (remove_cookie name s) ≡ false))
      × ((h : Headers) → IsStore (update_from_headers clock h s).0)
unfolding update_from_headers
operations-IsStore clock s h = (
  λ c. set_cookie-IsStore c s h,
  λ name. remove_cookie-IsStore name s h,
  λ hs. store_all-IsStore (header_cookies clock hs) s h,
)
