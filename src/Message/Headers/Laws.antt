-- ===== src/Message/Headers/Laws.antt =====
-- Lookups behind the operations on the header list.
use thinger_http.Common.{
  ◌≡◌, refl, ◌≢◌, true, false, List, [], ◌∷◌, ◌++◌, if◌then◌else◌, Bytes, is_empty, not, append-nil,
  arith,
}
use mathlib.Core.List.{tail}
use thinger_http.Boost.{Boost, IsEquivalence}
use thinger_http.Message.Headers.{
  Headers, HttpHeader, has_key, get_value, values_with_key, set_value, erase_key, get_header,
  get_headers_with_key, set_header, remove_header,
}

module _ ⦃b : Boost⦄ (eq : IsEquivalence b) where
  open eq use {iequals_refl, iequals_symm, iequals_trans}

  get_value-set_value :
      (key other value : Bytes) (hs : List HttpHeader)
      → has_key key hs ≡ true
      → get_value other (set_value key value hs)
        ≡ (if b.iequals key other then value else get_value other hs)
  unfolding get_value set_value has_key
  get_value-set_value key other value [] h = cc
  get_value-set_value key other value ((j, v) ∷ hs) h = ground (
    arith,
    get_value-set_value key other value hs,
    iequals_symm j key,
    iequals_symm key other,
    iequals_trans key j other,
    iequals_trans j key other,
    iequals_trans j other key,
  )

  get_value-append :
      (key other value : Bytes) (hs : List HttpHeader)
      → has_key key hs ≡ false
      → get_value other (hs ++ (key, value) ∷ [])
        ≡ (if b.iequals key other then value else get_value other hs)
  unfolding get_value has_key
  get_value-append key other value [] h = refl
  get_value-append key other value ((j, v) ∷ hs) h = ground (
    arith,
    get_value-append key other value hs,
    iequals_symm key other,
    iequals_trans j other key,
  )

  -- Where equality up to case is an equivalence and the key is not empty, after `set_header` every
  -- key equal to it up to case has the new value, and every other lookup is unchanged.
  pub get_header-set_header :
      (key other value : Bytes) (h : Headers)
      → key ≢ []
      → get_header other (set_header key value h)
        ≡ (if b.iequals key other then value else get_header other h)
  unfolding get_header set_header
  get_header-set_header key other value h ne = ground (
    arith,
    get_value-set_value key other value h.headers,
    get_value-append key other value h.headers,
  )

  values-append :
      (key : Bytes) (xs ys : List HttpHeader)
      → values_with_key key (xs ++ ys) ≡ values_with_key key xs ++ values_with_key key ys
  unfolding values_with_key
  values-append key [] ys = refl
  values-append key ((j, v) ∷ xs) ys = ground (arith, values-append key xs ys)

  values_of_other :
      (key other value : Bytes)
      → b.iequals key other ≡ false
      → values_with_key other ((key, value) ∷ []) ≡ []
  unfolding values_with_key
  values_of_other key other value d = ground arith

  values-set_value :
      (key other value : Bytes) (hs : List HttpHeader)
      → b.iequals key other ≡ false
      → values_with_key other (set_value key value hs) ≡ values_with_key other hs
  unfolding values_with_key set_value
  values-set_value key other value [] d = refl
  values-set_value key other value ((j, v) ∷ hs) d =
      ground
        (arith, values-set_value key other value hs, iequals_symm j key, iequals_trans key j other)

  values-erase_key :
      (key other : Bytes) (hs : List HttpHeader)
      → values_with_key other (erase_key key hs) ≡ (
          if b.iequals key other then tail (values_with_key other hs) else values_with_key other hs)
  unfolding values_with_key erase_key
  values-erase_key key other [] = ground arith
  values-erase_key key other ((j, v) ∷ hs) = ground (
    arith,
    values-erase_key key other hs,
    iequals_symm j key,
    iequals_symm key other,
    iequals_trans key j other,
    iequals_trans j key other,
    iequals_trans j other key,
  )

  has_key-values :
      (key : Bytes) (hs : List HttpHeader)
      → has_key key hs ≡ not (is_empty (values_with_key key hs))
  unfolding has_key values_with_key
  has_key-values key [] = refl
  has_key-values key ((j, v) ∷ hs) = ground (arith, has_key-values key hs)

  -- Where equality up to case is an equivalence, `remove_header` takes away the first value of the
  -- key, says whether there was one, and leaves the values of every other key.
  pub get_headers_with_key-remove_header :
      (key other : Bytes) (h : Headers)
      → (get_headers_with_key other (remove_header key h).0 ≡ (
          if b.iequals key other
          then tail (get_headers_with_key other h)
          else get_headers_with_key other h))
        × ((remove_header key h).1 ≡ not (is_empty (get_headers_with_key key h)))
  unfolding get_headers_with_key remove_header
  get_headers_with_key-remove_header key other h =
      (values-erase_key key other h.headers, has_key-values key h.headers)

  -- Where equality up to case is an equivalence, `set_header` keeps all the values of every key
  -- that is not equal to its own up to case.
  pub get_headers_with_key-set_header :
      (key other value : Bytes) (h : Headers)
      → b.iequals key other ≡ false
      → get_headers_with_key other (set_header key value h) ≡ get_headers_with_key other h
  unfolding get_headers_with_key set_header
  get_headers_with_key-set_header key other value h d = ground (
    arith,
    values-set_value key other value h.headers,
    values-append other h.headers ((key, value) ∷ []),
    values_of_other key other value d,
    append-nil (values_with_key other h.headers),
  )
