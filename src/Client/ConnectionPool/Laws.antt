-- ===== src/Client/ConnectionPool/Laws.antt =====
-- Lookups in the pool, and that it holds one entry per key.
use thinger_http.Common.{
  ℕ, ◌+◌, ◌≡◌, ◌↔◌, refl, ap, sym, ◌∙◌, Bool, true, Option, none, some, [], ◌∷◌, ◌++◌,
  if◌then◌else◌, bytes_eq_iff, All, arith,
}
use thinger_http.Client.ConnectionPool.{
  Key, ConnectionEntry, Pool, key_eq, find, erase, drop_expired, store_connection, cleanup_expired,
  close_all, size,
}

key_eq_refl : (k : Key) → key_eq k k ≡ true
unfolding key_eq
key_eq_refl k =
    ground
      (arith, (bytes_eq_iff k.host k.host).1 refl, (bytes_eq_iff k.unix_path k.unix_path).1 refl)

key_eq_path : (k j : Key) → key_eq k j ≡ true → k ≡ j
unfolding key_eq
key_eq_path k j h =
    ground (arith, (bytes_eq_iff k.host j.host).0, (bytes_eq_iff k.unix_path j.unix_path).0)

-- No two entries have the same key.
abbrev pub IsUnique : Pool → Type 0
IsUnique [] = Unit
IsUnique (e ∷ es) = (find e.key es ≡ none) × IsUnique es

-- What a weak pointer gives.
abbrev pub lock : (ℕ → Bool) → Option ℕ → Option ℕ
lock alive none = none
lock alive (some c) = if alive c then some c else none

pub key_eq_iff : (k j : Key) → (key_eq k j ≡ true) ↔ (k ≡ j)
key_eq_iff k j = (key_eq_path k j, λ e. ap (key_eq k) (sym e) ∙ key_eq_refl k)

find-erase :
    (k j : Key) (pool : Pool)
    → IsUnique pool
    → find j (erase k pool) ≡ (if key_eq k j then none else find j pool)
unfolding find erase
find-erase k j [] u = ground arith
find-erase k j (e ∷ es) (first, u) =
    ground (arith, find-erase k j es u, key_eq_iff e.key k, key_eq_iff e.key j, key_eq_iff k j)

pub erase-IsUnique : (k : Key) (pool : Pool) → IsUnique pool → IsUnique (erase k pool)
unfolding erase
erase-IsUnique k [] u = tt
erase-IsUnique k (e ∷ es) (first, u) =
    ground (arith, erase-IsUnique k es u, find-erase k e.key es u)

find-append :
    (j : Key) (e : ConnectionEntry) (pool : Pool)
    → find j (pool ++ e ∷ []) ≡ elim (find j pool) [
      | none ↦ if key_eq e.key j then some e.connection else none
      | some c ↦ some c
    ]
unfolding find
find-append j e [] = ground arith
find-append j e (d ∷ pool) = ground (arith, find-append j e pool)

append-IsUnique :
    (e : ConnectionEntry) (pool : Pool)
    → IsUnique pool
    → find e.key pool ≡ none
    → IsUnique (pool ++ e ∷ [])
unfolding find
append-IsUnique e [] u new = (refl, tt)
append-IsUnique e (d ∷ pool) (first, u) new = ground (
  arith,
  append-IsUnique e pool u,
  find-append d.key e pool,
  key_eq_iff e.key d.key,
  key_eq_iff d.key e.key,
)

-- What is found after a connection has been stored.
pub find-store_connection :
    (k j : Key) (c : ℕ) (pool : Pool)
    → IsUnique pool
    → find j (store_connection k (some c) pool) ≡ (if key_eq k j then some c else find j pool)
unfolding store_connection
find-store_connection k j c pool u = ground (
  arith,
  find-append j (record { key = k; connection = c }) (erase k pool),
  find-erase k j pool u,
)

pub store_connection-IsUnique :
    (k : Key) (o : Option ℕ) (pool : Pool) → IsUnique pool → IsUnique (store_connection k o pool)
unfolding store_connection
store_connection-IsUnique k none pool u = u
store_connection-IsUnique k (some c) pool u =
    append-IsUnique (record { key = k; connection = c }) (erase k pool) (erase-IsUnique k pool u)
      (find-erase k k pool u ∙ rw (key_eq_refl k) refl)

pub drop_expired-IsUnique :
    (alive : ℕ → Bool) (k : Key) (pool : Pool)
    → IsUnique pool
    → IsUnique (drop_expired alive k pool)
unfolding drop_expired
drop_expired-IsUnique alive k pool u = ground (arith, erase-IsUnique k pool u)

-- An expired entry is not seen by a lookup, so dropping it changes none.
pub lock-drop_expired :
    (alive : ℕ → Bool) (k j : Key) (pool : Pool)
    → IsUnique pool
    → lock alive (find j (drop_expired alive k pool)) ≡ lock alive (find j pool)
unfolding drop_expired
lock-drop_expired alive k j pool u = ground (arith, find-erase k j pool u, key_eq_iff k j)

find-cleanup_expired :
    (alive : ℕ → Bool) (j : Key) (pool : Pool)
    → IsUnique pool
    → find j (cleanup_expired alive pool).0 ≡ lock alive (find j pool)
unfolding find cleanup_expired
find-cleanup_expired alive j [] u = refl
find-cleanup_expired alive j (e ∷ es) (first, u) =
    ground (arith, find-cleanup_expired alive j es u, key_eq_iff e.key j)

pub lock-cleanup_expired :
    (alive : ℕ → Bool) (j : Key) (pool : Pool)
    → IsUnique pool
    → lock alive (find j (cleanup_expired alive pool).0) ≡ lock alive (find j pool)
lock-cleanup_expired alive j pool u = ground (arith, find-cleanup_expired alive j pool u)

pub cleanup_expired-IsUnique :
    (alive : ℕ → Bool) (pool : Pool) → IsUnique pool → IsUnique (cleanup_expired alive pool).0
unfolding cleanup_expired
cleanup_expired-IsUnique alive [] u = tt
cleanup_expired-IsUnique alive (e ∷ es) (first, u) =
    ground (arith, cleanup_expired-IsUnique alive es u, find-cleanup_expired alive e.key es u)

-- The clean-up returns the number of entries that are gone, none of those left has expired, and a
-- `clear` behind it closes the same connections as one before it.
pub size-cleanup_expired :
    (alive : ℕ → Bool) (pool : Pool)
    → let (kept, removed) = cleanup_expired alive pool in
      (size kept + removed ≡ size pool)
      × All (λ e. alive e.connection ≡ true) kept
      × (close_all alive kept ≡ close_all alive pool)
unfolding cleanup_expired size close_all
size-cleanup_expired alive [] = (refl, tt, refl)
size-cleanup_expired alive (e ∷ es) = ground (arith, size-cleanup_expired alive es)
