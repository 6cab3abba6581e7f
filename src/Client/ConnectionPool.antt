-- ===== src/Client/ConnectionPool.antt =====
-- thinger/http/client/connection_pool.{hpp,cpp}: the pool of client connections. A connection is
-- named by a number and an entry holds it weakly: `alive` says which connections still exist when an
-- operation runs. The entries stand in the order of the sequenced index. Each function is what runs
-- under one lock, so that a call of another thread may run between two of them.
pub mod Laws
pub mod Refinement
use thinger_http.Common.{
  ℕ, suc, Bool, true, false, not, ◌&&◌, Option, none, some, List, [], ◌∷◌, ◌++◌, ◌==◌,
  if◌then◌else◌, length, Bytes, bytes_eq,
}

pub record Key : Type 0 where
  pub host : Bytes
  pub port : ℕ
  pub ssl : Bool
  pub unix_path : Bytes

pub record ConnectionEntry : Type 0 where
  pub key : Key
  pub connection : ℕ

abbrev pub Pool : Type 0
Pool = List ConnectionEntry

abbrev pub bool_eq : Bool → Bool → Bool
bool_eq true b = b
bool_eq false b = not b

-- The equality of `composite_key`.
unfoldable pub key_eq : Key → Key → Bool
unfolding bytes_eq
key_eq k j =
    bytes_eq k.host j.host
    && k.port == j.port
    && bool_eq k.ssl j.ssl
    && bytes_eq k.unix_path j.unix_path

-- `find` and `erase` of the index by key
unfoldable pub find : Key → Pool → Option ℕ
find k [] = none
find k (e ∷ es) = let rest = find k es in if key_eq e.key k then some e.connection else rest

unfoldable pub erase : Key → Pool → Pool
erase k [] = []
erase k (e ∷ es) = let rest = erase k es in if key_eq e.key k then es else e ∷ rest

-- What the first part of `get_connection_impl` finds, under the shared lock.
pub data Found : Type 0 where
  live : ℕ → Found
  missing expired : Found

unfoldable pub look_up : (ℕ → Bool) → Key → Pool → Found
unfolding find
look_up alive k pool = elim (find k pool) [
  | none ↦ missing
  | some c ↦ if alive c then live c else expired
]

-- The second part, under the exclusive lock.
unfoldable pub drop_expired : (ℕ → Bool) → Key → Pool → Pool
unfolding find erase
drop_expired alive k pool = elim (find k pool) [
  | none ↦ pool
  | some c ↦ if alive c then pool else erase k pool
]

-- `get_connection_impl`, with no other call between its parts.
unfoldable pub get_connection : (ℕ → Bool) → Key → Pool → Option ℕ × Pool
unfolding look_up drop_expired
get_connection alive k pool = elim (look_up alive k pool) [
  | live c ↦ (some c, pool)
  | missing ↦ (none, pool)
  | expired ↦ (none, drop_expired alive k pool)
]

-- `store_connection_impl`
unfoldable pub store_connection : Key → Option ℕ → Pool → Pool
unfolding erase
store_connection k none pool = pool
store_connection k (some c) pool = erase k pool ++ (record { key = k; connection = c } ∷ [])

-- The loop of `cleanup_expired`, with the number of entries removed.
unfoldable pub cleanup_expired : (ℕ → Bool) → Pool → Pool × ℕ
cleanup_expired alive [] = ([], 0)
cleanup_expired alive (e ∷ es) =
    let (kept, removed) = cleanup_expired alive es in
    if alive e.connection then (e ∷ kept, removed) else (kept, suc removed)

-- The connections that `clear` closes, in order, before the pool is empty.
unfoldable pub close_all : (ℕ → Bool) → Pool → List ℕ
close_all alive [] = []
close_all alive (e ∷ es) =
    let rest = close_all alive es in if alive e.connection then e.connection ∷ rest else rest

unfoldable pub clear : (ℕ → Bool) → Pool → Pool × List ℕ
unfolding close_all
clear alive pool = ([], close_all alive pool)

-- `size`
unfoldable pub size : Pool → ℕ
size pool = length pool
