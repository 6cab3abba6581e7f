-- ===== src/Client/ConnectionPool/Refinement.antt =====
-- The pool against a map, over the interleavings of the calls of several threads.
use thinger_http.Common.{
  ℕ, ◌≡◌, refl, ◌∙◌, Bool, true, Option, none, some, [], if◌then◌else◌, arith,
}
use thinger_http.Client.ConnectionPool.{
  Key, Pool, key_eq, find, look_up, drop_expired, get_connection, store_connection, cleanup_expired,
  clear,
}
use thinger_http.Client.ConnectionPool.Laws.{
  IsUnique, lock, find-store_connection, store_connection-IsUnique, drop_expired-IsUnique,
  lock-drop_expired, lock-cleanup_expired, cleanup_expired-IsUnique,
}

-- The connection last stored for each key since the last `clear`, whether it still exists or not.
abbrev pub Stored : Type 0
Stored = Key → Option ℕ

abbrev pub put : Key → ℕ → Stored → Stored
put k c m = λ j. if key_eq k j then some c else m j

-- What threads that use one pool can bring it to, under any interleaving of the parts that hold the
-- lock, with the connections that are not destroyed (those not yet made count as alive). The
-- first part of `get_connection_impl` changes nothing; its second may run at any time.
pub data Trace : (ℕ → Bool) → Pool → Stored → Type 0 where
  start : {alive : ℕ → Bool} → Trace alive [] (λ k. none)
  died :
      {alive : ℕ → Bool} {pool : Pool} {m : Stored} (left : ℕ → Bool)
      → ((c : ℕ) → left c ≡ true → alive c ≡ true)
      → Trace alive pool m
      → Trace left pool m
  stored :
      {alive : ℕ → Bool} {pool : Pool} {m : Stored} (k : Key) (c : ℕ)
      → Trace alive pool m
      → Trace alive (store_connection k (some c) pool) (put k c m)
  dropped :
      {alive : ℕ → Bool} {pool : Pool} {m : Stored} (k : Key)
      → Trace alive pool m
      → Trace alive (drop_expired alive k pool) m
  cleaned :
      {alive : ℕ → Bool} {pool : Pool} {m : Stored}
      → Trace alive pool m
      → Trace alive (cleanup_expired alive pool).0 m
  cleared :
      {alive : ℕ → Bool} {pool : Pool} {m : Stored}
      → Trace alive pool m
      → Trace alive (clear alive pool).0 (λ k. none)

pub Trace-IsUnique :
    {alive : ℕ → Bool} {pool : Pool} {m : Stored} → Trace alive pool m → IsUnique pool
unfolding clear
Trace-IsUnique start = tt
Trace-IsUnique (died left h t) = Trace-IsUnique t
Trace-IsUnique (stored {pool = pool} k c t) =
    store_connection-IsUnique k (some c) pool (Trace-IsUnique t)
Trace-IsUnique (dropped {alive = alive} {pool = pool} k t) =
    drop_expired-IsUnique alive k pool (Trace-IsUnique t)
Trace-IsUnique (cleaned {alive = alive} {pool = pool} t) =
    cleanup_expired-IsUnique alive pool (Trace-IsUnique t)
Trace-IsUnique (cleared t) = tt

lock_later :
    (alive left : ℕ → Bool) (o p : Option ℕ)
    → ((c : ℕ) → left c ≡ true → alive c ≡ true)
    → lock alive o ≡ lock alive p
    → lock left o ≡ lock left p
lock_later alive left none none h e = refl
lock_later alive left none (some d) h e = ground (arith, h d)
lock_later alive left (some c) none h e = ground (arith, h c)
lock_later alive left (some c) (some d) h e = ground (arith, h c, h d)

Trace-lock :
    {alive : ℕ → Bool} {pool : Pool} {m : Stored} (j : Key)
    → Trace alive pool m
    → lock alive (find j pool) ≡ lock alive (m j)
unfolding find clear
Trace-lock j start = refl
Trace-lock j (died {alive = alive} {pool = pool} {m = m} left h t) =
    lock_later alive left (find j pool) (m j) h (Trace-lock j t)
Trace-lock j (stored {alive = alive} {pool = pool} k c t) =
    ground (arith, find-store_connection k j c pool (Trace-IsUnique t), Trace-lock j t)
Trace-lock j (dropped {alive = alive} {pool = pool} k t) =
    lock-drop_expired alive k j pool (Trace-IsUnique t) ∙ Trace-lock j t
Trace-lock j (cleaned {alive = alive} {pool = pool} t) =
    lock-cleanup_expired alive j pool (Trace-IsUnique t) ∙ Trace-lock j t
Trace-lock j (cleared t) = refl

get_connection-lock :
    (alive : ℕ → Bool) (k : Key) (pool : Pool)
    → (get_connection alive k pool).0 ≡ lock alive (find k pool)
unfolding get_connection look_up
get_connection-lock alive k pool = ground arith

-- After any interleaving of the locked parts of the calls of several threads, with connections that
-- are destroyed in between (`Trace`), a lookup gives the connection that was last stored for its
-- key since the last `clear`, if it still exists, and nothing otherwise; and no two entries of the
-- pool have the same key.
pub get_connection-Trace :
    {alive : ℕ → Bool} {pool : Pool} {m : Stored} (k : Key)
    → Trace alive pool m
    → ((get_connection alive k pool).0 ≡ lock alive (m k)) × IsUnique pool
get_connection-Trace {alive} {pool} k t =
    (get_connection-lock alive k pool ∙ Trace-lock k t, Trace-IsUnique t)
