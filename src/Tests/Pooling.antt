-- ===== src/Tests/Pooling.antt =====
-- The connection pool at concrete inputs.
use thinger_http.Common.{
  ℕ, ◌≡◌, refl, Bool, true, false, not, ◌==◌, none, some, [], codes, bytes_eq,
}
use thinger_http.Client.ConnectionPool.{
  Key, Pool, key_eq, find, get_connection, store_connection, drop_expired,
}
use thinger_http.Client.ConnectionPool.Laws.{IsUnique, lock}
use thinger_http.Client.ConnectionPool.Refinement.{
  Trace, start, died, stored, dropped, put, Stored, get_connection-Trace,
}

abbrev local : ℕ → Key
local port = record { host = codes "localhost"; port = port; ssl = false; unix_path = [] }

-- connection 7 has been destroyed
abbrev but_seven : ℕ → Bool
but_seven c = not (c == 7)

abbrev stores : Stored
stores = put (local 80) 9 (put (local 443) 8 (put (local 80) 7 (λ k. none)))

abbrev pool : Pool
pool = store_connection (local 80) (some 9) (
    drop_expired but_seven (local 80)
      (store_connection (local 443) (some 8) (store_connection (local 80) (some 7) [])))

pool-Trace : Trace but_seven pool stores
pool-Trace = stored (local 80) 9 (
    dropped (local 80) (
      died {alive = λ c. true} but_seven (λ c e. refl)
        (stored (local 443) 8 (stored (local 80) 7 start))))

get_connection-Trace_example :
    ((get_connection but_seven (local 80) pool).0 ≡ lock but_seven (stores (local 80)))
    × IsUnique pool
get_connection-Trace_example = get_connection-Trace (local 80) pool-Trace

found : (get_connection but_seven (local 80) pool).0 ≡ some 9
unfolding get_connection find key_eq store_connection drop_expired bytes_eq
found = refl
