-- ===== src/Client/HttpClient/Connections.antt =====
-- The connection that a request is given.
use thinger_http.Common.{
  ℕ, ◌≡◌, refl, ap, ◌∙◌, Bool, true, Option, none, some, if_elim, if_true, arith,
}
use thinger_http.Message.Request.{Request}
use thinger_http.Client.ConnectionPool.{
  Pool, find, get_connection, look_up, store_connection, key_eq,
}
use thinger_http.Client.ConnectionPool.Laws.{
  IsUnique, find-store_connection, drop_expired-IsUnique, store_connection-IsUnique, key_eq_iff,
}
use thinger_http.Client.HttpClient.{
  Network, Client, key_of, reuse_or_connect, get_or_create_connection,
}

find-get_connection :
    (alive : ℕ → Bool) (r : Request) (pool : Pool) (c : ℕ)
    → (get_connection alive (key_of r) pool).0 ≡ some c
    → (find (key_of r) pool ≡ some c)
      × (alive c ≡ true)
      × ((get_connection alive (key_of r) pool).1 ≡ pool)
unfolding get_connection look_up
find-get_connection alive r pool c h = ground arith

get_connection-IsUnique :
    (alive : ℕ → Bool) (r : Request) (pool : Pool)
    → IsUnique pool
    → IsUnique (get_connection alive (key_of r) pool).1
unfolding get_connection
get_connection-IsUnique alive r pool u =
    ground (arith, drop_expired-IsUnique alive (key_of r) pool u)

module _ {N : Type 0} ⦃n : Network N⦄ where
  -- What both ways keep.
  pub record KeepsClient (before after : Client N) : Type 0 where
    pub settings : after.settings ≡ before.settings
    pub sent : after.sent ≡ before.sent

  reuse_or_connect-KeepsClient :
      (r : Request) (o : Option ℕ × Pool) (client : Client N)
      → KeepsClient client (reuse_or_connect r o client).1
  unfolding reuse_or_connect
  reuse_or_connect-KeepsClient r (none, pool) client = record { settings = refl; sent = refl }
  reuse_or_connect-KeepsClient r (some c, pool) client =
      if_elim (λ (p : ℕ × Client N). KeepsClient client p.1) (n.is_open client.network c) _ _
        (λ e. record { settings = refl; sent = refl })
        (λ e. record { settings = refl; sent = refl })

  pub get_or_create_connection-KeepsClient :
      (r : Request) (client : Client N) → KeepsClient client (get_or_create_connection r client).1
  unfolding get_or_create_connection
  get_or_create_connection-KeepsClient r client = reuse_or_connect-KeepsClient r _ client

  -- The connection that a request is given, by how it was found.
  pub data Given (r : Request) (client : Client N) (p : ℕ × Client N) : Type 0 where
    reused :
        find (key_of r) client.pool ≡ some p.0
        → n.alive client.network p.0 ≡ true
        → n.is_open client.network p.0 ≡ true
        → p.1 ≡ client
        → Given r client p
    made :
        p.0 ≡ (n.connect r client.network).0
        → find (key_of r) p.1.pool ≡ some p.0
        → Given r client p

  new-Given :
      (r : Request) (client : Client N) (pool : Pool)
      → IsUnique pool
      → let (c, net) = n.connect r client.network in
        Given r client
          (c, record client { pool = store_connection (key_of r) (some c) pool; network = net })
  new-Given r client pool u = made refl (
      find-store_connection (key_of r) (key_of r) _ pool u
      ∙ if_true (key_eq (key_of r) (key_of r)) _ _ ((key_eq_iff (key_of r) (key_of r)).1 refl))

  reuse_or_connect-Given :
      (r : Request) (o : Option ℕ × Pool) (client : Client N)
      → IsUnique o.1
      → ((c : ℕ)
          → o.0 ≡ some c
          → (find (key_of r) client.pool ≡ some c)
            × (n.alive client.network c ≡ true)
            × (o.1 ≡ client.pool))
      → Given r client (reuse_or_connect r o client)
  unfolding reuse_or_connect
  reuse_or_connect-Given r (none, pool) client u found = new-Given r client pool u
  reuse_or_connect-Given r (some c, pool) client u found =
      let (is, alive, same) = found c refl in
      if_elim (Given r client) (n.is_open client.network c) _ _
        (λ opened. reused is alive opened (ap (λ q. record client { pool = q }) same))
        (λ closed. new-Given r client pool u)

  reuse_or_connect-IsUnique :
      (r : Request) (o : Option ℕ × Pool) (client : Client N)
      → IsUnique o.1
      → IsUnique (reuse_or_connect r o client).1.pool
  unfolding reuse_or_connect
  reuse_or_connect-IsUnique r (none, pool) client u =
      store_connection-IsUnique (key_of r) (some (n.connect r client.network).0) pool u
  reuse_or_connect-IsUnique r (some c, pool) client u =
      if_elim (λ (p : ℕ × Client N). IsUnique p.1.pool) (n.is_open client.network c) _ _ (λ e. u)
        (λ e. store_connection-IsUnique (key_of r) (some (n.connect r client.network).0) pool u)

  -- Where no key stands twice in the pool, a request is given the connection that the pool has for
  -- its key, if that exists and is open, and the client is as before; or a new one, which the pool
  -- then has for the key. No key stands twice in the pool afterwards.
  pub get_or_create_connection-Given :
      (r : Request) (client : Client N)
      → IsUnique client.pool
      → Given r client (get_or_create_connection r client)
        × IsUnique (get_or_create_connection r client).1.pool
  unfolding get_or_create_connection
  get_or_create_connection-Given r client u =
      let o = get_connection (n.alive client.network) (key_of r) client.pool in
      let unique = get_connection-IsUnique (n.alive client.network) r client.pool u in
      (
        reuse_or_connect-Given r o client unique
            (λ c e. find-get_connection (n.alive client.network) r client.pool c e),
        reuse_or_connect-IsUnique r o client unique,
      )
