-- ===== src/Client/HttpClient/Bounds.antt =====
-- The redirects end, and there are no more of them than the client allows.
use mathlib.Core.Path.{subst}
use thinger_http.Common.{
  ℕ, zero, suc, ◌+◌, ◌-◌, ◌≤◌, ◌<◌, ◌≡◌, refl, ap, ◌∙◌, true, Option, none, some, [], length,
  if_elim, arith,
}
use thinger_http.Boost.{Boost}
use thinger_http.Libraries.{UriRegex}
use thinger_http.Message.Response.{Response}
use thinger_http.Client.Cookie.{Clock}
use thinger_http.Client.HttpClient.{
  Network, Client, ClientRequest, Settings, follows, redirect_request, get_or_create_connection,
  send_once, on_response, send_with_redirects, send,
}
use thinger_http.Client.HttpClient.Connections.{get_or_create_connection-KeepsClient}

module _ {N : Type 0} where
  -- A result, with at most so many requests sent since the client was `client`.
  pub record Ends (limit : ℕ) (client : Client N) (o : Option (Option Response × Client N))
      : Type 0 where
    pub response : Option Response
    pub after : Client N
    pub is : o ≡ some (response, after)
    pub bound : length after.sent ≤ length client.sent + limit

abbrev Sender : Type 0 → Type 0
Sender N = ℕ → ClientRequest → ℕ → Client N → Option (Option Response × Client N)

-- From `count` redirects on, a client that allows `max` sends at most so many requests.
abbrev EndsFrom : {N : Type 0} → ℕ → ℕ → Sender N → Type 0
EndsFrom {N} max count again =
    (from : ClientRequest) (c : ℕ) (client : Client N)
    → client.settings.max_redirects ≡ max
    → count ≤ max
    → Ends (max - count + 1) client (again count from c client)

follows_count :
    ⦃b : Boost⦄ (s : Settings) (count : ℕ) (r : Response)
    → follows s count r ≡ true
    → count < s.max_redirects
unfolding follows
follows_count s count r h = ground arith

module _ ⦃b : Boost⦄ ⦃u : UriRegex⦄ {N : Type 0} ⦃n : Network N⦄ (clock : Clock) where
  on_response-Ends :
      (again : Sender N) (count : ℕ) (from : ClientRequest) (client next : Client N)
      (o : Option Response)
      → next.settings ≡ client.settings
      → length next.sent ≡ suc (length client.sent)
      → (count < client.settings.max_redirects
          → EndsFrom client.settings.max_redirects (count + 1) again)
      → Ends
          (client.settings.max_redirects - count + 1)
          client
          (on_response clock again from count (o, next))
  unfolding on_response
  on_response-Ends again count from client next none same one later = record {
    response = none;
    after = next;
    is = refl;
    bound = omega (arith, one);
  }
  on_response-Ends again count from client next (some response) same one later =
      let r = redirect_request next.settings clock from response in
      let (c, ready) = get_or_create_connection r next in
      let keeps = get_or_create_connection-KeepsClient r next in
      let max = ap (λ (s : Settings). s.max_redirects) (keeps.settings ∙ same) in
      let again_max = ap (λ (s : Settings). s.max_redirects) same in
      let from_next : ClientRequest = record { http = r; cookies = [] } in
      if_elim (Ends (client.settings.max_redirects - count + 1) client)
        (follows next.settings count response) (again (count + 1) from_next c ready)
        (some (some response, next))
        (λ e.
          let less : count < client.settings.max_redirects =
            omega (arith, follows_count next.settings count response e, again_max) in
          let rest = later less from_next c ready max (omega arith) in
          record {
            response = rest.response;
            after = rest.after;
            is = rest.is;
            bound = omega (arith, max, rest.bound, ap length keeps.sent, one);
          })
        (λ e. record {
          response = some response;
          after = next;
          is = refl;
          bound = omega (arith, one);
        })

  send_with_redirects-Ends :
      (fuel count max : ℕ)
      → max < fuel + count
      → EndsFrom {N = N} max count (send_with_redirects clock fuel)
  unfolding send_with_redirects send_once
  send_with_redirects-Ends zero count max enough from c client same le = absurd (omega arith)
  send_with_redirects-Ends (suc fuel) count max enough from c client same le =
      let (response, next) = send_once c from.http client in
      subst
        (λ m.
          Ends (m - count + 1) client (send_with_redirects clock (suc fuel) count from c client))
        same
        (on_response-Ends (send_with_redirects clock fuel) count from client next response refl refl
          (λ less.
            send_with_redirects-Ends fuel (count + 1) client.settings.max_redirects
              (omega (arith, same))))

  -- On any fuel above the number of redirects that are allowed, sending a request ends, whatever
  -- the network answers, and at most one request more than that number is sent.
  pub send-Ends :
      (fuel : ℕ) (r : ClientRequest) (client : Client N)
      → client.settings.max_redirects < fuel
      → Ends (client.settings.max_redirects + 1) client (send clock fuel r client)
  unfolding send
  send-Ends fuel r client enough =
      let (c, ready) = get_or_create_connection r.http client in
      let keeps = get_or_create_connection-KeepsClient r.http client in
      let max = client.settings.max_redirects in
      let rest =
        send_with_redirects-Ends fuel 0 max (omega arith) r c ready
          (ap (λ (s : Settings). s.max_redirects) keeps.settings) (omega arith) in
      record {
        response = rest.response;
        after = rest.after;
        is = rest.is;
        bound = omega (arith, rest.bound, ap length keeps.sent);
      }
