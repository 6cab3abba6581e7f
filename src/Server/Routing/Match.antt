-- ===== src/Server/Routing/Match.antt =====
-- The route that a request is given to, and the answer where there is none.
use mathlib.Core.Path.{subst}
use thinger_http.Common.{
  ◌≡◌, ◌≢◌, ◌∙◌, if_elim, refl, sym, if_true, ap, inl, inr, Bool, true, Option, none, some, List,
  [], ◌∷◌, ◌++◌, Bytes, All, Option-cases,
}
use thinger_http.Boost.{Boost}
use thinger_http.Libraries.{Regex, Zlib}
use thinger_http.Message.Status.{Status, not_allowed, not_found}
use thinger_http.Message.Method.{Method}
use thinger_http.Message.Request.{get_path}
use thinger_http.Server.Exchange.{Exchange, request_of}
use thinger_http.Server.Responder.{text_plain}
use thinger_http.Server.Responder.Answers.{IsAnswered, status_send-IsAnswered}
use thinger_http.Server.Routing.{
  Route, Routes, Router, same_method, returned, matches, method_routes, accept_route, first_match,
  or_match, find_route, unmatched_status, send_error_response, reject_unmatched, try_fallback,
  handle_unmatched,
}

-- The routes of a method, none where the map has no entry.
abbrev pub or_no_routes : {J : Type 0} → Option (List (Route J)) → List (Route J)
or_no_routes none = []
or_no_routes (some rs) = rs

abbrev pub routes_for : {J : Type 0} → Router J → Exchange → List (Route J)
routes_for router x = or_no_routes (method_routes (request_of x).method router.routes)

module _ ⦃e : Regex⦄ {J : Type 0} where
  -- `r` is the first of `rs` that matches, with these groups.
  pub record IsFirst (path : Bytes) (rs : List (Route J)) (r : Route J)
      (groups : List (Option Bytes)) : Type 0 where
    pub before : List (Route J)
    pub after : List (Route J)
    pub order : rs ≡ before ++ r ∷ after
    pub skipped : All (λ q. matches q path ≡ none) before
    pub taken : matches r path ≡ some groups

  -- Nothing matches, and nothing is changed; or the first that matches is taken.
  pub data Found (path : Bytes) (rs : List (Route J)) (x : Exchange)
      (o : Option (Route J) × Exchange) : Type 0 where
    nothing : All (λ q. matches q path ≡ none) rs → o ≡ (none, x) → Found path rs x o
    first :
        (r : Route J) (groups : List (Option Bytes))
        → IsFirst path rs r groups
        → o ≡ (some r, accept_route r groups x)
        → Found path rs x o

  later_Found :
      {path : Bytes} {q : Route J} {rs : List (Route J)} {x : Exchange}
      {o : Option (Route J) × Exchange}
      → matches q path ≡ none
      → Found path rs x o
      → Found path (q ∷ rs) x o
  later_Found h (nothing skipped same) = nothing (h, skipped) same
  later_Found {q = q} h (first r groups f same) =
      first r groups
        (record {
          before = q ∷ f.before;
          after = f.after;
          order = ap (λ l. q ∷ l) f.order;
          skipped = (h, f.skipped);
          taken = f.taken;
        })
        same

  first_match-Found :
      (path : Bytes) (rs : List (Route J)) (x : Exchange) → Found path rs x (first_match path rs x)
  unfolding first_match or_match
  first_match-Found path [] x = nothing tt refl
  first_match-Found path (r ∷ rs) x = elim (Option-cases (matches r path)) [
    | inl h ↦ rw (h) (later_Found h (first_match-Found path rs x))
    | inr (groups, h) ↦ rw (h) (
        first r groups (record { before = []; after = rs; order = refl; skipped = tt; taken = h })
          refl)
  ]

  -- `find_route` finds nothing and changes nothing where no route of the method matches the path,
  -- or it takes the first of them that does, in the order of registration, and stores what its
  -- groups matched.
  pub find_route-Found :
      (router : Router J) (x : Exchange)
      → Found (get_path (request_of x)) (routes_for router x) x (find_route router x)
  unfolding find_route
  find_route-Found router x =
      elim (Option-cases (method_routes (request_of x).method router.routes)) [
        | inl h ↦ rw (h) (nothing tt refl)
        | inr (rs, h) ↦ rw (h) (first_match-Found (get_path (request_of x)) rs x)
      ]

same_method_refl : (m : Method) → same_method m m ≡ true
same_method_refl Method.get = refl
same_method_refl Method.head = refl
same_method_refl Method.post = refl
same_method_refl Method.put = refl
same_method_refl Method.delete = refl
same_method_refl Method.trace = refl
same_method_refl Method.options = refl
same_method_refl Method.connect = refl
same_method_refl Method.patch = refl
same_method_refl Method.unknown = refl

same_method_sound : (n m : Method) → same_method n m ≡ true → n ≡ m
same_method_sound Method.get Method.get h = refl
same_method_sound Method.head Method.head h = refl
same_method_sound Method.post Method.post h = refl
same_method_sound Method.put Method.put h = refl
same_method_sound Method.delete Method.delete h = refl
same_method_sound Method.trace Method.trace h = refl
same_method_sound Method.options Method.options h = refl
same_method_sound Method.connect Method.connect h = refl
same_method_sound Method.patch Method.patch h = refl
same_method_sound Method.unknown Method.unknown h = refl
same_method_sound _ _ h = cc

-- The routes of a method that the map does not have, and of one that it has.
method_routes-none :
    {J : Type 0} (m : Method) (routes : Routes J)
    → All (λ entry. entry.0 ≢ m) routes
    → method_routes m routes ≡ none
unfolding method_routes
method_routes-none m [] all = refl
method_routes-none m ((n, rs) ∷ routes) (other, all) =
    if_elim (λ t. t ≡ none) (same_method n m) (some rs) (method_routes m routes)
      (λ e. absurd (other (same_method_sound n m e))) (λ e. method_routes-none m routes all)

method_routes-there :
    {J : Type 0} (m : Method) (before after : Routes J) (rs : List (Route J))
    → unmatched_status (method_routes m (before ++ (m, rs) ∷ after)) ≡ not_found
unfolding method_routes
method_routes-there m [] after rs = rw (same_method_refl m) refl
method_routes-there m ((n, qs) ∷ before) after rs =
    if_elim (λ t. unmatched_status t ≡ not_found) (same_method n m) (some qs)
      (method_routes m (before ++ (m, rs) ∷ after)) (λ e. refl)
      (λ e. method_routes-there m before after rs)

module _ ⦃b : Boost⦄ ⦃z : Zlib⦄ where
  pub send_error_response-IsAnswered :
      (cors : Bool) (s : Status) (x : Exchange)
      → x.connected ≡ true
      → IsAnswered s x (send_error_response cors s x)
  unfolding send_error_response
  send_error_response-IsAnswered cors s x h =
      subst (IsAnswered s x) (sym (if_true x.connected _ x h))
        (status_send-IsAnswered s [] text_plain cors x h)

  reject_unmatched-IsAnswered :
      {J : Type 0} (router : Router J) (x : Exchange) (s : Status)
      → x.connected ≡ true
      → router.fallback_handler ≡ none
      → unmatched_status (method_routes (request_of x).method router.routes) ≡ s
      → (y : Exchange) × (handle_unmatched router x ≡ returned y) × IsAnswered s x y
  unfolding handle_unmatched try_fallback reject_unmatched
  reject_unmatched-IsAnswered router x s h no_fallback is = rw (no_fallback) (
    reject_unmatched router x,
    refl,
    subst (λ t. IsAnswered t x (reject_unmatched router x)) is
        (send_error_response-IsAnswered router.cors_enabled
          (unmatched_status (method_routes (request_of x).method router.routes)) x h),
  )

  -- Where the connection is there and no fallback is set, a request that no route takes is answered
  -- once: by 405 (`not_allowed`) where no entry of the routes is for its method, by 404
  -- (`not_found`) where there is one.
  pub handle_unmatched-IsAnswered :
      {J : Type 0} (router : Router J) (x : Exchange)
      → x.connected ≡ true
      → router.fallback_handler ≡ none
      → (All (λ entry. entry.0 ≢ (request_of x).method) router.routes
          → (y : Exchange) × (handle_unmatched router x ≡ returned y) × IsAnswered not_allowed x y)
        × ((before after : Routes J) (rs : List (Route J))
            → router.routes ≡ before ++ ((request_of x).method, rs) ∷ after
            → (y : Exchange) × (handle_unmatched router x ≡ returned y) × IsAnswered not_found x y)
  handle_unmatched-IsAnswered router x h no_fallback = (
    λ none_of.
        reject_unmatched-IsAnswered router x not_allowed h no_fallback
          (ap unmatched_status (method_routes-none (request_of x).method router.routes none_of)),
    λ before after rs order. reject_unmatched-IsAnswered router x not_found h no_fallback (
        ap (λ t. unmatched_status (method_routes (request_of x).method t)) order
        ∙ method_routes-there (request_of x).method before after rs),
  )
