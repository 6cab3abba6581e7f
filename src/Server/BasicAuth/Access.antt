-- ===== src/Server/BasicAuth/Access.antt =====
-- Who passes the middleware of `set_basic_auth`.
use mathlib.Core.Path.{subst}
use thinger_http.Common.{
  ℕ, ◌≡◌, ◌≢◌, refl, sym, ap, ◌∙◌, inl, inr, Bool, true, false, not, [], ◌∷◌, ◌++◌, ◌==◌,
  if◌then◌else◌, length, drop, drop-length, Bytes, IsBytes, starts_with, starts_with-append,
  if_elim, if_true, if_false, All, Bool-cases, codes, arith,
}
use thinger_http.Boost.{Boost}
use thinger_http.Libraries.{Zlib}
use thinger_http.Util.Base64.{encode, decode}
use thinger_http.Util.Base64.RoundTrip.{decode-encode}
use thinger_http.Util.Url.{split_at}
use thinger_http.Message.Headers.{has_header, get_header}
use thinger_http.Message.Status.{unauthorized}
use thinger_http.Message.Request.{Request}
use thinger_http.Message.Response.{set_status}
use thinger_http.Server.Exchange.{Exchange, request_of, set_auth_user}
use thinger_http.Server.Responder.{Responder, new_responder, text_plain, send, header}
use thinger_http.Server.Responder.Answers.{
  IsAnswered, status_send-IsAnswered, send-IsAnswered, status-drafting, header-drafting,
}
use thinger_http.Server.BasicAuth.{
  Verify, authorization, basic, basic_auth, check_credentials, challenge, refuse_format, go_on,
}

starts_with-split : (p s : Bytes) → starts_with p s ≡ true → s ≡ p ++ drop (length p) s
unfolding starts_with
starts_with-split [] s h = refl
starts_with-split (c ∷ p) [] h = cc
starts_with-split (c ∷ p) (d ∷ s) h = ground (arith, starts_with-split p s)

-- A byte string without the byte `stop`.
abbrev pub Lacks : ℕ → Bytes → Type 0
Lacks stop = All (λ c. c ≢ stop)

split_at-append :
    (stop : ℕ) (xs ys : Bytes) → Lacks stop xs → split_at stop (xs ++ stop ∷ ys) ≡ (xs, stop ∷ ys)
unfolding split_at
split_at-append stop [] ys h = ground arith
split_at-append stop (x ∷ xs) ys h =
    let e : (x == stop) ≡ false = ground (arith, h.0) in rw (e, split_at-append stop xs ys h.1) refl

-- What `split_at` finds.
record Split (stop : ℕ) (s : Bytes) (o : Bytes × Bytes) : Type 0 where
  parts : s ≡ o.0 ++ o.1
  lacks : Lacks stop o.0
  begins : (c : ℕ) (cs : Bytes) → o.1 ≡ c ∷ cs → c ≡ stop

split_at-Split : (stop : ℕ) (s : Bytes) → Split stop s (split_at stop s)
unfolding split_at
split_at-Split stop [] = record { parts = refl; lacks = tt; begins = λ c cs e. cc }
split_at-Split stop (x ∷ xs) = elim (Bool-cases (x == stop)) [
  | inl e ↦ rw (e) (record { parts = refl; lacks = tt; begins = λ c cs h. ground arith })
  | inr e ↦ rw (e) (
      let rest = split_at-Split stop xs in
      record {
        parts = ap (λ t. x ∷ t) rest.parts;
        lacks = (ground arith, rest.lacks);
        begins = rest.begins;
      })
]

module _ ⦃b : Boost⦄ where
  -- The header names this user and this password.
  pub record Presents (http : Request) (user pass : Bytes) : Type 0 where
    pub given : has_header authorization http.base ≡ true
    pub encoded : Bytes
    pub scheme : get_header authorization http.base ≡ basic ++ encoded
    pub credentials : decode encoded ≡ user ++ b':' ∷ pass
    pub no_colon : Lacks b':' user

  -- The request goes on in the name of a user who is verified, or is answered by 401.
  pub data Judged (verify : Verify) (next : Exchange → Exchange) (x y : Exchange) : Type 0 where
    admitted :
        (name pass : Bytes)
        → Presents (request_of x) name pass
        → verify name pass ≡ true
        → y ≡ next (set_auth_user name x)
        → Judged verify next x y
    refused :
        ((name pass : Bytes) → Presents (request_of x) name pass → verify name pass ≡ false)
        → IsAnswered unauthorized x y
        → Judged verify next x y

module _ ⦃b : Boost⦄ ⦃z : Zlib⦄ where
  challenge-IsAnswered :
      (realm text : Bytes) (cors : Bool) (x : Exchange)
      → x.connected ≡ true
      → IsAnswered unauthorized x (challenge realm text (new_responder cors x)).exchange
  unfolding challenge set_status
  challenge-IsAnswered realm text cors x h =
      let value = codes "Basic realm=\"" ++ (realm ++ b'"' ∷ []) in
      let named =
        ap (header (codes "WWW-Authenticate") value) (status-drafting unauthorized cors x)
        ∙ header-drafting (codes "WWW-Authenticate") value cors x _ in
      subst (λ t. IsAnswered unauthorized x (send text text_plain t).exchange) (sym named)
        (send-IsAnswered unauthorized text text_plain cors x _ h refl)

  -- What a request presents is what the code reads.
  presented :
      {http : Request} {name pass : Bytes} (encoded : Bytes)
      → get_header authorization http.base ≡ basic ++ encoded
      → Presents http name pass
      → split_at b':' (decode encoded) ≡ (name, b':' ∷ pass)
  presented {name = name} {pass = pass} encoded scheme p =
      let same : encoded ≡ p.encoded =
        sym (drop-length basic encoded)
        ∙ ap (drop 6) (sym scheme ∙ p.scheme)
        ∙ drop-length basic p.encoded in
      ap (λ e. split_at b':' (decode e)) same
      ∙ ap (split_at b':') p.credentials
      ∙ split_at-append b':' name pass p.no_colon

  -- The end of the middleware, at what stands before the first `:`, and from it on.
  check_credentials-Judged :
      (realm : Bytes) (verify : Verify) (next : Exchange → Exchange) (cors : Bool) (x : Exchange)
      (encoded : Bytes) (o : Bytes × Bytes)
      → x.connected ≡ true
      → has_header authorization (request_of x).base ≡ true
      → get_header authorization (request_of x).base ≡ basic ++ encoded
      → split_at b':' (decode encoded) ≡ o
      → Judged verify next x (check_credentials realm verify o next (new_responder cors x)).exchange
  unfolding check_credentials refuse_format
  check_credentials-Judged realm verify next cors x encoded (name, []) h given scheme found =
      refused (λ user word p. absurd (cc (ap (λ o. o.1) (sym found ∙ presented encoded scheme p))))
        (status_send-IsAnswered unauthorized (codes "Invalid credentials format") text_plain cors x
          h)
  check_credentials-Judged realm verify next cors x encoded (name, c ∷ pass) h given scheme found =
      let split =
        subst (Split b':' (decode encoded)) found (split_at-Split b':' (decode encoded)) in
      let colon : c ≡ b':' = split.begins c pass refl in
      if_elim (λ (t : Responder). Judged verify next x t.exchange) (verify name pass)
        (go_on next (set_auth_user name) (new_responder cors x))
        (challenge realm (codes "Invalid username or password") (new_responder cors x))
        (λ v.
          admitted name pass
            (record {
              given = given;
              encoded = encoded;
              scheme = scheme;
              credentials = split.parts ∙ ap (λ d. name ++ d ∷ pass) colon;
              no_colon = split.lacks;
            })
            v refl)
        (λ v.
          refused
            (λ user word p.
              let same = sym (presented encoded scheme p) ∙ found in
              ap (λ (o : Bytes × Bytes). verify o.0 (drop 1 o.1)) same ∙ v)
            (challenge-IsAnswered realm (codes "Invalid username or password") cors x h))

  -- Without the header, or with another scheme, nothing is presented.
  absent :
      {http : Request} {name pass : Bytes}
      → has_header authorization http.base ≡ false
      → Presents http name pass
      → ⊥
  absent h p = cc (sym h ∙ p.given)

  other_scheme :
      {http : Request} {name pass : Bytes}
      → starts_with basic (get_header authorization http.base) ≡ false
      → Presents http name pass
      → ⊥
  other_scheme h p =
      cc (sym h ∙ ap (starts_with basic) p.scheme ∙ starts_with-append basic p.encoded)

  pub basic_auth-Judged :
      (path_prefix realm : Bytes) (verify : Verify) (next : Exchange → Exchange) (cors : Bool)
      (x : Exchange)
      → x.connected ≡ true
      → starts_with path_prefix (request_of x).uri ≡ true
      → Judged verify next x
          (basic_auth path_prefix realm verify next (new_responder cors x)).exchange
  unfolding basic_auth
  basic_auth-Judged path_prefix realm verify next cors x h guarded =
      let http = request_of x in
      let auth_header = get_header authorization http.base in
      let t = new_responder cors x in
      let J : Responder → Type 0 = λ u. Judged verify next x u.exchange in
      let found = split_at b':' (decode (drop 6 auth_header)) in
      let checked = check_credentials realm verify found next t in
      let invalid = challenge realm (codes "Invalid authentication") t in
      let required = challenge realm (codes "Authentication required") t in
      let third = if not (starts_with basic auth_header) then invalid else checked in
      let second = if not (has_header authorization http.base) then required else third in
      if_elim J (not (starts_with path_prefix http.uri)) (go_on next (λ y. y) t) second
        (λ n. absurd (ground (arith, n, guarded)))
        (λ _.
          if_elim J (not (has_header authorization http.base)) required third
            (λ n.
              refused (λ user word p. absurd (absent (ground (arith, n)) p))
                (challenge-IsAnswered realm (codes "Authentication required") cors x h))
            (λ g.
              if_elim J (not (starts_with basic auth_header)) invalid checked
                (λ n.
                  refused (λ user word p. absurd (other_scheme (ground (arith, n)) p))
                    (challenge-IsAnswered realm (codes "Invalid authentication") cors x h))
                (λ s.
                  check_credentials-Judged realm verify next cors x (drop 6 auth_header) found h
                    (ground (arith, g)) (starts_with-split basic auth_header (ground (arith, s)))
                    refl)))

  -- Who is presented and verified passes.
  verified_passes :
      (verify : Verify) (next : Exchange → Exchange) (x y : Exchange) (name pass : Bytes)
      → Presents (request_of x) name pass
      → verify name pass ≡ true
      → Judged verify next x y
      → y ≡ next (set_auth_user name x)
  verified_passes verify next x y name pass p good (admitted user word q v same) =
      let one = presented p.encoded p.scheme p in
      let other = presented p.encoded p.scheme q in
      same ∙ ap (λ (o : Bytes × Bytes). next (set_auth_user o.0 x)) (sym other ∙ one)
  verified_passes verify next x y name pass p good (refused never answer) =
      cc (sym (never name pass p) ∙ good)

  -- Where the connection is there, the header `Authorization` is `Basic ` and the encoded text of
  -- a user without `:`, a `:` and a password, all of bytes, and the two are verified, the
  -- middleware calls `next`, in the name of the user where the URI begins with the prefix.
  pub basic_auth-encode :
      (path_prefix realm : Bytes) (verify : Verify) (next : Exchange → Exchange) (cors : Bool)
      (x : Exchange) (name pass : Bytes)
      → x.connected ≡ true
      → IsBytes (name ++ b':' ∷ pass)
      → Lacks b':' name
      → has_header authorization (request_of x).base ≡ true
      → get_header authorization (request_of x).base ≡ basic ++ encode (name ++ b':' ∷ pass)
      → verify name pass ≡ true
      → (basic_auth path_prefix realm verify next (new_responder cors x)).exchange
        ≡ next (if starts_with path_prefix (request_of x).uri then set_auth_user name x else x)
  unfolding basic_auth
  basic_auth-encode path_prefix realm verify next cors x name pass h bytes lacks given scheme good =
      let credentials = name ++ b':' ∷ pass in
      let presents : Presents (request_of x) name pass = record {
        given = given;
        encoded = encode credentials;
        scheme = scheme;
        credentials = decode-encode credentials bytes;
        no_colon = lacks;
      } in
      elim (Bool-cases (starts_with path_prefix (request_of x).uri)) [
        | inl e ↦
            verified_passes verify next x _ name pass presents good
              (basic_auth-Judged path_prefix realm verify next cors x h e)
            ∙ ap next (sym (if_true (starts_with path_prefix (request_of x).uri) _ x e))
        | inr e ↦
            ap (λ (t : Responder). t.exchange)
              (if_true (not (starts_with path_prefix (request_of x).uri)) _ _ (ap not e))
            ∙ ap next (sym (if_false (starts_with path_prefix (request_of x).uri) _ x e))
      ]
