-- ===== src/Server/Responder/Answers.antt =====
-- One answer to a request, by an object that has not answered yet.
use mathlib.Core.Path.{subst}
use thinger_http.Common.{
  sym, ◌≡◌, refl, ap, ◌∙◌, Bool, true, false, ◌||◌, not, Option, none, some, List, [], ◌∷◌, ◌++◌,
  ltb, if◌then◌else◌, length, Bytes, codes, is_empty, contains,
}
use thinger_http.Boost.{Boost}
use thinger_http.Libraries.{Zlib}
use thinger_http.Message.Header
use thinger_http.Message.Headers
use thinger_http.Message.Status.{Status, status_code}
use thinger_http.Message.Request.{Request}
use thinger_http.Message.Response.{
  Response, set_status, set_content, set_content_type, set_content_length,
}
use thinger_http.Server.Exchange.{Exchange, head, request_of, change_at}
use thinger_http.Server.Responder.{
  Responder, new_responder, is_compressible_content_type, prepared, prepare_response, on_response,
  hand_over, compress_response, store_compressed, set_message, set_typed, add,
  send_prepared_response, send, error, status, header,
}

pub change_at-last :
    (rs : List Response) (r : Response) (f : Response → Response)
    → change_at (length rs) f (rs ++ r ∷ []) ≡ rs ++ f r ∷ []
unfolding change_at
change_at-last [] r f = refl
change_at-last (q ∷ rs) r f = ap (λ l. q ∷ l) (change_at-last rs r f)

-- `y` is `x` with one more response, `r`, which the stream was given.
abbrev pub with_answer : Response → Exchange → Exchange
with_answer r x = record x {
  responses = x.responses ++ r ∷ [];
  sent = head (length x.responses) true ∷ x.sent;
}

-- `y` answers `x` once, with this status, and is `x` otherwise.
abbrev pub IsAnswered : Status → Exchange → Exchange → Type 0
IsAnswered s x y = (r : Response) × (y ≡ with_answer r x) × (r.status ≡ status_code s)

-- The object after `prepare_response`, with the responses it knows.
abbrev holding : Bool → Exchange → List Response → Responder
holding cors x rs = record {
  exchange = record x { responses = rs };
  response = some (length x.responses);
  responded = false;
  cors_enabled = cors;
}

-- That object where its own response is `r`.
abbrev pub drafting : Bool → Exchange → Response → Responder
drafting cors x r = holding cors x (x.responses ++ r ∷ [])

pub on_response-drafting :
    (f : Response → Response) (cors : Bool) (x : Exchange) (r : Response)
    → on_response f (drafting cors x r) ≡ drafting cors x (f r)
unfolding on_response
on_response-drafting f cors x r = ap (holding cors x) (change_at-last x.responses r f)

-- The six tests of `compress_response_if_needed`.
choice_status :
    (c1 c2 c3 c4 c5 c6 : Bool) (r g d : Response)
    → g.status ≡ r.status
    → d.status ≡ r.status
    → (if c1
        then r
        else if c2
        then r
        else if c3
        then r
        else if c4
        then r
        else if c5
        then g
        else if c6
        then d
        else r).status
      ≡ r.status
choice_status true c2 c3 c4 c5 c6 r g d hg hd = refl
choice_status false true c3 c4 c5 c6 r g d hg hd = refl
choice_status false false true c4 c5 c6 r g d hg hd = refl
choice_status false false false true c5 c6 r g d hg hd = refl
choice_status false false false false true c6 r g d hg hd = hg
choice_status false false false false false true r g d hg hd = hd
choice_status false false false false false false r g d hg hd = refl

module _ ⦃b : Boost⦄ ⦃z : Zlib⦄ where
  pub prepare_response-fresh :
      (cors : Bool) (x : Exchange)
      → prepare_response (new_responder cors x) ≡ drafting cors x (prepared cors (request_of x))
  unfolding prepare_response
  prepare_response-fresh cors x = refl

  pub prepare_response-drafting :
      (cors : Bool) (x : Exchange) (r : Response)
      → prepare_response (drafting cors x r) ≡ drafting cors x r
  unfolding prepare_response
  prepare_response-drafting cors x r = refl

  status-store_compressed :
      (encoding : Bytes) (o : Option Bytes) (r : Response)
      → (store_compressed encoding o r).status ≡ r.status
  unfolding store_compressed set_content set_content_length
  status-store_compressed encoding none r = refl
  status-store_compressed encoding (some bytes) r = refl

  status-compress_response :
      (http : Request) (r : Response) → (compress_response http r).status ≡ r.status
  unfolding compress_response
  status-compress_response http r =
      let type = Headers.get_header Header.content_type r.base in
      let accept = Headers.get_header (codes "Accept-Encoding") http.base in
      choice_status (ltb (length r.content) 200)
        (Headers.has_header (codes "Content-Encoding") r.base)
        (is_empty type || not (is_compressible_content_type type)) (is_empty accept)
        (contains (codes "gzip") accept) (contains (codes "deflate") accept) r
        (store_compressed (codes "gzip") (z.gzip r.content) r)
        (store_compressed (codes "deflate") (z.deflate r.content) r)
        (status-store_compressed (codes "gzip") (z.gzip r.content) r)
        (status-store_compressed (codes "deflate") (z.deflate r.content) r)

  pub send_prepared_response-drafting :
      (cors : Bool) (x : Exchange) (r : Response)
      → x.connected ≡ true
      → (send_prepared_response (drafting cors x r)).exchange
        ≡ with_answer (compress_response (request_of x) r) x
  unfolding send_prepared_response hand_over prepare_response
  send_prepared_response-drafting cors x r h =
      ap (λ t. (hand_over true t).exchange)
        (on_response-drafting (compress_response (request_of x)) cors x r)
      ∙ rw (h) refl

  status-set_message : (message : Bytes) (r : Response) → (set_message message r).status ≡ r.status
  unfolding set_content set_content_type set_content_length
  status-set_message [] r = refl
  status-set_message (c ∷ cs) r = refl

  abbrev drafted : Bool → Exchange → Response
  drafted cors x = prepared cors (request_of x)

  pub error-IsAnswered :
      (s : Status) (message : Bytes) (cors : Bool) (x : Exchange)
      → x.connected ≡ true
      → IsAnswered s x (error s message (new_responder cors x)).exchange
  unfolding error prepare_response set_status
  error-IsAnswered s message cors x h =
      let r = set_message message (set_status (status_code s) (drafted cors x)) in
      (
        compress_response (request_of x) r,
        ap (λ t. (send_prepared_response t).exchange)
              (on_response-drafting (λ q. set_message message (set_status (status_code s) q)) cors x
                (drafted cors x))
            ∙ send_prepared_response-drafting cors x r h,
        status-compress_response (request_of x) r ∙ status-set_message message _,
      )

  pub status-drafting :
      (s : Status) (cors : Bool) (x : Exchange)
      → status s (new_responder cors x)
        ≡ drafting cors x (set_status (status_code s) (drafted cors x))
  unfolding status prepare_response
  status-drafting s cors x =
      on_response-drafting (set_status (status_code s)) cors x (drafted cors x)

  pub header-drafting :
      (key value : Bytes) (cors : Bool) (x : Exchange) (r : Response)
      → header key value (drafting cors x r) ≡ drafting cors x (add key value r)
  unfolding header prepare_response
  header-drafting key value cors x r = on_response-drafting (add key value) cors x r

  -- A text that is sent keeps the status.
  pub send-IsAnswered :
      (s : Status) (text type : Bytes) (cors : Bool) (x : Exchange) (r : Response)
      → x.connected ≡ true
      → r.status ≡ status_code s
      → IsAnswered s x (send text type (drafting cors x r)).exchange
  unfolding send prepare_response set_content set_content_type set_content_length
  send-IsAnswered s text type cors x r h e =
      let full = set_typed text type r in
      (
        compress_response (request_of x) full,
        ap (λ t. (send_prepared_response t).exchange)
              (on_response-drafting (set_typed text type) cors x r)
            ∙ send_prepared_response-drafting cors x full h,
        status-compress_response (request_of x) full ∙ e,
      )

  -- `status` and then `send`, by an object that has not answered
  pub status_send-IsAnswered :
      (s : Status) (text type : Bytes) (cors : Bool) (x : Exchange)
      → x.connected ≡ true
      → IsAnswered s x (send text type (status s (new_responder cors x))).exchange
  unfolding set_status
  status_send-IsAnswered s text type cors x h =
      subst (λ t. IsAnswered s x (send text type t).exchange) (sym (status-drafting s cors x))
        (send-IsAnswered s text type cors x _ h refl)
