-- ===== src/Server/Responder/Once.antt =====
-- What a handler can have its stream given, by any calls of its `response`.
use thinger_http.Common.{
  if_elim, ◌≡◌, refl, ◌∙◌, Bool, true, false, ◌||◌, ◌&&◌, not, Option, none, some, List, [], ◌∷◌,
  if◌then◌else◌, length, Bytes, arith, codes,
}
use thinger_http.Boost.{Boost}
use thinger_http.Libraries.{Zlib, Filesystem}
use thinger_http.Message.Status.{status_code, not_found, forbidden}
use thinger_http.Message.Response.{Response, set_status}
use thinger_http.Server.Exchange.{Exchange, request_of, Sent}
use thinger_http.Server.Responder.{
  Responder, new_responder, set_typed, prepare_response, on_response, hand_over, chunked_head,
  add_chunk, add, adopt, send_prepared_response, compress_response, json, send, html, error, status,
  header, redirect, send_response, start_chunked, write_chunk, end_chunked,
}
use thinger_http.Server.StaticFiles.{send_file, send_contents}
use thinger_http.Server.Responder.Framing.{
  unanswered, Same, Same-trans, Same-refl, on_response-Same, Prepared, on_response-Prepared, draft,
  draft-Same, draft-Prepared, draft_sent-IsFramed, send-IsFramed, kept-IsFramed,
  send_response-IsFramed, start_chunked-IsFramed, write_chunk-IsFramed, end_chunked-IsFramed,
  IsFramed,
}
use thinger_http.Server.Responder.Calls.{
  Call, json_call, send_call, html_call, error_call, status_call, header_call, redirect_call,
  response_call, file_call, start_call, write_call, end_call, does_answer, any_answer, act, act_all,
}

module _ ⦃b : Boost⦄ ⦃z : Zlib⦄ ⦃d : Filesystem⦄ where
  -- `send_file` on each of its ways: nothing where the object has answered, or one answer.
  contents_elim :
      (P : Responder → Type 0) (force : Bool) (path : Bytes) (o : Option Bytes) (t : Responder)
      → ((f : Response → Response) → P (send_prepared_response (draft f t)))
      → P (send_contents force path o t)
  unfolding send_contents error draft
  contents_elim P force path none t sent = sent _
  contents_elim P force path (some content) t sent = sent _

  file_elim :
      (P : Responder → Type 0) (force : Bool) (path : Bytes) (t : Responder)
      → (t.responded ≡ true → P t)
      → ((f : Response → Response) → P (send_prepared_response (draft f t)))
      → P (send_file force path t)
  unfolding send_file error draft
  file_elim P force path t kept sent =
      let read = send_contents force path (d.contents path) t in
      let refused = error forbidden (codes "Not a regular file") t in
      let regular = if not (d.is_regular_file path) then refused else read in
      let missing = error not_found (codes "File not found") t in
      if_elim P t.responded t (if not (d.exists path) then missing else regular) kept (λ r.
        if_elim P (not (d.exists path)) missing regular (λ e. sent _)
          (λ e.
            if_elim P (not (d.is_regular_file path)) refused read (λ i. sent _)
              (λ i. contents_elim P force path (d.contents path) t sent)))

  act-IsFramed :
      {old : List Sent} (c : Call) (t : Responder) → IsFramed old t → IsFramed old (act c t)
  unfolding act json html error status header redirect draft
  act-IsFramed (json_call dumped s) t h = draft_sent-IsFramed _ t h
  act-IsFramed (send_call text type) t h = send-IsFramed text type t h
  act-IsFramed (html_call text) t h = send-IsFramed text (codes "text/html") t h
  act-IsFramed (error_call s message) t h = draft_sent-IsFramed _ t h
  act-IsFramed (status_call s) t h = kept-IsFramed (set_status (status_code s)) t h
  act-IsFramed (header_call key value) t h = kept-IsFramed (add key value) t h
  act-IsFramed (redirect_call url s) t h = draft_sent-IsFramed _ t h
  act-IsFramed (response_call r) t h = send_response-IsFramed r t h
  act-IsFramed {old} (file_call force path) t h =
      file_elim (IsFramed old) force path t (λ r. h) (λ f. draft_sent-IsFramed f t h)
  act-IsFramed (start_call type s) t h = start_chunked-IsFramed type s t h
  act-IsFramed (write_call bytes) t h = write_chunk-IsFramed bytes t h
  act-IsFramed end_call t h = end_chunked-IsFramed t h

  act_all-IsFramed :
      {old : List Sent} (cs : List Call) (t : Responder)
      → IsFramed old t
      → IsFramed old (act_all cs t)
  unfolding act_all
  act_all-IsFramed [] t h = h
  act_all-IsFramed (c ∷ cs) t h = act_all-IsFramed cs (act c t) (act-IsFramed c t h)

  -- What a call does to `responded`, where the connection is there.
  record Marks (answers : Bool) (t u : Responder) : Type 0 where
    marked : u.responded ≡ t.responded || answers
    connected : u.exchange.connected ≡ t.exchange.connected

  hand_over-Marks :
      (last : Bool) (t u : Responder) → Same t u → Prepared u → Marks true t (hand_over last u)
  unfolding hand_over
  hand_over-Marks last t u same (a, e) =
      rw (e) (record { marked = ground arith; connected = ground (arith, same.connected) })

  Same-Marks : {t u : Responder} → Same t u → Marks false t u
  Same-Marks same = record { marked = ground (arith, same.responded); connected = same.connected }

  send_prepared_response-Marks :
      (t u : Responder) → Same t u → Marks true t (send_prepared_response u)
  unfolding send_prepared_response draft
  send_prepared_response-Marks t u same =
      let f = compress_response (request_of (prepare_response u).exchange) in
      if_elim (Marks _ t) u.responded u (hand_over true (draft f u))
        (λ r. record { marked = ground (arith, same.responded); connected = same.connected })
        (λ r.
          hand_over-Marks true t (draft f u) (Same-trans same (draft-Same f u))
            (draft-Prepared f u))

  draft_sent-Marks :
      (f : Response → Response) (t : Responder) → Marks true t (send_prepared_response (draft f t))
  draft_sent-Marks f t = send_prepared_response-Marks t (draft f t) (draft-Same f t)

  kept-Marks :
      (f : Response → Response) (t : Responder)
      → Marks false t (if t.responded then t else draft f t)
  kept-Marks f t =
      if_elim (Marks _ t) t.responded t (draft f t) (λ r. Same-Marks Same-refl)
        (λ r. Same-Marks (draft-Same f t))

  add_chunk-Marks :
      (bytes : Bytes) (last : Bool) (t : Responder) → Marks false t (add_chunk bytes last t)
  add_chunk-Marks bytes last t = record { marked = ground arith; connected = ground arith }

  act-Marks :
      (c : Call) (t : Responder) → t.exchange.connected ≡ true → Marks (does_answer c) t (act c t)
  unfolding act json send html error status header redirect draft send_response adopt start_chunked
      write_chunk end_chunked
  act-Marks (json_call dumped s) t h = draft_sent-Marks _ t
  act-Marks (send_call text type) t h = draft_sent-Marks (set_typed text type) t
  act-Marks (html_call text) t h = draft_sent-Marks (set_typed text (codes "text/html")) t
  act-Marks (error_call s message) t h = draft_sent-Marks _ t
  act-Marks (status_call s) t h = kept-Marks (set_status (status_code s)) t
  act-Marks (header_call key value) t h = kept-Marks (add key value) t
  act-Marks (redirect_call url s) t h = draft_sent-Marks _ t
  act-Marks (response_call given) t h =
      let own = adopt given t in
      let f = compress_response (request_of own.exchange) in
      let same : Same t own = record { sent = refl; responded = refl; connected = refl } in
      if_elim (Marks _ t) t.responded t (hand_over true (on_response f own))
        (λ r. record { marked = ground arith; connected = refl })
        (λ r.
          hand_over-Marks true t (on_response f own) (Same-trans same (on_response-Same f own))
            (on_response-Prepared f own (length t.exchange.responses, refl)))
  act-Marks (file_call force path) t h =
      file_elim (Marks true t) force path t
        (λ r. record { marked = ground arith; connected = refl }) (λ f. draft_sent-Marks f t)
  act-Marks (start_call type s) t h =
      let f = chunked_head type s in
      if_elim (λ (p : Responder × Bool). Marks true t p.0) (not t.responded && t.exchange.connected)
        (hand_over false (draft f t), true) (t, false)
        (λ r. hand_over-Marks false t (draft f t) (draft-Same f t) (draft-Prepared f t))
        (λ r. record { marked = ground arith; connected = refl })
  act-Marks (write_call bytes) t h =
      if_elim (λ (p : Responder × Bool). Marks false t p.0) (t.responded && t.exchange.connected)
        (add_chunk bytes false t, true) (t, false) (λ r. add_chunk-Marks bytes false t)
        (λ r. Same-Marks Same-refl)
  act-Marks end_call t h =
      if_elim (λ (p : Responder × Bool). Marks false t p.0) (t.responded && t.exchange.connected)
        (add_chunk [] true t, true) (t, false) (λ r. add_chunk-Marks [] true t)
        (λ r. Same-Marks Same-refl)

  act_all_responded :
      (cs : List Call) (t : Responder)
      → t.exchange.connected ≡ true
      → (act_all cs t).responded ≡ t.responded || any_answer cs
  unfolding act_all
  act_all_responded [] t h = ground arith
  act_all_responded (c ∷ cs) t h =
      let one = act-Marks c t h in
      let rest = act_all_responded cs (act c t) (one.connected ∙ h) in
      ground (arith, one.marked, rest)

  -- Where the connection is there, whatever calls a handler makes of a new `response`, among all
  -- its methods that write but `upgrade_websocket` and `start_sse`, its stream was given nothing,
  -- or one response with only chunks behind it; and the object has answered exactly if one of the
  -- calls is one that answers.
  pub act_all-once :
      (cs : List Call) (cors : Bool) (x : Exchange)
      → x.connected ≡ true
      → let t = act_all cs (new_responder cors x) in
        IsFramed x.sent t × (t.responded ≡ any_answer cs)
  act_all-once cs cors x h = (
    act_all-IsFramed cs (new_responder cors x) (unanswered refl refl),
    act_all_responded cs (new_responder cors x) h,
  )
