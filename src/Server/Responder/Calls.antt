-- ===== src/Server/Responder/Calls.antt =====
-- The calls that a handler makes of its `response`, as data: all of its methods that write, but for
-- `upgrade_websocket` and `start_sse`.
use thinger_http.Common.{Bool, true, false, ◌||◌, List, [], ◌∷◌, Bytes}
use thinger_http.Boost.{Boost}
use thinger_http.Libraries.{Zlib, Filesystem}
use thinger_http.Message.Status.{Status}
use thinger_http.Message.Response.{Response}
use thinger_http.Server.Responder.{
  Responder, json, send, html, error, status, header, redirect, send_response, start_chunked,
  write_chunk, end_chunked,
}
use thinger_http.Server.StaticFiles.{send_file}

-- The calls that answer, begin an answer in chunks, or go on with one.
pub data Call : Type 0 where
  json_call : Bytes → Status → Call
  send_call : Bytes → Bytes → Call
  html_call : Bytes → Call
  error_call : Status → Bytes → Call
  status_call : Status → Call
  header_call : Bytes → Bytes → Call
  redirect_call : Bytes → Status → Call
  response_call : Response → Call
  file_call : Bool → Bytes → Call
  start_call : Bytes → Status → Call
  write_call : Bytes → Call
  end_call : Call

abbrev pub does_answer : Call → Bool
does_answer (status_call s) = false
does_answer (header_call key value) = false
does_answer (write_call bytes) = false
does_answer end_call = false
does_answer _ = true

abbrev pub any_answer : List Call → Bool
any_answer [] = false
any_answer (c ∷ cs) = does_answer c || any_answer cs

module _ ⦃b : Boost⦄ ⦃z : Zlib⦄ ⦃d : Filesystem⦄ where
  -- A call of a handler.
  unfoldable pub act : Call → Responder → Responder
  unfolding json send html error status header redirect send_response start_chunked write_chunk
      end_chunked send_file
  act (json_call dumped s) t = json dumped s t
  act (send_call text type) t = send text type t
  act (html_call text) t = html text t
  act (error_call s message) t = error s message t
  act (status_call s) t = status s t
  act (header_call key value) t = header key value t
  act (redirect_call url s) t = redirect url s t
  act (response_call r) t = send_response r t
  act (file_call force_download path) t = send_file force_download path t
  act (start_call type s) t = (start_chunked type s t).0
  act (write_call bytes) t = (write_chunk bytes t).0
  act end_call t = (end_chunked t).0

  unfoldable pub act_all : List Call → Responder → Responder
  unfolding act
  act_all [] t = t
  act_all (c ∷ cs) t = act_all cs (act c t)
