-- ===== src/Server/StaticFiles.antt =====
-- thinger/http/server/response.cpp and http_server_base.cpp: `send_file`, and the handler that
-- `serve_static` registers. A file does not change while it is served.
pub mod Confined
use thinger_http.Common.{
  Bool, true, false, ◌&&◌, not, Option, none, some, List, [], ◌∷◌, ◌++◌, if◌then◌else◌, Bytes,
  codes, is_empty, starts_with,
}
use thinger_http.Boost.{Boost}
use thinger_http.Libraries.{Zlib, Filesystem}
use thinger_http.Message.Status.{
  Status, ok, not_found, forbidden, internal_server_error, status_code,
}
use thinger_http.Message.Response.{Response, set_status}
use thinger_http.Server.MimeTypes.{extension_to_type}
use thinger_http.Server.Exchange.{get_param}
use thinger_http.Server.Responder.{
  Responder, on_response, prepare_response, send_prepared_response, send, status, error, set_typed,
  add, text_plain,
}
use thinger_http.Server.Routing.{Outcome, returned, threw, Handler}

module _ ⦃b : Boost⦄ ⦃z : Zlib⦄ ⦃f : Filesystem⦄ where
  -- The response of `send_file`.
  unfoldable pub file_response : Bool → Bytes → Bytes → Response → Response
  unfolding set_status extension_to_type
  file_response force_download path content r =
      let full =
        set_typed content (extension_to_type (f.extension path)) (set_status (status_code ok) r) in
      if force_download
      then add (codes "Content-Disposition")
          (codes "attachment; filename=\"" ++ (f.filename path ++ b'"' ∷ [])) full
      else full

  -- What `send_file` does with what it has read.
  unfoldable pub send_contents : Bool → Bytes → Option Bytes → Responder → Responder
  unfolding file_response on_response prepare_response send_prepared_response error
  send_contents force path none t = error internal_server_error (codes "Failed to open file") t
  send_contents force path (some content) t =
      send_prepared_response (on_response (file_response force path content) (prepare_response t))

  -- `send_file`
  unfoldable pub send_file : Bool → Bytes → Responder → Responder
  unfolding send_contents error
  send_file force_download path t =
      if t.responded
      then t
      else if not (f.exists path)
      then error not_found (codes "File not found") t
      else if not (f.is_regular_file path)
      then error forbidden (codes "Not a regular file") t
      else send_contents force_download path (f.contents path) t

  -- The answers of the handler that send no file.
  unfoldable pub answer_not_found : Responder → Responder
  unfolding send status
  answer_not_found t = send (codes "Not found") text_plain (status not_found t)

  unfoldable pub answer_denied : Responder → Responder
  unfolding send status
  answer_denied t = send (codes "Access denied") text_plain (status forbidden t)

  -- The fallback file of a directory, where there is one.
  unfoldable pub try_index : Bytes → Bytes → Responder → Responder → Responder
  unfolding send_file
  try_index base fallback t otherwise =
      let file = f.join base fallback in
      if not (is_empty fallback) && f.exists file && f.is_regular_file file
      then send_file false file t
      else otherwise

  -- The handler behind `weakly_canonical`, for a path that is not empty.
  unfoldable pub serve_file : Bytes → Bytes → Bytes → Responder → Responder
  unfolding try_index answer_not_found answer_denied send_file starts_with
  serve_file root fallback file t =
      let last = try_index root fallback t (answer_not_found t) in
      if not (starts_with root file)
      then answer_denied t
      else if f.exists file && f.is_regular_file file
      then send_file false file t
      else if f.exists file && f.is_directory file
      then try_index file fallback t last
      else last

  unfoldable pub serve_resolved : Bytes → Bytes → Option Bytes → Handler
  unfolding serve_file
  serve_resolved root fallback none t = threw t
  serve_resolved root fallback (some file) t = returned (serve_file root fallback file t)

  -- The handler behind `canonical`.
  unfoldable pub serve_under : Bytes → Bytes → Option Bytes → Handler
  unfolding serve_resolved try_index answer_not_found
  serve_under directory fallback none t = threw t
  serve_under directory fallback (some root) t =
      let path = get_param (codes "path") t.exchange.params in
      if is_empty path
      then returned (try_index root fallback t (answer_not_found t))
      else serve_resolved root fallback (f.weakly_canonical (f.join directory path)) t

  -- The handler of `serve_static`.
  unfoldable pub serve_static : Bytes → Bytes → Handler
  unfolding serve_under
  serve_static directory fallback t = serve_under directory fallback (f.canonical directory) t
