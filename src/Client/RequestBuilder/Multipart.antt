-- ===== src/Client/RequestBuilder/Multipart.antt =====
-- The request that sends a form with files.
use thinger_http.Common.{◌≡◌, ◌++◌, Bytes, codes, arith, arith}
use thinger_http.Boost.{Boost}
use thinger_http.Message.Header
use thinger_http.Message.Headers
use thinger_http.Message.Method.{Method}
use thinger_http.Message.Request.{Request}
use thinger_http.Client.Form.{Form, field_parts, file_parts}
use thinger_http.Client.Form

-- The content of a request whose parts are set apart by a boundary.
abbrev pub multipart_content : Bytes → Form → Bytes
multipart_content boundary f =
    field_parts boundary f.form_fields
    ++ (file_parts boundary f.form_files ++ (codes "--" ++ (boundary ++ codes "--\r\n")))

-- The type of the content and the content have the same boundary.
pub record Agrees ⦃b : Boost⦄ (f : Form) (r : Request) : Type 0 where
  pub boundary : Bytes
  pub content : r.content ≡ multipart_content boundary f
  pub type :
      Headers.get_header Header.content_type r.base
      ≡ codes "multipart/form-data; boundary=" ++ boundary
