-- ===== src/Message/Response.antt =====
-- thinger/http/common/http_response.{hpp,cpp}: a response.
use thinger_http.Common.{ℕ, Bool, ◌&&◌, ◌||◌, [], ◌++◌, ltb, leb, ◌==◌, length, Bytes, codes}
use thinger_http.Boost.{Boost}
use thinger_http.Message.Header
use thinger_http.Message.Headers
use thinger_http.Message.Headers.{Headers, new_headers}
use thinger_http.Message.Request.{header_lines}
use thinger_http.Message.Status.{
  Status, status_code, statuses, find_status, get_status_string, stock_page,
}

pub record Response : Type 0 where
  pub base : Headers
  pub open base use *
  pub content : Bytes
  pub status : ℕ
  pub reason_phrase : Bytes

abbrev pub new_response : Response
new_response = record { base = new_headers; content = []; status = 200; reason_phrase = [] }

-- `to_buffer`: the bytes of the buffers in order.
unfoldable pub to_buffer : Response → Bytes
unfolding find_status get_status_string
to_buffer r =
    get_status_string (find_status r.status statuses)
    ++ (Header.crlf ++ (header_lines r.headers ++ (Header.crlf ++ r.content)))

-- `is_redirect_response`
unfoldable pub is_redirect_response : Response → Bool
is_redirect_response r =
    r.status == status_code Status.temporary_redirect
    || r.status == status_code Status.moved_temporarily
    || r.status == status_code Status.permanent_redirect
    || r.status == status_code Status.moved_permanently

-- `is_ok`
unfoldable pub is_ok : Response → Bool
is_ok r = leb (status_code Status.ok) r.status && ltb r.status (status_code Status.multiple_choices)

-- `set_status(uint16_t)`
unfoldable pub set_status : ℕ → Response → Response
set_status code r = record r { status = code }

module _ ⦃b : Boost⦄ where
  -- `set_content_length`
  unfoldable pub set_content_length : ℕ → Response → Response
  set_content_length n r = record r {
    base =
        Headers.set_header Header.content_length (b.decimal n)
          (record r.base { content_length = n });
  }

  -- `set_content(content)`
  unfoldable pub set_content : Bytes → Response → Response
  unfolding set_content_length
  set_content content r = set_content_length (length content) (record r { content = content })

  -- `set_content_type`
  unfoldable pub set_content_type : Bytes → Response → Response
  set_content_type type r = record r { base = Headers.set_header Header.content_type type r.base }

  -- `stock_http_reply`
  unfoldable pub stock_http_reply : Status → Response
  unfolding set_content set_content_type stock_page
  stock_http_reply s =
      set_content_type (codes "text/html")
        (set_content (stock_page s) (record new_response { status = status_code s }))
