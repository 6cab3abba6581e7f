-- ===== src/Client/ResponseFactory/Defs.antt =====
-- The state of the response parser, and what its cases share.
use thinger_http.Common.{
  ℕ, ◌-◌, ◌*◌, Bool, true, false, not, ◌||◌, Option, none, some, List, [], ◌∷◌, ◌++◌, leb, ◌==◌,
  within, if◌then◌else◌, Bytes,
}
use thinger_http.Message.Headers.{Tribool, indeterminate, certain}
use thinger_http.Message.Response.{Response, new_response}
use thinger_http.Message.Charset.{is_char, is_ctl, is_tspecial}

pub data State : Type 0 where
  http_version_h http_version_t_1 http_version_t_2 http_version_p http_version_slash : State
  http_version_major_start http_version_major http_version_minor_start http_version_minor : State
  status_code reason_phrase expecting_newline_1 header_line_start header_lws header_name : State
  space_before_header_value header_value expecting_newline_2 expecting_newline_3 : State
  lenght_delimited_content chunked_content_size chunked_content_size_expecting_n : State
  chunked_content chunked_content_expecting_n : State

pub data ContentType : Type 0 where
  unset lenght_delimited chunked : ContentType

-- A call of `on_chunked_` or of `on_streaming_`, with its arguments.
pub data Event : Type 0 where
  chunk_event : ℕ → Bytes → Event
  stream_event : Bytes → ℕ → ℕ → Event

pub record Parser : Type 0 where
  pub state : State
  pub temp_string1 : Bytes
  pub temp_string2 : Bytes
  pub temp_int : ℕ
  pub headers_size : ℕ
  pub last_chunk : Bool
  pub on_chunked : Bool
  pub on_streaming : Option (Bytes → ℕ → ℕ → Bool)
  pub streaming_downloaded : ℕ
  pub streaming_aborted : Bool
  pub max_content_size : ℕ
  pub content_type : ContentType
  pub resp : Option Response
  pub events : List Event

abbrev pub max_headers_size : ℕ
max_headers_size = 8 * 1024

abbrev pub default_max_content_size : ℕ
default_max_content_size = 8 * 1048576

abbrev pub response_factory : Parser
response_factory = record {
  state = http_version_h;
  temp_string1 = [];
  temp_string2 = [];
  temp_int = 0;
  headers_size = 0;
  last_chunk = false;
  on_chunked = false;
  on_streaming = none;
  streaming_downloaded = 0;
  streaming_aborted = false;
  max_content_size = default_max_content_size;
  content_type = unset;
  resp = none;
  events = [];
}

infixl 5 ◌>>=◌
abbrev pub ◌>>=◌ {ℓ κ} : {A : Type ℓ} {B : Type κ} → Option A → (A → Option B) → Option B
none >>= k = none
some a >>= k = k a

abbrev pub Step : Type 0
Step = Option (Parser × Tribool)

-- `return boost::indeterminate`, in the state given
abbrev pub more : State → Parser → Step
more s p = some (record p { state = s }, indeterminate)

-- `return false`
abbrev pub invalid : Parser → Step
invalid p = some (p, certain false)

-- `return true`
abbrev pub complete : Parser → Step
complete p = some (p, certain true)

abbrev pub expect : Bool → State → Parser → Step
expect matches s p = if matches then more s p else invalid p

abbrev pub push1 : ℕ → Parser → Parser
push1 c p = record p { temp_string1 = p.temp_string1 ++ c ∷ [] }

abbrev pub push2 : ℕ → Parser → Parser
push2 c p = record p { temp_string2 = p.temp_string2 ++ c ∷ [] }

-- `!is_char(input) || is_ctl(input) || is_tspecial(input)`
unfoldable pub is_no_token : ℕ → Bool
unfolding is_char is_ctl is_tspecial
is_no_token c = not (is_char c) || is_ctl c || is_tspecial c

abbrev pub is_blank : ℕ → Bool
is_blank c = c == b' ' || c == b'\t'

unfoldable pub is_hexadecimal : ℕ → Bool
is_hexadecimal c = within b'0' b'9' c || within b'a' b'f' c || within b'A' b'F' c

-- `get_hex_value`, for a hexadecimal digit
unfoldable pub get_hex_value : ℕ → ℕ
get_hex_value c =
    if leb c b'9' then c - b'0' else if leb c b'F' then c - 55 else if leb c b'f' then c - 87 else 0

-- A call of a method on `*resp`.
unfoldable pub with_resp : (Response → Response) → Parser → Option Parser
with_resp f p = elim p.resp [ none ↦ none | some r ↦ some (record p { resp = some (f r) }) ]

-- `if(!resp) resp = std::make_shared<http_response>()`
unfoldable pub ensure_resp : Parser → Parser
ensure_resp p = elim p.resp [ none ↦ record p { resp = some new_response } | some r ↦ p ]
