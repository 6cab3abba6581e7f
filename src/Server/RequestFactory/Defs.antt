-- ===== src/Server/RequestFactory/Defs.antt =====
-- The state of the request parser, and what its cases share.
use thinger_http.Common.{
  ℕ, Bool, true, false, not, ◌||◌, Option, none, some, [], ◌∷◌, ◌++◌, if◌then◌else◌, Bytes,
}
use thinger_http.Message.Headers.{Tribool, indeterminate, certain}
use thinger_http.Message.Request.{Request, new_request}
use thinger_http.Message.Charset.{is_char, is_ctl, is_tspecial}

pub data State : Type 0 where
  method_start method uri http_version_h http_version_t_1 http_version_t_2 http_version_p : State
  http_version_slash http_version_major_start http_version_major http_version_minor_start : State
  http_version_minor expecting_newline_1 header_line_start header_lws header_name : State
  space_before_header_value header_value expecting_newline_2 expecting_newline_3 content : State

pub record Parser : Type 0 where
  pub state : State
  pub temp_string1 : Bytes
  pub temp_string2 : Bytes
  pub temp_int : ℕ
  pub headers_only : Bool
  pub req : Option Request

-- A parser as constructed; `temp_int` is not initialised there, and is written before it is read.
abbrev pub request_factory : Parser
request_factory = record {
  state = method_start;
  temp_string1 = [];
  temp_string2 = [];
  temp_int = 0;
  headers_only = false;
  req = none;
}

infixl 5 ◌>>=◌
abbrev pub ◌>>=◌ {ℓ κ} : {A : Type ℓ} {B : Type κ} → Option A → (A → Option B) → Option B
none >>= k = none
some a >>= k = k a

abbrev pub Step : Type 0
Step = Option (Parser × Tribool)

-- `return boost::indeterminate`, in the state given
abbrev pub more : State → Parser → Step
more s p = some (record p { state = s }, indeterminate)

-- `return false`
abbrev pub invalid : Parser → Step
invalid p = some (p, certain false)

-- `return true`
abbrev pub complete : Parser → Step
complete p = some (p, certain true)

abbrev pub expect : Bool → State → Parser → Step
expect matches s p = if matches then more s p else invalid p

abbrev pub push1 : ℕ → Parser → Parser
push1 c p = record p { temp_string1 = p.temp_string1 ++ c ∷ [] }

abbrev pub push2 : ℕ → Parser → Parser
push2 c p = record p { temp_string2 = p.temp_string2 ++ c ∷ [] }

-- `!is_char(input) || is_ctl(input) || is_tspecial(input)`
unfoldable pub is_no_token : ℕ → Bool
unfolding is_char is_ctl is_tspecial
is_no_token c = not (is_char c) || is_ctl c || is_tspecial c

-- A call of a method on `*req`.
unfoldable pub with_req : (Request → Request) → Parser → Option Parser
with_req f p = elim p.req [ none ↦ none | some r ↦ some (record p { req = some (f r) }) ]

-- `if(!req) req = std::make_shared<http_request>()`
unfoldable pub ensure_req : Parser → Parser
ensure_req p = elim p.req [ none ↦ record p { req = some new_request } | some r ↦ p ]
