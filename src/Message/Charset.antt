-- ===== src/Message/Charset.antt =====
-- The byte classes of request_factory.cpp and response_factory.cpp, which define them alike. A byte
-- from 128 on is a negative `char`, so it is no HTTP character and no control character.
use thinger_http.Common.{ℕ, Bool, ◌||◌, leb, ◌==◌, within}

unfoldable pub is_char : ℕ → Bool
is_char c = leb c 127

unfoldable pub is_ctl : ℕ → Bool
is_ctl c = leb c 31 || c == 127

unfoldable pub is_tspecial : ℕ → Bool
is_tspecial c =
    c == b'('
    || c == b')'
    || c == b'<'
    || c == b'>'
    || c == b'@'
    || c == b','
    || c == b';'
    || c == b':'
    || c == b'\\'
    || c == b'"'
    || c == b'/'
    || c == b'['
    || c == b']'
    || c == b'?'
    || c == b'='
    || c == b'{'
    || c == b'}'
    || c == b' '
    || c == b'\t'

unfoldable pub is_digit : ℕ → Bool
is_digit c = within b'0' b'9' c
