-- ===== src/Util/Base64.antt =====
-- thinger/util/base64.hpp: base64. Where the code joins disjoint bits by `|`, they are added here.
pub mod RoundTrip
use thinger_http.Common.{
  ℕ, ◌+◌, ◌-◌, ◌*◌, ◌/◌, ◌%◌, ◌^◌, Bool, true, false, ◌||◌, [], ◌∷◌, ◌++◌, ltb, leb, ◌==◌, within,
  if◌then◌else◌, Bytes,
}

-- `encode_table`, whose letters and digits are in the order of their codes
unfoldable pub encode_table : ℕ → ℕ
encode_table i =
    if ltb i 26
    then b'A' + i
    else if ltb i 52
    then b'a' + (i - 26)
    else if ltb i 62
    then b'0' + (i - 52)
    else if i == 62
    then b'+'
    else b'/'

-- `get_decode_table`: the index of a character of the alphabet, and 0xFF for every other byte.
unfoldable pub decode_table : ℕ → ℕ
decode_table c =
    if within b'A' b'Z' c
    then c - b'A'
    else if within b'a' b'z' c
    then c - b'a' + 26
    else if within b'0' b'9' c
    then c - b'0' + 52
    else if c == b'+'
    then 62
    else if c == b'/'
    then 63
    else 255

-- The characters of the four parts of `n`.
abbrev pub part1 : ℕ → ℕ
part1 n = encode_table (n / 2 ^ 18 % 64)

abbrev pub part2 : ℕ → ℕ
part2 n = encode_table (n / 2 ^ 12 % 64)

abbrev pub part3 : ℕ → ℕ
part3 n = encode_table (n / 2 ^ 6 % 64)

abbrev pub part4 : ℕ → ℕ
part4 n = encode_table (n % 64)

-- `encode`: three bytes in each round, and one or two in the last.
unfoldable pub encode : Bytes → Bytes
unfolding encode_table
encode [] = []
encode (x ∷ []) = let n = x * 2 ^ 16 in part1 n ∷ part2 n ∷ b'=' ∷ b'=' ∷ []
encode (x ∷ y ∷ []) = let n = x * 2 ^ 16 + y * 2 ^ 8 in part1 n ∷ part2 n ∷ part3 n ∷ b'=' ∷ []
encode (x ∷ y ∷ z ∷ rest) =
    let n = x * 2 ^ 16 + y * 2 ^ 8 + z in part1 n ∷ part2 n ∷ part3 n ∷ part4 n ∷ encode rest

-- What a character of the alphabet appends, and `buf`, a `uint32_t`, and `bits` behind it.
unfoldable pub decode_step : ℕ → ℕ → ℕ → Bytes × ℕ × ℕ
decode_step buf bits val =
    let next = (buf * 2 ^ 6 + val) % 2 ^ 32 in
    if leb 8 (bits + 6)
    then ((next / 2 ^ (bits + 6 - 8) % 256) ∷ [], next, bits + 6 - 8)
    else ([], next, bits + 6)

-- The loop of `decode`.
unfoldable pub decode_loop : ℕ → ℕ → Bytes → Bytes
unfolding decode_table decode_step
decode_loop buf bits [] = []
decode_loop buf bits (c ∷ cs) =
    let val = decode_table c in
    let (out, next, left) = if val == 255 then ([], buf, bits) else decode_step buf bits val in
    let rest = decode_loop next left cs in if c == b'=' || c == 0 then [] else out ++ rest

-- `decode`
unfoldable pub decode : Bytes → Bytes
unfolding decode_loop
decode input = decode_loop 0 0 input
