-- ===== src/Util/Utf8.antt =====
-- thinger/http/util/utf8.hpp: the validation of UTF-8.
pub mod Encoding
mod Advance
pub mod Validity
pub mod Files
use thinger_http.Common.{
  ℕ, suc, zero, ◌+◌, Bool, true, false, ◌&&◌, Option, none, some, List, [], ◌∷◌, leb, ◌==◌, within,
  if◌then◌else◌, length, take, drop, Bytes,
}

abbrev pub is_continuation : ℕ → Bool
is_continuation b = within 128 191 b

-- `b1` is 194 to 223
unfoldable pub two_bytes : Bytes → Option ℕ
two_bytes [] = none
two_bytes (b2 ∷ rest) = if is_continuation b2 then some 2 else none

-- `b1` is 224 to 239; the surrogates begin with 237, 160 (0xED, 0xA0).
unfoldable pub three_bytes : ℕ → Bytes → Option ℕ
three_bytes b1 (b2 ∷ b3 ∷ rest) =
    if is_continuation b3
    then (if (if b1 == 224
          then within 160 191 b2
          else if b1 == 237
          then within 128 159 b2
          else is_continuation b2)
        then some 3
        else none)
    else none
three_bytes b1 _ = none

-- `b1` is 240 to 244; U+10FFFF begins with 244, 143 (0xF4, 0x8F).
unfoldable pub four_bytes : ℕ → Bytes → Option ℕ
four_bytes b1 (b2 ∷ b3 ∷ b4 ∷ rest) =
    if is_continuation b3 && is_continuation b4
    then (if (if b1 == 240
          then within 144 191 b2
          else if b1 == 244
          then within 128 143 b2
          else is_continuation b2)
        then some 4
        else none)
    else none
four_bytes b1 _ = none

-- The body of the loop of `is_valid`: how far it advances, or `none` for `return false`.
unfoldable pub advance : ℕ → Bytes → Option ℕ
unfolding two_bytes three_bytes four_bytes
advance b1 rest =
    if leb b1 127
    then some 1
    else if within 194 223 b1
    then two_bytes rest
    else if within 224 239 b1
    then three_bytes b1 rest
    else if within 240 244 b1
    then four_bytes b1 rest
    else none

-- The loop, with a bound on its rounds.
unfoldable pub valid_loop : ℕ → Bytes → Bool
unfolding advance
valid_loop f [] = true
valid_loop zero (b1 ∷ rest) = false
valid_loop (suc f) (b1 ∷ rest) = elim (advance b1 rest) [
  | none ↦ false
  | some bytes ↦ valid_loop f (drop bytes (b1 ∷ rest))
]

-- `is_valid`
unfoldable pub is_valid : Bytes → Bool
unfolding valid_loop
is_valid text = valid_loop (length text) text

-- The loop of `file_is_valid`, with a bound on its rounds, over what is left of the file. A read at
-- the end of the file gets nothing and ends it.
unfoldable pub file_blocks : ℕ → Bytes → Bool
unfolding is_valid
file_blocks f [] = true
file_blocks zero (b1 ∷ rest) = false
file_blocks (suc f) (b1 ∷ rest) =
    let later = file_blocks f (drop 4096 (b1 ∷ rest)) in
    if is_valid (take 4096 (b1 ∷ rest)) then later else false

-- `file_is_valid`, with the bytes of the file, or `none` where it cannot be opened
unfoldable pub file_is_valid : Option Bytes → Bool
unfolding file_blocks
file_is_valid none = false
file_is_valid (some text) = file_blocks (length text) text
