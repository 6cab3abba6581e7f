-- ===== src/Util/Base64/RoundTrip.antt =====
-- Decoding what `encode` writes.
use thinger_http.Common.{
  ℕ, ◌+◌, ◌*◌, ◌/◌, ◌%◌, ◌^◌, ◌<◌, ◌≡◌, refl, ap, ◌∙◌, false, ◌||◌, ◌==◌, [], ◌∷◌, ◌++◌, Bytes,
  IsBytes, length, arith,
}
use thinger_http.Util.Base64.{
  encode_table, decode_table, part1, part2, part3, part4, encode, decode_step, decode_loop, decode,
}

decode_table-encode_table : (i : ℕ) → i < 64 → decode_table (encode_table i) ≡ i
unfolding decode_table encode_table
decode_table-encode_table i h = ground arith

encode_table_goes_on :
    (i : ℕ) → i < 64 → ((encode_table i == b'=') || (encode_table i == 0)) ≡ false
unfolding encode_table
encode_table_goes_on i h = ground arith

-- One character of the alphabet.
decode_loop-encode_table :
    (buf bits i : ℕ) (cs : Bytes)
    → i < 64
    → let (out, next, left) = decode_step buf bits i in
      decode_loop buf bits (encode_table i ∷ cs) ≡ out ++ decode_loop next left cs
unfolding decode_loop
decode_loop-encode_table buf bits i cs h =
    let e : (i == 255) ≡ false = ground arith in
    rw (encode_table_goes_on i h, decode_table-encode_table i h, e) refl

-- `buf` after one more character.
abbrev shift : ℕ → ℕ → ℕ
shift buf i = (buf * 2 ^ 6 + i) % 2 ^ 32

-- `n` holds the bytes `x`, `y` and `z`.
abbrev Holds : ℕ → ℕ → ℕ → ℕ → Type 0
Holds n x y z = (n ≡ x * 2 ^ 16 + y * 2 ^ 8 + z) × (x < 256) × (y < 256) × (z < 256)

after_two : ℕ → ℕ → ℕ
after_two buf n = shift (shift buf (n / 2 ^ 18 % 64)) (n / 2 ^ 12 % 64)

after_three : ℕ → ℕ → ℕ
after_three buf n = shift (after_two buf n) (n / 2 ^ 6 % 64)

two_characters :
    (buf n x y z : ℕ) (cs : Bytes)
    → Holds n x y z
    → decode_loop buf 0 (part1 n ∷ part2 n ∷ cs) ≡ x ∷ decode_loop (after_two buf n) 4 cs
unfolding decode_step after_two
two_characters buf n x y z cs h =
    decode_loop-encode_table buf 0 (n / 2 ^ 18 % 64) _ (omega arith)
    ∙ decode_loop-encode_table (shift buf (n / 2 ^ 18 % 64)) 6 (n / 2 ^ 12 % 64) cs (omega arith)
    ∙ ap (λ v. v ∷ decode_loop (after_two buf n) 4 cs) (omega arith)

third_character :
    (buf n x y z : ℕ) (cs : Bytes)
    → Holds n x y z
    → decode_loop (after_two buf n) 4 (part3 n ∷ cs) ≡ y ∷ decode_loop (after_three buf n) 2 cs
unfolding decode_step after_two after_three
third_character buf n x y z cs h =
    decode_loop-encode_table (after_two buf n) 4 (n / 2 ^ 6 % 64) cs (omega arith)
    ∙ ap (λ v. v ∷ decode_loop (after_three buf n) 2 cs) (omega arith)

fourth_character :
    (buf n x y z : ℕ) (cs : Bytes)
    → Holds n x y z
    → decode_loop (after_three buf n) 2 (part4 n ∷ cs)
      ≡ z ∷ decode_loop (shift (after_three buf n) (n % 64)) 0 cs
unfolding decode_step after_two after_three
fourth_character buf n x y z cs h =
    decode_loop-encode_table (after_three buf n) 2 (n % 64) cs (omega arith)
    ∙ ap (λ v. v ∷ decode_loop (shift (after_three buf n) (n % 64)) 0 cs) (omega arith)

decode_end : (buf bits : ℕ) (cs : Bytes) → decode_loop buf bits (b'=' ∷ cs) ≡ []
unfolding decode_loop
decode_end buf bits cs = refl

decode_loop-encode : (buf : ℕ) (xs : Bytes) → IsBytes xs → decode_loop buf 0 (encode xs) ≡ xs
unfolding encode
decode_loop-encode buf [] h = unfold decode_loop in refl
decode_loop-encode buf (x ∷ []) (hx, h) =
    let n = x * 2 ^ 16 in
    two_characters buf n x 0 0 _ (omega arith) ∙ ap (λ t. x ∷ t) (decode_end (after_two buf n) 4 _)
decode_loop-encode buf (x ∷ y ∷ []) (hx, (hy, h)) =
    let n = x * 2 ^ 16 + y * 2 ^ 8 in
    let holds : Holds n x y 0 = omega arith in
    two_characters buf n x y 0 _ holds
    ∙ ap (λ t. x ∷ t)
        (third_character buf n x y 0 _ holds ∙ ap (λ t. y ∷ t) (decode_end (after_three buf n) 2 _))
decode_loop-encode buf (x ∷ y ∷ z ∷ xs) (hx, (hy, (hz, h))) =
    let n = x * 2 ^ 16 + y * 2 ^ 8 + z in
    let holds : Holds n x y z = omega arith in
    two_characters buf n x y z _ holds
    ∙ ap (λ t. x ∷ t)
        (third_character buf n x y z _ holds
          ∙ ap (λ t. y ∷ t)
              (fourth_character buf n x y z _ holds
                ∙ ap (λ t. z ∷ t) (decode_loop-encode (shift (after_three buf n) (n % 64)) xs h)))

-- For a text of bytes (numbers below 256), decoding the encoded text gives the text back.
pub decode-encode : (xs : Bytes) → IsBytes xs → decode (encode xs) ≡ xs
unfolding decode
decode-encode xs h = decode_loop-encode 0 xs h

-- The encoded text has the length that `encode` reserves.
pub length-encode : (xs : Bytes) → length (encode xs) ≡ (length xs + 2) / 3 * 4
unfolding encode
length-encode [] = omega arith
length-encode (x ∷ []) = omega arith
length-encode (x ∷ y ∷ []) = omega arith
length-encode (x ∷ y ∷ z ∷ xs) = omega (arith, length-encode xs)
