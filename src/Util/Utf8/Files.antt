-- ===== src/Util/Utf8/Files.antt =====
-- A file is validated in blocks of 4096 bytes, each by itself.
use thinger_http.Common.{
  ℕ, suc, zero, ◌+◌, ◌<◌, ◌≤◌, ◌≡◌, refl, ap, sym, ◌∙◌, Bool, true, false, some, List, [], ◌∷◌,
  ◌++◌, if◌then◌else◌, inl, All, All-append, length, length-append, take, drop, Bytes, arith,
}
use thinger_http.Util.Utf8.{valid_loop, is_valid, file_blocks, file_is_valid}
use thinger_http.Util.Utf8.Encoding.{
  IsScalar, encode, encode_all, encode_one, encode_two, encode_three, encode_four, size1, size2,
  size3, size4, Size-of,
}
use thinger_http.Util.Utf8.Validity.{valid_loop-encode, is_valid-encode_all}

take_all : (n : ℕ) (xs : Bytes) → length xs ≤ n → take n xs ≡ xs
take_all zero [] le = refl
take_all (suc n) [] le = refl
take_all zero (x ∷ xs) le = absurd (omega arith)
take_all (suc n) (x ∷ xs) le = ground (arith, take_all n xs)

drop_all : (n : ℕ) (xs : Bytes) → length xs ≤ n → drop n xs ≡ []
drop_all zero [] le = refl
drop_all (suc n) [] le = refl
drop_all zero (x ∷ xs) le = absurd (omega arith)
drop_all (suc n) (x ∷ xs) le = ground (arith, drop_all n xs)

file_blocks_step :
    (f b1 : ℕ) (rest block : Bytes)
    → take 4096 (b1 ∷ rest) ≡ block
    → file_blocks (suc f) (b1 ∷ rest)
      ≡ (if is_valid block then file_blocks f (drop 4096 (b1 ∷ rest)) else false)
unfolding file_blocks
file_blocks_step f b1 rest block e =
    ap (λ t. if is_valid t then file_blocks f (drop 4096 (b1 ∷ rest)) else false) e

file_blocks_nil : (f : ℕ) → file_blocks f [] ≡ true
unfolding file_blocks
file_blocks_nil f = refl

if_same : (b : Bool) → (if b then true else false) ≡ b
if_same true = refl
if_same false = refl

-- A file of one block at most is valid exactly if its text is.
pub file_is_valid-is_valid :
    (text : Bytes) → length text ≤ 4096 → file_is_valid (some text) ≡ is_valid text
unfolding file_is_valid
file_is_valid-is_valid [] le = file_blocks_nil 0 ∙ unfold is_valid in refl
file_is_valid-is_valid (b1 ∷ rest) le =
    file_blocks_step (length rest) b1 rest (b1 ∷ rest) (take_all 4096 (b1 ∷ rest) le)
    ∙ ap (λ t. if is_valid (b1 ∷ rest) then file_blocks (length rest) t else false)
        (drop_all 4096 (b1 ∷ rest) le)
    ∙ rw (file_blocks_nil (length rest)) (if_same (is_valid (b1 ∷ rest)))

abbrev pub IsAscii : ℕ → Type 0
IsAscii c = c < 128

valid_loop_ascii :
    (n f : ℕ) (before after : Bytes)
    → All IsAscii before
    → n ≡ length before + f
    → valid_loop n (before ++ after) ≡ valid_loop f after
valid_loop_ascii n f [] after a e = ap (λ k. valid_loop k after) (omega arith)
valid_loop_ascii zero f (c ∷ before) after a e = absurd (omega arith)
valid_loop_ascii (suc n) f (c ∷ before) after (k, a) e =
    ap (λ t. valid_loop (suc n) (t ++ (before ++ after))) (sym (encode_one c k))
    ∙ valid_loop-encode n c (before ++ after) (inl (omega arith))
    ∙ valid_loop_ascii n f before after a (omega arith)

encode_all-ascii :
    (before cs : List ℕ) → All IsAscii before → encode_all (before ++ cs) ≡ before ++ encode_all cs
encode_all-ascii [] cs a = refl
encode_all-ascii (c ∷ before) cs (k, a) =
    rw (encode_one c k) (ap (λ t. c ∷ t) (encode_all-ascii before cs a))

IsScalar-ascii : (before : List ℕ) → All IsAscii before → All IsScalar before
IsScalar-ascii [] a = tt
IsScalar-ascii (c ∷ before) (k, a) = (inl (omega arith), IsScalar-ascii before a)

encode_lead : (c : ℕ) → 128 ≤ c → (b1 : ℕ) × (more : Bytes) × (encode c ≡ b1 ∷ more) × (128 ≤ b1)
encode_lead c h = elim (Size-of c) [
  | size1 k ↦ absurd (omega arith)
  | size2 k l ↦ (_, _, encode_two c k l, omega arith)
  | size3 k l ↦ (_, _, encode_three c k l, omega arith)
  | size4 k ↦ (_, _, encode_four c k, omega arith)
]

take_cut :
    (n b1 : ℕ) (before after : Bytes)
    → n ≡ length before + 1
    → take n (before ++ b1 ∷ after) ≡ before ++ b1 ∷ []
take_cut zero b1 before after e = absurd (omega arith)
take_cut (suc n) b1 [] after e = let z : n ≡ 0 = omega arith in rw z refl
take_cut (suc n) b1 (c ∷ before) after e =
    ap (λ t. c ∷ t) (take_cut n b1 before after (omega arith))

lead_alone : (b1 : ℕ) → 128 ≤ b1 → valid_loop 1 (b1 ∷ []) ≡ false
unfolding valid_loop
lead_alone b1 h = ground arith

cut_invalid :
    (b1 : ℕ) (before : Bytes) → All IsAscii before → 128 ≤ b1 → is_valid (before ++ b1 ∷ []) ≡ false
unfolding is_valid
cut_invalid b1 before a h =
    valid_loop_ascii _ 1 before (b1 ∷ []) a (length-append before (b1 ∷ [])) ∙ lead_alone b1 h

file_blocks_cut :
    (f b1 : ℕ) (before after : Bytes)
    → All IsAscii before
    → length before ≡ 4095
    → 128 ≤ b1
    → file_blocks f (before ++ b1 ∷ after) ≡ false
file_blocks_cut f b1 [] after a n h = absurd (omega arith)
file_blocks_cut zero b1 (c ∷ before) after a n h = unfold file_blocks in refl
file_blocks_cut (suc f) b1 (c ∷ before) after a n h =
    file_blocks_step f c (before ++ b1 ∷ after) (c ∷ (before ++ b1 ∷ []))
      (take_cut 4096 b1 (c ∷ before) after (omega arith))
    ∙ rw (cut_invalid b1 (c ∷ before) a h) refl

-- A text of scalar values whose first 4095 bytes are ASCII, followed by a character of more than
-- one byte, is valid as a text, but not as a file.
pub file_is_valid_cut :
    (before cs : List ℕ) (c : ℕ)
    → All IsAscii before
    → length before ≡ 4095
    → 128 ≤ c
    → All IsScalar (c ∷ cs)
    → let text = encode_all (before ++ c ∷ cs) in
      (is_valid text ≡ true) × (file_is_valid (some text) ≡ false)
file_is_valid_cut before cs c a n h s =
    let (b1, more, e, lead) = encode_lead c h in
    let text = encode_all (before ++ c ∷ cs) in
    let split : text ≡ before ++ b1 ∷ (more ++ encode_all cs) =
      encode_all-ascii before (c ∷ cs) a ∙ ap (λ t. before ++ (t ++ encode_all cs)) e in
    (
      (is_valid-encode_all text).1
          (before ++ c ∷ cs, All-append IsScalar before (c ∷ cs) (IsScalar-ascii before a) s, refl),
      unfold file_is_valid in
          rw split (file_blocks_cut _ b1 before (more ++ encode_all cs) a n lead),
    )
