-- ===== src/Server/ChunkedDecoder/Reference.antt =====
-- The decoder as an automaton that takes a byte at a time, to compare the code with.
use thinger_http.Common.{
  ℕ, suc, ◌+◌, ◌-◌, ◌*◌, ◌%◌, ◌^◌, ◌≤◌, ◌<◌, ◌≡◌, refl, sym, ap, ◌∙◌, false, [], ◌∷◌, ◌++◌, ◌==◌,
  inl, inr, Bool-cases, ==_iff, if◌then◌else◌, length, Bytes, arith,
}
use thinger_http.Server.ChunkedDecoder.{
  ChunkState, Chunking, size, size_lf, chunk_data, data_cr, data_lf, trailer_lf, done, is_hex_char,
  hex_value, is_data,
}

-- One byte.
unfoldable pub after : ChunkState → Chunking → ℕ → Chunking
after size c x =
    if is_hex_char x
    then record c { size_accum = (c.size_accum * 16 + hex_value x) % 2 ^ 64 }
    else if x == b'\r'
    then record c { state = size_lf }
    else c
after size_lf c x =
    if x == b'\n'
    then (if c.size_accum == 0
        then record c { state = trailer_lf }
        else record c { remaining = c.size_accum; size_accum = 0; state = chunk_data })
    else c
after chunk_data c x =
    if c.remaining - 1 == 0
    then record c { remaining = 0; state = data_cr }
    else record c { remaining = c.remaining - 1 }
after data_cr c x = if x == b'\r' then record c { state = data_lf } else c
after data_lf c x = if x == b'\n' then record c { state = size; size_accum = 0 } else c
after trailer_lf c x = if x == b'\r' then record c { state = done } else c
after done c x = c

-- What a text decodes to.
unfoldable pub emit : Chunking → Bytes → Bytes
unfolding after
emit c [] = []
emit c (x ∷ xs) =
    let rest = emit (after c.state c x) xs in if is_data c.state then x ∷ rest else rest

-- In the middle of a chunk something is left of it.
abbrev IsValidIn : ChunkState → ℕ → Type 0
IsValidIn chunk_data n = 0 < n
IsValidIn _ n = Unit

abbrev pub IsValid : Chunking → Type 0
IsValid c = IsValidIn c.state c.remaining

pub emit-done :
    (n a : ℕ) (xs : Bytes) → emit (record { state = done; remaining = n; size_accum = a }) xs ≡ []
unfolding emit
emit-done n a [] = refl
emit-done n a (x ∷ xs) = emit-done n a xs

abbrev pub in_data : ℕ → ℕ → Chunking
in_data n a = record { state = chunk_data; remaining = n; size_accum = a }

-- The decoder once it has copied `k` bytes of a chunk.
abbrev pub copied : ℕ → ℕ → ℕ → Chunking
copied n a k = record {
  state = (if n - k == 0 then data_cr else chunk_data);
  remaining = n - k;
  size_accum = a;
}

after-copied : (n a x : ℕ) → after chunk_data (in_data n a) x ≡ copied n a 1
unfolding after
after-copied n a x = elim (Bool-cases (n - 1 == 0)) [
  | inl e ↦ rw (e, (==_iff (n - 1) 0).0 e) refl
  | inr e ↦ rw (e) refl
]

emit-step : (n a x : ℕ) (xs : Bytes) → emit (in_data n a) (x ∷ xs) ≡ x ∷ emit (copied n a 1) xs
unfolding emit
emit-step n a x xs = ap (λ c. x ∷ emit c xs) (after-copied n a x)

copied-zero : (n a : ℕ) → 0 < n → copied n a 0 ≡ in_data n a
copied-zero n a h =
    let e : (n - 0 == 0) ≡ false = ground arith in let f : n - 0 ≡ n = omega arith in rw (e, f) refl

copied-one : (n a : ℕ) → 1 < n → copied n a 1 ≡ in_data (n - 1) a
copied-one n a h = let e : (n - 1 == 0) ≡ false = ground arith in rw (e) refl

copied-suc : (n a k : ℕ) → copied (n - 1) a k ≡ copied n a (suc k)
copied-suc n a k = let e : n - 1 - k ≡ n - suc k = omega arith in rw (e) refl

-- Bytes of a chunk that are copied at once.
pub emit-copy :
    (n a : ℕ) (xs ys : Bytes)
    → 0 < n
    → length xs ≤ n
    → emit (in_data n a) (xs ++ ys) ≡ xs ++ emit (copied n a (length xs)) ys
emit-copy n a [] ys h k = ap (λ c. emit c ys) (sym (copied-zero n a h))
emit-copy n a (x ∷ []) ys h k = emit-step n a x ys
emit-copy n a (x ∷ y ∷ xs) ys h k =
    emit-step n a x (y ∷ (xs ++ ys))
    ∙ ap (λ c. x ∷ emit c (y ∷ (xs ++ ys))) (copied-one n a (omega arith))
    ∙ ap (λ t. x ∷ t) (emit-copy (n - 1) a (y ∷ xs) ys (omega arith) (omega arith))
    ∙ ap (λ c. x ∷ y ∷ (xs ++ emit c ys)) (copied-suc n a (length (y ∷ xs)))
