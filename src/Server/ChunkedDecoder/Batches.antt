-- ===== src/Server/ChunkedDecoder/Batches.antt =====
-- A raw read decodes as the reference does, wherever it ends.
use mathlib.Core.Path.{subst}
use thinger_http.Common.{
  ℕ, suc, zero, ◌+◌, ◌-◌, ◌≤◌, ◌<◌, ◌≡◌, refl, sym, ap, ◌∙◌, Bool, true, false, ◌||◌, [], ◌∷◌, ◌++◌,
  leb, ◌⊎◌, inl, inr, length, Bytes, arith, append_assoc, length-append, Bool-cases,
}
use thinger_http.Server.ChunkedDecoder.{Chunking, Decoded, is_done, chunk_byte, chunk_batch}
use thinger_http.Server.ChunkedDecoder.Reference.{emit, IsValid}
use thinger_http.Server.ChunkedDecoder.Rounds.{Follows, Advances, chunk_byte-Advances}

-- `d` is what the inner loop makes of `raw`, when `output` was decoded before.
pub record Batch (max_size : ℕ) (c : Chunking) (output raw : Bytes) (d : Decoded) : Type 0 where
  pub valid : IsValid d.0
  pub same : (more : Bytes) → output ++ emit c (raw ++ more) ≡ d.1 ++ emit d.0 (d.2 ++ more)
  pub sizes : length d.1 + length d.2 ≤ length output + length raw
  pub leaves : length d.2 ≤ length raw
  pub stops : (d.2 ≡ []) ⊎ ((is_done d.0.state ≡ true) ⊎ (max_size ≤ length d.1))

stays :
    (max_size : ℕ) (c : Chunking) (output raw : Bytes)
    → IsValid c
    → (raw ≡ []) ⊎ ((is_done c.state ≡ true) ⊎ (max_size ≤ length output))
    → Batch max_size c output raw (c, output, raw)
stays max_size c output raw v stop = record {
  valid = v;
  same = λ more. refl;
  sizes = omega arith;
  leaves = omega arith;
  stops = stop;
}

moves :
    (max_size : ℕ) (c : Chunking) (output raw : Bytes) (d e : Decoded)
    → Follows c raw d
    → Batch max_size d.0 (output ++ d.1) d.2 e
    → Batch max_size c output raw e
moves max_size c output raw d e f b = record {
  valid = b.valid;
  same =
      λ more. ap (λ t. output ++ t) (f.same more) ∙ sym (append_assoc output d.1 _) ∙ b.same more;
  sizes = omega (arith, b.sizes, f.sizes, length-append output d.1);
  leaves = omega (arith, b.leaves, f.sizes);
  stops = b.stops;
}

or_cases : (a b : Bool) → (a || b) ≡ true → (a ≡ true) ⊎ (b ≡ true)
or_cases a b h = ground arith

module _ (fuel max_size : ℕ) (c : Chunking) (output : Bytes) (byte : ℕ) (raw : Bytes) where
  abbrev taken : Decoded
  taken = chunk_byte c.state (max_size - length output) c byte raw

  abbrev full : Bool
  full = is_done c.state || leb max_size (length output)

  batch_stops :
      full ≡ true → chunk_batch (suc fuel) max_size c output (byte ∷ raw) ≡ (c, output, byte ∷ raw)
  unfolding chunk_batch
  batch_stops e = rw (e) refl

  pub batch_goes :
      full ≡ false
      → chunk_batch (suc fuel) max_size c output (byte ∷ raw)
        ≡ chunk_batch fuel max_size taken.0 (output ++ taken.1) taken.2
  unfolding chunk_batch
  batch_goes e = rw (e) refl

  pub taken-Advances : full ≡ false → IsValid c → Advances c (byte ∷ raw) taken
  taken-Advances e v =
      chunk_byte-Advances c.state (max_size - length output) c.remaining c.size_accum byte raw
        (ground arith) v (ground arith)

pub chunk_batch-Batch :
    (fuel max_size : ℕ) (c : Chunking) (output raw : Bytes)
    → IsValid c
    → length raw ≤ fuel
    → Batch max_size c output raw (chunk_batch fuel max_size c output raw)
chunk_batch-Batch zero max_size c output [] v h =
    unfold chunk_batch in stays max_size c output [] v (inl refl)
chunk_batch-Batch zero max_size c output (byte ∷ raw) v h = absurd (omega arith)
chunk_batch-Batch (suc fuel) max_size c output [] v h =
    unfold chunk_batch in stays max_size c output [] v (inl refl)
chunk_batch-Batch (suc fuel) max_size c output (byte ∷ raw) v h =
    elim (Bool-cases (full fuel max_size c output byte raw)) [
      | inl e ↦
          subst (Batch max_size c output (byte ∷ raw))
            (sym (batch_stops fuel max_size c output byte raw e))
            (stays max_size c output (byte ∷ raw) v (
              inr (elim (or_cases (is_done c.state) (leb max_size (length output)) e) [
                | inl k ↦ inl k
                | inr k ↦ inr (ground arith)
              ])))
      | inr e ↦
          let step = taken-Advances fuel max_size c output byte raw e v in
          let d = taken fuel max_size c output byte raw in
          subst (Batch max_size c output (byte ∷ raw))
            (sym (batch_goes fuel max_size c output byte raw e))
            (moves max_size c output (byte ∷ raw) d _ step.follows (
              chunk_batch-Batch fuel max_size d.0 (output ++ d.1) d.2 step.follows.valid
                (omega (arith, step.progress))))
    ]

-- The loop takes a byte at least.
pub chunk_batch-progress :
    (fuel max_size : ℕ) (c : Chunking) (byte : ℕ) (raw : Bytes)
    → IsValid c
    → is_done c.state ≡ false
    → 0 < max_size
    → length raw ≤ fuel
    → length (chunk_batch (suc fuel) max_size c [] (byte ∷ raw)).2 ≤ length raw
chunk_batch-progress fuel max_size c byte raw v going room h =
    let e : full fuel max_size c [] byte raw ≡ false = rw (going) (ground arith) in
    let step = taken-Advances fuel max_size c [] byte raw e v in
    let d = taken fuel max_size c [] byte raw in
    let rest =
      chunk_batch-Batch fuel max_size d.0 d.1 d.2 step.follows.valid
        (omega (arith, step.progress)) in
    rw (batch_goes fuel max_size c [] byte raw e) (omega (arith, rest.leaves, step.progress))
