-- ===== src/Server/ChunkedDecoder/Rounds.antt =====
-- A round of the inner loop decodes as the reference does, whatever comes behind the raw bytes.
use mathlib.Core.Path.{subst}
use thinger_http.Common.{
  ℕ, suc, ◌+◌, ◌≤◌, ◌<◌, ◌≡◌, refl, sym, ap, ◌∙◌, false, [], ◌∷◌, ◌++◌, ◌==◌, inl, inr, length,
  take, drop, min, Bytes, arith, append_assoc, take-drop, length-take, length-append, Bool-cases,
  ==_iff,
}
use thinger_http.Server.ChunkedDecoder.{
  ChunkState, Chunking, Decoded, size, size_lf, chunk_data, data_cr, data_lf, trailer_lf, done,
  is_data, is_done, copy_data, begin_chunk, end_trailer, chunk_byte,
}
use thinger_http.Server.ChunkedDecoder.Reference.{
  after, emit, IsValid, emit-done, in_data, copied, emit-copy,
}

-- `d` decodes a part of `raw` as the reference does, whatever comes behind `raw`.
pub record Follows (c : Chunking) (raw : Bytes) (d : Decoded) : Type 0 where
  pub valid : IsValid d.0
  pub same : (more : Bytes) → emit c (raw ++ more) ≡ d.1 ++ emit d.0 (d.2 ++ more)
  pub sizes : length d.1 + length d.2 ≤ length raw

pub copied-IsValid : (n a k : ℕ) → IsValid (copied n a k)
copied-IsValid n a k = ground arith

copy_data-Follows :
    (room n a : ℕ) (raw : Bytes)
    → 0 < n
    → Follows (in_data n a) raw (copy_data room (in_data n a) raw)
unfolding copy_data
copy_data-Follows room n a raw h =
    let k = min (min n (length raw)) room in
    let taken : length (take k raw) ≡ k = omega (arith, length-take k raw) in
    record {
      valid = copied-IsValid n a k;
      same = λ more.
          ap (λ t. emit (in_data n a) (t ++ more)) (sym (take-drop k raw))
          ∙ ap (emit (in_data n a)) (append_assoc (take k raw) (drop k raw) more)
          ∙ emit-copy n a (take k raw) (drop k raw ++ more) h (omega arith)
          ∙ ap (λ m. take k raw ++ emit (copied n a m) (drop k raw ++ more)) taken;
      sizes = omega (arith, length-append (take k raw) (drop k raw), ap length (take-drop k raw));
    }

-- A part that leaves less than there was.
pub record Advances (c : Chunking) (raw : Bytes) (d : Decoded) : Type 0 where
  pub follows : Follows c raw d
  pub progress : suc (length d.2) ≤ length raw

copy_data-progress :
    (room n a : ℕ) (raw : Bytes)
    → 0 < n
    → 0 < room
    → 0 < length raw
    → suc (length (copy_data room (in_data n a) raw).2) ≤ length raw
unfolding copy_data
copy_data-progress room n a raw h k l =
    let m = min (min n (length raw)) room in
    omega (
      arith,
      length-append (take m raw) (drop m raw),
      ap length (take-drop m raw),
      length-take m raw,
    )

pub nothing-Follows : (c : Chunking) (raw : Bytes) → IsValid c → Follows c raw (c, [], raw)
nothing-Follows c raw v = record { valid = v; same = λ more. refl; sizes = omega arith }

-- A byte that the automaton takes without a copy, and what follows.
then-Advances :
    (c : Chunking) (byte : ℕ) (raw : Bytes) (d : Decoded)
    → is_data c.state ≡ false
    → Follows (after c.state c byte) raw d
    → Advances c (byte ∷ raw) d
then-Advances c byte raw d h f = record {
  follows = record {
    valid = f.valid;
    same = λ more. unfold emit in rw (h) (f.same more);
    sizes = omega (arith, f.sizes);
  };
  progress = omega (arith, f.sizes);
}

module _ (room n a byte : ℕ) (raw : Bytes) where
  abbrev chunking : ChunkState → Chunking
  chunking s = record { state = s; remaining = n; size_accum = a }

  -- A round that takes the byte alone.
  abbrev IsPlain : ChunkState → Type 0
  IsPlain s =
      IsValid (after s (chunking s) byte)
      × (chunk_byte s room (chunking s) byte raw ≡ (after s (chunking s) byte, [], raw))

  size-IsPlain : IsPlain size
  unfolding chunk_byte after
  size-IsPlain = (ground arith, ground arith)

  data_cr-IsPlain : IsPlain data_cr
  unfolding chunk_byte after
  data_cr-IsPlain = (ground arith, ground arith)

  data_lf-IsPlain : IsPlain data_lf
  unfolding chunk_byte after
  data_lf-IsPlain = (ground arith, ground arith)

  plain-Advances :
      (s : ChunkState)
      → is_data s ≡ false
      → IsPlain s
      → Advances (chunking s) (byte ∷ raw) (chunk_byte s room (chunking s) byte raw)
  plain-Advances s h (v, e) =
      subst (Advances (chunking s) (byte ∷ raw)) (sym e)
        (then-Advances (chunking s) byte raw _ h (nothing-Follows _ raw v))

abbrev pub in_state : ChunkState → ℕ → ℕ → Chunking
in_state s n a = record { state = s; remaining = n; size_accum = a }

-- The bytes behind the line of a size.
begin_chunk-Follows :
    (room n a : ℕ) (raw : Bytes)
    → Follows
        (after size_lf (in_state size_lf n a) b'\n')
        raw
        (begin_chunk room (in_state size_lf n a) raw)
unfolding begin_chunk after
begin_chunk-Follows room n a [] = elim (Bool-cases (a == 0)) [
  | inl e ↦ rw (e) (nothing-Follows (in_state trailer_lf n a) [] tt)
  | inr e ↦ rw (e) (nothing-Follows (in_data a 0) [] (ground arith))
]
begin_chunk-Follows room n a (x ∷ raw) = elim (Bool-cases (a == 0)) [
  | inl e ↦ rw (e) (nothing-Follows (in_state trailer_lf n a) (x ∷ raw) tt)
  | inr e ↦ rw (e) (copy_data-Follows room a 0 (x ∷ raw) (ground arith))
]

size_lf-Advances :
    (room n a byte : ℕ) (raw : Bytes)
    → Advances
        (in_state size_lf n a)
        (byte ∷ raw)
        (chunk_byte size_lf room (in_state size_lf n a) byte raw)
unfolding chunk_byte
size_lf-Advances room n a byte raw = elim (Bool-cases (byte == b'\n')) [
  | inl e ↦ rw (e) (
      then-Advances (in_state size_lf n a) byte raw _ refl
        (rw ((==_iff byte b'\n').0 e) (begin_chunk-Follows room n a raw)))
  | inr e ↦ rw (e) (
      then-Advances (in_state size_lf n a) byte raw _ refl
        (unfold after in rw (e) (nothing-Follows (in_state size_lf n a) raw tt)))
]

end_trailer-Follows :
    (n a : ℕ) (raw : Bytes)
    → Follows (in_state done n a) raw (end_trailer (in_state trailer_lf n a) raw)
unfolding end_trailer
end_trailer-Follows n a [] = nothing-Follows (in_state done n a) [] tt
end_trailer-Follows n a (x ∷ raw) = record {
  valid = tt;
  same = λ more. emit-done n a _ ∙ sym (emit-done n a _);
  sizes = ground arith;
}

trailer_lf-Advances :
    (room n a byte : ℕ) (raw : Bytes)
    → Advances
        (in_state trailer_lf n a)
        (byte ∷ raw)
        (chunk_byte trailer_lf room (in_state trailer_lf n a) byte raw)
unfolding chunk_byte
trailer_lf-Advances room n a byte raw = elim (Bool-cases (byte == b'\r')) [
  | inl e ↦ rw (e) (
      then-Advances (in_state trailer_lf n a) byte raw _ refl
        (unfold after in rw (e) (end_trailer-Follows n a raw)))
  | inr e ↦ rw (e) (
      then-Advances (in_state trailer_lf n a) byte raw _ refl
        (unfold after in rw (e) (nothing-Follows (in_state trailer_lf n a) raw tt)))
]

data-Advances :
    (room n a byte : ℕ) (raw : Bytes)
    → 0 < n
    → 0 < room
    → Advances (in_data n a) (byte ∷ raw) (chunk_byte chunk_data room (in_data n a) byte raw)
unfolding chunk_byte
data-Advances room n a byte raw h free = record {
  follows = copy_data-Follows room n a (byte ∷ raw) h;
  progress = copy_data-progress room n a (byte ∷ raw) h free (omega arith);
}

pub chunk_byte-Advances :
    (s : ChunkState) (room n a byte : ℕ) (raw : Bytes)
    → is_done s ≡ false
    → IsValid (in_state s n a)
    → 0 < room
    → Advances (in_state s n a) (byte ∷ raw) (chunk_byte s room (in_state s n a) byte raw)
chunk_byte-Advances size room n a byte raw h v free =
    plain-Advances room n a byte raw size refl (size-IsPlain room n a byte raw)
chunk_byte-Advances size_lf room n a byte raw h v free = size_lf-Advances room n a byte raw
chunk_byte-Advances chunk_data room n a byte raw h v free = data-Advances room n a byte raw v free
chunk_byte-Advances data_cr room n a byte raw h v free =
    plain-Advances room n a byte raw data_cr refl (data_cr-IsPlain room n a byte raw)
chunk_byte-Advances data_lf room n a byte raw h v free =
    plain-Advances room n a byte raw data_lf refl (data_lf-IsPlain room n a byte raw)
chunk_byte-Advances trailer_lf room n a byte raw h v free = trailer_lf-Advances room n a byte raw
chunk_byte-Advances done room n a byte raw h v free = ground arith
