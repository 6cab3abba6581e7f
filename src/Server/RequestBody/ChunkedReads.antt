-- ===== src/Server/RequestBody/ChunkedReads.antt =====
-- A round of `read_some_chunked` decodes as the reference does, wherever the reads end.
use mathlib.Core.Path.{subst}
use thinger_http.Common.{
  ℕ, ◌+◌, ◌-◌, ◌≤◌, ◌<◌, ◌≡◌, refl, sym, ap, ◌∙◌, true, false, ◌&&◌, [], ◌∷◌, ◌++◌, ltb, ◌==◌, ◌⊎◌,
  inl, inr, if◌then◌else◌, length, min, Bytes, flatten, arith, length-append, Bool-cases, le_or_lt,
}
use thinger_http.Server.ChunkedDecoder.{
  ChunkState, Chunking, Decoded, chunk_data, data_cr, done, is_done, is_data, chunk_batch,
}
use thinger_http.Server.ChunkedDecoder.Reference.{
  emit, IsValid, in_data, copied, emit-copy, emit-done,
}
use thinger_http.Server.ChunkedDecoder.Rounds.{copied-IsValid}
use thinger_http.Server.ChunkedDecoder.Batches.{Batch, chunk_batch-Batch, chunk_batch-progress}
use thinger_http.Server.RequestBody.{
  ServerRequest, raw_read_some, is_fast, advance_chunk, push_back, decode_batch, chunk_round,
}
use thinger_http.Server.RequestBody.Available.{
  ahead, available, AreFull, RawRead, raw_read_some-RawRead,
}

-- What a round makes of what is available.
pub record Round (r : ServerRequest) (o : ℕ × Bytes × ServerRequest) : Type 0 where
  pub valid : IsValid o.2.chunking
  pub full : AreFull o.2.socket
  pub same : emit r.chunking (available r) ≡ o.1 ++ emit o.2.chunking (available o.2)
  pub http : o.2.http_request ≡ r.http_request
  pub limit : o.2.max_body_size ≡ r.max_body_size
  pub moves :
      ((o.0 ≡ 0) × (available r ≡ []))
      ⊎ ((0 < o.0) × (length (available o.2) < length (available r)))

fast_cases : (s : ChunkState) (n : ℕ) → (is_data s && ltb 0 n) ≡ true → (s ≡ chunk_data) × (0 < n)
fast_cases s n h = ground arith

fast_chunking :
    (c : Chunking) → is_fast c ≡ true → (c ≡ in_data c.remaining c.size_accum) × (0 < c.remaining)
fast_chunking c h =
    let (e, l) = fast_cases c.state c.remaining h in (ap (λ s. record c { state = s }) e, l)

abbrev advanced : ℕ → Chunking → Chunking
advanced k c = record c {
  state = (if c.remaining - k == 0 then data_cr else c.state);
  remaining = c.remaining - k;
}

advance_chunk-copied :
    (r : ServerRequest) (n a k : ℕ)
    → r.chunking ≡ in_data n a
    → (advance_chunk k r).chunking ≡ copied n a k
unfolding advance_chunk
advance_chunk-copied r n a k e = ap (advanced k) e

-- A read moves on, or there is nothing to read.
read_moves :
    (max_size : ℕ) (r : ServerRequest) (o : Bytes × ServerRequest)
    → RawRead max_size r o
    → ((length o.0 ≡ 0) × (available r ≡ []))
      ⊎ ((0 < length o.0) × (length (available o.1) < length (available r)))
read_moves max_size r o raw = elim (le_or_lt (length o.0) 0) [
  | inl h ↦ inl (omega arith, raw.at_end (omega arith))
  | inr h ↦ inr (h, omega (arith, ap length raw.read.split, length-append o.0 (available o.1)))
]

fast-Round :
    (max_size : ℕ) (r : ServerRequest)
    → is_fast r.chunking ≡ true
    → 0 < max_size
    → AreFull r.socket
    → Round r (chunk_round max_size r)
unfolding chunk_round
fast-Round max_size r fast room full =
    let (e, pos) = fast_chunking r.chunking fast in
    let n = r.chunking.remaining in
    let a = r.chunking.size_accum in
    let asked = min n max_size in
    let raw = raw_read_some-RawRead asked r (omega arith) full in
    let (bytes, next) = raw_read_some asked r in
    let c = advance_chunk-copied next n a (length bytes) (raw.read.keeps.chunking ∙ e) in
    rw (fast) (record {
      valid = subst IsValid (sym c) (copied-IsValid n a (length bytes));
      full = unfold advance_chunk in raw.read.full;
      same =
          ap (λ c. emit c (available r)) e
          ∙ ap (emit (in_data n a)) raw.read.split
          ∙ emit-copy n a bytes (available next) pos (omega (arith, raw.read.bound))
          ∙ ap (λ c. bytes ++ emit c (available next)) (sym c);
      http = unfold advance_chunk in raw.read.keeps.http;
      limit = unfold advance_chunk in raw.read.keeps.limit;
      moves = unfold advance_chunk in read_moves asked r (raw_read_some asked r) raw;
    })

done_is : (s : ChunkState) → is_done s ≡ true → s ≡ done
done_is s h = ground arith

abbrev with_state : Chunking → ChunkState → Chunking
with_state c s = record c { state = s }

pub emit-nothing : (c : Chunking) (xs : Bytes) → is_done c.state ≡ true → emit c xs ≡ []
emit-nothing c xs h =
    let e : c ≡ record c { state = done } = ap (with_state c) (done_is c.state h) in
    ap (λ c. emit c xs) e ∙ emit-done c.remaining c.size_accum xs

-- After a raw read, wherever the decoder stops in it.
Batch-push_back :
    (max_size : ℕ) (c : Chunking) (raw : Bytes) (d : Decoded) (read : ServerRequest)
    → Batch max_size c [] raw d
    → length raw < max_size
    → AreFull read.socket
    → let next = push_back d.2 (record read { chunking = d.0 }) in
      (emit c (raw ++ available read) ≡ d.1 ++ emit next.chunking (available next))
      × AreFull next.socket
      × IsValid next.chunking
      × (length (available next) ≤ length d.2 + length (available read))
unfolding push_back
Batch-push_back max_size c raw (next, output, []) read b small full =
    (b.same (available read), full, b.valid, omega arith)
Batch-push_back max_size c raw (next, output, x ∷ left) read b small full =
    let is_end : is_done next.state ≡ true = elim b.stops [
      | inl e ↦ ground arith
      | inr (inl e) ↦ e
      | inr (inr h) ↦ absurd (omega (arith, b.sizes))
    ] in
    (
      b.same (available read)
          ∙ ap (λ t. output ++ t) (emit-nothing next _ is_end ∙ sym (emit-nothing next _ is_end)),
      full,
      b.valid,
      omega (
        arith,
        length-append (x ∷ left) (flatten read.socket),
        length-append (ahead read) (flatten read.socket),
      ),
    )

push_back-http :
    (left : Bytes) (r : ServerRequest) → (push_back left r).http_request ≡ r.http_request
unfolding push_back
push_back-http [] r = refl
push_back-http (x ∷ left) r = refl

push_back-limit :
    (left : Bytes) (r : ServerRequest) → (push_back left r).max_body_size ≡ r.max_body_size
unfolding push_back
push_back-limit [] r = refl
push_back-limit (x ∷ left) r = refl

-- What is left of a raw read is less than was read.
batch_moves :
    (max_size : ℕ) (c : Chunking) (raw : Bytes)
    → IsValid c
    → is_done c.state ≡ false
    → 0 < max_size
    → (length raw ≡ 0) ⊎ (length (chunk_batch (length raw) max_size c [] raw).2 < length raw)
batch_moves max_size c [] v going room = inl refl
batch_moves max_size c (x ∷ raw) v going room =
    inr
      (omega (arith, chunk_batch-progress (length raw) max_size c x raw v going room (omega arith)))

slow-Round :
    (max_size : ℕ) (r : ServerRequest) (raw : Bytes) (read : ServerRequest)
    → RawRead 512 r (raw, read)
    → is_done read.chunking.state ≡ false
    → IsValid read.chunking
    → 512 < max_size
    → Round r (length raw, (decode_batch max_size raw read).0, (decode_batch max_size raw read).1)
unfolding decode_batch
slow-Round max_size r raw read raw_read going v room =
    let d = chunk_batch (length raw) max_size read.chunking [] raw in
    let batch = chunk_batch-Batch (length raw) max_size read.chunking [] raw v (omega arith) in
    let (same, full, valid, left) =
      Batch-push_back max_size read.chunking raw d read batch (omega (arith, raw_read.read.bound))
        raw_read.read.full in
    let size : length (available r) ≡ length raw + length (available read) =
      ap length raw_read.read.split ∙ length-append raw (available read) in
    record {
      valid = valid;
      full = full;
      same =
          ap (λ c. emit c (available r)) (sym raw_read.read.keeps.chunking)
          ∙ ap (emit read.chunking) raw_read.read.split
          ∙ same;
      http = push_back-http d.2 (record read { chunking = d.0 }) ∙ raw_read.read.keeps.http;
      limit = push_back-limit d.2 (record read { chunking = d.0 }) ∙ raw_read.read.keeps.limit;
      moves = elim (batch_moves max_size read.chunking raw v going (omega arith)) [
        | inl e ↦ inl (e, raw_read.at_end e)
        | inr h ↦ inr (omega arith, omega (arith, left, size, h))
      ];
    }

slow_shape :
    (max_size : ℕ) (r : ServerRequest)
    → is_fast r.chunking ≡ false
    → chunk_round max_size r ≡ (
      length (raw_read_some 512 r).0,
      (decode_batch max_size (raw_read_some 512 r).0 (raw_read_some 512 r).1).0,
      (decode_batch max_size (raw_read_some 512 r).0 (raw_read_some 512 r).1).1,
    )
unfolding chunk_round
slow_shape max_size r slow = rw (slow) refl

pub chunk_round-Round :
    (max_size : ℕ) (r : ServerRequest)
    → is_done r.chunking.state ≡ false
    → IsValid r.chunking
    → 512 < max_size
    → AreFull r.socket
    → Round r (chunk_round max_size r)
chunk_round-Round max_size r going v room full = elim (Bool-cases (is_fast r.chunking)) [
  | inl fast ↦ fast-Round max_size r fast (omega arith) full
  | inr slow ↦
      let (raw, read) = raw_read_some 512 r in
      let raw_read = raw_read_some-RawRead 512 r (omega arith) full in
      let same = sym raw_read.read.keeps.chunking in
      subst (Round r) (sym (slow_shape max_size r slow)) (
        slow-Round max_size r raw read raw_read (subst (λ c. is_done c.state ≡ false) same going)
          (subst IsValid same v) room)
]
