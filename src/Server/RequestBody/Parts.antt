-- ===== src/Server/RequestBody/Parts.antt =====
-- `read_some_chunked` ends, and decodes the next part of the body.
use thinger_http.Common.{
  ℕ, suc, zero, ◌<◌, ◌≡◌, refl, sym, ap, ◌∙◌, true, false, Option, some, [], ◌∷◌, ◌++◌, ◌==◌, ◌⊎◌,
  inl, inr, length, Bytes, arith, Bool-cases,
}
use thinger_http.Server.ChunkedDecoder.{Chunking, is_done}
use thinger_http.Server.ChunkedDecoder.Reference.{emit, IsValid}
use thinger_http.Server.RequestBody.{ServerRequest, chunk_round, read_some_chunked}
use thinger_http.Server.RequestBody.Available.{available, AreFull}
use thinger_http.Server.RequestBody.ChunkedReads.{Round, chunk_round-Round, emit-nothing}

-- A read of a part of the body; an empty part is the end of it.
pub record Part (r : ServerRequest) (o : Option (Bytes × ServerRequest)) : Type 0 where
  pub output : Bytes
  pub next : ServerRequest
  pub is : o ≡ some (output, next)
  pub valid : IsValid next.chunking
  pub full : AreFull next.socket
  pub same : emit r.chunking (available r) ≡ output ++ emit next.chunking (available next)
  pub http : next.http_request ≡ r.http_request
  pub limit : next.max_body_size ≡ r.max_body_size
  pub moves :
      ((output ≡ []) × (emit next.chunking (available next) ≡ []))
      ⊎ ((0 < length output) × (length (available next) < length (available r)))

module _ (fuel max_size : ℕ) (r : ServerRequest) where
  abbrev round : ℕ × Bytes × ServerRequest
  round = chunk_round max_size r

  part_done :
      is_done r.chunking.state ≡ true → read_some_chunked (suc fuel) max_size r ≡ some ([], r)
  unfolding read_some_chunked
  part_done e = rw (e) refl

  part_end :
      is_done r.chunking.state ≡ false
      → (round.0 == 0) ≡ true
      → read_some_chunked (suc fuel) max_size r ≡ some ([], round.2)
  unfolding read_some_chunked
  part_end e k = rw (e, k) refl

  part_again :
      is_done r.chunking.state ≡ false
      → (round.0 == 0) ≡ false
      → (length round.1 == 0) ≡ true
      → read_some_chunked (suc fuel) max_size r ≡ read_some_chunked fuel max_size round.2
  unfolding read_some_chunked
  part_again e k l = rw (e, k, l) refl

  part_output :
      is_done r.chunking.state ≡ false
      → (round.0 == 0) ≡ false
      → (length round.1 == 0) ≡ false
      → read_some_chunked (suc fuel) max_size r ≡ some (round.1, round.2)
  unfolding read_some_chunked
  part_output e k l = rw (e, k, l) refl

length-zero : (xs : Bytes) → (length xs == 0) ≡ true → xs ≡ []
length-zero [] h = refl
length-zero (x ∷ xs) h = absurd (ground arith)

append_is_nil : (xs ys : Bytes) → [] ≡ xs ++ ys → ys ≡ []
append_is_nil [] ys h = sym h
append_is_nil (x ∷ xs) ys h = absurd (ground arith)

emit-nil : (c : Chunking) (xs : Bytes) → xs ≡ [] → emit c xs ≡ []
unfolding emit
emit-nil c xs h = ap (emit c) h

module _ (max_size : ℕ) where
  done-Part :
      (fuel : ℕ) (r : ServerRequest)
      → is_done r.chunking.state ≡ true
      → IsValid r.chunking
      → AreFull r.socket
      → Part r (read_some_chunked (suc fuel) max_size r)
  done-Part fuel r e v full = record {
    output = [];
    next = r;
    is = part_done fuel max_size r e;
    valid = v;
    full = full;
    same = refl;
    http = refl;
    limit = refl;
    moves = inl (refl, emit-nothing r.chunking (available r) e);
  }

  end-Part :
      (fuel : ℕ) (r : ServerRequest)
      → is_done r.chunking.state ≡ false
      → Round r (chunk_round max_size r)
      → (chunk_round max_size r).0 ≡ 0
      → available r ≡ []
      → Part r (read_some_chunked (suc fuel) max_size r)
  end-Part fuel r e round zero_bytes nothing =
      let (bytes, output, next) = chunk_round max_size r in
      let start = emit-nil r.chunking (available r) nothing in
      let end =
        append_is_nil output (emit next.chunking (available next)) (sym start ∙ round.same) in
      record {
        output = [];
        next = next;
        is = part_end fuel max_size r e (ground arith);
        valid = round.valid;
        full = round.full;
        same = start ∙ sym end;
        http = round.http;
        limit = round.limit;
        moves = inl (refl, end);
      }

  -- A round that read something, given how it goes on.
  moving-Part :
      (fuel : ℕ) (r : ServerRequest)
      → is_done r.chunking.state ≡ false
      → Round r (chunk_round max_size r)
      → 0 < (chunk_round max_size r).0
      → length (available (chunk_round max_size r).2) < length (available r)
      → Part (chunk_round max_size r).2 (read_some_chunked fuel max_size (chunk_round max_size r).2)
      → Part r (read_some_chunked (suc fuel) max_size r)
  moving-Part fuel r e round some_bytes less again =
      let (bytes, output, next) = chunk_round max_size r in
      let k : (bytes == 0) ≡ false = ground arith in
      elim (Bool-cases (length output == 0)) [
        | inl l ↦ record {
          output = again.output;
          next = again.next;
          is = part_again fuel max_size r e k l ∙ again.is;
          valid = again.valid;
          full = again.full;
          same =
              round.same
              ∙ ap (λ t. t ++ emit next.chunking (available next)) (length-zero output l)
              ∙ again.same;
          http = again.http ∙ round.http;
          limit = again.limit ∙ round.limit;
          moves = elim again.moves [ inl h ↦ inl h | inr (h, m) ↦ inr (h, omega arith) ];
        }
        | inr l ↦ record {
          output = output;
          next = next;
          is = part_output fuel max_size r e k l;
          valid = round.valid;
          full = round.full;
          same = round.same;
          http = round.http;
          limit = round.limit;
          moves = inr (ground arith, less);
        }
      ]

  pub read_some_chunked-Part :
      (fuel : ℕ) (r : ServerRequest)
      → 512 < max_size
      → IsValid r.chunking
      → AreFull r.socket
      → length (available r) < fuel
      → Part r (read_some_chunked fuel max_size r)
  read_some_chunked-Part zero r room v full h = absurd (omega arith)
  read_some_chunked-Part (suc fuel) r room v full h = elim (Bool-cases (is_done r.chunking.state)) [
    | inl e ↦ done-Part fuel r e v full
    | inr e ↦
        let round = chunk_round-Round max_size r e v room full in
        elim round.moves [
          | inl (none_read, nothing) ↦ end-Part fuel r e round none_read nothing
          | inr (some_read, less) ↦ moving-Part fuel r e round some_read less (
              read_some_chunked-Part fuel (chunk_round max_size r).2 room round.valid round.full
                (omega arith))
        ]
  ]
