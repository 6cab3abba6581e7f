-- ===== src/Server/RequestBody/Available.antt =====
-- The bytes that a request can still read, and the raw reads.
use mathlib.Core.Path.{subst}
use thinger_http.Common.{
  ℕ, ◌+◌, ◌≤◌, ◌<◌, ◌≡◌, refl, sym, ap, ◌∙◌, List, [], ◌∷◌, ◌++◌, ltb, leb, inl, inr, length, take,
  drop, min, Bytes, All, arith, append_assoc, take-drop_from, drop_all, length-drop, length-take,
  take-drop, flatten, Bool-cases,
}
use thinger_http.Server.RequestBody.{
  ServerRequest, read_ahead_available, read_some_socket, take_ahead, raw_read_some,
}

abbrev pub ahead : ServerRequest → Bytes
ahead r = drop r.read_ahead_offset r.read_ahead

-- The read-ahead, and what arrives after it.
abbrev pub available : ServerRequest → Bytes
available r = ahead r ++ flatten r.socket

-- Each piece that arrives holds something.
abbrev pub AreFull : List Bytes → Type 0
AreFull = All (λ piece. 0 < length piece)

-- What a read leaves alone.
pub record Keeps (r next : ServerRequest) : Type 0 where
  pub http : next.http_request ≡ r.http_request
  pub chunking : next.chunking ≡ r.chunking
  pub limit : next.max_body_size ≡ r.max_body_size

-- A read of the first bytes that are available.
pub record Read (max_size : ℕ) (r : ServerRequest) (o : Bytes × ServerRequest) : Type 0 where
  pub split : available r ≡ o.0 ++ available o.1
  pub bound : length o.0 ≤ max_size
  pub full : AreFull o.1.socket
  pub keeps : Keeps r o.1

pub length-zero : (xs : Bytes) → length xs ≡ 0 → xs ≡ []
length-zero [] h = refl
length-zero (x ∷ xs) h = absurd (omega arith)

-- `read_ahead_available` is the length of what is ahead.
pub available_lem : (r : ServerRequest) → read_ahead_available r ≡ length (ahead r)
unfolding read_ahead_available
available_lem r = ground (arith, length-drop r.read_ahead_offset r.read_ahead)

module _ (max_size : ℕ) (r : ServerRequest) where
  abbrev from_ahead : ℕ
  from_ahead = min (read_ahead_available r) max_size

  ahead-take_ahead :
      ahead (take_ahead max_size r).1 ≡ drop (r.read_ahead_offset + from_ahead) r.read_ahead
  unfolding take_ahead
  ahead-take_ahead =
      elim (Bool-cases (leb (length r.read_ahead) (r.read_ahead_offset + from_ahead))) [
        | inl e ↦
            rw (e) (sym (drop_all (r.read_ahead_offset + from_ahead) r.read_ahead (ground arith)))
        | inr e ↦ rw (e) refl
      ]

  -- When less was ahead than is asked for, all of it is taken.
  pub take_ahead_all : read_ahead_available r < max_size → ahead (take_ahead max_size r).1 ≡ []
  take_ahead_all h = length-zero (ahead (take_ahead max_size r).1) (
      omega (
        arith,
        ap length ahead-take_ahead,
        length-drop (r.read_ahead_offset + from_ahead) r.read_ahead,
        length-drop r.read_ahead_offset r.read_ahead,
        available_lem r,
      ))

  socket-take_ahead : (take_ahead max_size r).1.socket ≡ r.socket
  unfolding take_ahead
  socket-take_ahead = ground arith

  take_ahead-Keeps : Keeps r (take_ahead max_size r).1
  unfolding take_ahead
  take_ahead-Keeps = record { http = ground arith; chunking = ground arith; limit = ground arith }

  pub length-take_ahead : length (take_ahead max_size r).0 ≡ from_ahead
  unfolding take_ahead
  length-take_ahead = omega (arith, length-take from_ahead (ahead r), available_lem r)

  pub take_ahead-Read : AreFull r.socket → Read max_size r (take_ahead max_size r)
  take_ahead-Read full = record {
    split =
        ap (λ t. t ++ flatten r.socket)
          (sym (take-drop_from r.read_ahead_offset from_ahead r.read_ahead))
        ∙ append_assoc (take from_ahead (ahead r))
            (drop (r.read_ahead_offset + from_ahead) r.read_ahead) (flatten r.socket)
        ∙ unfold take_ahead in rw (ahead-take_ahead, socket-take_ahead) refl;
    bound = omega (arith, length-take_ahead);
    full = subst AreFull (sym socket-take_ahead) full;
    keeps = take_ahead-Keeps;
  }

-- A raw read, which finds nothing only when nothing is available.
pub record RawRead (max_size : ℕ) (r : ServerRequest) (o : Bytes × ServerRequest) : Type 0 where
  pub read : Read max_size r o
  pub at_end : length o.0 ≡ 0 → available r ≡ []

read_some_socket-split :
    (max_size : ℕ) (pieces : List Bytes)
    → flatten pieces
      ≡ (read_some_socket max_size pieces).0 ++ flatten (read_some_socket max_size pieces).1
unfolding read_some_socket
read_some_socket-split max_size [] = refl
read_some_socket-split max_size (piece ∷ pieces) = elim (Bool-cases (leb (length piece) max_size)) [
  | inl e ↦ rw (e) refl
  | inr e ↦ rw (e) (
      ap (λ t. t ++ flatten pieces) (sym (take-drop max_size piece))
      ∙ append_assoc (take max_size piece) (drop max_size piece) (flatten pieces))
]

read_some_socket-full :
    (max_size : ℕ) (pieces : List Bytes)
    → 0 < max_size
    → AreFull pieces
    → AreFull (read_some_socket max_size pieces).1
      × (length (read_some_socket max_size pieces).0 ≤ max_size)
      × (length (read_some_socket max_size pieces).0 ≡ 0 → flatten pieces ≡ [])
unfolding read_some_socket
read_some_socket-full max_size [] h full = (tt, omega arith, λ e. refl)
read_some_socket-full max_size (piece ∷ pieces) h (some_bytes, full) =
    elim (Bool-cases (leb (length piece) max_size)) [
      | inl e ↦ rw (e) (full, ground arith, λ k. absurd (omega arith))
      | inr e ↦
          let kept = length-drop max_size piece in
          let taken = length-take max_size piece in
          rw (e) (
            (ground (arith, kept), full),
            omega (arith, taken),
            λ k. absurd (ground (arith, taken)),
          )
    ]

pub raw_read_some-RawRead :
    (max_size : ℕ) (r : ServerRequest)
    → 0 < max_size
    → AreFull r.socket
    → RawRead max_size r (raw_read_some max_size r)
unfolding raw_read_some
raw_read_some-RawRead max_size r h full = elim (Bool-cases (ltb 0 (read_ahead_available r))) [
  | inl e ↦ rw (e) (record {
    read = take_ahead-Read max_size r full;
    at_end = λ k. absurd (ground (arith, length-take_ahead max_size r));
  })
  | inr e ↦
      let nothing : ahead r ≡ [] = length-zero (ahead r) (ground (arith, available_lem r)) in
      let (full_after, bound, ends) = read_some_socket-full max_size r.socket h full in
      rw (e) (record {
        read = record {
          split = rw (nothing) (read_some_socket-split max_size r.socket);
          bound = bound;
          full = full_after;
          keeps = record { http = refl; chunking = refl; limit = refl };
        };
        at_end = λ k. rw (nothing) (ends k);
      })
]
