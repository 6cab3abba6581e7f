-- ===== src/Server/RequestBody/SizedBody.antt =====
-- `read_body` of a body whose length the header gives.
use thinger_http.Common.{
  ℕ, suc, zero, ◌+◌, ◌-◌, ◌≤◌, ◌<◌, ◌≡◌, refl, sym, ap, ◌∙◌, true, false, Option, some, List, [],
  ◌∷◌, ◌++◌, ltb, leb, ◌==◌, min, inl, inr, if◌then◌else◌, length, take, drop, Bytes, codes,
  flatten, take-drop, take-length, drop-length, length-take, length-append, append_assoc,
  append-nil, drop_all, Bool-cases, le_or_lt, ==_iff, arith,
}
use thinger_http.Boost.{Boost}
use thinger_http.Message.Headers
use thinger_http.Server.RequestBody.{
  ServerRequest, take_ahead, read_ahead_available, read_socket, read_rest, read_plain, resize,
  zeros, read_sized_body, check_body, read_body, decompress,
}
use thinger_http.Server.RequestBody.Available.{
  ahead, available, AreFull, Read, take_ahead-Read, length-take_ahead, available_lem, length-zero,
  take_ahead_all, Keeps,
}
use thinger_http.Server.RequestBody.Bodies.{with_body}

-- `socket::read` takes the first bytes.
read_socket-split :
    (n : ℕ) (pieces : List Bytes)
    → flatten pieces ≡ (read_socket n pieces).0 ++ flatten (read_socket n pieces).1
unfolding read_socket
read_socket-split n [] = refl
read_socket-split n (piece ∷ pieces) = elim (Bool-cases (leb (length piece) n)) [
  | inl e ↦ rw (e) (
      ap (λ t. piece ++ t) (read_socket-split (n - length piece) pieces)
      ∙ sym (append_assoc piece (read_socket (n - length piece) pieces).0 _))
  | inr e ↦ rw (e) (
      ap (λ t. t ++ flatten pieces) (sym (take-drop n piece))
      ∙ append_assoc (take n piece) (drop n piece) (flatten pieces))
]

length-read_socket :
    (n : ℕ) (pieces : List Bytes)
    → length (read_socket n pieces).0 ≡ min n (length (flatten pieces))
unfolding read_socket
length-read_socket n [] = omega arith
length-read_socket n (piece ∷ pieces) = elim (Bool-cases (leb (length piece) n)) [
  | inl e ↦ rw (e) (
      ground (
        arith,
        length-read_socket (n - length piece) pieces,
        length-append piece (read_socket (n - length piece) pieces).0,
        length-append piece (flatten pieces),
      ))
  | inr e ↦ rw (e) (ground (arith, length-take n piece, length-append piece (flatten pieces)))
]

-- The first `n` bytes that are available, or all of them.
record Taken (n : ℕ) (r : ServerRequest) (o : Bytes × ServerRequest) : Type 0 where
  split : available r ≡ o.0 ++ available o.1
  size : length o.0 ≡ min n (length (available r))
  keeps : Keeps r o.1

-- What was ahead, and no more when that is enough.
record First (n : ℕ) (r : ServerRequest) (o : Bytes × ServerRequest) : Type 0 where
  read : Read n r o
  emptied : length o.0 < n → ahead o.1 ≡ []

ahead-First :
    (n : ℕ) (r : ServerRequest)
    → AreFull r.socket
    → First n r (if ltb 0 (read_ahead_available r) then take_ahead n r else ([], r))
ahead-First n r full = elim (Bool-cases (ltb 0 (read_ahead_available r))) [
  | inl e ↦ rw (e) (record {
    read = take_ahead-Read n r full;
    emptied = λ h. take_ahead_all n r (omega (arith, length-take_ahead n r));
  })
  | inr e ↦ rw (e) (record {
    read = record {
      split = refl;
      bound = omega arith;
      full = full;
      keeps = record { http = refl; chunking = refl; limit = refl };
    };
    emptied = λ h. length-zero (ahead r) (ground (arith, available_lem r));
  })
]

read_rest-Taken :
    (n : ℕ) (r : ServerRequest) (o : Bytes × ServerRequest)
    → First n r o
    → Taken n r (read_rest n o)
unfolding read_rest
read_rest-Taken n r (bytes, next) first =
    let size : length (available r) ≡ length bytes + length (available next) =
      ap length first.read.split ∙ length-append bytes (available next) in
    let asked = n - length bytes in
    elim (Bool-cases (ltb (length bytes) n)) [
      | inl e ↦
          let nothing : ahead next ≡ [] = first.emptied (ground arith) in
          let more : length (available next) ≡ length (flatten next.socket) =
            ap (λ t. length (t ++ flatten next.socket)) nothing in
          rw (e) (record {
            split =
                first.read.split
                ∙ ap (λ t. bytes ++ t)
                    (ap (λ t. t ++ flatten next.socket) nothing
                      ∙ read_socket-split asked next.socket)
                ∙ sym (append_assoc bytes (read_socket asked next.socket).0 _)
                ∙ ap
                    (λ t.
                      (bytes ++ (read_socket asked next.socket).0)
                      ++ (t ++ flatten (read_socket asked next.socket).1))
                    (sym nothing);
            size = omega (
              arith,
              length-append bytes (read_socket asked next.socket).0,
              length-read_socket asked next.socket,
              size,
              more,
            );
            keeps = record {
              http = first.read.keeps.http;
              chunking = first.read.keeps.chunking;
              limit = first.read.keeps.limit;
            };
          })
      | inr e ↦ rw (e) (record {
        split = first.read.split;
        size = ground (arith, size, first.read.bound);
        keeps = first.read.keeps;
      })
    ]

read_plain-Taken : (n : ℕ) (r : ServerRequest) → AreFull r.socket → Taken n r (read_plain n r)
unfolding read_plain
read_plain-Taken n r full = read_rest-Taken n r _ (ahead-First n r full)

length-zeros : (n : ℕ) → length (zeros n) ≡ n
length-zeros zero = refl
length-zeros (suc n) = ap suc (length-zeros n)

length-resize : (n : ℕ) (xs : Bytes) → length (resize n xs) ≡ n
unfolding resize
length-resize n xs = omega (
  arith,
  length-append (take n xs) (zeros (n - length xs)),
  length-take n xs,
  length-zeros (n - length xs),
)

overwritten :
    (n : ℕ) (bytes old : Bytes)
    → length bytes ≡ n
    → bytes ++ drop (length bytes) (resize n old) ≡ bytes
overwritten n bytes old e =
    ap (λ t. bytes ++ t)
      (drop_all (length bytes) (resize n old) (omega (arith, length-resize n old)))
    ∙ append-nil bytes

take-split :
    (n : ℕ) (xs bytes rest : Bytes)
    → xs ≡ bytes ++ rest
    → length bytes ≡ n
    → (take n xs ≡ bytes) × (drop n xs ≡ rest)
take-split n xs bytes rest e l =
    (rw (e, sym l) (take-length bytes rest), rw (e, sym l) (drop-length bytes rest))

-- A request whose body is to be as long as the header says, and is not compressed.
pub record AwaitsSized ⦃b : Boost⦄ (r : ServerRequest) : Type 0 where
  pub not_chunked : r.http_request.chunked_transfer ≡ false
  pub plain : Headers.has_header (codes "Content-Encoding") r.http_request.base ≡ false
  pub nothing_read : r.http_request.content ≡ []
  pub full : AreFull r.socket

module _ ⦃b : Boost⦄ (gzip deflate : Bytes → Option Bytes) (fuel : ℕ) (r : ServerRequest)
    (awaits : AwaitsSized r) where
  abbrev size : ℕ
  size = r.http_request.content_length

  nonempty-check_body :
      0 < size
      → read_body gzip deflate fuel r ≡ some (check_body gzip deflate size (read_plain size r))
  unfolding read_body read_sized_body
  nonempty-check_body h =
      let nonzero : (size == 0) ≡ false = ground arith in rw (awaits.not_chunked, nonzero) refl

  empty-read_body : size ≡ 0 → read_body gzip deflate fuel r ≡ some (true, r)
  unfolding read_body read_sized_body
  empty-read_body h = rw (awaits.not_chunked, h) refl

  decompress-plain :
      (next : ServerRequest)
      → Headers.has_header (codes "Content-Encoding") next.http_request.base ≡ false
      → decompress gzip deflate next ≡ (true, next)
  unfolding decompress
  decompress-plain next h = rw (h) refl

  check_body-filled :
      (bytes : Bytes) (next : ServerRequest)
      → next.http_request ≡ r.http_request
      → length bytes ≡ size
      → check_body gzip deflate size (bytes, next)
        ≡ (true, record next { http_request = with_body bytes next.http_request })
  unfolding check_body
  check_body-filled bytes next same e =
      let equal : (length bytes == size) ≡ true = (==_iff (length bytes) size).1 e in
      rw (equal, overwritten size bytes next.http_request.content e)
        (decompress-plain _
          (ap (λ h. Headers.has_header (codes "Content-Encoding") h.base) same ∙ awaits.plain))

  check_body-short :
      (bytes : Bytes) (next : ServerRequest)
      → (length bytes == size) ≡ false
      → (o : ServerRequest) × (check_body gzip deflate size (bytes, next) ≡ (false, o))
  unfolding check_body
  check_body-short bytes next e =
      let body = bytes ++ drop (length bytes) (resize size next.http_request.content) in
      (record next { http_request = with_body body next.http_request }, rw (e) refl)

  -- Where the body is not chunked, not compressed and still to be read, no piece of the socket is
  -- empty, and at least as many bytes as the header says are available, `read_body` stores exactly
  -- the first of them, and those behind them stay available.
  pub read_body-sized :
      size ≤ length (available r)
      → (next : ServerRequest) × (read_body gzip deflate fuel r ≡ some (true, next))
        × (next.http_request ≡ with_body (take size (available r)) r.http_request)
        × (available next ≡ drop size (available r))
  read_body-sized enough = elim (le_or_lt size 0) [
    | inl h ↦
        let none_asked : size ≡ 0 = omega arith in
        (
          r,
          empty-read_body none_asked,
          ap (λ t. with_body t r.http_request)
              (awaits.nothing_read ∙ ap (λ n. take n (available r)) (sym none_asked)),
          ap (λ n. drop n (available r)) (sym none_asked),
        )
    | inr h ↦
        let (bytes, next) = read_plain size r in
        let taken = read_plain-Taken size r awaits.full in
        let whole : length bytes ≡ size = omega (arith, taken.size) in
        let (first, behind) =
          take-split size (available r) bytes (available next) taken.split whole in
        (
          record next { http_request = with_body bytes next.http_request },
          nonempty-check_body h ∙ ap some (check_body-filled bytes next taken.keeps.http whole),
          ap (with_body bytes) taken.keeps.http ∙ ap (λ t. with_body t r.http_request) (sym first),
          sym behind,
        )
  ]

  -- Where the body is not chunked and still to be read, no piece of the socket is empty
  -- (`AwaitsSized`), and fewer bytes are available than the header says, `read_body` fails.
  pub read_body-short :
      length (available r) < size
      → (next : ServerRequest) × (read_body gzip deflate fuel r ≡ some (false, next))
  read_body-short few =
      let (bytes, next) = read_plain size r in
      let taken = read_plain-Taken size r awaits.full in
      let e : (length bytes == size) ≡ false = ground (arith, taken.size) in
      let (o, is) = check_body-short bytes next e in
      (o, nonempty-check_body (omega arith) ∙ ap some is)
