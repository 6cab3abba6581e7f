-- ===== src/Asio/Websocket/Frames.antt =====
-- Reading what `message` makes.
use thinger_http.Common.{
  ℕ, ◌+◌, ◌/◌, ◌%◌, ◌^◌, ◌≤◌, ◌<◌, ◌≡◌, refl, sym, ap, ◌∙◌, Bool, true, false, none, some, [], ◌∷◌,
  ◌++◌, length, Bytes, arith, leb, ltb, if◌then◌else◌, inl, inr, ◌&&◌, ◌||◌, ◌==◌, le_or_lt,
  append_assoc, take-length, drop-length, length-append,
}
use thinger_http.Asio.Frame.{apply_mask, size_bytes, set_masked, message}
use thinger_http.Asio.Frame.Masks.{bit_or_128, bit_or_opcode}
use thinger_http.Asio.Websocket.{
  Websocket, read_exact, big_endian, read_size, accepts, begin_frame, read_new_frame, read_opened,
  read_sized,
}

pub read_exact-append : (xs rest : Bytes) → read_exact (length xs) (xs ++ rest) ≡ some (xs, rest)
unfolding read_exact
read_exact-append xs rest =
    let enough : leb (length xs) (length (xs ++ rest)) ≡ true =
      ground (arith, length-append xs rest) in
    rw (enough, take-length xs rest, drop-length xs rest) refl

-- The size bytes of `n`: one below 128, and those that `read_size` asks for.
pub record Sized (n : ℕ) : Type 0 where
  pub first : ℕ
  pub others : Bytes
  pub whole : size_bytes n ≡ first ∷ others
  pub small : first < 128
  pub reads : (rest : Bytes) → read_size first (others ++ rest) ≡ some (n, rest)

sized_small : (n : ℕ) → n ≤ 125 → Sized n
unfolding size_bytes read_size
sized_small n h = record {
  first = n;
  others = [];
  whole = ground arith;
  small = omega arith;
  reads = ground arith;
}

two_bytes : (n : ℕ) → n ≤ 65535 → big_endian 0 ((n / 2 ^ 8 % 256) ∷ (n % 256) ∷ []) ≡ n
unfolding big_endian
two_bytes n h = omega arith

sized_medium : (n : ℕ) → 125 < n → n ≤ 65535 → Sized n
unfolding size_bytes read_size
sized_medium n h k = record {
  first = 126;
  others = (n / 2 ^ 8 % 256) ∷ (n % 256) ∷ [];
  whole = ground arith;
  small = omega arith;
  reads =
      λ rest. rw (read_exact-append ((n / 2 ^ 8 % 256) ∷ (n % 256) ∷ []) rest, two_bytes n k) refl;
}

abbrev eight : ℕ → Bytes
eight n =
    (n / 2 ^ 56 % 256)
    ∷ (n / 2 ^ 48 % 256)
    ∷ (n / 2 ^ 40 % 256)
    ∷ (n / 2 ^ 32 % 256)
    ∷ (n / 2 ^ 24 % 256)
    ∷ (n / 2 ^ 16 % 256)
    ∷ (n / 2 ^ 8 % 256)
    ∷ (n % 256)
    ∷ []

eight_bytes : (n : ℕ) → n < 2 ^ 64 → big_endian 0 (eight n) ≡ n
unfolding big_endian
eight_bytes n h = omega arith

sized_large : (n : ℕ) → 65535 < n → n < 2 ^ 64 → Sized n
unfolding size_bytes read_size
sized_large n h k = record {
  first = 127;
  others = eight n;
  whole = ground arith;
  small = omega arith;
  reads = λ rest. rw (read_exact-append (eight n) rest, eight_bytes n k) refl;
}

pub sized : (n : ℕ) → n < 2 ^ 64 → Sized n
sized n h = elim (le_or_lt n 125) [
  | inl k ↦ sized_small n k
  | inr k ↦ (elim (le_or_lt n 65535) [ inl l ↦ sized_medium n k l | inr l ↦ sized_large n l h ])
]

-- What `begin_frame` makes of a final frame's two bytes.
abbrev pub opened : Websocket → ℕ → Bool → Websocket
opened ws op masked = record ws {
  data_received = true;
  masked = masked;
  fin = true;
  opcode = op;
  message_opcode = (if ws.new_message && (op == 1 || op == 2) then op else ws.message_opcode);
}

begin_frame-masked :
    (ws : Websocket) (op n : ℕ)
    → op < 16
    → n < 128
    → accepts ws.new_message true op ≡ true
    → begin_frame ws (op + 128) (n + 128) ≡ (opened ws op true, none)
unfolding begin_frame
begin_frame-masked ws op n h k ok =
    let e1 : ((op + 128) / 16 % 8 == 0) ≡ true = ground arith in
    let e2 : ltb (n + 128) 128 ≡ false = ground arith in
    let e3 : leb 128 (n + 128) ≡ true = ground arith in
    let e4 : leb 128 (op + 128) ≡ true = ground arith in
    let e5 : (op + 128) % 16 ≡ op = omega arith in rw (e1, e2, e3, e4, e5, ok) refl

begin_frame-unmasked :
    (ws : Websocket) (op n : ℕ)
    → op < 16
    → n < 128
    → ws.server_role ≡ false
    → accepts ws.new_message true op ≡ true
    → begin_frame ws (op + 128) n ≡ (opened ws op false, none)
unfolding begin_frame
begin_frame-unmasked ws op n h k client ok =
    let e1 : ((op + 128) / 16 % 8 == 0) ≡ true = ground arith in
    let e2 : ltb n 128 ≡ true = ground arith in
    let e3 : leb 128 n ≡ false = ground arith in
    let e4 : leb 128 (op + 128) ≡ true = ground arith in
    let e5 : (op + 128) % 16 ≡ op = omega arith in rw (e1, e2, client, e3, e4, e5, ok) refl

pub read_exact-length :
    (n : ℕ) (xs rest : Bytes) → length xs ≡ n → read_exact n (xs ++ rest) ≡ some (xs, rest)
read_exact-length n xs rest e = rw (sym e) (read_exact-append xs rest)

module _ (rbe : ℕ → ℕ) (max_size : ℕ) (ws : Websocket) where
  read_new_frame-opened :
      (b0 b1 size : ℕ) (input rest : Bytes) (next : Websocket)
      → begin_frame ws b0 b1 ≡ (next, none)
      → read_size (b1 % 128) input ≡ some (size, rest)
      → read_new_frame rbe max_size ws (b0 ∷ b1 ∷ input)
        ≡ read_sized rbe max_size next (some (size, rest))
  unfolding read_new_frame
  read_new_frame-opened b0 b1 size input rest next e k =
      ap (λ o. read_opened rbe max_size o (b1 % 128) input) e
      ∙ unfold read_opened in ap (read_sized rbe max_size next) k

  module _ (op : ℕ) (payload rest : Bytes) (small : op < 16) (fits : length payload < 2 ^ 64)
      (ok : accepts ws.new_message true op ≡ true) where
    -- A frame of a server, up to its payload.
    pub read_new_frame-server :
        ws.server_role ≡ false
        → read_new_frame rbe max_size ws (message true op [] payload ++ rest)
          ≡ read_sized rbe max_size (opened ws op false) (some (length payload, payload ++ rest))
    unfolding message
    read_new_frame-server client =
        let size = sized (length payload) fits in
        let e : size.first % 128 ≡ size.first = omega (arith, size.small) in
        let reads : read_size (size.first % 128) (size.others ++ (payload ++ rest))
            ≡ some (length payload, payload ++ rest) =
          rw (e) (size.reads (payload ++ rest)) in
        rw (bit_or_opcode op small, size.whole, append_assoc size.others payload rest)
          (read_new_frame-opened _ _ _ _ _ _
            (begin_frame-unmasked ws op size.first small size.small client ok) reads)

    -- A frame of a client, up to its mask.
    pub read_new_frame-client :
        (mask : Bytes)
        → read_new_frame rbe max_size ws (message false op mask payload ++ rest)
          ≡ read_sized rbe max_size
              (opened ws op true)
              (some (length payload, mask ++ (apply_mask 0 mask payload ++ rest)))
    unfolding message set_masked
    read_new_frame-client mask =
        let size = sized (length payload) fits in
        let e : (size.first + 128) % 128 ≡ size.first = omega (arith, size.small) in
        let coded = apply_mask 0 mask payload in
        let reads : read_size ((size.first + 128) % 128) (size.others ++ (mask ++ (coded ++ rest)))
            ≡ some (length payload, mask ++ (coded ++ rest)) =
          rw (e) (size.reads (mask ++ (coded ++ rest))) in
        rw
          (
            bit_or_opcode op small,
            size.whole,
            bit_or_128 size.first size.small,
            append_assoc size.others (mask ++ coded) rest,
            append_assoc mask coded rest,
          )
          (read_new_frame-opened _ _ _ _ _ _
            (begin_frame-masked ws op size.first small size.small ok) reads)
