-- ===== src/Asio/Websocket/Pongs.antt =====
-- What is written in answer to a ping, byte by byte.
use Prim.Native.Nat.{bit_xor}
use thinger_http.Common.{
  ℕ, suc, ◌+◌, ◌%◌, ◌≤◌, ◌≡◌, refl, ap, ◌∙◌, Bool, true, false, [], ◌∷◌, ◌++◌, if◌then◌else◌, leb,
  length, Bytes, IsBytes, arith,
}
use thinger_http.Asio.Frame.{apply_mask, mask_at, message, size_bytes, set_masked}
use thinger_http.Asio.Frame.Masks.{bit_or_128}
use thinger_http.Asio.Websocket.{Websocket, frame, send_message, send_pong, read_frame, random_mask}
use thinger_http.Asio.Websocket.RoundTrip.{Peers, arrived}
use thinger_http.Asio.Websocket.Exchange.{Between, read_frame-send_pong}

-- A payload under a mask of four bytes, which take turns.
abbrev pub masked : ℕ → ℕ → ℕ → ℕ → Bytes → Bytes
masked k l m n [] = []
masked k l m n (x ∷ xs) = bit_xor x k ∷ masked l m n k xs

-- Section 5.5.3 of RFC 6455: a pong that holds the payload, under the mask that starts at the
-- random byte `n` where it is a client that writes it.
abbrev pub pong_text : (ℕ → ℕ) → Bool → ℕ → Bytes → Bytes
pong_text rbe true n payload = 138 ∷ length payload ∷ payload
pong_text rbe false n payload =
    138
    ∷ (length payload + 128)
    ∷ rbe n
    ∷ rbe (n + 1)
    ∷ rbe (n + 2)
    ∷ rbe (n + 3)
    ∷ masked (rbe n) (rbe (n + 1)) (rbe (n + 2)) (rbe (n + 3)) payload

module _ (k l m n : ℕ) where
  -- Whose turn it is at index `i`.
  record Turns (i : ℕ) (xs : Bytes) : Type 0 where
    first : i % 4 ≡ 0 → apply_mask i (k ∷ l ∷ m ∷ n ∷ []) xs ≡ masked k l m n xs
    second : i % 4 ≡ 1 → apply_mask i (k ∷ l ∷ m ∷ n ∷ []) xs ≡ masked l m n k xs
    third : i % 4 ≡ 2 → apply_mask i (k ∷ l ∷ m ∷ n ∷ []) xs ≡ masked m n k l xs
    fourth : i % 4 ≡ 3 → apply_mask i (k ∷ l ∷ m ∷ n ∷ []) xs ≡ masked n k l m xs

  apply_mask-masked : (i : ℕ) (xs : Bytes) → Turns i xs
  unfolding apply_mask mask_at
  apply_mask-masked i [] = record {
    first = λ e. refl;
    second = λ e. refl;
    third = λ e. refl;
    fourth = λ e. refl;
  }
  apply_mask-masked i (x ∷ xs) =
      let next = apply_mask-masked (i + 1) xs in
      record {
        first = λ e. rw e (ap (λ t. bit_xor x k ∷ t) (next.second (omega (arith, e))));
        second = λ e. rw e (ap (λ t. bit_xor x l ∷ t) (next.third (omega (arith, e))));
        third = λ e. rw e (ap (λ t. bit_xor x m ∷ t) (next.fourth (omega (arith, e))));
        fourth = λ e. rw e (ap (λ t. bit_xor x n ∷ t) (next.first (omega (arith, e))));
      }

module _ (rbe : ℕ → ℕ) where
  -- The end that has read the ping, with the pong written behind what it had written.
  abbrev pub answering : Websocket → Websocket → Bytes → Websocket
  answering s r payload = record (arrived rbe s r 9) {
    drawn = (if r.server_role then r.drawn else r.drawn + 4);
    written = r.written ++ (pong_text rbe r.server_role r.drawn payload ∷ []);
  }

  message-pong :
      (server : Bool) (drawn : ℕ) (payload : Bytes)
      → length payload ≤ 125
      → (if server
          then message true 10 [] payload
          else message false 10 (random_mask rbe drawn) payload)
        ≡ pong_text rbe server drawn payload
  unfolding message size_bytes set_masked random_mask
  message-pong true drawn payload fits =
      let small : leb (length payload) 125 ≡ true = ground arith in rw small refl
  message-pong false drawn payload fits =
      let small : leb (length payload) 125 ≡ true = ground arith in
      let masks =
        apply_mask-masked (rbe drawn) (rbe (drawn + 1)) (rbe (drawn + 2)) (rbe (drawn + 3)) 0
          payload in
      rw (small, bit_or_128 (length payload) (omega arith))
        (ap
          (λ t.
            138
            ∷ (length payload + 128)
            ∷ rbe drawn
            ∷ rbe (drawn + 1)
            ∷ rbe (drawn + 2)
            ∷ rbe (drawn + 3)
            ∷ t)
          (masks.first refl))

  send_pong-answering :
      (s r : Websocket) (payload : Bytes)
      → length payload ≤ 125
      → send_pong rbe (arrived rbe s r 9) payload ≡ answering s r payload
  unfolding send_pong send_message frame
  send_pong-answering s r payload fits =
      ap
        (λ t. record (arrived rbe s r 9) {
          drawn = (if r.server_role then r.drawn else r.drawn + 4);
          written = r.written ++ (t ∷ []);
        })
        (message-pong r.server_role r.drawn payload fits)

  -- Where the reader has read all of the last message, the two ends play different roles and the
  -- masks are of bytes, reading a ping with at most 125 bytes writes one pong behind what was
  -- written before, byte by byte the frame of RFC 6455 with the same payload, under a mask of the
  -- next four random bytes where the reader is a client, and reading goes on behind the ping with
  -- nothing else changed but the state of a frame that has been read.
  pub read_frame-ping :
      (max_size : ℕ) (s r : Websocket) (fuel : ℕ) (payload rest : Bytes)
      → Peers rbe s r
      → Between r
      → IsBytes payload
      → length payload ≤ 125
      → read_frame rbe max_size (suc fuel) r (frame rbe s 9 payload ++ rest)
        ≡ read_frame rbe max_size fuel (answering s r payload) rest
  read_frame-ping max_size s r fuel payload rest peers between h fits =
      read_frame-send_pong rbe max_size s r peers fuel payload rest between h fits
      ∙ ap (λ u. read_frame rbe max_size fuel u rest) (send_pong-answering s r payload fits)
