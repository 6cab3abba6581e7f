-- ===== src/Asio/Websocket/RoundTrip.antt =====
-- Reading what the other end of a WebSocket sends.
use thinger_http.Common.{
  ℕ, suc, ◌-◌, ◌^◌, ◌≤◌, ◌<◌, ◌≡◌, refl, sym, ap, ◌∙◌, true, false, not, some, [], ◌∷◌, ◌++◌, min,
  length, Bytes, IsBytes, arith, leb, if◌then◌else◌, inl, inr, Bool-cases, ◌==◌,
}
use thinger_http.Asio.Frame.{apply_mask, message}
use thinger_http.Asio.Frame.Masks.{apply_mask_twice, length-apply_mask}
use thinger_http.Asio.Websocket.{
  Websocket, accepts, unmask, read_payload, read_mask, read_control, read_content, read_sized,
  after_control, read_new_frame, received, random_mask, frame, control,
}
use thinger_http.Asio.Websocket.Frames.{
  opened, read_exact-length, read_new_frame-server, read_new_frame-client,
}

-- A frame that is final and has `n` bytes to come.
abbrev final : Websocket → ℕ → Websocket
final v n = record v { frame_remaining = n; fin = true }

unmask-nil : (v : Websocket) → unmask v [] ≡ []
unfolding unmask apply_mask
unmask-nil v = ground arith

-- A data frame that is read at once.
read_payload-whole :
    (max_size : ℕ) (v : Websocket) (bytes rest : Bytes)
    → length bytes ≤ max_size
    → read_payload max_size (final v (length bytes)) (bytes ++ rest)
      ≡ (record (final v 0) { new_message = true }, rest, received (unmask v bytes))
unfolding read_payload
read_payload-whole max_size v [] rest fits = rw (unmask-nil v) refl
read_payload-whole max_size v (x ∷ xs) rest fits =
    let e : min (suc (length xs)) max_size ≡ suc (length xs) = omega arith in
    let left : suc (length xs) - suc (length xs) ≡ 0 = omega arith in
    let more : (suc (length xs) == 0) ≡ false = ground arith in
    rw (more, e, read_exact-length (suc (length xs)) (x ∷ xs) rest refl, left) refl

unmask-masked :
    (v : Websocket) (mask xs : Bytes)
    → IsBytes mask
    → IsBytes xs
    → unmask (record v { masked = true; mask = mask }) (apply_mask 0 mask xs) ≡ xs
unfolding unmask
unmask-masked v mask xs hm h = apply_mask_twice 0 mask xs hm h

module _ (rbe : ℕ → ℕ) (max_size : ℕ) where
  -- A frame's payload, after its two bytes and its size.
  payload_of-masked :
      (v : Websocket) (mask bytes rest : Bytes)
      → length mask ≡ 4
      → read_mask (record v { masked = true }) (mask ++ (bytes ++ rest))
        ≡ some (record v { masked = true; mask = mask }, bytes ++ rest)
  unfolding read_mask
  payload_of-masked v mask bytes rest four = rw (read_exact-length 4 mask (bytes ++ rest) four) refl

  read_data :
      (v b : Websocket) (bytes coded rest : Bytes)
      → leb 8 v.opcode ≡ false
      → length coded ≤ max_size
      → unmask v coded ≡ bytes
      → read_content rbe max_size (some (final v (length coded), coded ++ rest)) b
        ≡ inl (record (final v 0) { new_message = true }, rest, received bytes)
  unfolding read_content
  read_data v b bytes coded rest is_data fits e =
      rw (is_data, read_payload-whole max_size v coded rest fits, e) refl

  read_controlled :
      (v b : Websocket) (bytes coded rest : Bytes)
      → leb 8 v.opcode ≡ true
      → length coded ≤ 125
      → unmask v coded ≡ bytes
      → read_content rbe max_size (some (final v (length coded), coded ++ rest)) b
        ≡ after_control rbe max_size (control rbe (final v 0) bytes) rest
  unfolding read_content read_control
  read_controlled v b bytes coded rest is_control fits e =
      let size : min (length coded) 125 ≡ length coded = omega arith in
      rw (is_control, size, read_exact-length (length coded) coded rest refl, e) refl

-- The random numbers are bytes, and the two ends of a connection play different roles.
pub record Peers (rbe : ℕ → ℕ) (s r : Websocket) : Type 0 where
  pub random : (n : ℕ) → rbe n < 256
  pub roles : r.server_role ≡ not s.server_role

-- The receiver `r` once it has read a frame of `s`.
abbrev pub arrived : (ℕ → ℕ) → Websocket → Websocket → ℕ → Websocket
arrived rbe s r op = record (opened r op (not s.server_role)) {
  frame_remaining = 0;
  mask = (if s.server_role then r.mask else random_mask rbe s.drawn);
}

module _ (rbe : ℕ → ℕ) (max_size : ℕ) (s r : Websocket) (op : ℕ) (bytes rest : Bytes) where
  -- A frame of `s` that `r` has read up to its payload.
  record Arrival : Type 0 where
    now : Websocket
    before : Websocket
    coded : Bytes
    reads :
        read_new_frame rbe max_size r (frame rbe s op bytes ++ rest)
        ≡ read_content rbe max_size (some (final now (length coded), coded ++ rest)) before
    decodes : unmask now coded ≡ bytes
    size : length coded ≡ length bytes
    is_now : final now 0 ≡ arrived rbe s r op

  module _ (peers : Peers rbe s r) (small : op < 16) (fits : length bytes < 2 ^ 64)
      (ok : accepts r.new_message true op ≡ true) (h : IsBytes bytes) where
    arrival-server : s.server_role ≡ true → Arrival
    unfolding frame read_sized
    arrival-server e =
        let client : r.server_role ≡ false = peers.roles ∙ ap not e in
        record {
          now = opened r op false;
          before = record (opened r op false) { frame_remaining = length bytes };
          coded = bytes;
          reads =
              unfold read_mask in
              rw (e) (read_new_frame-server rbe max_size r op bytes rest small fits ok client);
          decodes = unfold unmask in refl;
          size = refl;
          is_now = rw (e) refl;
        }

    frame-client :
        s.server_role ≡ false
        → read_new_frame rbe max_size r (frame rbe s op bytes ++ rest)
          ≡ read_new_frame rbe max_size r (message false op (random_mask rbe s.drawn) bytes ++ rest)
    unfolding frame
    frame-client e = rw (e) refl

    arrival-client : s.server_role ≡ false → Arrival
    unfolding frame read_sized
    arrival-client e =
        let mask = random_mask rbe s.drawn in
        record {
          now = record (opened r op true) { mask = mask };
          before = record (opened r op true) { frame_remaining = length bytes };
          coded = apply_mask 0 mask bytes;
          reads =
              frame-client e
              ∙ read_new_frame-client rbe max_size r op bytes rest small fits ok mask
              ∙ ap (λ o. read_content rbe max_size o (final (opened r op true) (length bytes)))
                  (payload_of-masked rbe max_size (final (opened r op true) (length bytes)) mask
                    (apply_mask 0 mask bytes) rest refl)
              ∙ ap
                  (λ n.
                    read_content rbe max_size
                      (some (
                        final (record (opened r op true) { mask = mask }) n,
                        apply_mask 0 mask bytes ++ rest,
                      ))
                      (final (opened r op true) (length bytes)))
                  (sym (length-apply_mask 0 mask bytes));
          decodes =
              unmask-masked (opened r op true) mask bytes
                (peers.random _, (peers.random _, (peers.random _, (peers.random _, tt)))) h;
          size = length-apply_mask 0 mask bytes;
          is_now = rw (e) refl;
        }

    arrival : Arrival
    arrival = elim (Bool-cases s.server_role) [
      | inl e ↦ arrival-server e
      | inr e ↦ arrival-client e
    ]

    -- A data frame.
    pub read_new_frame-data :
        leb 8 op ≡ false
        → length bytes ≤ max_size
        → read_new_frame rbe max_size r (frame rbe s op bytes ++ rest)
          ≡ inl (record (arrived rbe s r op) { new_message = true }, rest, received bytes)
    read_new_frame-data is_data whole =
        let a = arrival in
        a.reads
        ∙ read_data rbe max_size a.now a.before bytes a.coded rest
            (ap (λ v. leb 8 v.opcode) a.is_now ∙ is_data) (omega (arith, a.size)) a.decodes
        ∙ ap (λ v. inl (record v { new_message = true }, rest, received bytes)) a.is_now

    -- A control frame.
    pub read_new_frame-control :
        leb 8 op ≡ true
        → length bytes ≤ 125
        → read_new_frame rbe max_size r (frame rbe s op bytes ++ rest)
          ≡ after_control rbe max_size (control rbe (arrived rbe s r op) bytes) rest
    read_new_frame-control is_control whole =
        let a = arrival in
        a.reads
        ∙ read_controlled rbe max_size a.now a.before bytes a.coded rest
            (ap (λ v. leb 8 v.opcode) a.is_now ∙ is_control) (omega (arith, a.size)) a.decodes
        ∙ ap (λ v. after_control rbe max_size (control rbe v bytes) rest) a.is_now
