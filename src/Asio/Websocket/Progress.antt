-- ===== src/Asio/Websocket/Progress.antt =====
-- Reading a frame ends: what follows a control frame is shorter than the frame was.
use mathlib.Core.Path.{subst, ap, ◌∙◌}
use thinger_http.Common.{
  ℕ, suc, zero, ◌+◌, ◌-◌, ◌%◌, ◌≤◌, ◌<◌, ◌≡◌, refl, true, false, Option, none, some, [], ◌∷◌,
  length, length-drop, ltb, min, Bool-cases, Bytes, arith, ◌⊎◌, inl, inr,
}
use thinger_http.Asio.Websocket.{
  Websocket, Failure, Step, read_exact, read_size, read_mask, after_control, read_control,
  read_content, read_sized, read_opened, read_new_frame, read_remaining, read_frame, control,
  unmask,
}

module _ {A : Type 0} where
  -- A read that leaves at most `n` bytes.
  abbrev Leaves : ℕ → Option (A × Bytes) → Type 0
  Leaves n none = Unit
  Leaves n (some (x, rest)) = length rest ≤ n

-- A frame that is read on leaves at most `n` bytes.
abbrev Shrinks : ℕ → Step ⊎ (Websocket × Bytes) → Type 0
Shrinks n (inl s) = Unit
Shrinks n (inr (ws, rest)) = length rest ≤ n

read_exact-Leaves : (n : ℕ) (input : Bytes) → Leaves (length input) (read_exact n input)
unfolding read_exact
read_exact-Leaves n input = ground (arith, length-drop n input)

read_size-Leaves : (n : ℕ) (input : Bytes) → Leaves (length input) (read_size n input)
unfolding read_size
read_size-Leaves n input = ground (arith, read_exact-Leaves 2 input, read_exact-Leaves 8 input)

read_mask-Leaves : (ws : Websocket) (input : Bytes) → Leaves (length input) (read_mask ws input)
unfolding read_mask
read_mask-Leaves ws input = ground (arith, read_exact-Leaves 4 input)

module _ (rbe : ℕ → ℕ) (max_size : ℕ) where
  after_control-Shrinks :
      (n : ℕ) (o : Websocket × Option Failure) (rest : Bytes)
      → length rest ≤ n
      → Shrinks n (after_control rbe max_size o rest)
  unfolding after_control
  after_control-Shrinks n (ws, none) rest h = ground arith
  after_control-Shrinks n (ws, some e) rest h = tt

  read_control-Shrinks :
      (n : ℕ) (ws : Websocket) (o : Option (Bytes × Bytes))
      → Leaves n o
      → Shrinks n (read_control rbe max_size ws o)
  unfolding read_control
  read_control-Shrinks n ws none h = tt
  read_control-Shrinks n ws (some (bytes, rest)) h =
      after_control-Shrinks n (control rbe (record ws { frame_remaining = 0 }) (unmask ws bytes))
        rest h

  Leaves-shorter : {A : Type 0} (m n : ℕ) (o : Option (A × Bytes)) → m ≤ n → Leaves m o → Leaves n o
  Leaves-shorter m n none h k = tt
  Leaves-shorter m n (some (x, rest)) h k = omega arith

  read_content-Shrinks :
      (n : ℕ) (o : Option (Websocket × Bytes)) (before : Websocket)
      → Leaves n o
      → Shrinks n (read_content rbe max_size o before)
  unfolding read_content
  read_content-Shrinks n none before h = tt
  read_content-Shrinks n (some (ws, rest)) before h =
      let bytes = read_exact (min ws.frame_remaining 125) rest in
      let shorter = Leaves-shorter (length rest) n bytes h (read_exact-Leaves _ rest) in
      ground (arith, read_control-Shrinks n ws bytes shorter)

  read_sized-Shrinks :
      (n : ℕ) (ws : Websocket) (o : Option (ℕ × Bytes))
      → Leaves n o
      → Shrinks n (read_sized rbe max_size ws o)
  unfolding read_sized
  read_sized-Shrinks n ws none h = tt
  read_sized-Shrinks n ws (some (size, rest)) h =
      let sized = record ws { frame_remaining = size } in
      read_content-Shrinks n (read_mask sized rest) sized
        (Leaves-shorter (length rest) n (read_mask sized rest) h (read_mask-Leaves sized rest))

  read_opened-Shrinks :
      (o : Websocket × Option Failure) (size : ℕ) (input : Bytes)
      → Shrinks (length input) (read_opened rbe max_size o size input)
  unfolding read_opened
  read_opened-Shrinks (ws, none) size input =
      read_sized-Shrinks (length input) ws (read_size size input) (read_size-Leaves size input)
  read_opened-Shrinks (ws, some e) size input = tt

  -- What is read on after a new frame is at least two bytes shorter.
  pub read_new_frame-shrinks :
      (ws next : Websocket) (input rest : Bytes)
      → read_new_frame rbe max_size ws input ≡ inr (next, rest)
      → length rest + 2 ≤ length input
  unfolding read_new_frame
  read_new_frame-shrinks ws next [] rest e = ground arith
  read_new_frame-shrinks ws next (b0 ∷ []) rest e = ground arith
  read_new_frame-shrinks ws next (b0 ∷ b1 ∷ input) rest e =
      let shorter : length rest ≤ length input =
        subst (Shrinks (length input)) e (read_opened-Shrinks _ (b1 % 128) input) in
      omega arith

  either :
      (o : Step ⊎ (Websocket × Bytes))
      → ((s : Step) × (o ≡ inl s)) ⊎ ((next : Websocket) × (rest : Bytes) × (o ≡ inr (next, rest)))
  either (inl s) = inl (s, refl)
  either (inr (next, rest)) = inr (next, rest, refl)

  module _ (fuel : ℕ) (ws : Websocket) (input : Bytes) where
    read_frame-remaining :
        ltb 0 ws.frame_remaining ≡ true
        → read_frame rbe max_size (suc fuel) ws input ≡ some (read_remaining max_size ws input)
    unfolding read_frame
    read_frame-remaining e = rw (e) refl

    -- One round, where a frame begins.
    pub read_frame-inl :
        (s : Step)
        → ltb 0 ws.frame_remaining ≡ false
        → read_new_frame rbe max_size ws input ≡ inl s
        → read_frame rbe max_size (suc fuel) ws input ≡ some s
    unfolding read_frame
    read_frame-inl s e k = rw (e, k) refl

    pub read_frame-inr :
        (next : Websocket) (rest : Bytes)
        → ltb 0 ws.frame_remaining ≡ false
        → read_new_frame rbe max_size ws input ≡ inr (next, rest)
        → read_frame rbe max_size (suc fuel) ws input ≡ read_frame rbe max_size fuel next rest
    unfolding read_frame
    read_frame-inr next rest e k = rw (e, k) refl

  -- An outcome that every fuel above `n` gives.
  abbrev pub Ends : ℕ → Websocket → Bytes → Type 0
  Ends n ws input =
      (s : Step) × ((fuel : ℕ) → n ≤ fuel → read_frame rbe max_size (suc fuel) ws input ≡ some s)

  suc_of : (fuel : ℕ) → 1 ≤ fuel → fuel ≡ suc (fuel - 1)
  suc_of fuel h = omega arith

  Ends-after :
      (n : ℕ) (ws next : Websocket) (input rest : Bytes)
      → ltb 0 ws.frame_remaining ≡ false
      → read_new_frame rbe max_size ws input ≡ inr (next, rest)
      → Ends n next rest
      → Ends (suc n) ws input
  Ends-after n ws next input rest e k (s, same) = (
    s,
    λ fuel h.
        read_frame-inr fuel ws input next rest e k
        ∙ ap (λ f. read_frame rbe max_size f next rest) (suc_of fuel (omega arith))
        ∙ same (fuel - 1) (omega arith),
  )

  -- One round, given what to do when it goes on.
  Ends-round :
      (n : ℕ) (ws : Websocket) (input : Bytes)
      → ((next : Websocket) (rest : Bytes)
          → ltb 0 ws.frame_remaining ≡ false
          → read_new_frame rbe max_size ws input ≡ inr (next, rest)
          → Ends n ws input)
      → Ends n ws input
  Ends-round n ws input again = elim (Bool-cases (ltb 0 ws.frame_remaining)) [
    | inl e ↦ (read_remaining max_size ws input, λ fuel _. read_frame-remaining fuel ws input e)
    | inr e ↦ (elim (either (read_new_frame rbe max_size ws input)) [
      | inl (s, k) ↦ (s, λ fuel _. read_frame-inl fuel ws input s e k)
      | inr (next, rest, k) ↦ again next rest e k
    ])
  ]

  Ends-by : (n : ℕ) (ws : Websocket) (input : Bytes) → length input ≤ n → Ends n ws input
  Ends-by zero ws input h =
      Ends-round 0 ws input
        (λ next rest e k. absurd (omega (arith, read_new_frame-shrinks ws next input rest k)))
  Ends-by (suc n) ws input h = Ends-round (suc n) ws input (λ next rest e k.
      Ends-after n ws next input rest e k
        (Ends-by n next rest (omega (arith, h, read_new_frame-shrinks ws next input rest k))))

  -- Reading a frame ends, whatever the bytes are: with every fuel above the number of bytes that
  -- are to come there is an outcome, and it is the same one.
  pub read_frame_ends :
      (ws : Websocket) (input : Bytes)
      → (s : Step) × ((fuel : ℕ)
          → length input < fuel
          → read_frame rbe max_size fuel ws input ≡ some s)
  read_frame_ends ws input =
      let (s, same) = Ends-by (length input) ws input (omega arith) in
      (
        s,
        λ fuel h.
            ap (λ f. read_frame rbe max_size f ws input) (suc_of fuel (omega arith))
            ∙ same (fuel - 1) (omega arith),
      )
