-- ===== src/Asio/Frame.antt =====
-- thinger/asio/sockets/websocket.cpp: what `send_message` writes, and `unmask`.
pub mod Masks
use Prim.Native.Nat.{bit_or, bit_xor}
use thinger_http.Common.{
  ℕ, suc, zero, ◌+◌, ◌/◌, ◌%◌, ◌^◌, Bool, [], ◌∷◌, ◌++◌, leb, if◌then◌else◌, length, Bytes,
}

-- `mask[i]`
unfoldable pub mask_at : Bytes → ℕ → ℕ
mask_at [] i = 0
mask_at (m ∷ ms) zero = m
mask_at (m ∷ ms) (suc i) = mask_at ms i

-- The loop of `unmask`, and that of `send_message`, from index `i` on.
unfoldable pub apply_mask : ℕ → Bytes → Bytes → Bytes
unfolding mask_at
apply_mask i mask [] = []
apply_mask i mask (x ∷ xs) = bit_xor x (mask_at mask (i % 4)) ∷ apply_mask (i + 1) mask xs

-- The size in `send_message`, from the second byte of the header on.
unfoldable pub size_bytes : ℕ → Bytes
size_bytes size =
    if leb size 125
    then size ∷ []
    else if leb size 65535
    then 126 ∷ (size / 2 ^ 8 % 256) ∷ (size % 256) ∷ []
    else 127
      ∷ (size / 2 ^ 56 % 256)
      ∷ (size / 2 ^ 48 % 256)
      ∷ (size / 2 ^ 40 % 256)
      ∷ (size / 2 ^ 32 % 256)
      ∷ (size / 2 ^ 24 % 256)
      ∷ (size / 2 ^ 16 % 256)
      ∷ (size / 2 ^ 8 % 256)
      ∷ (size % 256)
      ∷ []

-- `output_[1] |= 0b10000000`
unfoldable pub set_masked : Bytes → Bytes
set_masked [] = []
set_masked (n ∷ ns) = bit_or n 128 ∷ ns

unfoldable pub message : Bool → ℕ → Bytes → Bytes → Bytes
unfolding size_bytes set_masked apply_mask
message server opcode mask payload =
    bit_or 128 opcode
    ∷ (if server
        then size_bytes (length payload) ++ payload
        else set_masked (size_bytes (length payload)) ++ (mask ++ apply_mask 0 mask payload))
