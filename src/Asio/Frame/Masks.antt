-- ===== src/Asio/Frame/Masks.antt =====
-- Masking, unmasking and the first byte of a frame.
use Prim.Native.Nat.{bit_or, bit_xor}
use thinger_http.Common.{
  ℕ, suc, zero, ◌+◌, ◌%◌, ◌<◌, ◌≡◌, refl, ap, Bool, true, ◌&&◌, [], ◌∷◌, ◌==◌, ==_iff, length,
  Bytes, IsBytes, arith,
}
use thinger_http.Asio.Frame.{mask_at, apply_mask}

module _ (test : ℕ → Bool) where
  -- Whether the test holds of every number under the bound.
  passes : ℕ → Bool
  passes zero = true
  passes (suc bound) = passes bound && test bound

  passes_sound : (bound k : ℕ) → k < bound → passes bound ≡ true → test k ≡ true
  unfolding passes
  passes_sound zero k under p = absurd (omega arith)
  passes_sound (suc bound) k under p = ground (arith, passes_sound bound k)

-- The tests below are run on all bytes.
abbrev unmasks : ℕ → ℕ → Bool
unmasks byte mask = bit_xor (bit_xor byte mask) mask == byte

every_unmasks : passes (λ byte. passes (unmasks byte) 256) 256 ≡ true
unfolding passes
every_unmasks = refl

bit_xor-bit_xor :
    (byte mask : ℕ) → byte < 256 → mask < 256 → bit_xor (bit_xor byte mask) mask ≡ byte
bit_xor-bit_xor byte mask hb hm =
    let row = passes_sound (λ byte. passes (unmasks byte) 256) 256 byte hb every_unmasks in
    (==_iff (bit_xor (bit_xor byte mask) mask) byte).0 (passes_sound (unmasks byte) 256 mask hm row)

every_size : passes (λ n. bit_or n 128 == n + 128) 128 ≡ true
unfolding passes
every_size = refl

pub bit_or_128 : (n : ℕ) → n < 128 → bit_or n 128 ≡ n + 128
bit_or_128 n h = (==_iff _ _).0 (passes_sound (λ n. bit_or n 128 == n + 128) 128 n h every_size)

every_opcode : passes (λ op. bit_or 128 op == op + 128) 16 ≡ true
unfolding passes
every_opcode = refl

pub bit_or_opcode : (op : ℕ) → op < 16 → bit_or 128 op ≡ op + 128
bit_or_opcode op h =
    (==_iff _ _).0 (passes_sound (λ op. bit_or 128 op == op + 128) 16 op h every_opcode)

mask_at_bound : (mask : Bytes) (i : ℕ) → IsBytes mask → mask_at mask i < 256
unfolding mask_at
mask_at_bound [] i h = omega arith
mask_at_bound (m ∷ ms) zero (hm, h) = hm
mask_at_bound (m ∷ ms) (suc i) (hm, h) = mask_at_bound ms i h

-- A text that is masked twice, from the same index on, is the text.
pub apply_mask_twice :
    (i : ℕ) (mask xs : Bytes)
    → IsBytes mask
    → IsBytes xs
    → apply_mask i mask (apply_mask i mask xs) ≡ xs
unfolding apply_mask
apply_mask_twice i mask [] hm h = refl
apply_mask_twice i mask (x ∷ xs) hm (hx, h) =
    rw
      (
        bit_xor-bit_xor x (mask_at mask (i % 4)) hx (mask_at_bound mask (i % 4) hm),
        apply_mask_twice (i + 1) mask xs hm h,
      )
      refl

pub length-apply_mask : (i : ℕ) (mask xs : Bytes) → length (apply_mask i mask xs) ≡ length xs
unfolding apply_mask
length-apply_mask i mask [] = refl
length-apply_mask i mask (x ∷ xs) = ap suc (length-apply_mask (i + 1) mask xs)
