-- ===== src/WebSocket/Frame/Keys.antt =====
-- The mask keys that `generateMask` hands out, one call after another.
use undici.Base.{ℕ, zero, suc, ◌+◌, ◌*◌, ◌/◌, ◌%◌, ◌≡◌, arith}
use undici.WebSocket.Frame.{MaskState, new_mask_state, generate_mask}

module _ (random : ℕ → ℕ → ℕ) where
  -- the state behind `n` calls
  pub mask_state : ℕ → MaskState
  mask_state zero = new_mask_state
  mask_state (suc n) = (generate_mask random (mask_state n)).1

  record IsNth (n : ℕ) (s : MaskState) : Type 0 where
    filled : s.fills ≡ (n + 2047) / 2048
    used : s.buf_idx + 8192 * ((n + 2047) / 2048) ≡ 4 * n + 8192

  generate_mask-IsNth :
      (n : ℕ) (s : MaskState) → IsNth n s → IsNth (suc n) (generate_mask random s).1
  unfolding generate_mask
  generate_mask-IsNth n s v = ground arith

  mask_state-IsNth : (n : ℕ) → IsNth n (mask_state n)
  unfolding mask_state
  mask_state-IsNth zero = omega arith
  mask_state-IsNth (suc n) = generate_mask-IsNth n (mask_state n) (mask_state-IsNth n)

  -- The n-th call, from 0, gives the four bytes from 4 (n mod 2048) on of filling n / 2048 + 1: inside
  -- the buffer, and no byte of a filling is used twice.
  pub generate_mask_nth :
      (n : ℕ)
      → (generate_mask random (mask_state n)).0 ≡ record {
        k0 = random (n / 2048 + 1) (4 * (n % 2048) + 0);
        k1 = random (n / 2048 + 1) (4 * (n % 2048) + 1);
        k2 = random (n / 2048 + 1) (4 * (n % 2048) + 2);
        k3 = random (n / 2048 + 1) (4 * (n % 2048) + 3);
      }
  unfolding generate_mask
  generate_mask_nth n = ground (arith, mask_state-IsNth n)
