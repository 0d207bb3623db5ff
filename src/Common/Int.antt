-- ===== src/Common/Int.antt =====
-- Signed numbers, for the differences of sequence numbers and of times.
use Prim.Native.Nat.{ℕ, suc, ◌-◌, ◌^◌}
use mathlib.Core.Bool.{Bool}
use log_squirl_tcpdump.Common.Tests.{ltb, if◌then◌else◌}

-- `negsuc n` is -(n + 1).
pub data ℤ : Type 0 where
  pos : ℕ → ℤ
  negsuc : ℕ → ℤ

abbrev pub pos_part : ℤ → ℕ
pos_part (pos n) = n
pos_part (negsuc n) = 0

abbrev pub neg_part : ℤ → ℕ
neg_part (pos n) = 0
neg_part (negsuc n) = suc n

-- An intN_t as the bit pattern `w` below 2 ^ n stands for it.
abbrev pub to_signed : ℕ → ℕ → ℤ
to_signed n w = if ltb w (2 ^ (n - 1)) then pos w else negsuc (2 ^ n - w - 1)

-- 0 < z.
abbrev pub is_pos : ℤ → Bool
is_pos z = ltb 0 (pos_part z)

-- z < 0.
abbrev pub is_neg : ℤ → Bool
is_neg z = ltb 0 (neg_part z)
