-- ===== src/Image/Align.antt =====
-- pkg/image/image.go, AlignUp, in the int64 arithmetic of Go.
use native.Mathlib.Decide.{dec_le}
use fileblock_csi.Base.{ℕ, ◌+◌, ◌-◌, ◌*◌, ◌/◌, ◌%◌, ◌^◌, ◌≤◌, ◌<◌, ◌≡◌, arith}
use fileblock_csi.Base.Int.{ℤ, pos, negsuc, add64, mul64, div64, max_int64}

abbrev pub default_block_size : ℕ
default_block_size = 4096

unfoldable pub align_up : ℤ → ℤ
unfolding add64 mul64 div64
align_up n =
    mul64 (div64 (add64 n (pos (default_block_size - 1))) default_block_size) default_block_size

-- The rounding of a number that leaves room for it below 2 ^ 63.
pub align_up-pos :
    (n : ℕ) → n + 4095 ≤ max_int64 → align_up (pos n) ≡ pos ((n + 4095) / 4096 * 4096)
unfolding align_up
align_up-pos n h = ground arith

-- Where the addition fits an int64, the size is the least multiple of 4096 that holds the bytes asked
-- for.
align_up_least :
    (n : ℕ)
    → n + 4095 ≤ max_int64
    → (m : ℕ) × (align_up (pos n) ≡ pos m) × (m % 4096 ≡ 0) × (n ≤ m) × (m < n + 4096)
align_up_least n h =
    ((n + 4095) / 4096 * 4096, align_up-pos n h, omega arith, omega arith, omega arith)

-- Where it does not fit, the sum wraps around and the size is negative.
pub align_up_wraps :
    (n : ℕ) → n ≤ max_int64 → max_int64 < n + 4095 → (m : ℕ) × (align_up (pos n) ≡ negsuc m)
unfolding align_up
align_up_wraps n h k = elim (dec_le n (2 ^ 63 - 4095)) [
  | yes p ↦ (2 ^ 63 - 1, ground arith)
  | no p ↦ (2 ^ 63 - 4097, ground arith)
]
