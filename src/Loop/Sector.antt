-- ===== src/Loop/Sector.antt =====
-- pkg/loop/losetup.go, SectorSizeFor: the sector size of a loop device.
use fileblock_csi.Base.{
  ℕ, zero, suc, ◌+◌, ◌*◌, ◌/◌, ◌%◌, ◌^◌, ◌≤◌, ◌<◌, ◌==◌, ltb, if◌then◌else◌, ◌&&◌, not, Bool, true,
  false, ◌≡◌, refl, ◌⊎◌, inl, inr, ◌↔◌, arith, Bool-cases,
}
use Prim.Native.Nat.{min}
use native.Mathlib.Nat.{two-pow-succ}
use fileblock_csi.Base.Int.{ℤ, pos, pos_part, neg_part}
use fileblock_csi.Image.Align.{default_block_size}

abbrev pub min_sector_size : ℕ
min_sector_size = 512

-- imageSize % s == 0: the sign of the size does not matter.
abbrev pub divides : ℕ → ℤ → Bool
divides s size = pos_part size % s + neg_part size % s == 0

-- The loop `for s > minSectorSize && imageSize%s != 0 { s /= 2 }`, on fuel.
unfoldable pub shrink : ℕ → ℤ → ℕ → ℕ
shrink zero size s = s
shrink (suc fuel) size s =
    let rest = shrink fuel size (s / 2) in
    if ltb min_sector_size s && not (divides s size) then rest else s

abbrev pub start_size : ℕ → ℤ → ℕ
start_size page recorded =
    min (if ltb 0 (pos_part recorded) then pos_part recorded else default_block_size) page

unfoldable pub sector_size_for : ℕ → ℤ → ℤ → ℕ
unfolding shrink
sector_size_for page recorded size = let s = start_size page recorded in shrink s size s

shrink-le : (fuel : ℕ) (size : ℤ) (s : ℕ) → shrink fuel size s ≤ s
unfolding shrink
shrink-le zero size s = omega arith
shrink-le (suc fuel) size s = ground (arith, shrink-le fuel size (s / 2))

stops :
    (s : ℕ) (size : ℤ)
    → (ltb 512 s && not (divides s size)) ≡ false
    → (s ≤ 512) ⊎ (divides s size ≡ true)
stops s size e = ground arith

-- With fuel at least the size the loop ends by its test.
shrink_ends :
    (fuel : ℕ) (size : ℤ) (s : ℕ)
    → s ≤ fuel
    → (shrink fuel size s ≤ 512) ⊎ (divides (shrink fuel size s) size ≡ true)
unfolding shrink
shrink_ends zero size s h = inl (omega arith)
shrink_ends (suc fuel) size s h = elim (Bool-cases (ltb 512 s && not (divides s size))) [
  | inl e ↦ rw e (shrink_ends fuel size (s / 2) (ground arith))
  | inr e ↦ rw e (stops s size e)
]

-- The size that an image records, or 4096 when it records none.
abbrev pub or_default : ℤ → ℕ
or_default recorded = if ltb 0 (pos_part recorded) then pos_part recorded else default_block_size

-- The sector size exceeds neither the page size nor the size that the image records (4096 when it
-- records none), so the kernel accepts the filesystem; and the halving ends at a divisor of the
-- image size, or at 512 or below.
sector_size_for_bounds :
    (page : ℕ) (recorded size : ℤ)
    → (sector_size_for page recorded size ≤ page)
      × (sector_size_for page recorded size ≤ or_default recorded)
      × ((sector_size_for page recorded size ≤ 512)
          ⊎ (divides (sector_size_for page recorded size) size ≡ true))
unfolding sector_size_for
sector_size_for_bounds page recorded size =
    let s = start_size page recorded in
    let le = shrink-le s size s in
    (ground (arith, le), ground (arith, le), shrink_ends s size s (omega arith))

half-power : (j : ℕ) → (512 * 2 ^ suc j) / 2 ≡ 512 * 2 ^ j
half-power j = omega (arith, two-pow-succ j)

power_pos : (j : ℕ) → 0 < 2 ^ j
power_pos zero = omega arith
power_pos (suc j) = omega (arith, two-pow-succ j, power_pos j)

-- From a power of two times 512 the halving ends exactly at a divisor, or at 512.
shrink_power :
    (j fuel n : ℕ)
    → 512 * 2 ^ j ≤ fuel
    → (i : ℕ) × (i ≤ j)
      × (shrink fuel (pos n) (512 * 2 ^ j) ≡ 512 * 2 ^ i)
      × ((i ≡ 0) ⊎ (n % (512 * 2 ^ i) ≡ 0))
unfolding shrink
shrink_power j zero n h = absurd (omega (arith, power_pos j))
shrink_power zero (suc fuel) n h = (0, omega arith, refl, inl refl)
shrink_power (suc j) (suc fuel) n h =
    elim (Bool-cases (ltb 512 (512 * 2 ^ suc j) && not (divides (512 * 2 ^ suc j) (pos n)))) [
      | inl e ↦
          let (i, le, eq, end) =
            shrink_power j fuel n (omega (arith, two-pow-succ j, power_pos j)) in
          (i, omega arith, rw e (rw half-power eq), end)
      | inr e ↦ (suc j, omega arith, rw e refl, inr (ground (arith, two-pow-succ j, power_pos j)))
    ]

mod_factor : (n p : ℕ) → 0 < p → n % (512 * p) ≡ 0 → n % 512 ≡ 0
mod_factor n p h e = grind arith

start_power : (page j : ℕ) → 512 * 2 ^ j ≤ page → start_size page (pos (512 * 2 ^ j)) ≡ 512 * 2 ^ j
start_power page j h = ground (arith, power_pos j)

power_divides :
    (n i : ℕ) → (i ≡ 0) ⊎ (n % (512 * 2 ^ i) ≡ 0) → (n % (512 * 2 ^ i) ≡ 0) ↔ (n % 512 ≡ 0)
power_divides n zero c = (λ e. e, λ e. e)
power_divides n (suc i) (inl c) = absurd (omega arith)
power_divides n (suc i) (inr c) = (mod_factor n (2 ^ suc i) (power_pos (suc i)), λ _. c)

-- For a recorded block size that is a power of two from 512 up to the page size, the sector size is
-- such a power too, and it divides the image size exactly when 512 does.
pub sector_size_for_power :
    (page j n : ℕ)
    → 512 * 2 ^ j ≤ page
    → let s = sector_size_for page (pos (512 * 2 ^ j)) (pos n) in
      ((i : ℕ) × (i ≤ j) × (s ≡ 512 * 2 ^ i)) × ((n % s ≡ 0) ↔ (n % 512 ≡ 0))
unfolding sector_size_for
sector_size_for_power page j n h =
    let (i, le, eq, end) = shrink_power j (512 * 2 ^ j) n (omega arith) in
    let e : sector_size_for page (pos (512 * 2 ^ j)) (pos n) ≡ 512 * 2 ^ i =
      rw (start_power page j h) eq in
    ((i, le, e), rw e (power_divides n i end))
