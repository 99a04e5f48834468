-- ===== src/Controller/Capacity.antt =====
-- pkg/driver/controller.go, alignedCapacity: the image size for a capacity range.
use fileblock_csi.Base.{
  ℕ, zero, suc, ◌*◌, ◌+◌, ◌/◌, ◌%◌, ◌^◌, ◌≤◌, ◌<◌, ◌≡◌, refl, ◌⊎◌, inl, inr, Bool-cases, ◌&&◌, ◌||◌,
  Option, none, some, Result, ok, err, arith, if◌then◌else◌,
}
use fileblock_csi.Base.Int.{ℤ, pos, negsuc, ltb_ℤ, eqb_ℤ, mul64, div64, max_int64}
use fileblock_csi.Host.{Error, status, out_of_range}
use fileblock_csi.Image.Align.{align_up, align_up-pos, align_up_wraps, default_block_size}

-- csi.CapacityRange
pub record CapacityRange : Type 0 where
  pub required_bytes : ℤ
  pub limit_bytes : ℤ

-- The generated getters read 0 from a nil range.
abbrev pub required_of : Option CapacityRange → ℤ
required_of none = pos 0
required_of (some r) = r.required_bytes

abbrev pub limit_of : Option CapacityRange → ℤ
limit_of none = pos 0
limit_of (some r) = r.limit_bytes

abbrev pub default_capacity_bytes : ℤ
default_capacity_bytes = pos (2 ^ 30)

abbrev pub wanted : ℤ → ℤ → ℤ
wanted required limit =
    if ltb_ℤ (pos 0) required
    then required
    else if ltb_ℤ (pos 0) limit
    then limit
    else default_capacity_bytes

-- Rounding down to the limit, when rounding up has passed it.
abbrev pub within_limit : ℤ → ℤ → ℤ → Result Error ℤ
within_limit required limit size =
    if ltb_ℤ (pos 0) limit && ltb_ℤ limit size
    then (let down = mul64 (div64 limit default_block_size) default_block_size in
        if eqb_ℤ down (pos 0) || ltb_ℤ down required then err (status out_of_range) else ok down)
    else ok size

unfoldable pub aligned_capacity : Option CapacityRange → Result Error ℤ
unfolding align_up mul64 div64
aligned_capacity r =
    within_limit (required_of r) (limit_of r) (align_up (wanted (required_of r) (limit_of r)))

-- A size fits a range: a positive multiple of the block size between required and limit (0 = none).
pub record Fits (required limit size : ℕ) : Type 0 where
  pub aligned : size % 4096 ≡ 0
  pub positive : 0 < size
  pub enough : required ≤ size
  pub bounded : (limit ≡ 0) ⊎ (size ≤ limit)

abbrev pub range : ℕ → ℕ → Option CapacityRange
range required limit = some (record { required_bytes = pos required; limit_bytes = pos limit })

-- The call picks a size that fits, or fails with OutOfRange when no size fits.
abbrev pub Decides : ℕ → ℕ → Result Error ℤ → Type 0
Decides required limit (ok (pos size)) = Fits required limit size
Decides required limit (ok (negsuc n)) = ⊥
Decides required limit (err e) =
    (e ≡ status out_of_range) × ((size : ℕ) → Fits required limit size → ⊥)

round_down-pos :
    (n : ℕ)
    → n ≤ max_int64
    → mul64 (div64 (pos n) default_block_size) default_block_size ≡ pos (n / 4096 * 4096)
unfolding mul64 div64
round_down-pos n h = ground arith

-- Where the wanted bytes come from: the required bytes, else the limit, else the default.
abbrev Wanted : ℕ → ℕ → ℕ → Type 0
Wanted required limit w =
    (w ≡ required) ⊎ ((required ≡ 0) × (w ≡ limit)) ⊎ ((required ≡ 0) × (limit ≡ 0))

Fits-up :
    (required limit w size : ℕ)
    → w ≤ size
    → size % 4096 ≡ 0
    → 0 < w
    → Wanted required limit w
    → (limit ≡ 0) ⊎ (size ≤ limit)
    → Fits required limit size
Fits-up required limit w size lo al wp c b = record {
  aligned = al;
  positive = omega arith;
  enough = omega arith;
  bounded = b;
}

Fits-down :
    (required limit : ℕ)
    → 0 < limit / 4096 * 4096
    → required ≤ limit / 4096 * 4096
    → Fits required limit (limit / 4096 * 4096)
Fits-down required limit p r = record {
  aligned = omega arith;
  positive = p;
  enough = r;
  bounded = inr (omega arith);
}

none-Fits :
    (required limit w size : ℕ)
    → size < w + 4096
    → size % 4096 ≡ 0
    → Wanted required limit w
    → (0 < limit) × (limit < size)
    → (limit / 4096 * 4096 ≡ 0) ⊎ (limit / 4096 * 4096 < required)
    → (s : ℕ) → Fits required limit s
    → ⊥
none-Fits required limit w size hi al c passed short s f = omega arith

within_limit-Decides :
    (required limit w size : ℕ)
    → limit ≤ max_int64
    → w ≤ size
    → size < w + 4096
    → size % 4096 ≡ 0
    → 0 < w
    → Wanted required limit w
    → Decides required limit (within_limit (pos required) (pos limit) (pos size))
within_limit-Decides required limit w size hl lo hi al wp c =
    elim (Bool-cases (ltb_ℤ (pos 0) (pos limit) && ltb_ℤ (pos limit) (pos size))) [
      | inr e ↦ rw e (Fits-up required limit w size lo al wp c (ground arith))
      | inl e ↦ rw e (
          rw (round_down-pos limit hl)
            (elim (Bool-cases (
              eqb_ℤ (pos (limit / 4096 * 4096)) (pos 0)
              || ltb_ℤ (pos (limit / 4096 * 4096)) (pos required))) [
                | inr f ↦ rw f (Fits-down required limit (ground arith) (ground arith))
                | inl f ↦
                    rw f
                      (refl, none-Fits required limit w size hi al c (ground arith) (ground arith))
              ]))
    ]

wanted-pos :
    (required limit : ℕ)
    → (w : ℕ) × (wanted (pos required) (pos limit) ≡ pos w)
      × Wanted required limit w
      × (0 < w)
      × ((w ≤ required) ⊎ (w ≤ limit) ⊎ (w ≡ 2 ^ 30))
wanted-pos zero zero = (2 ^ 30, refl, inr (inr (refl, refl)), omega arith, inr (inr refl))
wanted-pos zero (suc limit) =
    (suc limit, ground arith, inr (inl (refl, refl)), omega arith, inr (inl (omega arith)))
wanted-pos (suc required) limit =
    (suc required, ground arith, inl refl, omega arith, inl (omega arith))

-- For every range whose numbers leave room to round up in an int64, the call picks a positive
-- multiple of 4096 between the required bytes and the limit, and it fails with OutOfRange exactly
-- when there is no such size.
pub aligned_capacity-Decides :
    (required limit : ℕ)
    → required + 4095 ≤ max_int64
    → limit + 4095 ≤ max_int64
    → Decides required limit (aligned_capacity (range required limit))
unfolding aligned_capacity
aligned_capacity-Decides required limit hr hl =
    let (w, e, c, wp, small) = wanted-pos required limit in
    rw e (
      rw (align_up-pos w (omega arith)) (
        within_limit-Decides required limit w ((w + 4095) / 4096 * 4096) (omega arith) (omega arith)
          (omega arith) (omega arith) wp c))

-- For required bytes that fit an int64 but leave no room to round up, and with no limit, the sum
-- wraps around: the call answers a negative size and no error.
pub aligned_capacity_wraps :
    (required : ℕ)
    → required ≤ max_int64
    → max_int64 < required + 4095
    → (n : ℕ) × (aligned_capacity (range required 0) ≡ ok (negsuc n))
unfolding aligned_capacity
aligned_capacity_wraps required h k =
    let (n, e) = align_up_wraps required h k in (n, ground (arith, e))
