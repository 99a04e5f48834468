-- ===== src/Controller/Sized.antt =====
-- pkg/driver/controller.go: the sizes that CreateVolume passes on.
use fileblock_csi.Base.{
  ℕ, ◌+◌, ◌≤◌, Bool, true, false, ◌&&◌, ◌||◌, ◌≡◌, refl, sym, ◌∙◌, inl, inr, Result-cases, Option,
  Result, ok, err, if◌then◌else◌, arith,
}
use fileblock_csi.Base.Int.{ℤ, pos, negsuc, eqb_ℤ, ltb_ℤ, max_int64, mul64, div64}
use fileblock_csi.Host.{Error, status, out_of_range}
use fileblock_csi.Image.Align.{default_block_size, align_up}
use fileblock_csi.Driver.Encryption.{min_encrypted_capacity}
use fileblock_csi.Controller.Capacity.{
  CapacityRange, required_of, limit_of, wanted, Fits, range, aligned_capacity,
  aligned_capacity-Decides, Decides,
}
use fileblock_csi.Controller.Server.{checked_capacity}

-- The sizes that alignedCapacity computes are values of an int64.
mul64-small : (a : ℤ) (d n : ℕ) → mul64 a d ≡ pos n → n ≤ max_int64
unfolding mul64
mul64-small a d n e = ground (arith, e)

align_up-small : (a : ℤ) (n : ℕ) → align_up a ≡ pos n → n ≤ max_int64
unfolding align_up
align_up-small a n e = mul64-small _ _ n e

aligned_capacity-small :
    (r : Option CapacityRange) (n : ℕ) → aligned_capacity r ≡ ok (pos n) → n ≤ max_int64
unfolding aligned_capacity
aligned_capacity-small r n e =
    go (ltb_ℤ (pos 0) (limit_of r) && ltb_ℤ (limit_of r) size)
      (eqb_ℤ down (pos 0) || ltb_ℤ down (required_of r)) e
  where
    size : ℤ
    size = align_up (wanted (required_of r) (limit_of r))

    down : ℤ
    down = mul64 (div64 (limit_of r) default_block_size) default_block_size

    go :
        (b c : Bool)
        → (if b then (if c then err (status out_of_range) else ok down) else ok size) ≡ ok (pos n)
        → n ≤ max_int64
    go false c e = align_up-small (wanted (required_of r) (limit_of r)) n (ground (arith, e))
    go true true e = absurd (ground (arith, e))
    go true false e =
        mul64-small (div64 (limit_of r) default_block_size) default_block_size n (ground (arith, e))

checked_capacity-aligned :
    (r : Option CapacityRange) (b : Bool) (n : ℤ)
    → checked_capacity r b ≡ ok n
    → aligned_capacity r ≡ ok n
unfolding checked_capacity
checked_capacity-aligned r b n e = elim (Result-cases (aligned_capacity r)) [
  | inr (x, q) ↦ absurd (differ x (sym (rw (q, checked_capacity) refl) ∙ e))
  | inl (m, q) ↦
      q ∙ go m (b && ltb_ℤ m (pos min_encrypted_capacity)) (sym (rw (q, checked_capacity) refl) ∙ e)
]
  where
    differ : (x : Error) → ◌≡◌ {A = Result Error ℤ} (err x) (ok n) → ⊥
    differ x k = absurd (ground (arith, k))

    go :
        (m : ℤ) (c : Bool)
        → (if c then err (status out_of_range) else ok m) ≡ ok n
        → ◌≡◌ {A = Result Error ℤ} (ok m) (ok n)
    go m true k = absurd (differ (status out_of_range) k)
    go m false k = k

-- The size of an image that a capacity range asks for.
pub record Sized (required limit : ℕ) (n : ℤ) : Type 0 where
  pub size : ℕ
  pub is_size : n ≡ pos size
  pub fits : Fits required limit size
  pub small : size ≤ max_int64

pub aligned_capacity-Sized :
    (required limit : ℕ) (n : ℤ)
    → required + 4095 ≤ max_int64
    → limit + 4095 ≤ max_int64
    → aligned_capacity (range required limit) ≡ ok n
    → Sized required limit n
aligned_capacity-Sized required limit n hr hl q =
    let d = aligned_capacity-Decides required limit hr hl in go n q (rw q at d)
  where
    go :
        (n : ℤ)
        → aligned_capacity (range required limit) ≡ ok n
        → Decides required limit (ok n)
        → Sized required limit n
    go (pos size) q f = record {
      size = size;
      is_size = refl;
      fits = f;
      small = aligned_capacity-small (range required limit) size q;
    }
    go (negsuc m) q f = absurd f

pub checked_capacity-Sized :
    (required limit : ℕ) (b : Bool) (n : ℤ)
    → required + 4095 ≤ max_int64
    → limit + 4095 ≤ max_int64
    → checked_capacity (range required limit) b ≡ ok n
    → Sized required limit n
checked_capacity-Sized required limit b n hr hl e =
    aligned_capacity-Sized required limit n hr hl
      (checked_capacity-aligned (range required limit) b n e)
