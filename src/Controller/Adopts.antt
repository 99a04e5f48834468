-- ===== src/Controller/Adopts.antt =====
-- pkg/image/image.go, Create, with a size that alignedCapacity picks.
use fileblock_csi.Base.{
  ℕ, ◌%◌, ◌≤◌, ◌<◌, Bool, true, false, not, ◌&&◌, ◌≡◌, refl, ap, sym, ◌∙◌, inl, inr, Bool-cases,
  Option, none, some, Result, ok, err, if◌then◌else◌, arith,
}
use fileblock_csi.Base.Int.{ℤ, pos, eqb_ℤ, leb_ℤ, eqb_ℤ→eq, max_int64}
use fileblock_csi.Base.Text.{Text}
use fileblock_csi.Host.{Host, Error, other, capacity_mismatch}
use fileblock_csi.Machine.{Machine, fail}
use fileblock_csi.Machine.Success.{Ensures}
use fileblock_csi.Image.Align.{align_up, align_up-pos}
use fileblock_csi.Image.Manager
use fileblock_csi.Image.Manager.{Metadata, is_valid_id}
use fileblock_csi.Image.Volumes.{adopted, created, made, sized}
use fileblock_csi.Image.Disk.{Disk, shown}
use fileblock_csi.Image.Calls.{goes, breaks}
use fileblock_csi.Image.Creates.{create-Ends}

-- A size that alignedCapacity picks is left alone by the rounding in Create.
pub align_up_aligned : (n : ℕ) → n % 4096 ≡ 0 → n ≤ max_int64 → align_up (pos n) ≡ pos n
align_up_aligned n a b = align_up-pos n (omega arith) ∙ ground arith

-- What a created or adopted image is: that of the ID, with the size asked for.
pub record Made {h : Host} {root : Text} (d : Disk h root) (id : Text) (n : ℕ) (m : Metadata)
    (s : Machine h) : Type 0 where
  pub named : m.volume_id ≡ id
  pub size : m.capacity_bytes ≡ pos n
  pub there : shown d s id ≡ some (pos n)

module _ {h : Host} {root : Text} (d : Disk h root) (id : Text) (n : ℕ) where
  -- The answer of an action on metadata, known to be a success.
  meta_of : (k : ℤ) (m : Metadata) → sized id k ≡ ok m → (m.volume_id ≡ id) × (m.capacity_bytes ≡ k)
  meta_of k m e =
      let q : record { volume_id = id; capacity_bytes = k } ≡ m = ground (arith, e) in
      (ap (λ x. x.volume_id) (sym q), ap (λ x. x.capacity_bytes) (sym q))

  adopted-Size :
      (k : ℤ) (m : Metadata)
      → adopted id (pos n) k ≡ ok m
      → align_up (pos n) ≡ pos n
      → (k ≡ pos n) × (sized id k ≡ ok m)
  adopted-Size k m e a = go (eqb_ℤ k (pos n)) refl (rw a at e)
    where
      go :
          (b : Bool)
          → eqb_ℤ k (pos n) ≡ b
          → (if not b && not b then err (capacity_mismatch (pos n) k) else sized id k) ≡ ok m
          → (k ≡ pos n) × (sized id k ≡ ok m)
      go true q e = (eqb_ℤ→eq k (pos n) q, e)
      go false q e = absurd (ground (arith, e))

  created-Made :
      (o : Option ℤ) (m : Metadata) (s : Machine h)
      → align_up (pos n) ≡ pos n
      → shown d s id ≡ (created id (pos n) o).1
      → (created id (pos n) o).0 ≡ ok m
      → Made d id n m s
  created-Made none m s a t e =
      let (i, c) = meta_of (align_up (pos n)) m e in
      record { named = i; size = c ∙ a; there = t ∙ rw a refl }
  created-Made (some k) m s a t e =
      let (q, x) = adopted-Size k m e a in
      let (i, c) = meta_of k m x in record { named = i; size = c ∙ q; there = t ∙ rw q refl }

  made-created : (o : Option ℤ) → 0 < n → made id (pos n) o ≡ created id (pos n) o
  made-created o p = let q : leb_ℤ (pos n) (pos 0) ≡ false = ground arith in rw q refl

  not_both : (m : Metadata) (y : Error) → ◌≡◌ {A = Result Error Metadata} (err y) (ok m) → ⊥
  not_both m y e = absurd (ground (arith, e))

  create-valid :
      (b : Bool) (s : Machine h) (m : Metadata)
      → (Manager.create h root id (pos n) b s).0 ≡ ok m
      → is_valid_id id ≡ true
  unfolding Manager.create fail
  create-valid b s m e = elim (Bool-cases (is_valid_id id)) [
    | inl v ↦ v
    | inr bad ↦ absurd (not_both m other (sym (rw (bad, Manager.create) refl) ∙ e))
  ]

  pub create-Made :
      (b : Bool)
      → n % 4096 ≡ 0
      → 0 < n
      → n ≤ max_int64
      → Ensures (Made d id n) (Manager.create h root id (pos n) b)
  create-Made b a p u = record {
    at = λ s m e.
        let v = create-valid b s m e in
        let q = made-created (shown d s id) p in
        elim (create-Ends d id v (pos n) n b s (align_up_aligned n a u)) [
          | breaks y x k f own ↦ absurd (not_both m y (sym k ∙ e))
          | goes k f o ↦
              created-Made (shown d s id) m (Manager.create h root id (pos n) b s).1
                (align_up_aligned n a u) (o ∙ ap (λ x. x.1) q) (ap (λ x. x.0) (sym q) ∙ sym k ∙ e)
        ];
  }
