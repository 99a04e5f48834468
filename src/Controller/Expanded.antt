-- ===== src/Controller/Expanded.antt =====
-- pkg/driver/controller.go, ControllerExpandVolume, with pkg/image and pkg/store: what becomes of the
-- image of a volume.
use fileblock_csi.Base.{
  ℕ, ◌+◌, ◌%◌, ◌≤◌, Bool, true, false, ◌≡◌, ◌||◌, refl, ap, sym, ◌∙◌, inl, inr, Bool-cases, Option,
  none, some, Result, ok, err, if◌then◌else◌, arith,
}
use fileblock_csi.Base.Int.{ℤ, pos, eqb_ℤ, ltb_ℤ, leb_ℤ, eqb_ℤ→eq, max_int64}
use fileblock_csi.Base.Text.{Text, is_empty}
use fileblock_csi.Host.{Host, Error, internal, absent, other, status, invalid_argument}
use fileblock_csi.Machine.{M, Machine, pure, fail, lift, wrap_err, ◌>>=◌}
use fileblock_csi.Machine.Success.{bind-Both, Ensures, Ensures-wrap_err}
use fileblock_csi.Machine.Quiet.{Quiet-wrap_err}
use fileblock_csi.Image.Align.{align_up}
use fileblock_csi.Image.Makes.{resize-Quiet}
use fileblock_csi.Image.Manager
use fileblock_csi.Image.Manager.{Metadata, is_valid_id}
use fileblock_csi.Image.Volumes.{grown, resized, sized}
use fileblock_csi.Image.Disk.{Disk, shown}
use fileblock_csi.Image.Calls.{goes, breaks}
use fileblock_csi.Image.Changes.{resize-Ends}
use fileblock_csi.Controller.Capacity.{Fits, range, aligned_capacity, required_of}
use fileblock_csi.Controller.Server.{to_status, store_for_volume_id, controller_expand_volume}
use fileblock_csi.Controller.Sized.{aligned_capacity-Sized}
use fileblock_csi.Controller.Adopts.{align_up_aligned}
use fileblock_csi.Controller.Resolved.{StoreOf, store_for-StoreOf}

-- The end of a Resize that succeeds.
record Resized {h : Host} {root : Text} (d : Disk h root) (id : Text) (n : ℕ) (m : Metadata)
    (s : Machine h) : Type 0 where
  pub size : m.capacity_bytes ≡ pos n
  pub there : shown d s id ≡ some (pos n)

module _ {h : Host} {root : Text} (d : Disk h root) (id : Text) (n : ℕ) where
  not_both : (m : Metadata) (y : Error) → ◌≡◌ {A = Result Error Metadata} (err y) (ok m) → ⊥
  not_both m y e = absurd (ground (arith, e))

  resize-valid :
      (s : Machine h) (m : Metadata)
      → (Manager.resize h root id (pos n) s).0 ≡ ok m
      → is_valid_id id ≡ true
  unfolding Manager.resize Manager.get fail ◌>>=◌
  resize-valid s m e = elim (Bool-cases (is_valid_id id)) [
    | inl v ↦ v
    | inr bad ↦ absurd (not_both m other (sym (rw (bad, Manager.resize) refl) ∙ e))
  ]

  abbrev picked : Bool → Bool → ℤ → Result Error Metadata × ℤ
  picked a b k =
      if a then (err other, k) else if b then (sized id k, k) else (sized id (pos n), pos n)

  capacity_of : (k : ℤ) (m : Metadata) → sized id k ≡ ok m → m.capacity_bytes ≡ k
  capacity_of k m e =
      let q : record { volume_id = id; capacity_bytes = k } ≡ m = ground (arith, e) in
      ap (λ x. x.capacity_bytes) (sym q)

  grown-Resized :
      (k : ℤ) (m : Metadata)
      → (grown id (pos n) k).0 ≡ ok m
      → (m.capacity_bytes ≡ pos n) × ((grown id (pos n) k).1 ≡ pos n)
  grown-Resized k m e = go (ltb_ℤ (pos n) k) (eqb_ℤ (pos n) k) refl e
    where
      go :
          (a b : Bool)
          → eqb_ℤ (pos n) k ≡ b
          → (picked a b k).0 ≡ ok m
          → (m.capacity_bytes ≡ pos n) × ((picked a b k).1 ≡ pos n)
      go true b q e = absurd (not_both m other e)
      go false true q e = let same = sym (eqb_ℤ→eq (pos n) k q) in (capacity_of k m e ∙ same, same)
      go false false q e = (capacity_of (pos n) m e, refl)

  resized-Resized :
      (o : Option ℤ) (m : Metadata) (s : Machine h)
      → align_up (pos n) ≡ pos n
      → shown d s id ≡ (resized id (pos n) o).1
      → (resized id (pos n) o).0 ≡ ok m
      → Resized d id n m s
  resized-Resized none m s a t e = absurd (not_both m absent e)
  resized-Resized (some k) m s a t e =
      let (c, g) = grown-Resized k m (rw a at e) in
      record { size = c; there = t ∙ rw a (ap some g) }

  resize-Resized :
      n % 4096 ≡ 0 → n ≤ max_int64 → Ensures (Resized d id n) (Manager.resize h root id (pos n))
  resize-Resized a u = record {
    at = λ s m e.
        let v = resize-valid s m e in
        elim (resize-Ends d id v (pos n) n s (align_up_aligned n a u)) [
          | breaks y x k f own ↦ absurd (not_both m y (sym k ∙ e))
          | goes k f o ↦
              resized-Resized (shown d s id) m (Manager.resize h root id (pos n) s).1
                (align_up_aligned n a u) o (sym k ∙ e)
        ];
  }

-- What a volume is after it was expanded: the store that its ID names, by what was on record before,
-- has an image of the size in the answer, a size that fits the range.
pub record Expanded {h : Host} (disks : (root : Text) → Disk h root) (required limit : ℕ)
    (id : Text) (n : ℤ) (s t : Machine h) : Type 0 where
  pub root : Text
  pub store_of : StoreOf id s root t
  pub size : ℕ
  pub capacity : n ≡ pos size
  pub image : shown (disks root) t id ≡ some (pos size)
  pub fits : Fits required limit size

module _ {h : Host} (disks : (root : Text) → Disk h root) (id : Text) where
  resized_in : Text → ℤ → M h ℤ
  resized_in root n = do
    meta ← wrap_err (Manager.resize h root id n) (to_status h internal)
    pure meta.capacity_bytes

  resized_in-Expanded :
      (required limit size : ℕ) (root : Text) (s t : Machine h) (b : ℤ)
      → Fits required limit size
      → size ≤ max_int64
      → StoreOf id s root t
      → (resized_in root (pos size) t).0 ≡ ok b
      → Expanded disks required limit id b s (resized_in root (pos size) t).1
  unfolding resized_in pure
  resized_in-Expanded required limit size root s t b f u r e =
      let m = wrap_err (Manager.resize h root id (pos size)) (to_status h internal) in
      let d = bind-Both m (λ meta. pure meta.capacity_bytes) t b e in
      let z =
        (Ensures-wrap_err _ _ (to_status h internal)
            (resize-Resized (disks root) id size f.aligned u)).at
          t d.value d.first in
      let q = (Quiet-wrap_err _ (to_status h internal) (resize-Quiet h root id (pos size))).at t in
      let same : d.value.capacity_bytes ≡ b = ground (arith, d.rest) in
      rw d.ends (record {
        root = root;
        store_of = record {
          store = r.store;
          named = r.named;
          config = r.config;
          configured = r.configured;
          stored = rw q.registry r.stored;
        };
        size = size;
        capacity = sym same ∙ z.size;
        image = z.there;
        fits = f;
      })

  module _ (required limit : ℕ) (room : required + 4095 ≤ max_int64)
      (low : limit + 4095 ≤ max_int64) where
    -- The part behind the check of the request.
    expanding : M h ℤ
    expanding = do
      size ← lift (aligned_capacity (range required limit))
      root ← store_for_volume_id h id
      resized_in root size

    expanding-Expanded :
        (n : ℤ) (s : Machine h)
        → (expanding s).0 ≡ ok n
        → Expanded disks required limit id n s (expanding s).1
    unfolding expanding lift
    expanding-Expanded n s e =
        let d = bind-Both (lift (aligned_capacity (range required limit))) _ s n e in
        let z = aligned_capacity-Sized required limit d.value room low d.first in
        let r = bind-Both (store_for_volume_id h id) (λ root. resized_in root d.value) s n d.rest in
        rw (d.ends ∙ r.ends) (
          rw z.is_size (
            resized_in-Expanded required limit z.size r.value s _ n z.fits z.small
              (store_for-StoreOf id s r.value r.first) (rw z.is_size at r.rest)))

    -- When the directories of the stores are as the system documents them, and the capacity range
    -- leaves room to round up in an int64: after a ControllerExpandVolume that succeeds, the store
    -- that the volume's ID names, by the configuration on record for it before the call, has an image
    -- for the ID, whose size is the capacity in the answer: a positive multiple of 4096 between the
    -- required bytes and the limit.
    pub controller_expand_volume-Expanded :
        (n : ℤ) (s : Machine h)
        → (controller_expand_volume h id (range required limit) s).0 ≡ ok n
        → Expanded disks required limit id n s
            (controller_expand_volume h id (range required limit) s).1
    unfolding controller_expand_volume expanding resized_in fail
    controller_expand_volume-Expanded n s e =
        elim (Bool-cases (is_empty id || leb_ℤ (required_of (range required limit)) (pos 0))) [
          | inl a ↦ absurd (refused (sym (rw (a, controller_expand_volume) refl) ∙ e))
          | inr a ↦
              rw (a, controller_expand_volume)
                (expanding-Expanded n s (rw (a, controller_expand_volume) at e))
        ]
      where
        refused : ◌≡◌ {A = Result Error ℤ} (err (status invalid_argument)) (ok n) → ⊥
        refused k = absurd (ground (arith, k))
