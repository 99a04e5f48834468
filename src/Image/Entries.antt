-- ===== src/Image/Entries.antt =====
-- pkg/image/image.go, List: which entries of a directory are images, and of which volumes.
use mathlib.Core.List.{Memᴰ}
use mathlib.Core.List.Memᴰ.{head, tail}
use fileblock_csi.Base.{
  ◌-◌, Bool, true, false, not, ◌||◌, ◌≡◌, refl, ap, sym, ◌∙◌, ◌⊎◌, inl, inr, Bool-cases, Option,
  none, some, List, [], ◌∷◌, ◌++◌, length, length-append, take, if◌then◌else◌, arith,
}
use fileblock_csi.Base.Int.{ℤ}
use fileblock_csi.Base.Text.{Text, text_eq, text_eq→eq, text_eq_refl, has_suffix}
use fileblock_csi.Host.{DirEntry}
use fileblock_csi.Image.Manager.{Metadata, image_ext, trim_ext}

-- The sizes of the files of a directory, by their names.
abbrev pub Sizes : Type 0
Sizes = Text → Option ℤ

abbrev pub found_at : Text → Option ℤ → List Metadata → List Metadata
found_at name none rest = rest
found_at name (some n) rest = record { volume_id = trim_ext name; capacity_bytes = n } ∷ rest

-- The volumes of the entries that are there.
unfoldable pub volumes_in : Sizes → List DirEntry → List Metadata
unfolding has_suffix
volumes_in f [] = []
volumes_in f (e ∷ es) =
    let rest = volumes_in f es in
    if e.is_dir || not (has_suffix e.name image_ext) then rest else found_at e.name (f e.name) rest

take-append : (p t : Text) → take (length p) (p ++ t) ≡ p
take-append [] t = refl
take-append (c ∷ p) t = ap (◌∷◌ c) (take-append p t)

trim_ext-image : (id : Text) → trim_ext (id ++ image_ext) ≡ id
trim_ext-image id =
    let q : length (id ++ image_ext) - 4 ≡ length id = omega (arith, length-append id image_ext) in
    rw q (take-append id image_ext)

suffix-append : (s t : Text) → has_suffix s t ≡ true → (p : Text) × (s ≡ p ++ t)
unfolding has_suffix
suffix-append [] t h = ([], text_eq→eq [] t h)
suffix-append (c ∷ s) t h = elim (Bool-cases (text_eq (c ∷ s) t)) [
  | inl e ↦ ([], text_eq→eq (c ∷ s) t e)
  | inr e ↦ let (p, q) = suffix-append s t (ground (arith, e)) in (c ∷ p, ap (◌∷◌ c) q)
]

has_suffix-append : (p t : Text) → has_suffix (p ++ t) t ≡ true
unfolding has_suffix
has_suffix-append [] [] = text_eq_refl []
has_suffix-append [] (c ∷ t) = rw (text_eq_refl (c ∷ t)) refl
has_suffix-append (c ∷ p) t = ground (arith, has_suffix-append p t)

-- The entry of a volume's image.
abbrev pub file_of : Text → DirEntry
file_of id = record { name = id ++ image_ext; is_dir = false }

abbrev pub volume_of : Text → ℤ → Metadata
volume_of id n = record { volume_id = id; capacity_bytes = n }

abbrev pub passed : DirEntry → Bool
passed e = e.is_dir || not (has_suffix e.name image_ext)

-- An entry that is not passed over is that of an image.
unpassed : (e : DirEntry) → passed e ≡ false → e ≡ file_of (trim_ext e.name)
unpassed e h =
    let dir : e.is_dir ≡ false = ground (arith, h) in
    let (p, q) = suffix-append e.name image_ext (ground (arith, h)) in
    let named : e.name ≡ trim_ext e.name ++ image_ext =
      rw q (ap (λ s. s ++ image_ext) (sym (trim_ext-image p))) in
    λ i. record { name = named i; is_dir = dir i }

passed_file : (id : Text) → passed (file_of id) ≡ false
passed_file id = rw (has_suffix-append id image_ext) refl

module _ (f : Sizes) (id : Text) (n : ℤ) where
  found_at-volume :
      (name : Text) (o : Option ℤ) (rest : List Metadata)
      → Memᴰ (volume_of id n) (found_at name o rest)
      → ((id ≡ trim_ext name) × (o ≡ some n)) ⊎ Memᴰ (volume_of id n) rest
  found_at-volume name none rest m = inr m
  found_at-volume name (some k) rest (head e) =
      inl (ap (λ v. v.volume_id) e, ap (λ v. some v.capacity_bytes) (sym e))
  found_at-volume name (some k) rest (tail m) = inr m

  found_at-keeps :
      (name : Text) (o : Option ℤ) (rest : List Metadata)
      → Memᴰ (volume_of id n) rest
      → Memᴰ (volume_of id n) (found_at name o rest)
  found_at-keeps name none rest m = m
  found_at-keeps name (some k) rest m = tail m

  pub volumes_in-file :
      (es : List DirEntry)
      → Memᴰ (volume_of id n) (volumes_in f es)
      → Memᴰ (file_of id) es × (f (id ++ image_ext) ≡ some n)
  unfolding volumes_in
  volumes_in-file [] m = elim m [ ]
  volumes_in-file (e ∷ es) m = go (passed e) refl (λ m. volumes_in-file es m) m
    where
      rest :
          Memᴰ (file_of id) es × (f (id ++ image_ext) ≡ some n)
          → Memᴰ (file_of id) (e ∷ es) × (f (id ++ image_ext) ≡ some n)
      rest (m, k) = (tail m, k)

      here :
          passed e ≡ false
          → id ≡ trim_ext e.name
          → f e.name ≡ some n
          → Memᴰ (file_of id) (e ∷ es) × (f (id ++ image_ext) ≡ some n)
      here c i k =
          let q : file_of id ≡ e = ap file_of i ∙ sym (unpassed e c) in
          (head q, ap (λ x. f x.name) q ∙ k)

      go :
          (b : Bool)
          → passed e ≡ b
          → (Memᴰ (volume_of id n) (volumes_in f es)
              → Memᴰ (file_of id) es × (f (id ++ image_ext) ≡ some n))
          → Memᴰ
              (volume_of id n)
              (if b then volumes_in f es else found_at e.name (f e.name) (volumes_in f es))
          → Memᴰ (file_of id) (e ∷ es) × (f (id ++ image_ext) ≡ some n)
      go true c r m = rest (r m)
      go false c r m = elim (found_at-volume e.name (f e.name) (volumes_in f es) m) [
        | inl (i, k) ↦ here c i k
        | inr m ↦ rest (r m)
      ]

  pub file-volumes_in :
      (es : List DirEntry)
      → f (id ++ image_ext) ≡ some n
      → Memᴰ (file_of id) es
      → Memᴰ (volume_of id n) (volumes_in f es)
  unfolding volumes_in
  file-volumes_in [] k m = elim m [ ]
  file-volumes_in (e ∷ es) k (head q) =
      rw (← q) (rw (passed_file id, k) (head (ap (λ i. volume_of i n) (sym (trim_ext-image id)))))
  file-volumes_in (e ∷ es) k (tail m) = go (passed e) (file-volumes_in es k m)
    where
      go :
          (b : Bool)
          → Memᴰ (volume_of id n) (volumes_in f es)
          → Memᴰ
              (volume_of id n)
              (if b then volumes_in f es else found_at e.name (f e.name) (volumes_in f es))
      go true m = m
      go false m = found_at-keeps e.name (f e.name) (volumes_in f es) m
