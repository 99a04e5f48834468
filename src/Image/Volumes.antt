-- ===== src/Image/Volumes.antt =====
-- pkg/image/image.go, Manager: what the interface promises, as a store that maps the ID of a volume
-- to its size. Directories, paths, calls and their errors are left out.
use fileblock_csi.Base.{
  ℕ, Bool, not, ◌&&◌, ◌≡◌, Option, none, some, Result, ok, err, List, [], ◌∷◌, if◌then◌else◌,
}
use fileblock_csi.Base.Int.{ℤ, pos, eqb_ℤ, leb_ℤ, ltb_ℤ}
use fileblock_csi.Base.Text.{Text, text_eq}
use fileblock_csi.Host.{Host, Error, absent, other, capacity_mismatch}
use fileblock_csi.Machine.{M, Machine, pure, ◌>>=◌, ◌>>◌}
use fileblock_csi.Image.Align.{align_up}
use fileblock_csi.Image.Manager.{Metadata, is_valid_id, create, delete, get, resize}

abbrev pub Volumes : Type 0
Volumes = Text → Option ℤ

-- The store with another size, or none, for one volume.
abbrev pub put : Text → Option ℤ → Volumes → Volumes
put id o v j = if text_eq id j then o else v j

-- The calls of the interface that are about one volume.
pub data Request : Type 0 where
  create_of : Text → ℤ → Bool → Request
  delete_of get_of : Text → Request
  resize_of : Text → ℤ → Request

abbrev pub id_of : Request → Text
id_of (create_of id n b) = id
id_of (delete_of id) = id
id_of (get_of id) = id
id_of (resize_of id n) = id

-- Rounding the capacity that is asked for does not wrap around.
abbrev pub Fits : Request → Type 0
Fits (create_of id n b) = (m : ℕ) × (align_up n ≡ pos m)
Fits (delete_of id) = Unit
Fits (get_of id) = Unit
Fits (resize_of id n) = (m : ℕ) × (align_up n ≡ pos m)

-- What Create, Get and Resize answer for a size that the volume has, and the size that it has
-- afterwards.
abbrev pub sized : Text → ℤ → Result Error Metadata
sized id n = ok (record { volume_id = id; capacity_bytes = n })

abbrev pub adopted : Text → ℤ → ℤ → Result Error Metadata
adopted id n m =
    if not (eqb_ℤ m (align_up n)) && not (eqb_ℤ m n)
    then err (capacity_mismatch n m)
    else sized id m

abbrev pub created : Text → ℤ → Option ℤ → Result Error Metadata × Option ℤ
created id n none = (sized id (align_up n), some (align_up n))
created id n (some m) = (adopted id n m, some m)

abbrev pub made : Text → ℤ → Option ℤ → Result Error Metadata × Option ℤ
made id n o = if leb_ℤ n (pos 0) then (err other, o) else created id n o

abbrev pub found : Text → Option ℤ → Result Error Metadata
found id none = err absent
found id (some m) = sized id m

abbrev pub grown : Text → ℤ → ℤ → Result Error Metadata × ℤ
grown id n m =
    if ltb_ℤ n m then (err other, m) else if eqb_ℤ n m then (sized id m, m) else (sized id n, n)

abbrev pub resized : Text → ℤ → Option ℤ → Result Error Metadata × Option ℤ
resized id n none = (err absent, none)
resized id n (some m) = let (r, m') = grown id (align_up n) m in (r, some m')

abbrev pub Answer : Type 0
Answer = Result Error (Option Metadata)

abbrev pub answered : {A : Type 0} → (A → Option Metadata) → Result Error A → Answer
answered g (ok a) = ok (g a)
answered g (err e) = err e

abbrev pub asked : Request → Option ℤ → Answer × Option ℤ
asked (create_of id n b) o = let (r, o') = made id n o in (answered some r, o')
asked (delete_of id) o = (ok none, none)
asked (get_of id) o = (answered some (found id o), o)
asked (resize_of id n) o = let (r, o') = resized id n o in (answered some r, o')

-- The answer to a request and the size that the volume has afterwards; bad IDs are refused.
abbrev pub outcome : Request → Option ℤ → Answer × Option ℤ
outcome q o = if is_valid_id (id_of q) then asked q o else (err other, o)

abbrev pub answer : Request → Volumes → Answer
answer q v = (outcome q (v (id_of q))).0

abbrev pub after : Request → Volumes → Volumes
after q v = put (id_of q) (outcome q (v (id_of q))).1 v

-- A sequence of requests.
abbrev pub answers : List Request → Volumes → List Answer
answers [] v = []
answers (q ∷ qs) v = answer q v ∷ answers qs (after q v)

abbrev pub after_all : List Request → Volumes → Volumes
after_all [] v = v
after_all (q ∷ qs) v = after_all qs (after q v)

-- The same requests on the image files.
module _ (h : Host) (root : Text) where
  unfoldable pub serve : Request → M h (Option Metadata)
  unfolding create delete get resize
  serve (create_of id n b) = do m ← create h root id n b; pure (some m)
  serve (delete_of id) = do delete h root id; pure none
  serve (get_of id) = do m ← get h root id; pure (some m)
  serve (resize_of id n) = do m ← resize h root id n; pure (some m)

  -- The answers, and the state at the end; an error does not keep the next request from being made.
  unfoldable pub serve_all : List Request → Machine h → List Answer × Machine h
  unfolding serve
  serve_all [] s = ([], s)
  serve_all (q ∷ qs) s =
      let (a, s') = serve q s in let (rest, s'') = serve_all qs s' in (a ∷ rest, s'')
