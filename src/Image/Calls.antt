-- ===== src/Image/Calls.antt =====
-- pkg/image/image.go: the calls that an operation makes on a volume, on a directory as the system
-- documents it.
use mathlib.Core.Path.{fun_ext}
use fileblock_csi.Base.{
  ℕ, true, ◌≡◌, ◌≢◌, refl, ◌∙◌, ◌⊎◌, inl, inr, Option, none, some, Result, ok, err, ◌++◌,
}
use fileblock_csi.Base.Int.{ℤ, pos}
use fileblock_csi.Base.Text.{Text, lit}
use fileblock_csi.Base.Path.{join_path}
use fileblock_csi.Host.{Host, Error, absent}
use fileblock_csi.Machine.{Machine, Done, ◌>>=◌, pure, run, run_cmd, stat, truncate, remove}
use fileblock_csi.Image.Fs.{mkfs}
use fileblock_csi.Image.Manager.{image_ext, is_valid_id, image_path}
use fileblock_csi.Image.Names.{image-IsEntry, json-IsEntry, image_ne, json-ne-image}
use fileblock_csi.Image.Volumes.{Volumes}
use fileblock_csi.Image.Disk.{Disk, Fault, mkfs_failed, Says, stat_failed, shown, mkfs_cmd}

output-cases :
    (r : Text × Option Error)
    → ((out : Text) × (r ≡ (out, none))) ⊎ ((out : Text) × (e : Error) × (r ≡ (out, some e)))
output-cases (out, none) = inl (out, refl)
output-cases (out, some e) = inr (out, e, refl)

-- The other volumes are as they were.
abbrev pub Others : Text → Volumes → Volumes → Type 0
Others id v v' = (j : Text) → is_valid_id j ≡ true → id ≢ j → v' j ≡ v j

-- An operation on a volume ends as it should, or a call failed: then it returns such an error, and a
-- volume that was there still has its size.
pub data Ends (h : Host) {A : Type 0} (id : Text) (v : Volumes) (a : Result Error A) (o : Option ℤ)
    (r : Result Error A) (v' : Volumes) : Type 0 where
  goes : r ≡ a → Others id v v' → v' id ≡ o → Ends h id v a o r v'
  breaks :
      (e : Error)
      → Fault h e
      → r ≡ err e
      → Others id v v'
      → ((m : ℤ) → v id ≡ some m → v' id ≡ some m)
      → Ends h id v a o r v'

module _ {h : Host} {root : Text} (d : Disk h root) (id : Text) (v : is_valid_id id ≡ true) where
  pub truncate-Others :
      (n : ℤ) (s : Machine h)
      → Others id (shown d s) (shown d (truncate h (image_path root id) n s).1)
  unfolding image_path truncate
  truncate-Others n s j w ne =
      d.truncate_keeps (id ++ image_ext) (j ++ image_ext) n s.sys (image-IsEntry id v)
        (image-IsEntry j w) (image_ne id j ne)

  pub truncate_sized :
      (n : ℕ) (s : Machine h)
      → (h.truncate (image_path root id) (pos n) s.sys).0 ≡ none
      → shown d (truncate h (image_path root id) (pos n) s).1 id ≡ some (pos n)
  unfolding image_path truncate
  truncate_sized n s k =
      let t = d.truncate_sets (id ++ image_ext) n s.sys (image-IsEntry id v) in rw k at t

  pub remove-Others :
      (s : Machine h) → Others id (shown d s) (shown d (remove h (image_path root id) s).1)
  unfolding image_path remove
  remove-Others s j w ne =
      d.remove_keeps (id ++ image_ext) (j ++ image_ext) s.sys (image-IsEntry id v)
        (image-IsEntry j w) (image_ne id j ne)

  pub json-Others :
      (s : Machine h) (j : Text)
      → is_valid_id j ≡ true
      → shown d (remove h (join_path root (id ++ lit ".json")) s).1 j ≡ shown d s j
  unfolding remove
  json-Others s j w =
      d.remove_keeps (id ++ lit ".json") (j ++ image_ext) s.sys (json-IsEntry id v)
        (image-IsEntry j w) (json-ne-image id j)

  -- mkfs.ext4 succeeds or failed, and changes no size.
  pub record Makes (s s' : Machine h) (r : Result Error Done) : Type 0 where
    pub verdict : (r ≡ ok tt) ⊎ ((e : Error) × Fault h e × (r ≡ err e))
    pub same : (j : Text) → shown d s' j ≡ shown d s j

  pub mkfs-Makes :
      (s : Machine h) → Makes s (mkfs h (image_path root id) s).1 (mkfs h (image_path root id) s).0
  unfolding image_path mkfs run run_cmd ◌>>=◌ pure
  mkfs-Makes s = elim (output-cases (h.run (mkfs_cmd (image_path root id)) s.sys).0) [
    | inl (out, e) ↦
        rw (e, mkfs)
          (record {
            verdict = inl refl;
            same = λ j. d.mkfs_keeps (id ++ image_ext) (j ++ image_ext) s.sys;
          })
    | inr (out, x, e) ↦
        rw (e, mkfs)
          (record {
            verdict = inr (x, mkfs_failed (image_path root id) out s.sys e, refl);
            same = λ j. d.mkfs_keeps (id ++ image_ext) (j ++ image_ext) s.sys;
          })
  ]

  pub Others-then :
      {u w x : Volumes}
      → Others id u w
      → ((j : Text) → is_valid_id j ≡ true → id ≢ j → x j ≡ w j)
      → Others id u x
  Others-then f g j w ne = g j w ne ∙ f j w ne

  pub stat-shown : (s : Machine h) → shown d (stat h (image_path root id) s).1 ≡ shown d s
  unfolding image_path stat
  stat-shown s = fun_ext (λ j. d.stat_keeps (id ++ image_ext) (j ++ image_ext) s.sys)

  pub stat-Says : (s : Machine h) → Says (shown d s id) (stat h (image_path root id) s).0
  unfolding image_path stat
  stat-Says s = d.stat_says (id ++ image_ext) s.sys (image-IsEntry id v)

  pub stat-Fault :
      (s : Machine h) (e : Error)
      → (stat h (image_path root id) s).0 ≡ err e
      → e ≢ absent
      → Fault h e
  unfolding stat
  stat-Fault s e k ne = stat_failed (image_path root id) s.sys k ne

  abbrev pub EndsFrom :
      {A : Type 0} → Machine h → Result Error A → Option ℤ → Result Error A × Machine h → Type 0
  EndsFrom s a o (r, s') = Ends h id (shown d s) a o r (shown d s')
