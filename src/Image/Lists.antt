-- ===== src/Image/Lists.antt =====
-- pkg/image/image.go, List: the volumes that it finds in a directory.
use mathlib.Core.Path.{fun_ext}
use mathlib.Core.List.{Memᴰ}
use fileblock_csi.Base.{
  not, ◌||◌, ◌≡◌, refl, ap, ◌∙◌, ◌↔◌, inl, inr, Bool-cases, some, Result, ok, err, List, [], ◌∷◌,
  All, arith,
}
use fileblock_csi.Base.Int.{ℤ}
use fileblock_csi.Base.Text.{Text, has_suffix}
use fileblock_csi.Base.Path.{join_path}
use fileblock_csi.Base.Path.Entry.{IsEntry}
use fileblock_csi.Host.{Host, Error, absent, FileInfo, DirEntry}
use fileblock_csi.Machine.{M, Machine, pure, attempt, stat, read_dir, ◌>>=◌}
use fileblock_csi.Image.Manager
use fileblock_csi.Image.Manager.{Metadata, image_ext, trim_ext, list_entries, list}
use fileblock_csi.Image.Disk.{Disk, Says, Fault, stat_failed, shown}
use fileblock_csi.Image.Entries.{
  found_at, volumes_in, file_of, volume_of, volumes_in-file, file-volumes_in,
}

module _ {h : Host} {root : Text} (d : Disk h root) (works : (e : Error) → ¬ Fault h e) where
  listed-found_at :
      (name : Text) (s : Machine h) (metas : List Metadata)
      → IsEntry name
      → Manager.listed h root name (h.stat (join_path root name) s.sys).0 metas
        ≡ found_at name (d.size_of s.sys name) metas
  listed-found_at name s metas e =
      go (h.stat (join_path root name) s.sys).0 refl (d.stat_says name s.sys e)
    where
      go :
          (r : Result Error FileInfo)
          → (h.stat (join_path root name) s.sys).0 ≡ r
          → Says (d.size_of s.sys name) r
          → Manager.listed h root name r metas ≡ found_at name (d.size_of s.sys name) metas
      go (ok info) k says = rw says refl
      go (err absent) k says = rw says refl
      go (err x) k says =
          absurd (works x (stat_failed (join_path root name) s.sys k (λ z. ground (arith, z))))

  -- One entry, and what comes behind it.
  entry-found_at :
      (name : Text) (rest : M h (List Metadata)) (s : Machine h) (ms : List Metadata)
      → IsEntry name
      → (rest (stat h (join_path root name) s).1).0 ≡ ok ms
      → ((do
        info ← attempt (stat h (join_path root name))
        metas ← rest
        pure (Manager.listed h root name info metas))
          s).0
        ≡ ok (found_at name (d.size_of s.sys name) ms)
  unfolding ◌>>=◌ pure attempt stat
  entry-found_at name rest s ms e k = rw k (ap ok (listed-found_at name s ms e))

  stat-sizes :
      (name : Text) (s : Machine h)
      → d.size_of (stat h (join_path root name) s).1.sys ≡ d.size_of s.sys
  unfolding stat
  stat-sizes name s = fun_ext (λ m. d.stat_keeps name m s.sys)

  list_entries-volumes_in :
      (es : List DirEntry) (s : Machine h)
      → All (λ e. IsEntry e.name) es
      → (list_entries h root es s).0 ≡ ok (volumes_in (d.size_of s.sys) es)
  unfolding list_entries volumes_in pure
  list_entries-volumes_in [] s a = refl
  list_entries-volumes_in (e ∷ es) s (a, rest) =
      elim (Bool-cases (e.is_dir || not (has_suffix e.name image_ext))) [
        | inl c ↦ rw (c, list_entries) (list_entries-volumes_in es s rest)
        | inr c ↦
            rw (c, list_entries)
              (entry-found_at e.name (list_entries h root es) s (volumes_in (d.size_of s.sys) es) a
                (list_entries-volumes_in es (stat h (join_path root e.name) s).1 rest
                  ∙ ap (λ f. ok (volumes_in f es)) (stat-sizes e.name s)))
      ]

  list-volumes_in :
      (s : Machine h) (es : List DirEntry)
      → (h.read_dir root s.sys).0 ≡ ok es
      → (list h root s).0 ≡ ok (volumes_in (d.size_of s.sys) es)
  unfolding list ◌>>=◌ read_dir
  list-volumes_in s es k = rw k (
      list_entries-volumes_in es (read_dir h root s).1 (d.read_names s.sys es k)
      ∙ ap (λ f. ok (volumes_in f es)) (fun_ext (λ m. d.read_keeps m s.sys)))

  -- Where no system call fails, List answers exactly the volumes whose image the directory lists as a
  -- file, each with the size of that file, when the directory is as the system documents it.
  pub list-volumes :
      (s : Machine h) (es : List DirEntry)
      → (h.read_dir root s.sys).0 ≡ ok es
      → (ms : List Metadata) × ((list h root s).0 ≡ ok ms)
        × ((id : Text) (n : ℤ)
            → Memᴰ (volume_of id n) ms ↔ (Memᴰ (file_of id) es × (shown d s id ≡ some n)))
  list-volumes s es k = (
    volumes_in (d.size_of s.sys) es,
    list-volumes_in s es k,
    λ id n. (
      volumes_in-file (d.size_of s.sys) id n es,
      λ m. file-volumes_in (d.size_of s.sys) id n es m.1 m.0,
    ),
  )
