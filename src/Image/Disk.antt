-- ===== src/Image/Disk.antt =====
-- The directory of a backing store: what os.Stat, os.Remove, ftruncate and mkfs.ext4 document for the
-- files in it. A file is no hard link to another, and nothing else writes to the directory.
use fileblock_csi.Base.{
  ℕ, ◌≡◌, ◌≢◌, ◌⊎◌, Option, none, some, Result, ok, err, List, [], ◌∷◌, ◌++◌, All,
}
use fileblock_csi.Base.Int.{ℤ, pos}
use fileblock_csi.Base.Text.{Text, lit}
use fileblock_csi.Base.Path.{join_path}
use fileblock_csi.Base.Path.Entry.{IsEntry}
use fileblock_csi.Host.{Host, Cmd, Error, absent, FileInfo, DirEntry}
use fileblock_csi.Machine.{Machine}
use fileblock_csi.Image.Manager.{image_ext}
use fileblock_csi.Image.Volumes.{Volumes}

-- An answer to stat is the file's size, or says that there is no file, or is an error of another
-- kind.
abbrev pub Says : Option ℤ → Result Error FileInfo → Type 0
Says o (ok info) = o ≡ some info.size
Says o (err absent) = o ≡ none
Says o (err e) = Unit

-- What truncate makes of a file. It makes a file that is not there, with no bytes, before it sets
-- the size.
abbrev pub Truncates : ℕ → Option Error → Option ℤ → Option ℤ → Type 0
Truncates n none before after = after ≡ some (pos n)
Truncates n (some e) before after = (after ≡ before) ⊎ ((before ≡ none) × (after ≡ some (pos 0)))

abbrev pub Removes : Option Error → Option ℤ → Option ℤ → Type 0
Removes none before after = after ≡ none
Removes (some absent) before after = (before ≡ none) × (after ≡ none)
Removes (some e) before after = after ≡ before

abbrev pub mkfs_cmd : Text → Cmd
mkfs_cmd target = record {
  name = lit "mkfs.ext4";
  args =
      lit "-q"
      ∷ lit "-F"
      ∷ lit "-b"
      ∷ lit "4096"
      ∷ lit "-m"
      ∷ lit "0"
      ∷ lit "-E"
      ∷ lit "lazy_itable_init=1,lazy_journal_init=1"
      ∷ target
      ∷ [];
  env = [];
  secrets = [];
}

-- `size_of` is the apparent size of the file with a name, `none` where there is no such file.
pub record Disk (h : Host) (root : Text) : Type 0 where
  pub size_of : h.State → Text → Option ℤ
  pub stat_says :
      (n : Text) (s : h.State) → IsEntry n → Says (size_of s n) (h.stat (join_path root n) s).0
  pub stat_keeps :
      (n m : Text) (s : h.State) → size_of (h.stat (join_path root n) s).1 m ≡ size_of s m
  pub truncate_sets :
      (n : Text) (size : ℕ) (s : h.State)
      → IsEntry n
      → Truncates size
          (h.truncate (join_path root n) (pos size) s).0
          (size_of s n)
          (size_of (h.truncate (join_path root n) (pos size) s).1 n)
  pub truncate_keeps :
      (n m : Text) (size : ℤ) (s : h.State)
      → IsEntry n
      → IsEntry m
      → n ≢ m
      → size_of (h.truncate (join_path root n) size s).1 m ≡ size_of s m
  pub remove_unlinks :
      (n : Text) (s : h.State)
      → IsEntry n
      → Removes
          (h.remove (join_path root n) s).0
          (size_of s n)
          (size_of (h.remove (join_path root n) s).1 n)
  pub remove_keeps :
      (n m : Text) (s : h.State)
      → IsEntry n
      → IsEntry m
      → n ≢ m
      → size_of (h.remove (join_path root n) s).1 m ≡ size_of s m
  -- mkfs.ext4 writes inside the file.
  pub mkfs_keeps :
      (n m : Text) (s : h.State) → size_of (h.run (mkfs_cmd (join_path root n)) s).1 m ≡ size_of s m
  pub read_keeps : (m : Text) (s : h.State) → size_of (h.read_dir root s).1 m ≡ size_of s m
  -- What a directory lists are names in it, without "." and "..".
  pub read_names :
      (s : h.State) (es : List DirEntry)
      → (h.read_dir root s).0 ≡ ok es
      → All (λ e. IsEntry e.name) es

-- A call that failed with an error for a reason of its own: an I/O error, no space, no permission.
pub data Fault (h : Host) (e : Error) : Type 0 where
  stat_failed : (p : Text) (s : h.State) → (h.stat p s).0 ≡ err e → e ≢ absent → Fault h e
  truncate_failed :
      (p : Text) (n : ℕ) (s : h.State) → (h.truncate p (pos n) s).0 ≡ some e → Fault h e
  remove_failed : (p : Text) (s : h.State) → (h.remove p s).0 ≡ some e → e ≢ absent → Fault h e
  mkfs_failed : (p out : Text) (s : h.State) → (h.run (mkfs_cmd p) s).0 ≡ (out, some e) → Fault h e

module _ {h : Host} {root : Text} (d : Disk h root) where
  -- The abstract store that the directory shows.
  abbrev pub shown : Machine h → Volumes
  shown s id = d.size_of s.sys (id ++ image_ext)
