-- ===== src/Tests/Full.antt =====
-- pkg/image: a backing store on which no size can be set.
use fileblock_csi.Base.{ℕ, false, ◌≡◌, refl, ap, inl, inr, Option, none, some, err, [], arith}
use fileblock_csi.Base.Int.{pos}
use fileblock_csi.Base.Text.{Text, lit, text_eq, text_eq_refl}
use fileblock_csi.Base.Dict.{Dict, lookup, insert, lookup-insert}
use fileblock_csi.Base.Path.{join_path}
use fileblock_csi.Host.{Host, io, FileInfo, capacity_mismatch}
use fileblock_csi.Machine.{Machine, ◌>>=◌, stat, truncate}
use fileblock_csi.Image.Manager.{create}
use fileblock_csi.Image.Disk.{Disk, Truncates, shown}
use fileblock_csi.Image.Leftover.{create-leaves_empty}
use fileblock_csi.Tests.Files.{files, files_disk, size_in, entry_differs}

abbrev no_bytes : FileInfo
no_bytes = record { size = pos 0; is_dir = false }

-- The file is made if it is not there.
abbrev made_at : Text → Option FileInfo → Dict FileInfo → Dict FileInfo
made_at p none s = insert p no_bytes s
made_at p (some i) s = s

abbrev full : Host
full = record files { truncate = λ p n s. (some io, made_at p (lookup p s) s) }

made_at-Truncates :
    (p : Text) (n : ℕ) (s : Dict FileInfo)
    → Truncates n (some io) (size_in (lookup p s)) (size_in (lookup p (made_at p (lookup p s) s)))
made_at-Truncates p n s = go (lookup p s) refl
  where
    go :
        (o : Option FileInfo)
        → lookup p s ≡ o
        → Truncates n (some io) (size_in o) (size_in (lookup p (made_at p o s)))
    go none e = inr (refl, rw (lookup-insert p p no_bytes s, text_eq_refl p) refl)
    go (some i) e = inl (ap size_in e)

made_at-other :
    (p q : Text) (o : Option FileInfo) (s : Dict FileInfo)
    → text_eq p q ≡ false
    → lookup q (made_at p o s) ≡ lookup q s
made_at-other p q none s e = rw (lookup-insert p q no_bytes s, e) refl
made_at-other p q (some i) s e = refl

full_disk : (root : Text) → Disk full root
unfolding files_disk
full_disk root =
    let d = files_disk root in
    record {
      size_of = d.size_of;
      stat_says = d.stat_says;
      stat_keeps = d.stat_keeps;
      truncate_sets = λ n size s e. made_at-Truncates (join_path root n) size s;
      truncate_keeps = λ n m size s a b ne. ap size_in (
          made_at-other (join_path root n) (join_path root m) (lookup (join_path root n) s) s
            (entry_differs root n m a b ne));
      remove_unlinks = d.remove_unlinks;
      remove_keeps = d.remove_keeps;
      mkfs_keeps = d.mkfs_keeps;
      read_keeps = d.read_keeps;
      read_names = d.read_names;
    }

abbrev empty_store : Machine full
empty_store = record {
  sys = [];
  log = [];
  registry = record {
    root = lit "/stores";
    mounted = [];
    stores = [];
    configs = [];
    checking = [];
  };
  entries = [];
  failures = record { failed = []; held = [] };
  keys = [];
}

abbrev once : Machine full
once = (create full (lit "/stores/a") (lit "v") (pos 5000) false empty_store).1

create-leaves_empty_example :
    ((create full (lit "/stores/a") (lit "v") (pos 5000) false empty_store).0 ≡ err io)
    × (shown (full_disk (lit "/stores/a")) once (lit "v") ≡ some (pos 0))
    × ((create full (lit "/stores/a") (lit "v") (pos 5000) false once).0
        ≡ err (capacity_mismatch (pos 5000) (pos 0)))
unfolding full_disk files_disk create ◌>>=◌ stat truncate lookup insert
create-leaves_empty_example =
    create-leaves_empty (full_disk (lit "/stores/a")) (lit "v") refl 5000 false (omega arith)
      (omega arith) empty_store io no_bytes refl refl refl refl
