-- ===== src/Tests/Files.antt =====
-- A host whose files are kept by their paths, and its directories.
use fileblock_csi.Base.{
  List, ◌∷◌, All, ℕ, true, false, ◌≡◌, ◌≢◌, refl, ap, Option, none, some, Result, ok, err, [],
  arith, Bool-cases, inl, inr,
}
use fileblock_csi.Base.Int.{ℤ, pos, negsuc}
use fileblock_csi.Base.Text.{lit, Text, text_eq, text_eq→eq, text_eq_refl}
use fileblock_csi.Base.Dict.{Dict, lookup, insert, erase, lookup-insert, lookup-erase}
use fileblock_csi.Base.Path.{join_path}
use fileblock_csi.Base.Path.Entry.{IsEntry, join_path-entry_inj}
use fileblock_csi.Host.{Host, Error, absent, other, FileInfo, DirEntry}
use fileblock_csi.Image.Disk.{
  Disk, Says, Removes, Fault, stat_failed, truncate_failed, remove_failed, mkfs_failed,
}
use fileblock_csi.Tests.Hosts.{zero_hash}

abbrev answered : {A : Type 0} → A → Dict FileInfo → A × Dict FileInfo
answered a s = (a, s)

abbrev pub stat_of : Option FileInfo → Result Error FileInfo
stat_of none = err absent
stat_of (some i) = ok i

abbrev set_size : Text → ℤ → Dict FileInfo → Option Error × Dict FileInfo
set_size p (pos n) s = (none, insert p (record { size = pos n; is_dir = false }) s)
set_size p (negsuc n) s = (some other, s)

abbrev removal : Option FileInfo → Option Error
removal none = some absent
removal (some n) = none

-- What each directory lists.
abbrev pub entries : List DirEntry
entries =
    record { name = lit "lost+found"; is_dir = true }
    ∷ record { name = lit "v.img"; is_dir = false }
    ∷ record { name = lit "w.img"; is_dir = false }
    ∷ record { name = lit "notes"; is_dir = false }
    ∷ []

pub entries-IsEntry : All (λ e. IsEntry e.name) entries
unfolding text_eq
entries-IsEntry = (
  record { no_slash = refl; plain = refl; not_up = refl },
  (
    record { no_slash = refl; plain = refl; not_up = refl },
    (
      record { no_slash = refl; plain = refl; not_up = refl },
      (record { no_slash = refl; plain = refl; not_up = refl }, tt),
    ),
  ),
)

abbrev pub files : Host
files = record {
  State = Dict FileInfo;
  sha256 = zero_hash;
  page_size = 4096;
  run = λ c. answered ([], none);
  stat = λ p s. (stat_of (lookup p s), s);
  truncate = set_size;
  remove = λ p s. (removal (lookup p s), erase p s);
  make_dirs = λ p. answered none;
  read_dir = λ p. answered (ok entries);
  read_at = λ p off n. answered (ok []);
  write_file = λ p. answered none;
  read_text = λ p. answered (err absent);
  glob = λ p. answered (ok []);
  stat_fs = λ p. answered (err absent);
  in_time = answered true;
  decode_loops = λ t. some [];
  decode_sector_size = λ t. some (pos 4096);
  now = λ s. 0;
  list_pods = answered (ok []);
  delete_pod = λ ns n u. answered none;
  has_api = true;
  send_event = λ u. answered none;
}

abbrev pub size_in : Option FileInfo → Option ℤ
size_in none = none
size_in (some i) = some i.size

pub entry_differs :
    (root n m : Text)
    → IsEntry n
    → IsEntry m
    → n ≢ m
    → text_eq (join_path root n) (join_path root m) ≡ false
entry_differs root n m a b ne = elim (Bool-cases (text_eq (join_path root n) (join_path root m))) [
  | inl e ↦ absurd (ne (join_path-entry_inj root n m a b (text_eq→eq _ _ e)))
  | inr e ↦ e
]

pub stat_of-Says : (o : Option FileInfo) → Says (size_in o) (stat_of o)
stat_of-Says none = refl
stat_of-Says (some n) = refl

pub set_size-same :
    (p : Text) (n : ℕ) (s : Dict FileInfo)
    → size_in (lookup p (set_size p (pos n) s).1) ≡ some (pos n)
set_size-same p n s =
    rw (lookup-insert p p (record { size = pos n; is_dir = false }) s, text_eq_refl p) refl

pub set_size-other :
    (p q : Text) (n : ℤ) (s : Dict FileInfo)
    → text_eq p q ≡ false
    → lookup q (set_size p n s).1 ≡ lookup q s
set_size-other p q (pos n) s e =
    rw (lookup-insert p q (record { size = pos n; is_dir = false }) s, e) refl
set_size-other p q (negsuc n) s e = refl

pub erase-Removes :
    (p : Text) (s : Dict FileInfo)
    → Removes (removal (lookup p s)) (size_in (lookup p s)) (size_in (lookup p (erase p s)))
erase-Removes p s = rw (lookup-erase p p s, text_eq_refl p) (go (lookup p s))
  where
    go : (o : Option FileInfo) → Removes (removal o) (size_in o) none
    go none = (refl, refl)
    go (some n) = refl

pub erase-other :
    (p q : Text) (s : Dict FileInfo) → text_eq p q ≡ false → lookup q (erase p s) ≡ lookup q s
erase-other p q s e = rw (lookup-erase p q s, e) refl

pub listed-IsEntry :
    (es : List DirEntry)
    → ◌≡◌ {A = Result Error (List DirEntry)} (ok entries) (ok es)
    → All (λ e. IsEntry e.name) es
listed-IsEntry es e = let q : entries ≡ es = ground (arith, e) in rw (← q) entries-IsEntry

unfoldable pub files_disk : (root : Text) → Disk files root
files_disk root = record {
  size_of = λ s n. size_in (lookup (join_path root n) s);
  stat_says = λ n s e. stat_of-Says (lookup (join_path root n) s);
  stat_keeps = λ n m s. refl;
  truncate_sets = λ n size s e. set_size-same (join_path root n) size s;
  truncate_keeps =
      λ n m size s a b ne. ap size_in (set_size-other _ _ size s (entry_differs root n m a b ne));
  remove_unlinks = λ n s e. erase-Removes (join_path root n) s;
  remove_keeps = λ n m s a b ne. ap size_in (erase-other _ _ s (entry_differs root n m a b ne));
  mkfs_keeps = λ n m s. refl;
  read_keeps = λ m s. refl;
  read_names = λ s es e. listed-IsEntry es e;
}

stat_of-absent : (o : Option FileInfo) (e : Error) → stat_of o ≡ err e → e ≡ absent
stat_of-absent none e k = ground (arith, k)
stat_of-absent (some n) e k = absurd (ground (arith, k))

removal-absent : (o : Option FileInfo) (e : Error) → removal o ≡ some e → e ≡ absent
removal-absent none e k = ground (arith, k)
removal-absent (some n) e k = absurd (ground (arith, k))

pub files_work : (e : Error) → ¬ Fault files e
files_work e (stat_failed p s k ne) = ne (stat_of-absent (lookup p s) e k)
files_work e (truncate_failed p n s k) = absurd (ground (arith, k))
files_work e (remove_failed p s k ne) = ne (removal-absent (lookup p s) e k)
files_work e (mkfs_failed p out s k) = absurd (ground (arith, k))
