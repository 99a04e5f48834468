-- ===== src/Mount/Info.antt =====
-- pkg/mount/mountinfo.go: the rows of /proc/<pid>/mountinfo.
use fileblock_csi.Base.{
  ℕ, suc, zero, ◌+◌, ◌*◌, ◌-◌, Bool, true, not, ◌&&◌, ◌||◌, ◌==◌, leb, ltb, Option, none, some,
  Result, ok, err, List, [], ◌∷◌, if◌then◌else◌, any, every, get_elem?, length,
}
use fileblock_csi.Base.Text.{Text, lit, is_empty, text_eq, split, fields}
use fileblock_csi.Base.Path.{slash}
use fileblock_csi.Host.{Host, Error, other}
use fileblock_csi.Machine.{M, lift, ◌>>=◌, read_text}
use fileblock_csi.Mount.Commands.{newline}
use mathlib.Core.List.{reverse}

pub record MountInfo : Type 0 where
  pub major_minor : Text
  pub mount_point : Text
  pub mount_options : List Text
  pub fs_type : Text
  pub source : Text
  pub super_options : List Text

abbrev pub is_octal : ℕ → Bool
is_octal c = leb b'0' c && leb c b'7'

abbrev pub backslash : ℕ
backslash = b'\\'

-- strconv.ParseUint of three bytes in base 8, at most 255.
abbrev pub octal_of : ℕ → ℕ → ℕ → Option ℕ
octal_of a b c =
    let v = (a - b'0') * 64 + (b - b'0') * 8 + (c - b'0') in
    if is_octal a && is_octal b && is_octal c && leb v 255 then some v else none

-- The byte that an escape at the head of a text stands for.
abbrev pub escape_at : ℕ → Text → Option ℕ
escape_at c (x ∷ y ∷ z ∷ s) = if c == backslash then octal_of x y z else none
escape_at c _ = none

-- The loop of unescapeOctal; the number counts the bytes of an escape still to skip.
unfoldable pub unescape_from : ℕ → Text → Text
unescape_from n [] = []
unescape_from (suc n) (c ∷ s) = unescape_from n s
unescape_from zero (c ∷ s) =
    let hit = escape_at c s in
    elim hit [ none ↦ c | some v ↦ v ] ∷ unescape_from (elim hit [ none ↦ 0 | some v ↦ 3 ]) s

unfoldable pub unescape_octal : Text → Text
unfolding unescape_from
unescape_octal s = unescape_from 0 s

-- slices.Index of "-"
abbrev pub index_of_dash : List Text → Option ℕ
index_of_dash [] = none
index_of_dash (p ∷ ps) =
    let rest = index_of_dash ps in
    if text_eq p (b'-' ∷ []) then some 0 else elim rest [ none ↦ none | some i ↦ some (suc i) ]

abbrev pub field_at : List Text → ℕ → Text
field_at ps i = elim (get_elem? ps i) [ none ↦ [] | some p ↦ p ]

unfoldable pub row_at : List Text → ℕ → MountInfo
unfolding unescape_octal split
row_at f sep = record {
  major_minor = field_at f 2;
  mount_point = unescape_octal (field_at f 4);
  mount_options = split b',' (field_at f 5);
  fs_type = field_at f (sep + 1);
  source = unescape_octal (field_at f (sep + 2));
  super_options = split b',' (field_at f (sep + 3));
}

-- One line: nothing for a blank one, an error for a malformed one.
unfoldable pub parse_row : List Text → Result Error (Option MountInfo)
unfolding row_at text_eq
parse_row [] = ok none
parse_row (p ∷ ps) = elim (index_of_dash (p ∷ ps)) [
  | none ↦ err other
  | some sep ↦
      if ltb sep 6 || ltb (length (p ∷ ps)) (sep + 4)
      then err other
      else ok (some (row_at (p ∷ ps) sep))
]

abbrev add_row :
    Result Error (Option MountInfo) → Result Error (List MountInfo) → Result Error (List MountInfo)
add_row (err e) rest = err e
add_row (ok none) rest = rest
add_row (ok (some m)) (ok rows) = ok (m ∷ rows)
add_row (ok (some m)) (err e) = err e

-- The buffer of the scanner: a line of this length or more is an error.
abbrev pub line_limit : ℕ
line_limit = 1024 * 1024

abbrev pub parse_line : Text → Result Error (Option MountInfo)
parse_line line = if leb line_limit (length line) then err other else parse_row (fields line)

abbrev pub parse_lines : List Text → Result Error (List MountInfo)
parse_lines [] = ok []
parse_lines (line ∷ lines) = add_row (parse_line line) (parse_lines lines)

unfoldable pub parse_mount_info : Text → Result Error (List MountInfo)
unfolding parse_row fields split
parse_mount_info text = parse_lines (split newline text)

unfoldable pub read_mount_info : (h : Host) → M h (List MountInfo)
unfolding parse_mount_info
read_mount_info h = do text ← read_text h (lit "/proc/self/mountinfo"); lift (parse_mount_info text)

abbrev pub has_option : Text → List Text → Bool
has_option o opts = any (λ p. text_eq p o) opts

unfoldable pub forced_read_only : MountInfo → Bool
unfolding text_eq
forced_read_only m =
    if has_option (lit "emergency_ro") m.super_options
      || has_option (lit "shutdown") m.super_options
    then true
    else has_option (lit "rw") m.mount_options && has_option (lit "ro") m.super_options

-- The last row at a mount point, the one that is visible there.
abbrev later : MountInfo → Text → Option MountInfo → Option MountInfo
later e point (some m) = some m
later e point none = if text_eq e.mount_point point then some e else none

unfoldable pub last_at : List MountInfo → Text → Option MountInfo
unfolding text_eq
last_at [] point = none
last_at (e ∷ es) point = later e point (last_at es point)

pub record PublishTarget : Type 0 where
  pub pod_uid : Text
  pub path : Text

abbrev is_uid_byte : ℕ → Bool
is_uid_byte c = (leb b'0' c && leb c b'9') || (leb b'a' c && leb c b'f') || c == b'-'

-- The segments of a path from the last one back, against
-- /pods/([0-9a-f-]{36})/volumes/kubernetes\.io~csi/[^/]+/mount$
abbrev pod_of : List Text → Option Text
pod_of (mount ∷ volume ∷ plugin ∷ volumes ∷ uid ∷ pods ∷ before ∷ more) =
    if text_eq mount (lit "mount")
      && not (is_empty volume)
      && text_eq plugin (lit "kubernetes.io~csi")
      && text_eq volumes (lit "volumes")
      && length uid == 36
      && every is_uid_byte uid
      && text_eq pods (lit "pods")
    then some uid
    else none
pod_of _ = none

unfoldable pub pod_volume_uid : Text → Option Text
unfolding split text_eq
pod_volume_uid path = pod_of (reverse (split slash path))

abbrev add_target : Option Text → Text → List PublishTarget → List PublishTarget
add_target none path rest = rest
add_target (some uid) path rest = record { pod_uid = uid; path = path } ∷ rest

unfoldable pub publish_targets : List MountInfo → Text → List PublishTarget
unfolding pod_volume_uid
publish_targets [] dev = []
publish_targets (e ∷ es) dev =
    let rest = publish_targets es dev in
    if text_eq e.major_minor dev
    then add_target (pod_volume_uid e.mount_point) e.mount_point rest
    else rest
