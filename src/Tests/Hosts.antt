-- ===== src/Tests/Hosts.antt =====
-- A host for the examples. Nothing is mounted, and its state is the list of the keys that open a LUKS
-- header.
use fileblock_csi.Store.Ids.{IsSha256}
use fileblock_csi.Base.{
  refl, arith, ℕ, Bool, true, false, not, any, keep, Option, none, some, ok, err, List, [], ◌∷◌,
  if◌then◌else◌,
}
use fileblock_csi.Base.Int.{pos}
use fileblock_csi.Base.Text.{Text, lit, text_eq}
use fileblock_csi.Host.{Host, Cmd, Error, exec, absent, Pod}
use fileblock_csi.Machine.{Machine}

abbrev pub zero_hash : Text → List ℕ
zero_hash s =
    0 ∷ 0 ∷ 0 ∷ 0 ∷ 0 ∷ 0 ∷ 0 ∷ 0 ∷ 0 ∷ 0 ∷ 0 ∷ 0 ∷ 0 ∷ 0 ∷ 0 ∷ 0 ∷ 0 ∷ 0 ∷ 0 ∷ 0 ∷ 0 ∷ 0 ∷ 0 ∷ 0
    ∷ 0 ∷ 0 ∷ 0 ∷ 0 ∷ 0 ∷ 0 ∷ 0 ∷ 0 ∷ []

pub zero_hash-IsSha256 : IsSha256 zero_hash
zero_hash-IsSha256 = record { length_32 = λ s. refl; bytes = λ s. ground arith }

abbrev pub exit_with : ℕ → Error
exit_with n = exec (record { exit_code = pos n; output = []; not_found = false })

abbrev answered : {A : Type 0} → A → List Text → A × List Text
answered a s = (a, s)

-- findmnt finds nothing; losetup attaches the first loop; e2fsck finds errors that it cannot
-- correct; the rest succeeds.
unfoldable pub answer : Cmd → Text × Option Error
unfolding text_eq
answer c =
    if text_eq c.name (lit "findmnt")
    then ([], some (exit_with 1))
    else if text_eq c.name (lit "e2fsck")
    then ([], some (exit_with 4))
    else if text_eq c.name (lit "losetup")
    then (lit "/dev/loop0", none)
    else ([], none)

-- The keys of a header after a cryptsetup command, and its answer.
abbrev pub has_key_in : Text → List Text → Bool
has_key_in key s = any (λ k. text_eq key k) s

abbrev head_is : Text → List Text → Bool
head_is t [] = false
head_is t (a ∷ args) = text_eq a t

abbrev change : Cmd → List Text → (Text × Option Error) × List Text
change c s = elim c.secrets [
  | [] ↦ (answer c, s)
  | k ∷ ks ↦ elim ks [
    | [] ↦
        if head_is (lit "open") c.args
        then (if has_key_in k s then (([], none), s) else (([], some (exit_with 2)), s))
        else (([], none), keep (λ j. not (text_eq j k)) s)
    | j ∷ js ↦ (([], none), j ∷ s)
  ]
]

abbrev pub victim : Pod
victim = record {
  node = lit "n1";
  name = lit "web-0";
  namespace = lit "default";
  uid = lit "0123456789abcdef0123456789abcdef0123";
  deletion = none;
  owners = record { name = lit "web"; controller = some true } ∷ [];
  start = some 10;
}

abbrev pub host : Host
host = record {
  State = List Text;
  sha256 = zero_hash;
  page_size = 4096;
  run = change;
  stat = λ p. answered (ok (record { size = pos 8192; is_dir = true }));
  truncate = λ p n. answered none;
  remove = λ p. answered none;
  make_dirs = λ p. answered none;
  read_dir = λ p. answered (ok []);
  read_at = λ p off n. answered (ok []);
  write_file = λ p. answered none;
  read_text = λ p. answered (
      ok (
        lit
          "36 35 98:0 / /stage rw,noatime shared:1 - ext4 /dev/loop0 ro\n37 36 98:0 / /var/lib/kubelet/pods/0123456789abcdef0123456789abcdef0123/volumes/kubernetes.io~csi/v/mount rw - ext4 /dev/loop0 ro\n"));
  glob = λ p. answered (ok []);
  stat_fs = λ p. answered (err absent);
  in_time = answered true;
  decode_loops = λ t. some [];
  decode_sector_size = λ t. some (pos 4096);
  now = λ s. 1000;
  list_pods = answered (ok (victim ∷ []));
  delete_pod = λ ns n u. answered none;
  has_api = true;
  send_event = λ u. answered none;
}

abbrev pub machine : List Text → Machine host
machine keys = record {
  sys = keys;
  log = [];
  registry = record {
    root = lit "/stores";
    mounted = [];
    stores = [];
    configs = [];
    checking = [];
  };
  entries = [];
  failures = record { failed = []; held = [] };
  keys = [];
}
