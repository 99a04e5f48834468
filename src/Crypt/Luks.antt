-- ===== src/Crypt/Luks.antt =====
-- pkg/crypt/crypt.go and pkg/crypt/sysfs.go: the cryptsetup calls.
use fileblock_csi.Base.{
  ℕ, ◌*◌, ◌^◌, ◌==◌, every, Bool, true, false, not, ◌||◌, Option, none, some, Result, ok, err, List,
  [], ◌∷◌, ◌++◌, if◌then◌else◌, take, drop,
}
use fileblock_csi.Base.Int.{ℤ, pos, eqb_ℤ, leb_ℤ}
use fileblock_csi.Base.Text.{Text, lit, is_empty, text_eq, has_prefix, split, trim_space, itoa}
use fileblock_csi.Host.{Host, Cmd, Error, exec, other, wrong_key, not_blank}
use fileblock_csi.Machine.{M, Done, Keys, pure, fail, lift, attempt, ◌>>=◌, ◌>>◌, run_cmd, read_at}
use fileblock_csi.Mount.Commands.{newline}
use fileblock_csi.Store.Config.{hex_encode}
use fileblock_csi.Image.Fs.{mkfs}

pub record Format : Type 0 where
  pub cipher : Text
  pub key_size : ℕ

abbrev pub default_format : Format
default_format = record { cipher = lit "aes-xts-plain64"; key_size = 512 }

pub data Outcome : Type 0 where
  nothing formatted rotated finished_interrupted_rotation : Outcome

abbrev pub mapper_prefix : Text
mapper_prefix = lit "fbcrypt-"

abbrev pub label_unformatted : Text
label_unformatted = lit "fileblock-unformatted"

abbrev pub label_formatted : Text
label_formatted = lit "fileblock"

unfoldable pub mapper_path : Text → Text
mapper_path name = lit "/dev/mapper/" ++ name

-- The label in the text of luksDump: the rest of the first line that starts with "Label:".
abbrev find_label : List Text → Text
find_label [] = []
find_label (line ∷ lines) =
    let rest = find_label lines in
    if has_prefix line (lit "Label:") then trim_space (drop 6 line) else rest

unfoldable pub luks_label : Text → Text
unfolding split has_prefix trim_space
luks_label dump = find_label (split newline dump)

abbrev pub is_exit : ℕ → Error → Bool
is_exit n (exec e) = eqb_ℤ e.exit_code (pos n)
is_exit n e = false

module _ (h : Host) where
  unfoldable pub mapper_name : Text → Text
  unfolding hex_encode
  mapper_name volume_id = mapper_prefix ++ take 24 (hex_encode (h.sha256 volume_id))

  abbrev pub cryptsetup_cmd : List Text → List Text → Cmd
  cryptsetup_cmd secrets args = record {
    name = lit "cryptsetup";
    args = args;
    env = lit "DM_DISABLE_UDEV=1" ∷ [];
    secrets = secrets;
  }

  unfoldable pub cryptsetup : List Text → List Text → M h Text
  cryptsetup secrets args = run_cmd h (cryptsetup_cmd secrets args)

  -- Success is true, the named exit code false, anything else an error.
  abbrev pub yes_unless_exit : ℕ → Result Error Text → Result Error Bool
  yes_unless_exit n (ok out) = ok true
  yes_unless_exit n (err e) = if is_exit n e then ok false else err e

  abbrev pub test_command : Text → Text → Cmd
  test_command dev key = cryptsetup_cmd (key ∷ []) (
      lit "open"
      ∷ lit "--test-passphrase"
      ∷ lit "--type"
      ∷ lit "luks2"
      ∷ lit "--key-file"
      ∷ lit "/dev/fd/3"
      ∷ dev
      ∷ [])

  unfoldable pub opens : Text → Text → M h Bool
  opens dev key = do out ← attempt (run_cmd h (test_command dev key)); lift (yes_unless_exit 2 out)

  unfoldable pub is_luks : Text → M h Bool
  unfolding cryptsetup
  is_luks dev = do
    out ← attempt (cryptsetup [] (lit "isLuks" ∷ dev ∷ []))
    lift (yes_unless_exit 1 out)

  abbrev pub blank_check_bytes : ℕ
  blank_check_bytes = 16 * 2 ^ 20

  -- isBlank: the first 16 MiB, or what there is of them, hold only zeros.
  unfoldable pub is_blank : Text → M h Bool
  is_blank dev = do bytes ← read_at h dev 0 blank_check_bytes; pure (every (λ b. b == 0) bytes)

  abbrev pbkdf_args : List Text → List Text
  pbkdf_args more =
      lit "--pbkdf" ∷ lit "pbkdf2" ∷ lit "--pbkdf-force-iterations" ∷ lit "1000" ∷ more

  unfoldable pub luks_format : Text → Keys → Format → M h Done
  unfolding cryptsetup itoa
  luks_format dev k f = do
    cryptsetup (k.current ∷ []) (
        lit "luksFormat"
        ∷ lit "--batch-mode"
        ∷ lit "--type"
        ∷ lit "luks2"
        ∷ lit "--cipher"
        ∷ f.cipher
        ∷ lit "--key-size"
        ∷ itoa f.key_size
        ∷ lit "--sector-size"
        ∷ lit "4096"
        ∷ pbkdf_args
            (lit "--label" ∷ label_unformatted ∷ lit "--key-file" ∷ lit "/dev/fd/3" ∷ dev ∷ []))
    pure tt

  abbrev pub add_command : Text → Keys → Cmd
  add_command dev k = cryptsetup_cmd (k.previous ∷ k.current ∷ []) (
      lit "luksAddKey"
      ∷ lit "--batch-mode"
      ∷ pbkdf_args (lit "--key-file" ∷ lit "/dev/fd/3" ∷ dev ∷ lit "/dev/fd/4" ∷ []))

  unfoldable pub luks_add_key : Text → Keys → M h Done
  luks_add_key dev k = do run_cmd h (add_command dev k); pure tt

  abbrev pub remove_command : Text → Text → Cmd
  remove_command dev key =
      cryptsetup_cmd (key ∷ [])
        (lit "luksRemoveKey" ∷ lit "--batch-mode" ∷ lit "--key-file" ∷ lit "/dev/fd/3" ∷ dev ∷ [])

  unfoldable pub luks_remove_key : Text → Text → M h Done
  luks_remove_key dev key = do run_cmd h (remove_command dev key); pure tt

  -- What rotate does once it knows which of two different keys open a slot.
  unfoldable pub rotate_slots : Text → Keys → Bool → Bool → M h Outcome
  unfolding luks_add_key luks_remove_key
  rotate_slots dev k false false = fail wrong_key
  rotate_slots dev k true false = pure nothing
  rotate_slots dev k true true = do
    luks_remove_key dev k.previous
    pure finished_interrupted_rotation
  rotate_slots dev k false true = do
    luks_add_key dev k
    luks_remove_key dev k.previous
    pure rotated

  abbrev pub keeps_key : Bool → M h Outcome
  keeps_key true = pure nothing
  keeps_key false = fail wrong_key

  unfoldable pub rotate : Text → Keys → M h Outcome
  unfolding opens rotate_slots text_eq
  rotate dev k = do
    cur ← opens dev k.current
    if is_empty k.previous || text_eq k.previous k.current
        then keeps_key cur
        else (do prev ← opens dev k.previous; rotate_slots dev k cur prev)

  -- The label says whether mkfs is still owed.
  unfoldable pub ensure_filesystem : Text → Text → M h Done
  unfolding cryptsetup luks_label mkfs text_eq
  ensure_filesystem dev path = do
    out ← cryptsetup [] (lit "luksDump" ∷ dev ∷ [])
    if not (text_eq (luks_label out) label_unformatted) then pure tt else (do
      mkfs h path
      cryptsetup [] (lit "config" ∷ lit "--label" ∷ label_formatted ∷ dev ∷ [])
      pure tt)

  abbrev closed_verdict : Result Error Text → Result Error Done
  closed_verdict (ok out) = ok tt
  closed_verdict (err e) = if is_exit 4 e then ok tt else err e

  unfoldable pub close : Text → M h Done
  unfolding cryptsetup
  close name = do out ← attempt (cryptsetup [] (lit "close" ∷ name ∷ [])); lift (closed_verdict out)

  unfoldable pub resize : Text → M h Done
  unfolding cryptsetup
  resize name = do cryptsetup [] (lit "resize" ∷ name ∷ []); pure tt

  -- Only a blank device without a header is formatted.
  unfoldable pub format_if_blank : Text → Keys → Format → Bool → M h Outcome
  unfolding is_blank luks_format
  format_if_blank dev k f true = pure nothing
  format_if_blank dev k f false = do
    blank ← is_blank dev
    if blank then (do luks_format dev k f; pure formatted) else fail not_blank

  abbrev pub first_outcome : Outcome → Outcome → Outcome
  first_outcome nothing o = o
  first_outcome formatted o = formatted
  first_outcome rotated o = rotated
  first_outcome finished_interrupted_rotation o = finished_interrupted_rotation

  -- A failure to make the filesystem closes the mapping again.
  abbrev pub close_on_error : Text → Result Error Done → M h Done
  close_on_error name (ok _) = pure tt
  close_on_error name (err e) = do attempt (close name); fail e

  unfoldable pub open_mapping : Text → Text → Keys → M h Done
  unfolding cryptsetup
  open_mapping dev name k = do
    cryptsetup (k.current ∷ []) (
        lit "open"
        ∷ lit "--type"
        ∷ lit "luks2"
        ∷ lit "--disable-keyring"
        ∷ lit "--key-file"
        ∷ lit "/dev/fd/3"
        ∷ dev
        ∷ name
        ∷ [])
    pure tt

  unfoldable pub prepare : Text → Text → Keys → Format → M h (Text × Outcome)
  unfolding is_luks format_if_blank rotate open_mapping ensure_filesystem close mapper_path
  prepare dev name k f = do
    luks ← is_luks dev
    first ← format_if_blank dev k f luks
    turned ← rotate dev k
    open_mapping dev name k
    made ← attempt (ensure_filesystem dev (mapper_path name))
    close_on_error name made
    pure (mapper_path name, first_outcome first turned)

  abbrev sector_of : Option ℤ → Result Error ℤ
  sector_of none = err other
  sector_of (some n) = if leb_ℤ n (pos 0) then err other else ok n

  unfoldable pub sector_size : Text → M h ℤ
  unfolding is_luks cryptsetup
  sector_size dev = do
    luks ← is_luks dev
    if not luks then pure (pos 0) else (do
      out ← cryptsetup [] (lit "luksDump" ∷ lit "--dump-json-metadata" ∷ dev ∷ [])
      lift (sector_of (h.decode_sector_size out)))
