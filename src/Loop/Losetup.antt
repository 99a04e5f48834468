-- ===== src/Loop/Losetup.antt =====
-- pkg/loop/losetup.go: attaching, detaching and listing loop devices.
use fileblock_csi.Base.{
  ℕ, Bool, none, some, Result, ok, err, List, [], ◌∷◌, map, keep, if◌then◌else◌, take, length, ◌-◌,
}
use fileblock_csi.Base.Text.{
  Text, lit, is_empty, has_prefix, has_suffix, trim_space, contains_text, to_lower, itoa, text_eq,
}
use fileblock_csi.Base.Path.{base}
use fileblock_csi.Host.{Host, Error, exec, other, pool_exhausted}
use fileblock_csi.Machine.{M, Done, pure, fail, lift, attempt, wrap_err, ◌>>=◌, ◌>>◌, run}
use fileblock_csi.Loop.Backing.{backs}

pub record Attachment : Type 0 where
  pub device : Text
  pub back_file : Text

abbrev pub says_no_device : Text → Bool
says_no_device output = contains_text (to_lower output) (lit "no such device")

abbrev attach_error : Error → Error
attach_error (exec e) = if says_no_device e.output then pool_exhausted else exec e
attach_error e = e

abbrev detach_verdict : Result Error Text → Result Error Done
detach_verdict (ok out) = ok tt
detach_verdict (err (exec e)) = if says_no_device e.output then ok tt else err (exec e)
detach_verdict (err e) = err e

abbrev pub deleted_suffix : Text
deleted_suffix = lit " (deleted)"

-- strings.TrimSuffix
abbrev pub trim_suffix : Text → Text → Text
trim_suffix s t = if has_suffix s t then take (length s - length t) s else s

abbrev attachment : Text × Text → Attachment
attachment (device, back) = record { device = device; back_file = trim_suffix back deleted_suffix }

module _ (h : Host) where
  unfoldable pub attach : Text → ℕ → M h Text
  unfolding trim_space has_prefix contains_text itoa
  attach path sector = do
    out ←
        wrap_err
          (run h (lit "losetup")
            (lit "--find" ∷ lit "--show" ∷ lit "--sector-size" ∷ itoa sector ∷ path ∷ []))
          attach_error
    if has_prefix (trim_space out) (lit "/dev/loop") then pure (trim_space out) else fail other

  abbrev pub detach_args : Text → List Text
  detach_args dev = lit "--detach" ∷ dev ∷ []

  unfoldable pub detach : Text → M h Done
  unfolding contains_text
  detach dev = do out ← attempt (run h (lit "losetup") (detach_args dev)); lift (detach_verdict out)

  abbrev decoded : Text → Result Error (List Attachment)
  decoded out =
      if is_empty (trim_space out)
      then ok []
      else elim (h.decode_loops out) [ none ↦ err other | some rows ↦ ok (map attachment rows) ]

  unfoldable pub list : M h (List Attachment)
  unfolding trim_space has_suffix
  list = do out ← run h (lit "losetup") (lit "--json" ∷ lit "--list" ∷ []); lift (decoded out)

  unfoldable pub find : (Attachment → Bool) → M h (List Text)
  unfolding list
  find test = do live ← list; pure (map (λ a. a.device) (keep test live))

  unfoldable pub find_image : Text → M h (List Text)
  unfolding find base text_eq
  find_image name = find (λ a. text_eq (base a.back_file) name)

  unfoldable pub find_backing : Text → M h (List Text)
  unfolding find backs
  find_backing path = find (λ a. backs a.back_file path)

  unfoldable pub set_capacity : Text → M h Done
  set_capacity dev = do run h (lit "losetup") (lit "--set-capacity" ∷ dev ∷ []); pure tt
