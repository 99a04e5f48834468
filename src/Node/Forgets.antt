-- ===== src/Node/Forgets.antt =====
-- pkg/driver/node.go, NodeUnstageVolume: what its success leaves of a volume.
use fileblock_csi.Base.{
  Bool, true, false, ◌≡◌, refl, Option, none, some, ok, if◌then◌else◌, arith, ◌||◌,
}
use fileblock_csi.Base.Text.{Text, is_empty, text_eq_refl}
use fileblock_csi.Base.Dict.{lookup, lookup-erase}
use fileblock_csi.Host.{Host, status, invalid_argument}
use fileblock_csi.Machine.{Machine, Mapping, fail, ◌>>=◌, modify, write_file}
use fileblock_csi.Machine.Success.{Ensures, Ensures-bind}
use fileblock_csi.Driver.Failures
use fileblock_csi.Loop.Entries
use fileblock_csi.Node.Plan.{clear_failure}
use fileblock_csi.Node.Unstage.{forget_keys, delete_entry, unstage, node_unstage_volume}

-- The process holds no key of the volume, and does not take it for failed.
pub record Forgotten {h : Host} (id : Text) (s : Machine h) : Type 0 where
  pub no_key : lookup id s.keys ≡ none
  pub not_failed : Failures.get id s.failures ≡ none

module _ (h : Host) (id : Text) where
  forget_keys-Forgotten :
      (m : Option Mapping) (s : Machine h)
      → Forgotten id
          ((forget_keys h id >>= λ _. delete_entry h id m >>= λ _. clear_failure h id) s).1
  unfolding forget_keys clear_failure Entries.delete Entries.flush ◌>>=◌ modify Failures.get
      Failures.clear write_file
  forget_keys-Forgotten none s = record {
    no_key = rw (lookup-erase id id s.keys, text_eq_refl id) refl;
    not_failed = rw (lookup-erase id id s.failures.failed, text_eq_refl id) refl;
  }
  forget_keys-Forgotten (some m) s = record {
    no_key = rw (lookup-erase id id s.keys, text_eq_refl id) refl;
    not_failed = rw (lookup-erase id id s.failures.failed, text_eq_refl id) refl;
  }

  unstage-Ensures : (path : Text) → Ensures (λ _ s. Forgotten id s) (unstage h id path)
  unfolding unstage
  unstage-Ensures path = Ensures-bind _ _ (λ _. Ensures-bind _ _ (λ _. Ensures-bind _ _ (λ m.
      Ensures-bind _ _ (λ _.
        Ensures-bind _ _
          (λ loops. Ensures-bind _ _ (λ _. record { at = λ s a e. forget_keys-Forgotten m s }))))))

-- After an unstage that succeeds, the process holds no key of the volume and no longer takes it for
-- failed.
pub unstage-Forgotten :
    (h : Host) (id path : Text) (s : Machine h)
    → (node_unstage_volume h id path s).0 ≡ ok tt
    → Forgotten id (node_unstage_volume h id path s).1
unfolding node_unstage_volume fail
unstage-Forgotten h id path s e = go (is_empty id || is_empty path) e
  where
    go :
        (b : Bool)
        → ((if b then fail (status invalid_argument) else unstage h id path) s).0 ≡ ok tt
        → Forgotten id ((if b then fail (status invalid_argument) else unstage h id path) s).1
    go true q = absurd (ground arith)
    go false q = (unstage-Ensures h id path).at s tt q
