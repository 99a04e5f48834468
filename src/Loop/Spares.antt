-- ===== src/Loop/Spares.antt =====
-- pkg/loop/reconcile.go: the pass detaches no loop of a volume that it keeps.
use fileblock_csi.Base.{
  Bool, true, false, not, ◌&&◌, ◌≡◌, refl, Option, none, some, Result, ok, err, List, [], ◌∷◌, ◌++◌,
  All, keep, map, if◌then◌else◌,
}
use fileblock_csi.Base.Text.{Text, lit, text_eq}
use fileblock_csi.Base.Dict.{Dict, values}
use fileblock_csi.Host.{Host, Error, Op, ran}
use fileblock_csi.Machine.{M, Machine, Mapping, Done, gets, continue, ◌>>=◌, ◌>>◌}
use fileblock_csi.Machine.Logs.{
  Logs, Extends, Extends-trans, logs_rules, Logs-pure, Logs-bind, Logs-then, Logs-modify,
  Logs-write_file,
}
use fileblock_csi.Machine.Quiet.{Quiet, quiet_rules, Quiet-pure, Quiet-then}
use fileblock_csi.Crypt.Luks
use fileblock_csi.Crypt.Sysfs
use fileblock_csi.Crypt.Sysfs.{CryptMapping}
use fileblock_csi.Loop.Losetup
use fileblock_csi.Loop.Losetup.{Attachment, detach_args}
use fileblock_csi.Loop.Entries
use fileblock_csi.Loop.Reconcile.{
  tracks_loop, is_ours, orphan_mappings, orphan_loops, drop_stale, close_all, detach_each,
  reconcile_tables, reconcile,
}

-- The device that a call detaches.
abbrev target : List Text → Option Text
target (a ∷ dev ∷ []) = if text_eq a (lit "--detach") then some dev else none
target _ = none

abbrev pub detached : Op → Option Text
detached (ran c) = if text_eq c.name (lit "losetup") then target c.args else none
detached _ = none

abbrev pub Untracked : Dict Mapping → Option Text → Type 0
Untracked entries none = Unit
Untracked entries (some dev) = tracks_loop (values entries) dev ≡ false

abbrev pub Spares : Dict Mapping → Op → Type 0
Spares entries op = Untracked entries (detached op)

orphan_loops-untracked :
    (root : Text) (live rest : List Attachment) (ms : List Mapping)
    → All
        (λ dev. tracks_loop ms dev ≡ false)
        (map
          (λ a. a.device)
          (keep (λ a. not (tracks_loop ms a.device) && is_ours root live a.device) rest))
orphan_loops-untracked root live [] ms = tt
orphan_loops-untracked root live (a ∷ rest) ms =
    go _ (tracks_loop ms a.device) refl (is_ours root live a.device)
      (orphan_loops-untracked root live rest ms)
  where
    go :
        (devs : List Attachment) (b : Bool)
        → tracks_loop ms a.device ≡ b
        → (c : Bool) → All (λ dev. tracks_loop ms dev ≡ false) (map (λ x. x.device) devs)
        → All
            (λ dev. tracks_loop ms dev ≡ false)
            (map (λ x. x.device) (if not b && c then a ∷ devs else devs))
    go devs true e c k = k
    go devs false e true k = (e, k)
    go devs false e false k = k

module _ (h : Host) (es : Dict Mapping) where
  delete-Logs : (id : Text) → Logs (Spares es) (Entries.delete h id)
  unfolding Entries.delete Entries.flush
  delete-Logs id = Logs-then _ _ (Logs-modify _ (λ s. refl)) (Logs-write_file _ tt)

  drop_stale-Logs :
      (live : List Attachment) (ms : List CryptMapping) (ns : List Mapping)
      → Logs (Spares es) (drop_stale h live ms ns)
  unfolding drop_stale
  drop_stale-Logs live ms [] = Logs-pure tt
  drop_stale-Logs live ms (m ∷ ns) =
      Logs-then _ _ (search (logs_rules, delete-Logs) depth 6) (drop_stale-Logs live ms ns)

  close_all-Logs : (names : List Text) → Logs (Spares es) (close_all h names)
  unfolding close_all Luks.close text_eq
  close_all-Logs [] = Logs-pure tt
  close_all-Logs (n ∷ names) =
      Logs-then _ _ (search (logs_rules, tt) depth 8) (close_all-Logs names)

  detach_each-Logs :
      (devs : List Text)
      → All (λ dev. tracks_loop (values es) dev ≡ false) devs
      → Logs (Spares es) (detach_each h devs)
  unfolding detach_each Losetup.detach text_eq
  detach_each-Logs [] k = Logs-pure tt
  detach_each-Logs (d ∷ devs) (p, k) =
      Logs-then _ _ (search (logs_rules, p) depth 8) (detach_each-Logs devs k)

  tables-Logs : Logs (Spares es) (Losetup.list h)
  unfolding Losetup.list text_eq
  tables-Logs = search (logs_rules, tt) depth 8

  mapping_at-Logs : (d : Text) (r : Result Error Text) → Logs (Spares es) (Sysfs.mapping_at h d r)
  unfolding Sysfs.mapping_at
  mapping_at-Logs d (err e) = Logs-pure []
  mapping_at-Logs d (ok raw) = search logs_rules depth 8

  scan-Logs : (ds : List Text) → Logs (Spares es) (Sysfs.scan h ds)
  unfolding Sysfs.scan
  scan-Logs [] = Logs-pure []
  scan-Logs (d ∷ ds) = Logs-bind _ _ (search logs_rules depth 4) (λ raw.
      Logs-bind _ _ (mapping_at-Logs d raw)
        (λ ms. Logs-bind _ _ (scan-Logs ds) (λ rest. Logs-pure (ms ++ rest))))

  mappings-Logs : Logs (Spares es) (Sysfs.list h)
  unfolding Sysfs.list
  mappings-Logs = search (logs_rules, scan-Logs) depth 4

module _ (h : Host) where
  close_all-Quiet : (names : List Text) → Quiet (close_all h names)
  unfolding close_all Luks.close
  close_all-Quiet [] = Quiet-pure tt
  close_all-Quiet (n ∷ names) = Quiet-then _ _ (search quiet_rules depth 8) (close_all-Quiet names)

  detach_each-Quiet : (devs : List Text) → Quiet (detach_each h devs)
  unfolding detach_each Losetup.detach
  detach_each-Quiet [] = Quiet-pure tt
  detach_each-Quiet (d ∷ devs) =
      Quiet-then _ _ (search quiet_rules depth 8) (detach_each-Quiet devs)

  -- Every call that the action adds spares the loops of the entries that it leaves.
  record SparesKept {A : Type 0} (m : M h A) : Type 0 where
    pub at : (s : Machine h) → Extends (Spares (m s).1.entries) s (m s).1

  bind-SparesKept :
      {A B : Type 0} (m : M h A) (f : A → M h B)
      → ((es : Dict Mapping) → Logs (Spares es) m)
      → ((a : A) → SparesKept (f a))
      → SparesKept (m >>= f)
  unfolding ◌>>=◌
  bind-SparesKept {A = A} m f l k = record { at = λ s. go (m s).0 s }
    where
      go :
          (r : Result Error A) (s : Machine h)
          → Extends (Spares (continue r f (m s).1).1.entries) s (continue r f (m s).1).1
      go (ok a) s = Extends-trans ((l (f a (m s).1).1.entries).at s) ((k a).at (m s).1)
      go (err x) s = (l (m s).1.entries).at s

  -- The last part of the pass, which changes no entry.
  end : Text → List Attachment → List CryptMapping → List Mapping → M h Done
  end root live ms after = do
    close_all h (orphan_mappings root live ms after)
    detach_each h (orphan_loops root live after)

  end-Quiet :
      (root : Text) (live : List Attachment) (ms : List CryptMapping) (after : List Mapping)
      → Quiet (end root live ms after)
  unfolding end
  end-Quiet root live ms after = Quiet-then _ _ (close_all-Quiet _) (detach_each-Quiet _)

  end-Logs :
      (root : Text) (live : List Attachment) (ms : List CryptMapping) (es : Dict Mapping)
      → Logs (Spares es) (end root live ms (values es))
  unfolding end orphan_loops
  end-Logs root live ms es =
      Logs-then _ _ (close_all-Logs h es _)
        (detach_each-Logs h es _ (orphan_loops-untracked root live live (values es)))

  end-SparesKept :
      (root : Text) (live : List Attachment) (ms : List CryptMapping)
      → SparesKept (Entries.all h >>= end root live ms)
  unfolding Entries.all gets ◌>>=◌ end orphan_loops
  end-SparesKept root live ms = record {
    at = λ s.
        rw ((end-Quiet root live ms (values s.entries)).at s).entries
          ((end-Logs root live ms s.entries).at s);
  }

  reconcile_tables-SparesKept :
      (root : Text) (live : List Attachment) (ms : List CryptMapping)
      → SparesKept (reconcile_tables h root live ms)
  unfolding reconcile_tables Entries.all end
  reconcile_tables-SparesKept root live ms =
      bind-SparesKept _ _ (λ es. search logs_rules)
        (λ before.
          bind-SparesKept _ _ (λ es. drop_stale-Logs h es live ms before)
            (λ d. end-SparesKept root live ms))

-- A reconcile detaches no loop device that an entry of the state it leaves names, whatever losetup
-- and sysfs list and whichever of its calls fail.
pub reconcile-Spares :
    (h : Host) (root : Text) (s : Machine h)
    → Extends (Spares (reconcile h root s).1.entries) s (reconcile h root s).1
unfolding reconcile
reconcile-Spares h root s =
    (bind-SparesKept h _ _ (λ es. tables-Logs h es)
        (λ live.
          bind-SparesKept h _ _ (λ es. mappings-Logs h es)
            (λ ms. reconcile_tables-SparesKept h root live ms))).at
      s
