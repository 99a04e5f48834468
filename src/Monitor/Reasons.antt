-- ===== src/Monitor/Reasons.antt =====
-- pkg/driver/monitor.go, Tick: what allows the deletion of a pod, and who uses a volume.
use mathlib.Core.List.{Memᴰ}
use mathlib.Core.List.Memᴰ.{head, tail}
use fileblock_csi.Base.{
  Bool, true, ◌≡◌, refl, sym, inl, inr, Option, none, some, ok, List, [], ◌∷◌, Option-cases,
  Bool-cases, All, arith,
}
use fileblock_csi.Base.Text.{Text, text_eq, text_eq_iff}
use fileblock_csi.Base.Dict.{values}
use fileblock_csi.Host.{Host, Pod}
use fileblock_csi.Machine.{Machine, Mapping}
use fileblock_csi.Driver.Failures
use fileblock_csi.Monitor.Remedy.{Replaceable}
use fileblock_csi.Mount.Info.{
  MountInfo, PublishTarget, last_at, read_mount_info, publish_targets, forced_read_only,
}
use fileblock_csi.Monitor.Tick.{Memory, users_of, pod_by_uid, check_volume, tick, or_now, add_user}

-- The states in which a tick reads the mount table or checks a volume: a tick reaches them from its
-- first state by reads, checks of volumes, and whole ticks before it.
pub data Reached (h : Host) (kube auto_delete : Bool) (s : Machine h) : Machine h → Type 0 where
  start : Reached h kube auto_delete s s
  read :
      (t : Machine h)
      → Reached h kube auto_delete s t
      → Reached h kube auto_delete s (read_mount_info h t).1
  checked :
      (t : Machine h) (rows : List MountInfo) (volume : Mapping) (mem : Memory)
      → Reached h kube auto_delete s t
      → Reached h kube auto_delete s (check_volume h kube auto_delete rows volume mem t).1
  ticked :
      (t : Machine h) (mem : Memory)
      → Reached h kube auto_delete s t
      → Reached h kube auto_delete s (tick h kube auto_delete mem t).1

-- A volume that is to be checked, and the mount table that it is checked against.
pub record Tracked (h : Host) (kube auto_delete : Bool) (s : Machine h) (rows : List MountInfo)
    (volume : Mapping) : Type 0 where
  pub before : Machine h
  pub reached : Reached h kube auto_delete s before
  pub table : (read_mount_info h before).0 ≡ ok rows
  pub entry : Memᴰ volume (values (read_mount_info h before).1.entries)

-- A pod that the API server listed, and that has one of the targets mounted.
pub record Uses (pods : List Pod) (targets : List PublishTarget) (pod : Pod) : Type 0 where
  pub listed : Memᴰ pod pods
  pub target : PublishTarget
  pub published : Memᴰ target targets
  pub by_it : target.pod_uid ≡ pod.uid

-- What allows the deletion of the pod with a UID: deletions are on, a volume with a state entry was
-- found forced read-only in the mount table, and the API server, asked in the state in which the
-- volume is checked, listed a pod with that UID, which has the volume mounted and could be replaced,
-- at the time since when the volume is marked as failed: now, if it was not.
pub record Deletable (h : Host) (kube auto_delete : Bool) (s : Machine h) (uid : Text)
    : Type 0 where
  pub allowed : auto_delete ≡ true
  pub rows : List MountInfo
  pub volume : Mapping
  pub tracked : Tracked h kube auto_delete s rows volume
  pub row : MountInfo
  pub found : last_at rows volume.stage_path ≡ some row
  pub forced : forced_read_only row ≡ true
  pub at : Machine h
  pub reached : Reached h kube auto_delete s at
  pub pods : List Pod
  pub answered : (h.list_pods at.sys).0 ≡ ok pods
  pub pod : Pod
  pub user : Uses pods (publish_targets rows row.major_minor) pod
  pub is_it : pod.uid ≡ uid
  pub replaceable :
      Replaceable pod (or_now (h.now at.sys) (Failures.get volume.volume_id at.failures))

pod_by_uid-some :
    (ps : List Pod) (uid : Text) (q : Pod) → pod_by_uid ps uid ≡ some q → Memᴰ q ps × (uid ≡ q.uid)
unfolding pod_by_uid
pod_by_uid-some [] uid q e = absurd (ground arith)
pod_by_uid-some (p ∷ ps) uid q e = elim (Option-cases (pod_by_uid ps uid)) [
  | inl n ↦ elim (Bool-cases (text_eq p.uid uid)) [
    | inl same ↦
        let is_p : p ≡ q = ground (arith, n, same, e) in
        (head (sym is_p), rw (← is_p) (sym ((text_eq_iff p.uid uid).0 same)))
    | inr other ↦ absurd (ground (arith, n, other, e))
  ]
  | inr (r, n) ↦
      let is_r : r ≡ q = ground (arith, n, e) in
      let found = pod_by_uid-some ps uid r n in rw (← is_r) (tail found.0, found.1)
]

pub users_of-Uses :
    (pods : List Pod) (all ts : List PublishTarget)
    → ((t : PublishTarget) → Memᴰ t ts → Memᴰ t all)
    → All (Uses pods all) (users_of pods ts)
unfolding users_of
users_of-Uses pods all [] k = tt
users_of-Uses pods all (t ∷ ts) k =
    go (pod_by_uid pods t.pod_uid) refl (users_of-Uses pods all ts (λ u m. k u (tail m)))
  where
    go :
        (o : Option Pod)
        → pod_by_uid pods t.pod_uid ≡ o
        → All (Uses pods all) (users_of pods ts)
        → All (Uses pods all) (add_user o (users_of pods ts))
    go none e rest = rest
    go (some p) e rest =
        let found = pod_by_uid-some pods t.pod_uid p e in
        (
          record { listed = found.0; target = t; published = k t (head refl); by_it = found.1 },
          rest,
        )
