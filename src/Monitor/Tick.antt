-- ===== src/Monitor/Tick.antt =====
-- pkg/driver/monitor.go: Tick and handleFailed.
use fileblock_csi.Base.{
  ℕ, zero, suc, ◌+◌, Bool, true, false, not, ◌&&◌, ◌||◌, ltb, Option, none, some, Result, ok, err,
  List, [], ◌∷◌, ◌++◌, if◌then◌else◌,
}
use fileblock_csi.Base.Text.{Text, text_eq, has_prefix}
use fileblock_csi.Base.Dict.{Dict, lookup, insert, erase, has_key}
use fileblock_csi.Base.Path.{slash}
use fileblock_csi.Host.{Host, Error, Pod}
use fileblock_csi.Machine.{
  M, Done, Machine, Mapping, pure, gets, attempt, ◌>>=◌, ◌>>◌, modify, list_pods, delete_pod,
  send_event,
}
use fileblock_csi.Mount.Info.{
  MountInfo, PublishTarget, read_mount_info, last_at, publish_targets, forced_read_only,
}
use fileblock_csi.Driver.Failures
use fileblock_csi.Loop.Entries
use fileblock_csi.Monitor.Remedy.{skip_reason}

-- RemediationHold, in seconds.
abbrev pub remediation_hold : ℕ
remediation_hold = 300

-- What the monitor remembers of a failure: events and skip events that were sent.
pub record Memory : Type 0 where
  pub event_sent : Dict Bool
  pub skip_evented : Dict Bool

abbrev skip_key : Text → Text → Text
skip_key id uid = id ++ (slash ∷ uid)

unfoldable pub drop_prefix : Text → Dict Bool → Dict Bool
unfolding has_prefix
drop_prefix pre [] = []
drop_prefix pre ((k, b) ∷ m) =
    let rest = drop_prefix pre m in if has_prefix k pre then rest else (k, b) ∷ rest

unfoldable pub forget : Text → Memory → Memory
unfolding erase drop_prefix
forget id m = record {
  event_sent = erase id m.event_sent;
  skip_evented = drop_prefix (id ++ (slash ∷ [])) m.skip_evented;
}

-- byUID: the last pod of a list with the UID.
unfoldable pub pod_by_uid : List Pod → Text → Option Pod
unfolding text_eq
pod_by_uid [] uid = none
pod_by_uid (p ∷ ps) uid = elim (pod_by_uid ps uid) [
  | some q ↦ some q
  | none ↦ if text_eq p.uid uid then some p else none
]

abbrev pub add_user : Option Pod → List Pod → List Pod
add_user none ps = ps
add_user (some p) ps = p ∷ ps

-- The pods that publish the volume, one for each of its mounts.
unfoldable pub users_of : List Pod → List PublishTarget → List Pod
unfolding pod_by_uid
users_of pods [] = []
users_of pods (t ∷ ts) = add_user (pod_by_uid pods t.pod_uid) (users_of pods ts)

abbrev pub or_now : ℕ → Option ℕ → ℕ
or_now now none = now
or_now now (some t) = t

module _ (h : Host) where
  unfoldable pub announce : List Pod → M h Done
  announce [] = pure tt
  announce (p ∷ ps) = do attempt (send_event h p.uid); announce ps

  unfoldable pub skip_pod : Text → Pod → Memory → M h Memory
  unfolding lookup insert
  skip_pod id p mem = if has_key (skip_key id p.uid) mem.skip_evented then pure mem else (do
    attempt (send_event h p.uid)
    pure (record mem { skip_evented = insert (skip_key id p.uid) true mem.skip_evented }))

  -- The loop over the users; the flag says whether a deletion was tried.
  unfoldable pub delete_users : Text → ℕ → List Pod → Bool → Memory → M h (Bool × Memory)
  unfolding skip_reason skip_pod
  delete_users id failed_at [] attempted mem = pure (attempted, mem)
  delete_users id failed_at (p ∷ ps) attempted mem = elim (skip_reason p failed_at) [
    | some reason ↦ (do mem' ← skip_pod id p mem; delete_users id failed_at ps attempted mem')
    | none ↦ (do
      attempt (delete_pod h p.namespace p.name p.uid)
      delete_users id failed_at ps true mem)
  ]

  abbrev pub hold_if : Bool → Text → ℕ → M h Done
  hold_if false id until = pure tt
  hold_if true id until = modify h (λ s. record s { failures = Failures.hold id until s.failures })

  unfoldable pub remedy : Text → ℕ → ℕ → List Pod → Memory → M h Memory
  unfolding delete_users Failures.hold
  remedy id now failed_at users mem = do
    done ← delete_users id failed_at users false mem
    hold_if done.0 id (now + remediation_hold)
    pure done.1

  -- The first-failure events, once.
  unfoldable pub announce_once : Text → List Pod → Memory → M h Memory
  unfolding announce insert lookup
  announce_once id users mem =
      if has_key id mem.event_sent
      then pure mem
      else (do announce users; pure (record mem { event_sent = insert id true mem.event_sent }))

  abbrev held : Text → ℕ → Machine h → Bool
  held id now s = ltb now (Failures.held_until id s.failures)

  unfoldable pub with_pods :
      Text → Bool → ℕ → ℕ → List PublishTarget → Memory → Result Error (List Pod) → M h Memory
  unfolding users_of announce_once remedy Failures.held_until
  with_pods id auto_delete now failed_at targets mem (err e) = pure mem
  with_pods id auto_delete now failed_at targets mem (ok pods) = do
    mem' ← announce_once id (users_of pods targets) mem
    on_hold ← gets (held id now)
    if not auto_delete || on_hold
        then pure mem'
        else remedy id now failed_at (users_of pods targets) mem'

  unfoldable pub mark_failed : Text → ℕ → Memory → M h Memory
  unfolding Failures.mark forget
  mark_failed id now mem s =
      let (f, is_new) = Failures.mark id now s.failures in
      (ok (if is_new then forget id mem else mem), record s { failures = f })

  -- `kube` says whether there is an API client.
  unfoldable pub handle_failed :
      Bool → Bool → Mapping → MountInfo → List MountInfo → Memory → M h Memory
  unfolding mark_failed Failures.get Failures.held_until with_pods publish_targets lookup
  handle_failed kube auto_delete vol e entries mem = do
    now ← gets (λ s. h.now s.sys)
    mem' ← mark_failed vol.volume_id now mem
    at ← gets (λ s. Failures.get vol.volume_id s.failures)
    on_hold ← gets (held vol.volume_id now)
    let need_pods = not (has_key vol.volume_id mem'.event_sent) || (auto_delete && not on_hold)
    if not kube || not need_pods then pure mem' else (do
      pods ← attempt (list_pods h)
      with_pods vol.volume_id auto_delete now (or_now now at)
          (publish_targets entries e.major_minor) mem' pods)

  abbrev pub clear_mark : Text → M h Done
  clear_mark id = modify h (λ s. record s { failures = Failures.clear id s.failures })

  -- What the mountinfo row of the staging path, if there is one, leads to.
  abbrev pub judge : Bool → Bool → List MountInfo → Mapping → Memory → Option MountInfo → M h Memory
  judge kube auto_delete entries vol mem none = pure (forget vol.volume_id mem)
  judge kube auto_delete entries vol mem (some e) =
      if forced_read_only e
      then handle_failed kube auto_delete vol e entries mem
      else (do clear_mark vol.volume_id; pure (forget vol.volume_id mem))

  unfoldable pub check_volume : Bool → Bool → List MountInfo → Mapping → Memory → M h Memory
  unfolding last_at forced_read_only handle_failed Failures.clear forget
  check_volume kube auto_delete entries vol mem =
      judge kube auto_delete entries vol mem (last_at entries vol.stage_path)

  unfoldable pub check_volumes : Bool → Bool → List MountInfo → List Mapping → Memory → M h Memory
  unfolding check_volume
  check_volumes kube auto_delete entries [] mem = pure mem
  check_volumes kube auto_delete entries (vol ∷ vols) mem = do
    mem' ← check_volume kube auto_delete entries vol mem
    check_volumes kube auto_delete entries vols mem'

  unfoldable pub tick_from : Bool → Bool → Memory → Result Error (List MountInfo) → M h Memory
  unfolding check_volumes Entries.all
  tick_from kube auto_delete mem (err e) = pure mem
  tick_from kube auto_delete mem (ok entries) = do
    vols ← Entries.all h
    check_volumes kube auto_delete entries vols mem

  unfoldable pub tick : Bool → Bool → Memory → M h Memory
  unfolding read_mount_info tick_from
  tick kube auto_delete mem = do
    entries ← attempt (read_mount_info h)
    tick_from kube auto_delete mem entries

  -- Run, for as many ticks as come before the context is done.
  unfoldable pub run : Bool → Bool → ℕ → Memory → M h Memory
  unfolding tick
  run kube auto_delete zero mem = pure mem
  run kube auto_delete (suc k) mem = do
    mem' ← tick kube auto_delete mem
    run kube auto_delete k mem'
