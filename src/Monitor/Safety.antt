-- ===== src/Monitor/Safety.antt =====
-- pkg/driver/monitor.go, Tick: which pods a tick can delete.
use mathlib.Core.List.{Memᴰ}
use mathlib.Core.List.Memᴰ.{head, tail}
use fileblock_csi.Base.{
  ℕ, zero, suc, Bool, true, false, ◌≡◌, refl, inl, inr, Option, none, some, Result, ok, err, List,
  [], ◌∷◌, if◌then◌else◌, Bool-cases, All, All-map, arith,
}
use fileblock_csi.Base.Text.{Text, text_eq_refl}
use fileblock_csi.Base.Dict.{values}
use fileblock_csi.Host.{Host, Error, Op, Pod}
use fileblock_csi.Machine.{Machine, pure, Mapping, gets, attempt, ◌>>=◌, list_pods}
use fileblock_csi.Machine.Logs.{
  Logs, logs_rules, Logs-then, Logs-attempt, Logs-list_pods, Logs-pure, Logs-modify, Extends,
  Extends-refl, Extends-trans, bind-Extends,
}
use fileblock_csi.Driver.Failures
use fileblock_csi.Driver.Replay.{get-mark, first_mark}
use fileblock_csi.Monitor.Remedy.{skip_reason-Replaceable}
use fileblock_csi.Mount.Info.{
  MountInfo, PublishTarget, last_at, read_mount_info, publish_targets, forced_read_only,
}
use fileblock_csi.Loop.Entries
use fileblock_csi.Monitor.Pods.{Spares, Allows, with_pods-Logs}
use fileblock_csi.Monitor.Tick.{
  Memory, with_pods, users_of, mark_failed, handle_failed, check_volume, judge, check_volumes,
  tick_from, tick, run, or_now,
}
use fileblock_csi.Monitor.Reasons.{
  Reached, read, checked, ticked, Tracked, Deletable, users_of-Uses,
}

-- The time that counts for a volume: its mark is left as it was, or set now.
failed_at-mark :
    {h : Host} (id : Text) (now : ℕ) (s : Machine h)
    → or_now now (Failures.get id (Failures.mark id now s.failures).0)
      ≡ or_now now (Failures.get id s.failures)
failed_at-mark id now s =
    rw (get-mark id id now s.failures, text_eq_refl id) (go (Failures.get id s.failures))
  where
    go : (o : Option ℕ) → or_now now (first_mark now o) ≡ or_now now o
    go none = refl
    go (some t) = refl

members : {A : Type 0} {P : A → Type 0} (xs : List A) → ((a : A) → Memᴰ a xs → P a) → All P xs
members [] k = tt
members (x ∷ xs) k = (k x (head refl), members xs (λ a m. k a (tail m)))

read_mount_info-Logs : {h : Host} {P : Op → Type 0} → Logs P (read_mount_info h)
unfolding read_mount_info
read_mount_info-Logs = search (logs_rules) depth 8

listed_pods :
    {h : Host} (s : Machine h) (r : Result Error (List Pod)) (pods : List Pod)
    → (attempt (list_pods h) s).0 ≡ ok r
    → r ≡ ok pods
    → (h.list_pods s.sys).0 ≡ ok pods
unfolding attempt list_pods
listed_pods s r pods e k = ground (arith, e, k)

module _ (h : Host) (kube auto_delete : Bool) (s : Machine h) where
  abbrev Spared : Machine h → Machine h → Type 0
  Spared t u = Extends (Spares (Deletable h kube auto_delete s)) t u

  handle_failed-Spared :
      (rows : List MountInfo) (volume : Mapping) (row : MountInfo) (mem : Memory) (t : Machine h)
      → Tracked h kube auto_delete s rows volume
      → last_at rows volume.stage_path ≡ some row
      → forced_read_only row ≡ true
      → Reached h kube auto_delete s t
      → Spared t (handle_failed h kube auto_delete volume row rows mem t).1
  unfolding handle_failed mark_failed ◌>>=◌ gets
  handle_failed-Spared rows volume row mem t tracked found forced reached = act _ _
    where
      id : Text
      id = volume.volume_id

      now : ℕ
      now = h.now t.sys

      marked : Machine h
      marked = record t { failures = (Failures.mark id now t.failures).0 }

      at : ℕ
      at = or_now now (Failures.get id marked.failures)

      targets : List PublishTarget
      targets = publish_targets rows row.major_minor

      allows :
          auto_delete ≡ true
          → (pods : List Pod) → (h.list_pods t.sys).0 ≡ ok pods
          → Allows (Deletable h kube auto_delete s) at (users_of pods targets)
      allows on pods e =
          All-map _ _
            (λ p u free. record {
              allowed = on;
              rows = rows;
              volume = volume;
              tracked = tracked;
              row = row;
              found = found;
              forced = forced;
              at = t;
              reached = reached;
              pods = pods;
              answered = e;
              pod = p;
              user = u;
              is_it = refl;
              replaceable = rw (← failed_at-mark id now t) (skip_reason-Replaceable p at free);
            })
            _ (users_of-Uses pods targets targets (λ u m. m))

      act :
          (c : Bool) (m : Memory)
          → Spared t
              ((if c then pure m else (do
                pods ← attempt (list_pods h)
                with_pods h id auto_delete now at targets m pods))
                marked).1
      act true m = record { added = []; grown = refl; allowed = tt }
      act false m =
          Extends-trans (record { added = []; grown = refl; allowed = tt })
            (bind-Extends (attempt (list_pods h))
              (λ pods. with_pods h id auto_delete now at targets m pods) marked
              ((Logs-attempt _ Logs-list_pods).at marked)
              (λ r e.
                (with_pods-Logs h (Deletable h kube auto_delete s) id auto_delete now at targets m r
                    (λ on pods q. allows on pods (listed_pods marked r pods e q))).at
                  (attempt (list_pods h) marked).1))

  judge-Spared :
      (rows : List MountInfo) (volume : Mapping) (mem : Memory) (t : Machine h)
      → Tracked h kube auto_delete s rows volume
      → Reached h kube auto_delete s t
      → (o : Option MountInfo) → last_at rows volume.stage_path ≡ o
      → Spared t (judge h kube auto_delete rows volume mem o t).1
  judge-Spared rows volume mem t tracked reached none e = (Logs-pure _).at t
  judge-Spared rows volume mem t tracked reached (some row) e =
      elim (Bool-cases (forced_read_only row)) [
        | inl f ↦ rw f (handle_failed-Spared rows volume row mem t tracked e f reached)
        | inr f ↦ rw f ((Logs-then _ _ (Logs-modify _ (λ u. refl)) (Logs-pure _)).at t)
      ]

  check_volumes-Spared :
      (rows : List MountInfo) (volumes : List Mapping) (mem : Memory) (t : Machine h)
      → All (Tracked h kube auto_delete s rows) volumes
      → Reached h kube auto_delete s t
      → Spared t (check_volumes h kube auto_delete rows volumes mem t).1
  unfolding check_volumes check_volume
  check_volumes-Spared rows [] mem t k reached = (Logs-pure _).at t
  check_volumes-Spared rows (v ∷ vs) mem t k reached =
      bind-Extends _ _ t (judge-Spared rows v mem t k.0 reached (last_at rows v.stage_path) refl)
        (λ mem' _. check_volumes-Spared rows vs mem' _ k.1 (checked t rows v mem reached))

  tick_from-Spared :
      (mem : Memory) (t : Machine h) (r : Result Error (List MountInfo))
      → Reached h kube auto_delete s t
      → (read_mount_info h t).0 ≡ r
      → Spared
          (read_mount_info h t).1
          (tick_from h kube auto_delete mem r (read_mount_info h t).1).1
  unfolding tick_from Entries.all ◌>>=◌ gets
  tick_from-Spared mem t (err e) reached q = Extends-refl _
  tick_from-Spared mem t (ok rows) reached q =
      check_volumes-Spared rows (values (read_mount_info h t).1.entries) mem _
        (members (values (read_mount_info h t).1.entries)
          (λ v m. record { before = t; reached = reached; table = q; entry = m }))
        (read t reached)

  tick-Spared :
      (mem : Memory) (t : Machine h)
      → Reached h kube auto_delete s t
      → Spared t (tick h kube auto_delete mem t).1
  unfolding tick ◌>>=◌ attempt
  tick-Spared mem t reached =
      Extends-trans (read_mount_info-Logs.at t) (tick_from-Spared mem t _ reached refl)

  pub run-Spared :
      (ticks : ℕ) (mem : Memory) (t : Machine h)
      → Reached h kube auto_delete s t
      → Spared t (run h kube auto_delete ticks mem t).1
  unfolding run
  run-Spared zero mem t reached = (Logs-pure _).at t
  run-Spared (suc k) mem t reached =
      bind-Extends _ _ t (tick-Spared mem t reached)
        (λ mem' _. run-Spared k mem' _ (ticked t mem reached))
