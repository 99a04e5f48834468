-- ===== src/Monitor/Pods.antt =====
-- pkg/driver/monitor.go, handleFailed: the calls of its last part, given the pods that the API server
-- listed.
use fileblock_csi.Base.{
  ℕ, Bool, true, false, ◌≡◌, refl, inl, inr, none, Result, ok, err, List, [], ◌∷◌, if◌then◌else◌,
  ◌+◌, ◌||◌, not, Option-cases, All, All-map,
}
use fileblock_csi.Base.Text.{Text}
use fileblock_csi.Host.{
  Host, Error, Op, ran, truncated, removed, made_dir, wrote, sent_event, deleted_pod, Pod,
}
use fileblock_csi.Machine.{Machine, pure}
use fileblock_csi.Machine.Logs.{
  Logs, logs_rules, Logs-bind, Logs-attempt, Logs-pure, Logs-send_event, Logs-delete_pod, Logs-then,
  Logs-modify, Logs-gets, Extends,
}
use fileblock_csi.Monitor.Remedy.{skip_reason}
use fileblock_csi.Mount.Info.{PublishTarget}
use fileblock_csi.Monitor.Tick.{
  Memory, skip_pod, delete_users, announce, remedy, hold_if, remediation_hold, announce_once,
  with_pods, users_of,
}

-- Only the deletion of a pod that no reason spares counts; every other call is allowed.
abbrev pub Spares : (Text → Type 0) → Op → Type 0
Spares P (deleted_pod uid) = P uid
Spares P (ran c) = Unit
Spares P (truncated p n) = Unit
Spares P (removed p) = Unit
Spares P (made_dir p) = Unit
Spares P (wrote p) = Unit
Spares P (sent_event u) = Unit

Spares-map :
    {P Q : Text → Type 0} → ((uid : Text) → P uid → Q uid) → (o : Op) → Spares P o → Spares Q o
Spares-map k (deleted_pod uid) p = k uid p
Spares-map k (ran c) p = tt
Spares-map k (truncated x n) p = tt
Spares-map k (removed x) p = tt
Spares-map k (made_dir x) p = tt
Spares-map k (wrote x) p = tt
Spares-map k (sent_event u) p = tt

-- A log that spares the pods of one predicate spares those of a weaker one.
pub Extends-Spares :
    {h : Host} {P Q : Text → Type 0} {s t : Machine h}
    → ((uid : Text) → P uid → Q uid)
    → Extends (Spares P) s t
    → Extends (Spares Q) s t
Extends-Spares {P = P} {Q = Q} k e = record {
  added = e.added;
  grown = e.grown;
  allowed = All-map (Spares P) (Spares Q) (Spares-map k) e.added e.allowed;
}

-- The pods of a list that no reason spares satisfy the predicate.
abbrev pub Allows : (Text → Type 0) → ℕ → List Pod → Type 0
Allows P at ps = All (λ p. skip_reason p at ≡ none → P p.uid) ps

module _ (h : Host) (P : Text → Type 0) where
  skip_pod-Logs : (id : Text) (p : Pod) (mem : Memory) → Logs (Spares P) (skip_pod h id p mem)
  unfolding skip_pod
  skip_pod-Logs id p mem = search (logs_rules, Logs-send_event, tt) depth 8

  announce-Logs : (ps : List Pod) → Logs (Spares P) (announce h ps)
  unfolding announce
  announce-Logs [] = Logs-pure tt
  announce-Logs (p ∷ ps) =
      Logs-bind _ _ (search (logs_rules, Logs-send_event, tt)) (λ _. announce-Logs ps)

  delete_users-Logs :
      (id : Text) (at : ℕ) (ps : List Pod)
      → Allows P at ps
      → (b : Bool) (mem : Memory) → Logs (Spares P) (delete_users h id at ps b mem)
  unfolding delete_users
  delete_users-Logs id at [] k b mem = Logs-pure _
  delete_users-Logs id at (p ∷ ps) k b mem = elim (Option-cases (skip_reason p at)) [
    | inl e ↦
        rw (e, delete_users)
          (Logs-bind _ _ (Logs-attempt _ (Logs-delete_pod _ _ _ (k.0 e)))
            (λ _. delete_users-Logs id at ps k.1 true mem))
    | inr (r, e) ↦
        rw (e, delete_users)
          (Logs-bind _ _ (skip_pod-Logs id p mem) (λ mem'. delete_users-Logs id at ps k.1 b mem'))
  ]

  remedy-Logs :
      (id : Text) (now at : ℕ) (ps : List Pod)
      → Allows P at ps
      → (mem : Memory) → Logs (Spares P) (remedy h id now at ps mem)
  unfolding remedy
  remedy-Logs id now at ps k mem =
      Logs-bind _ _ (delete_users-Logs id at ps k false mem)
        (λ done. Logs-then _ _ (hold_if-Logs done.0 id (now + remediation_hold)) (Logs-pure _))
    where
      hold_if-Logs : (b : Bool) (id : Text) (t : ℕ) → Logs (Spares P) (hold_if h b id t)
      hold_if-Logs false id t = Logs-pure _
      hold_if-Logs true id t = Logs-modify _ (λ s. refl)

  announce_once-Logs :
      (id : Text) (ps : List Pod) (mem : Memory) → Logs (Spares P) (announce_once h id ps mem)
  unfolding announce_once
  announce_once-Logs id ps mem = search (logs_rules, announce-Logs) depth 8

  -- A deletion needs the flag `auto_delete`, and a pod of the list that was answered.
  pub with_pods-Logs :
      (id : Text) (auto_delete : Bool) (now at : ℕ) (ts : List PublishTarget) (mem : Memory)
      (r : Result Error (List Pod))
      → (auto_delete ≡ true → (pods : List Pod) → r ≡ ok pods → Allows P at (users_of pods ts))
      → Logs (Spares P) (with_pods h id auto_delete now at ts mem r)
  unfolding with_pods
  with_pods-Logs id auto_delete now at ts mem (err e) k = Logs-pure mem
  with_pods-Logs id auto_delete now at ts mem (ok pods) k =
      Logs-bind _ _ (announce_once-Logs id _ mem) (λ mem'.
        Logs-bind _ _ (Logs-gets _) (λ on_hold. act auto_delete on_hold (λ e. k e pods refl) mem'))
    where
      act :
          (a on_hold : Bool)
          → (a ≡ true → Allows P at (users_of pods ts))
          → (mem' : Memory)
          → Logs
              (Spares P)
              (if not a || on_hold then pure mem' else remedy h id now at (users_of pods ts) mem')
      act false o k mem' = Logs-pure mem'
      act true true k mem' = Logs-pure mem'
      act true false k mem' = remedy-Logs id now at (users_of pods ts) (k refl) mem'
