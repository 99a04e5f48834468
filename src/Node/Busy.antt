-- ===== src/Node/Busy.antt =====
-- pkg/driver/node.go, stageLocked: a loop of the image that is mounted elsewhere refuses the stage.
use fileblock_csi.Base.{
  Bool, true, false, ◌≡◌, refl, sym, ◌∙◌, none, Result, ok, List, [], ◌∷◌, any, if◌then◌else◌,
  arith, Bool-cases, inl, inr,
}
use fileblock_csi.Base.Int.{ℤ}
use fileblock_csi.Base.Text.{Text, lit, is_empty, text_eq, text_eq_iff, trim_space}
use fileblock_csi.Host.{Host, Error, Op, ran, status, failed_precondition}
use fileblock_csi.Machine.{Machine, pure, fail, lift, attempt, wrap_err, run, ◌>>=◌}
use fileblock_csi.Machine.Success.{Fails, Fails-not-ok, bind-Fails, wrap_err-ok}
use fileblock_csi.Machine.Logs.{
  Logs, Extends, logs_rules, Logs-pure, Logs-fail, Logs-if, Logs-wrap_err, Logs-bind, bind-Extends,
}
use fileblock_csi.Mount.Commands.{
  findmnt_target, is_source_mounted, is_source_mounted_in_host, source_mounted,
}
use fileblock_csi.Node.Checks.{to_internal, holders, loop_busy, check_idle}
use fileblock_csi.Node.Plan.{Plan}
use fileblock_csi.Node.Stage.{stage_fresh}
use fileblock_csi.Node.Stacked.{call}

-- A call that only looks: a findmnt.
abbrev pub Looks : Op → Type 0
Looks (ran c) = text_eq c.name (lit "findmnt") ≡ true
Looks _ = true ≡ false

-- A host on which a device stays mounted: findmnt -S shows a target for it.
pub record Mounted (h : Host) (dev : Text) : Type 0 where
  pub out : h.State → Text
  pub found :
      (s : h.State)
      → (h.run (call (lit "findmnt") (findmnt_target (lit "-S" ∷ dev ∷ []))) s).0 ≡ (out s, none)
  pub shown : (s : h.State) → is_empty (trim_space (out s)) ≡ false

module _ (h : Host) where
  loop_busy-Looks : (dev : Text) → Logs Looks (loop_busy h dev)
  unfolding loop_busy is_source_mounted is_source_mounted_in_host source_mounted holders text_eq
  loop_busy-Looks dev = search logs_rules depth 12

  check_idle-Looks : (devs : List Text) → Logs Looks (check_idle h devs)
  unfolding check_idle
  check_idle-Looks [] = Logs-pure tt
  check_idle-Looks (dev ∷ devs) = Logs-bind _ _ (Logs-wrap_err _ _ (loop_busy-Looks dev)) (λ busy.
      Logs-if busy (fail (status failed_precondition)) (check_idle h devs) (λ _. Logs-fail _)
        (λ _. check_idle-Looks devs))

  loop_busy-true : (dev : Text) → Mounted h dev → (s : Machine h) → (loop_busy h dev s).0 ≡ ok true
  unfolding loop_busy is_source_mounted source_mounted ◌>>=◌ attempt run lift pure
  loop_busy-true dev m s = rw (m.found s.sys) (rw (m.shown s.sys) refl)

  -- The verdict on one loop: a busy one refuses, and an idle one leaves the rest to decide.
  refused :
      (devs : List Text) (busy : Bool) (t : Machine h)
      → (busy ≡ false → Fails (check_idle h devs t).0)
      → Fails ((if busy then fail (status failed_precondition) else check_idle h devs) t).0
  unfolding fail
  refused devs true t k = record { error = status failed_precondition; is_error = refl }
  refused devs false t k = k refl

  never_idle :
      (d : Text) (busy : Bool) (s : Machine h)
      → Mounted h d
      → busy ≡ false
      → (loop_busy h d s).0 ≡ ok busy
      → ⊥
  never_idle d busy s m f e =
      let k : ◌≡◌ {A = Result Error Bool} (ok true) (ok busy) = sym (loop_busy-true d m s) ∙ e in
      absurd (ground (arith, k, f))

  check_idle-Fails :
      (dev : Text)
      → Mounted h dev
      → (devs : List Text) → any (λ d. text_eq d dev) devs ≡ true
      → (s : Machine h) → Fails (check_idle h devs s).0
  unfolding check_idle
  check_idle-Fails dev m [] e s = absurd (ground arith)
  check_idle-Fails dev m (d ∷ devs) e s = elim (Bool-cases (text_eq d dev)) [
    | inl q ↦ bind-Fails (wrap_err (loop_busy h d) (to_internal h)) _ s (λ busy r.
        refused devs busy _ (λ f. absurd (
          never_idle d busy s (rw ((text_eq_iff d dev).0 q) m) f
            (wrap_err-ok (loop_busy h d) (to_internal h) s busy r))))
    | inr q ↦
        bind-Fails (wrap_err (loop_busy h d) (to_internal h)) _ s (λ busy r.
          refused devs busy _ (λ f. check_idle-Fails dev m devs (ground (arith, e, q)) _))
  ]

-- A stage of a path that is not mounted fails when one of the loops of its image stays mounted
-- elsewhere, and it has only run findmnt: it detaches nothing and attaches no second loop.
pub stage_fresh-Fails :
    (h : Host) (p : Plan) (image : Text) (size : ℤ) (loops : List Text) (dev : Text) (s : Machine h)
    → Mounted h dev
    → any (λ d. text_eq d dev) loops ≡ true
    → Fails (stage_fresh h p image size loops s).0
      × Extends Looks s (stage_fresh h p image size loops s).1
unfolding stage_fresh
stage_fresh-Fails h p image size loops dev s m e =
    let f = check_idle-Fails h dev m loops e s in
    (
      bind-Fails (check_idle h loops) _ s (λ d q. absurd (Fails-not-ok _ d f q)),
      bind-Extends (check_idle h loops) _ s ((check_idle-Looks h loops).at s)
          (λ d q. absurd (Fails-not-ok _ d f q)),
    )
