-- ===== src/Monitor/Hold.antt =====
-- pkg/driver/monitor.go: the hold after a remediation, and what it prevents.
use fileblock_csi.Base.{
  ℕ, ◌+◌, ◌++◌, Bool, true, false, ◌||◌, ◌≡◌, refl, none, some, ok, List, [], ◌∷◌, any, Bool-cases,
  Option-cases, inl, inr,
}
use fileblock_csi.Base.Text.{Text, text_eq_refl}
use fileblock_csi.Base.Dict.{insert, lookup-insert, has_key}
use fileblock_csi.Base.Path.{slash}
use fileblock_csi.Host.{Host, Pod}
use fileblock_csi.Machine.{Machine, attempt, ◌>>=◌, modify, delete_pod}
use fileblock_csi.Driver.Failures
use fileblock_csi.Monitor.Remedy.{Skip, skip_reason}
use fileblock_csi.Monitor.Tick.{Memory, skip_pod, delete_users, remedy, remediation_hold}

abbrev pub can_delete : ℕ → Pod → Bool
can_delete at p = elim (skip_reason p at) [ none ↦ true | some r ↦ false ]

or_any-deletable :
    (at : ℕ) (b : Bool) (p : Pod) (ps : List Pod)
    → skip_reason p at ≡ none
    → (b || any (can_delete at) (p ∷ ps)) ≡ true
or_any-deletable at true p ps e = refl
or_any-deletable at false p ps e = rw (e, ◌||◌) refl

or_any-spared :
    (at : ℕ) (b : Bool) (p : Pod) (ps : List Pod) (r : Skip)
    → skip_reason p at ≡ some r
    → (b || any (can_delete at) (p ∷ ps)) ≡ (b || any (can_delete at) ps)
or_any-spared at true p ps r e = refl
or_any-spared at false p ps r e = rw (e, ◌||◌) refl

module _ (h : Host) where
  skip_pod-returns :
      (id : Text) (p : Pod) (mem : Memory) (s : Machine h)
      → (mem' : Memory) × ((skip_pod h id p mem s).0 ≡ ok mem')
  unfolding skip_pod ◌>>=◌
  skip_pod-returns id p mem s =
      elim (Bool-cases (has_key (id ++ (slash ∷ p.uid)) mem.skip_evented)) [
        | inl e ↦ (mem, rw (e, skip_pod) refl)
        | inr e ↦ (
          record mem { skip_evented = insert (id ++ (slash ∷ p.uid)) true mem.skip_evented },
          rw (e, skip_pod) refl,
        )
      ]

  -- The loop over the users never fails, and its flag says whether a deletion was tried.
  delete_users-returns :
      (id : Text) (at : ℕ) (ps : List Pod) (b : Bool) (mem : Memory) (s : Machine h)
      → (mem' : Memory) × ((delete_users h id at ps b mem s).0
          ≡ ok (b || any (can_delete at) ps, mem'))
  unfolding delete_users ◌>>=◌
  delete_users-returns id at [] true mem s = (mem, refl)
  delete_users-returns id at [] false mem s = (mem, refl)
  delete_users-returns id at (p ∷ ps) b mem s = elim (Option-cases (skip_reason p at)) [
    | inl e ↦
        (let ih =
            delete_users-returns id at ps true mem
              (attempt (delete_pod h p.namespace p.name p.uid) s).1 in
          (ih.0, rw (or_any-deletable at b p ps e, e, delete_users) ih.1))
    | inr (r, e) ↦
        (let done = skip_pod-returns id p mem s in
          let ih = delete_users-returns id at ps b done.0 (skip_pod h id p mem s).1 in
          (ih.0, rw (or_any-spared at b p ps r e, e, delete_users, done.1) ih.1))
  ]

-- When one of a volume's users can be deleted, the remediation holds the volume off for 300 seconds,
-- whatever the deletions return.
remedy-hold :
    (h : Host) (id : Text) (now at : ℕ) (ps : List Pod) (mem : Memory) (s : Machine h)
    → any (can_delete at) ps ≡ true
    → Failures.held_until id (remedy h id now at ps mem s).1.failures ≡ now + 300
unfolding remedy ◌>>=◌ modify Failures.held_until Failures.hold
remedy-hold h id now at ps mem s e =
    let done = delete_users-returns h id at ps false mem s in
    let t = (delete_users h id at ps false mem s).1 in
    rw (done.1, e, lookup-insert id id (now + remediation_hold) t.failures.held, text_eq_refl id)
      refl
