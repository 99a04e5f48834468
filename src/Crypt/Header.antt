-- ===== src/Crypt/Header.antt =====
-- pkg/crypt/crypt.go, rotate, over a device whose key slots behave as cryptsetup documents.
use fileblock_csi.Base.{
  Bool, true, false, not, ◌&&◌, ◌||◌, ◌≡◌, refl, sym, ◌∙◌, Option, none, some, Result, ok, err,
  if◌then◌else◌, arith,
}
use fileblock_csi.Base.Text.{Text, is_empty, text_eq, text_eq_iff, text_eq_refl}
use fileblock_csi.Host.{Host, Error}
use fileblock_csi.Machine.{Machine, Keys, attempt, lift, pure, fail, ◌>>=◌, run_cmd}
use fileblock_csi.Crypt.Luks.{
  Outcome, cryptsetup, is_exit, test_command, add_command, remove_command, opens, luks_add_key,
  luks_remove_key, rotate_slots, rotate,
}

abbrev succeeded : Option Error → Bool
succeeded none = true
succeeded (some e) = false

abbrev refused : Option Error → Bool
refused none = false
refused (some e) = is_exit 2 e

-- The keys that open the header of a device, and what cryptsetup's commands do to them: the test
-- exits with 2 for a key that opens no slot, and a command that fails changes no slot.
pub record KeySlots (h : Host) (dev : Text) : Type 0 where
  pub opened_by : h.State → Text → Bool
  pub test_yes :
      (key : Text) (s : h.State)
      → opened_by s key ≡ true
      → (h.run (test_command h dev key) s).0.1 ≡ none
  pub test_no :
      (key : Text) (s : h.State)
      → opened_by s key ≡ false
      → refused (h.run (test_command h dev key) s).0.1 ≡ true
  pub test_keeps :
      (key j : Text) (s : h.State)
      → opened_by (h.run (test_command h dev key) s).1 j ≡ opened_by s j
  pub add :
      (k : Keys) (j : Text) (s : h.State)
      → opened_by (h.run (add_command h dev k) s).1 j ≡ (
          if succeeded (h.run (add_command h dev k) s).0.1
          then text_eq j k.current || opened_by s j
          else opened_by s j)
  pub remove :
      (key j : Text) (s : h.State)
      → opened_by (h.run (remove_command h dev key) s).1 j ≡ (
          if succeeded (h.run (remove_command h dev key) s).0.1
          then not (text_eq j key) && opened_by s j
          else opened_by s j)

abbrev is_ok {ℓ κ} : {E : Type κ} {A : Type ℓ} → Result E A → Bool
is_ok (ok a) = true
is_ok (err e) = false

module _ (h : Host) (dev : Text) (slots : KeySlots h dev) where
  -- The machine's slots.
  abbrev pub now_opens : Machine h → Text → Bool
  now_opens s j = slots.opened_by s.sys j

  opens-answer : (key : Text) (s : Machine h) → (opens h dev key s).0 ≡ ok (now_opens s key)
  unfolding opens cryptsetup run_cmd ◌>>=◌ attempt lift
  opens-answer key s = ground (arith, slots.test_yes key s.sys, slots.test_no key s.sys)

  opens-keeps : (key j : Text) (s : Machine h) → now_opens (opens h dev key s).1 j ≡ now_opens s j
  unfolding opens cryptsetup run_cmd ◌>>=◌ attempt lift
  opens-keeps key j s = slots.test_keeps key j s.sys

  add-opens :
      (k : Keys) (j : Text) (s : Machine h)
      → now_opens (luks_add_key h dev k s).1 j ≡ (
          if is_ok (luks_add_key h dev k s).0
          then text_eq j k.current || now_opens s j
          else now_opens s j)
  unfolding luks_add_key cryptsetup run_cmd ◌>>=◌ pure
  add-opens k j s = ground (arith, slots.add k j s.sys)

  remove-opens :
      (key j : Text) (s : Machine h)
      → now_opens (luks_remove_key h dev key s).1 j ≡ (
          if is_ok (luks_remove_key h dev key s).0
          then not (text_eq j key) && now_opens s j
          else now_opens s j)
  unfolding luks_remove_key cryptsetup run_cmd ◌>>=◌ pure
  remove-opens key j s = ground (arith, slots.remove key j s.sys)

  -- Success leaves the volume to its current key alone; failure locks no one out.
  record Settled (k : Keys) (s : Machine h) (r : Result Error Outcome × Machine h) : Type 0 where
    pub current_opens : is_ok r.0 ≡ true → now_opens r.1 k.current ≡ true
    pub previous_gone : is_ok r.0 ≡ true → now_opens r.1 k.previous ≡ false
    pub openable :
        (now_opens s k.current || now_opens s k.previous) ≡ true
        → (now_opens r.1 k.current || now_opens r.1 k.previous) ≡ true

  rotate_slots-Settled :
      (k : Keys) (s : Machine h) (c p : Bool)
      → text_eq k.previous k.current ≡ false
      → text_eq k.current k.previous ≡ false
      → now_opens s k.current ≡ c
      → now_opens s k.previous ≡ p
      → Settled k s (rotate_slots h dev k c p s)
  unfolding rotate_slots ◌>>=◌ pure fail
  rotate_slots-Settled k s false false d d' ec ep = record {
    current_opens = λ q. absurd (ground arith);
    previous_gone = λ q. absurd (ground arith);
    openable = λ q. q;
  }
  rotate_slots-Settled k s true false d d' ec ep = record {
    current_opens = λ q. ec;
    previous_gone = λ q. ep;
    openable = λ q. q;
  }
  rotate_slots-Settled k s true true d d' ec ep = record {
    current_opens = λ q. ground (arith, remove-opens k.previous k.current s);
    previous_gone =
        λ q. ground (arith, remove-opens k.previous k.previous s, text_eq_refl k.previous);
    openable = λ q. ground (arith, remove-opens k.previous k.current s);
  }
  rotate_slots-Settled k s false true d d' ec ep =
      let t = (luks_add_key h dev k s).1 in
      record {
        current_opens = λ q. ground (
          arith,
          add-opens k k.current s,
          remove-opens k.previous k.current t,
          text_eq_refl k.current,
        );
        previous_gone =
            λ q. ground (arith, remove-opens k.previous k.previous t, text_eq_refl k.previous);
        openable = λ q. ground (
          arith,
          add-opens k k.current s,
          add-opens k k.previous s,
          remove-opens k.previous k.current t,
          text_eq_refl k.current,
        );
      }

  text_eq_flip : (a b : Text) → text_eq a b ≡ false → text_eq b a ≡ false
  text_eq_flip a b e = ground (arith, text_eq_iff a b, text_eq_iff b a)

  after_tests : Keys → Machine h → Machine h
  after_tests k s = (opens h dev k.previous (opens h dev k.current s).1).1

  rotate-slots :
      (k : Keys) (s : Machine h)
      → is_empty k.previous ≡ false
      → text_eq k.previous k.current ≡ false
      → rotate h dev k s
        ≡ rotate_slots h dev k
            (now_opens s k.current)
            (now_opens (opens h dev k.current s).1 k.previous)
            (after_tests k s)
  unfolding rotate ◌>>=◌ after_tests
  rotate-slots k s n d =
      rw (opens-answer k.current s, n, d, opens-answer k.previous (opens h dev k.current s).1) refl

  after_tests-keeps :
      (k : Keys) (j : Text) (s : Machine h) → now_opens (after_tests k s) j ≡ now_opens s j
  unfolding after_tests
  after_tests-keeps k j s =
      opens-keeps k.previous j (opens h dev k.current s).1 ∙ opens-keeps k.current j s

  rotate-Settled :
      (k : Keys) (s : Machine h)
      → is_empty k.previous ≡ false
      → text_eq k.previous k.current ≡ false
      → Settled k s (rotate h dev k s)
  rotate-Settled k s n d =
      let u = after_tests k s in
      let p = now_opens (opens h dev k.current s).1 k.previous in
      let r =
        rotate_slots-Settled k u (now_opens s k.current) p d (text_eq_flip _ _ d)
          (after_tests-keeps k k.current s)
          (after_tests-keeps k k.previous s ∙ sym (opens-keeps k.current k.previous s)) in
      record {
        current_opens = rw (rotate-slots k s n d) r.current_opens;
        previous_gone = rw (rotate-slots k s n d) r.previous_gone;
        openable = λ q.
            rw (rotate-slots k s n d) (
              r.openable
                (rw (after_tests-keeps k k.current s, after_tests-keeps k k.previous s) q));
      }

  -- Over a header whose key slots behave as cryptsetup documents, a rotation to a key that differs
  -- from a previous one, when it succeeds, leaves a device that the current key opens and the
  -- previous key does not.
  pub rotate-turns :
      (k : Keys) (s : Machine h) (o : Outcome)
      → is_empty k.previous ≡ false
      → text_eq k.previous k.current ≡ false
      → (rotate h dev k s).0 ≡ ok o
      → (now_opens (rotate h dev k s).1 k.current ≡ true)
        × (now_opens (rotate h dev k s).1 k.previous ≡ false)
  rotate-turns k s o n d e =
      let r = rotate-Settled k s n d in (r.current_opens (rw e refl), r.previous_gone (rw e refl))

  -- Over a header whose key slots behave as cryptsetup documents, a rotation to a key that differs
  -- from a previous one locks no one out, whether it succeeds or fails at any of its commands: a
  -- device that one of the two keys opened is still opened by one.
  pub rotate-openable :
      (k : Keys) (s : Machine h)
      → is_empty k.previous ≡ false
      → text_eq k.previous k.current ≡ false
      → (now_opens s k.current || now_opens s k.previous) ≡ true
      → (now_opens (rotate h dev k s).1 k.current || now_opens (rotate h dev k s).1 k.previous)
        ≡ true
  rotate-openable k s n d e = (rotate-Settled k s n d).openable e
