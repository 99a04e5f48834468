-- ===== src/Machine/Logs.antt =====
-- Which calls an action can make: a predicate that every call it records satisfies, whether it
-- returns or fails. One rule for each way to build an action.
use mathlib.Core.List.{append_assoc}
use fileblock_csi.Base.{
  ℕ, Bool, true, false, ◌≡◌, refl, Result, ok, err, List, [], ◌∷◌, ◌++◌, All, if◌then◌else◌,
}
use fileblock_csi.Base.Text.{Text}
use fileblock_csi.Base.Int.{ℤ}
use fileblock_csi.Host.{
  Host, Cmd, Error, Op, ran, truncated, removed, made_dir, wrote, sent_event, deleted_pod,
}
use fileblock_csi.Machine.{
  M, Machine, pure, fail, lift, gets, attempt, wrap_err, continue, ◌>>=◌, modify, run_full, run_cmd,
  run, stat, truncate, remove, make_dirs, read_dir, read_at, write_file, read_text, glob, in_time,
  list_pods, delete_pod, send_event,
}

-- The log of `t` is that of `s` with calls added that all satisfy the predicate.
pub record Extends {h : Host} (P : Op → Type 0) (s t : Machine h) : Type 0 where
  pub added : List Op
  pub grown : t.log ≡ added ++ s.log
  pub allowed : All P added

pub record Logs {h : Host} {A : Type 0} (P : Op → Type 0) (m : M h A) : Type 0 where
  pub at : (s : Machine h) → Extends P s (m s).1

All-append {κ} :
    {A : Type 0} (P : A → Type κ) (xs ys : List A) → All P xs → All P ys → All P (xs ++ ys)
All-append P [] ys a b = b
All-append P (x ∷ xs) ys a b = (a.0, All-append P xs ys a.1 b)

module _ {h : Host} {P : Op → Type 0} where
  pub Extends-refl : (s : Machine h) → Extends P s s
  Extends-refl s = record { added = []; grown = refl; allowed = tt }

  pub Extends-trans : {s t u : Machine h} → Extends P s t → Extends P t u → Extends P s u
  Extends-trans {s} e f = record {
    added = f.added ++ e.added;
    grown = rw (append_assoc f.added e.added s.log) (rw (← e.grown) f.grown);
    allowed = All-append P f.added e.added f.allowed e.allowed;
  }

  module _ {A : Type 0} where
    pub Logs-pure : (a : A) → Logs {h = h} P (pure a)
    unfolding pure
    Logs-pure a = record { at = Extends-refl }

    pub Logs-fail : (e : Error) → Logs {h = h} {A = A} P (fail e)
    unfolding fail
    Logs-fail e = record { at = Extends-refl }

    pub Logs-lift : (r : Result Error A) → Logs {h = h} P (lift r)
    unfolding lift
    Logs-lift r = record { at = Extends-refl }

    pub Logs-gets : (f : Machine h → A) → Logs P (gets f)
    unfolding gets
    Logs-gets f = record { at = Extends-refl }

    pub Logs-attempt : (m : M h A) → Logs P m → Logs P (attempt m)
    unfolding attempt
    Logs-attempt m l = record { at = λ s. l.at s }

    pub Logs-wrap_err : (m : M h A) (g : Error → Error) → Logs P m → Logs P (wrap_err m g)
    unfolding wrap_err
    Logs-wrap_err m g l = record { at = λ s. l.at s }

    pub Logs-if :
        (b : Bool) (m n : M h A)
        → (b ≡ true → Logs P m)
        → (b ≡ false → Logs P n)
        → Logs P (if b then m else n)
    Logs-if true m n l k = l refl
    Logs-if false m n l k = k refl

  module _ {A B : Type 0} where
    continue-Extends :
        (r : Result Error A) (f : A → M h B) (s : Machine h)
        → ((a : A) → Logs P (f a))
        → Extends P s (continue r f s).1
    continue-Extends (ok a) f s l = (l a).at s
    continue-Extends (err e) f s l = Extends-refl s

    pub Logs-bind :
        (m : M h A) (f : A → M h B) → Logs P m → ((a : A) → Logs P (f a)) → Logs P (m >>= f)
    unfolding ◌>>=◌
    Logs-bind m f l k = record {
      at = λ s. Extends-trans (l.at s) (continue-Extends (m s).0 f (m s).1 k);
    }

    -- A sequence from one state, where what its first action returns there is known.
    pub bind-Extends :
        (m : M h A) (f : A → M h B) (s : Machine h)
        → Extends P s (m s).1
        → ((a : A) → (m s).0 ≡ ok a → Extends P (m s).1 (f a (m s).1).1)
        → Extends P s ((m >>= f) s).1
    unfolding ◌>>=◌
    bind-Extends m f s l k = go (m s).0 refl
      where
        go : (r : Result Error A) → (m s).0 ≡ r → Extends P s (continue r f (m s).1).1
        go (ok a) e = Extends-trans l (k a e)
        go (err x) e = l

    pub Logs-then : (m : M h A) (n : M h B) → Logs P m → Logs P n → Logs P (m >>= λ _. n)
    Logs-then m n l k = Logs-bind m (λ _. n) l (λ _. k)

module _ {h : Host} {P : Op → Type 0} where
  -- A call that adds one entry to the log.
  Extends-one : {s t : Machine h} (o : Op) → t.log ≡ o ∷ s.log → P o → Extends P s t
  Extends-one o e p = record { added = o ∷ []; grown = e; allowed = (p, tt) }

  Extends-none : {s t : Machine h} → t.log ≡ s.log → Extends P s t
  Extends-none e = record { added = []; grown = e; allowed = tt }

  pub Logs-run_full : (c : Cmd) → P (ran c) → Logs P (run_full h c)
  unfolding run_full
  Logs-run_full c p = record { at = λ s. Extends-one (ran c) refl p }

  pub Logs-run_cmd : (c : Cmd) → P (ran c) → Logs P (run_cmd h c)
  unfolding run_cmd
  Logs-run_cmd c p = record { at = λ s. Extends-one (ran c) refl p }

  pub Logs-run :
      (name : Text) (args : List Text)
      → P (ran (record { name = name; args = args; env = []; secrets = [] }))
      → Logs P (run h name args)
  unfolding run
  Logs-run name args p = record { at = λ s. Extends-one (ran _) refl p }

  pub Logs-truncate : (path : Text) (n : ℤ) → P (truncated path n) → Logs P (truncate h path n)
  unfolding truncate
  Logs-truncate path n p = record { at = λ s. Extends-one (truncated path n) refl p }

  pub Logs-remove : (path : Text) → P (removed path) → Logs P (remove h path)
  unfolding remove
  Logs-remove path p = record { at = λ s. Extends-one (removed path) refl p }

  pub Logs-make_dirs : (path : Text) → P (made_dir path) → Logs P (make_dirs h path)
  unfolding make_dirs
  Logs-make_dirs path p = record { at = λ s. Extends-one (made_dir path) refl p }

  pub Logs-write_file : (path : Text) → P (wrote path) → Logs P (write_file h path)
  unfolding write_file
  Logs-write_file path p = record { at = λ s. Extends-one (wrote path) refl p }

  pub Logs-delete_pod :
      (namespace name uid : Text) → P (deleted_pod uid) → Logs P (delete_pod h namespace name uid)
  unfolding delete_pod
  Logs-delete_pod namespace name uid p = record { at = λ s. Extends-one (deleted_pod uid) refl p }

  pub Logs-send_event : (uid : Text) → P (sent_event uid) → Logs P (send_event h uid)
  unfolding send_event
  Logs-send_event uid p = record { at = λ s. Extends-one (sent_event uid) refl p }

  pub Logs-stat : (path : Text) → Logs P (stat h path)
  unfolding stat
  Logs-stat path = record { at = λ s. Extends-none refl }

  pub Logs-read_dir : (path : Text) → Logs P (read_dir h path)
  unfolding read_dir
  Logs-read_dir path = record { at = λ s. Extends-none refl }

  pub Logs-read_at : (path : Text) (off n : ℕ) → Logs P (read_at h path off n)
  unfolding read_at
  Logs-read_at path off n = record { at = λ s. Extends-none refl }

  pub Logs-read_text : (path : Text) → Logs P (read_text h path)
  unfolding read_text
  Logs-read_text path = record { at = λ s. Extends-none refl }

  pub Logs-glob : (pattern : Text) → Logs P (glob h pattern)
  unfolding glob
  Logs-glob pattern = record { at = λ s. Extends-none refl }

  pub Logs-in_time : Logs P (in_time h)
  unfolding in_time
  Logs-in_time = record { at = λ s. Extends-none refl }

  pub Logs-list_pods : Logs P (list_pods h)
  unfolding list_pods
  Logs-list_pods = record { at = λ s. Extends-none refl }

  pub Logs-modify :
      (f : Machine h → Machine h) → ((s : Machine h) → (f s).log ≡ s.log) → Logs P (modify h f)
  unfolding modify
  Logs-modify f e = record { at = λ s. Extends-none (e s) }

pub ruleset logs_rules = (
  Logs-pure, Logs-fail, Logs-lift, Logs-gets, Logs-attempt, Logs-wrap_err, Logs-if, Logs-then,
  Logs-bind, Logs-run_full, Logs-run_cmd, Logs-run, Logs-stat, Logs-read_dir, Logs-read_at,
  Logs-read_text, Logs-glob, Logs-in_time, Logs-list_pods,
)
