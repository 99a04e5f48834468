-- ===== src/Program/Startup.antt =====
-- cmd/node/main.go: when the plugin starts, and when its monitor may delete pods.
use fileblock_csi.Base.{
  Bool, true, false, ◌≡◌, ◌≢◌, ◌↔◌, refl, Option, none, some, Result, ok, err, arith,
}
use fileblock_csi.Base.Text.{Text, lit}
use fileblock_csi.Base.Dict.{Dict}
use fileblock_csi.Base.Path.{join_path}
use fileblock_csi.Host.{Host, Error}
use fileblock_csi.Machine.{
  M, Machine, Mapping, Done, attempt, ◌>>=◌, ◌>>◌, make_dirs, continue, modify,
}
use fileblock_csi.Kube.Net.{Net, Link, HttpClient}
use fileblock_csi.Kube.Answers.{Enforced}
use fileblock_csi.Monitor.Reasons.{Deletable}
use fileblock_csi.Server.Endpoint.{Sockets}
use fileblock_csi.Program.Node.{
  NodeFlags, Wiring, World, policy_name, set_up, finish, main, load, need_node_id, new_registry,
  new_node_server, exit_code,
}
use fileblock_csi.Loop.Reconcile.{reconcile}
use fileblock_csi.Store.Registry.{adopt_existing}

-- The wiring of a start, and whether there is a client for the monitor.
abbrev pub has_client : Option HttpClient → Bool
has_client none = false
has_client (some c) = true

-- What allows the plugin to delete the pod with a UID, in ticks from a state: the flag, a client that
-- saw the policy enforced at the start, and a pod that the ticks may delete.
pub record Licence (h : Host) (n : Net) (client : Option HttpClient) (f : NodeFlags) (l : Link n)
    (wiring : Wiring) (s : Machine h) (uid : Text) : Type 0 where
  pub flag : f.auto_delete ≡ true
  pub api : HttpClient
  pub is_client : client ≡ some api
  pub enforced : Enforced n api policy_name l
  pub deletable : Deletable h (has_client wiring.client) wiring.deleting s uid

-- The steps of a start that have to succeed.
abbrev pub checks : (h : Host) → (Text → Option (Dict Mapping)) → NodeFlags → M h Done
checks h decode f = do
  need_node_id h f.node_id
  make_dirs h f.state_dir
  make_dirs h f.stores_root
  load h decode (join_path f.state_dir (lit "loop-mappings.json"))

module _ {h : Host} {A B : Type 0} where
  bind-same :
      (m : M h A) (f g : A → M h B)
      → ((a : A) (s : Machine h) → (f a s).0 ≡ (g a s).0)
      → (s : Machine h) → ((m >>= f) s).0 ≡ ((m >>= g) s).0
  unfolding ◌>>=◌
  bind-same m f g e s = go (m s).0 (m s).1
    where
      go : (r : Result Error A) (t : Machine h) → (continue r f t).0 ≡ (continue r g t).0
      go (ok a) t = e a t
      go (err x) t = refl

module _ {h : Host} where
  bind-ok :
      (m : M h Done) (f : Done → M h Done)
      → ((a : Done) (s : Machine h) → (f a s).0 ≡ ok tt)
      → (s : Machine h) → ((m >>= f) s).0 ≡ (m s).0
  unfolding ◌>>=◌
  bind-ok m f e s = go (m s).0 (m s).1
    where
      go : (r : Result Error Done) (t : Machine h) → (continue r f t).0 ≡ r
      go (ok a) t = e a t
      go (err x) t = refl

  -- What follows the checks, with no say in the result.
  tail : NodeFlags → Done → M h Done
  tail f d = do
    attempt (make_dirs h (lit "/run/cryptsetup"))
    attempt (reconcile h f.stores_root)
    new_registry h f.stores_root
    attempt (adopt_existing h)
    new_node_server h

  set_up-checks :
      (decode : Text → Option (Dict Mapping)) (f : NodeFlags) (s : Machine h)
      → (set_up h decode f s).0 ≡ (checks h decode f s).0
  unfolding set_up tail ◌>>=◌ modify
  set_up-checks decode f =
      let loading = load h decode (join_path f.state_dir (lit "loop-mappings.json")) in
      let stores = make_dirs h f.stores_root in
      let states = make_dirs h f.state_dir in
      bind-same (need_node_id h f.node_id) (λ _. states >>= λ _. stores >>= λ _. loading >>= tail f)
        (λ _. states >>= λ _. stores >>= λ _. loading)
        (λ _.
          bind-same states (λ _. stores >>= λ _. loading >>= tail f) (λ _. stores >>= λ _. loading)
            (λ _.
              bind-same stores (λ _. loading >>= tail f) (λ _. loading)
                (λ _. bind-ok loading (tail f) (λ _ s. refl))))

module _ {h : Host} {n : Net} {k : Sockets} where
  finish-exit :
      (client : Option HttpClient) (f : NodeFlags) (r : Result Error Done) (w : World h n k)
      → ((finish client f r w).0.code ≡ 2) ↔ (r ≢ ok tt)
  finish-exit client f (err x) w = (λ e q. absurd (ground arith), λ e. refl)
  finish-exit client f (ok d) w = (λ e. absurd (go _ e), λ x. absurd (x refl))
    where
      go : (r : Result Error Done) → exit_code r ≡ 2 → ⊥
      go (ok d) e = absurd (omega (arith, e))
      go (err x) e = absurd (omega (arith, e))

  -- The node plugin exits with code 2 exactly when a check fails: there is no node ID, a directory
  -- cannot be made, or the state cannot be loaded. A failed reconcile or adoption of stores never
  -- stops it.
  pub main-exit :
      (decode : Text → Option (Dict Mapping)) (client : Option HttpClient) (f : NodeFlags)
      (w : World h n k)
      → ((main decode client f w).0.code ≡ 2) ↔ ((checks h decode f w.machine).0 ≢ ok tt)
  unfolding main
  main-exit decode client f w =
      rw (← set_up-checks decode f w.machine)
        (finish-exit client f (set_up h decode f w.machine).0 _)
