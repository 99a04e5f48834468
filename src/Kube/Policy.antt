-- ===== src/Kube/Policy.antt =====
-- pkg/kube/client.go, PolicyEnforced: whether the admission policy is there, with a binding of its
-- name.
use fileblock_csi.Base.{Bool, false, any, none, Result, ok, err, List, ◌++◌, if◌then◌else◌}
use fileblock_csi.Base.Text.{Text, lit, text_eq}
use fileblock_csi.Machine.{Done}
use fileblock_csi.Kube.Net.{get, KubeError, Net, HttpClient}
use fileblock_csi.Kube.Client.{K, is_not_found, perform, ignored}

module _ (n : Net) where
  abbrev pub policy_path : Text → Text
  policy_path name =
      lit "/apis/admissionregistration.k8s.io/v1/validatingadmissionpolicies/" ++ n.path_escape name

  abbrev pub binding_path : Text → Text
  binding_path name =
      lit "/apis/admissionregistration.k8s.io/v1/validatingadmissionpolicybindings/"
      ++ n.path_escape name

  abbrev false_if_not_found : KubeError → Result KubeError Bool
  false_if_not_found e = if is_not_found e then ok false else err e

  abbrev pub denies : List Text → Bool
  denies actions = any (λ a. text_eq a (lit "Deny")) actions

  abbrev pub denied : Result KubeError (List Text) → Result KubeError Bool
  denied (ok actions) = ok (denies actions)
  denied (err e) = false_if_not_found e

  abbrev pub binding_enforced : HttpClient → Text → K n Bool
  binding_enforced c name s =
      let (r, s') = perform n c get (binding_path name) none n.decode_actions s in (denied r, s')

  abbrev pub after_policy : HttpClient → Text → Result KubeError Done → K n Bool
  after_policy c name (err e) s = (false_if_not_found e, s)
  after_policy c name (ok d) s = binding_enforced c name s

  -- PolicyEnforced: the policy exists, and its binding denies.
  unfoldable pub policy_enforced : HttpClient → Text → K n Bool
  unfolding perform text_eq
  policy_enforced c name s =
      let (r, s') = perform n c get (policy_path name) none (ignored n) s in
      after_policy c name r s'
