-- ===== src/Kube/Answers.antt =====
-- pkg/kube/client.go: what the answers of the API server make of the calls.
use fileblock_csi.Base.{
  Bool, true, false, leb, ◌≡◌, refl, Option, none, some, Result, ok, err, List, ◌++◌, take, arith,
}
use fileblock_csi.Base.Text.{Text}
use fileblock_csi.Machine.{Done}
use fileblock_csi.Kube.Net.{Json, Verb, get, Response, KubeError, api, other, Net, Link, HttpClient}
use fileblock_csi.Kube.Client.{request, verdict, body_limit, finish, perform, ignored}
use fileblock_csi.Kube.Policy.{
  policy_path, binding_path, denies, denied, after_policy, policy_enforced,
}

module _ {n : Net} where
  -- The request was sent with the token of the client's file, and answered with a code below 300
  -- and a body that decodes to the value.
  pub record Answered {A : Type 0} (c : HttpClient) (v : Verb) (path : Text) (b : Option Json)
      (decode : Text → Option A) (s : Link n) (a : A) : Type 0 where
    pub token : Text
    pub token_read : n.read_token c.token_path s.sys ≡ some token
    pub response : Response
    pub received : (n.send (request n c v path b token) s.sys).0 ≡ some response
    pub success : leb 300 response.code ≡ false
    pub value : decode (take body_limit response.body) ≡ some a

  perform-Answered :
      {A : Type 0} (c : HttpClient) (v : Verb) (path : Text) (b : Option Json)
      (decode : Text → Option A) (s : Link n) (a : A)
      → (perform n c v path b decode s).0 ≡ ok a
      → Answered c v path b decode s a
  unfolding perform
  perform-Answered c v path b decode s a e =
      go (n.read_token c.token_path s.sys) refl (n.is_url (c.base ++ path)) e
    where
      go :
          (t : Option Text)
          → n.read_token c.token_path s.sys ≡ t
          → (u : Bool) → (finish n c v path b decode s t u).0 ≡ ok a
          → Answered c v path b decode s a
      go none et u q = absurd (ground arith)
      go (some t) et false q = absurd (ground arith)
      go (some t) et true q = sent (n.send (request n c v path b t) s.sys).0 refl q
        where
          sent :
              (r : Option Response)
              → (n.send (request n c v path b t) s.sys).0 ≡ r
              → verdict n decode r ≡ ok a
              → Answered c v path b decode s a
          sent none er q' = absurd (ground arith)
          sent (some r) er q' = record {
            token = t;
            token_read = et;
            response = r;
            received = er;
            success = ground arith;
            value = ground arith;
          }

-- What PolicyEnforced found when it answers yes: the policy exists, and the actions of the binding
-- of its name, as the second answer gives them, have "Deny" among them.
pub record Enforced (n : Net) (c : HttpClient) (name : Text) (s : Link n) : Type 0 where
  pub policy : Answered c get (policy_path n name) none (ignored n) s tt
  pub between : Link n
  pub actions : List Text
  pub binding : Answered c get (binding_path n name) none n.decode_actions between actions
  pub denial : denies n actions ≡ true

module _ (n : Net) where
  denied-true :
      (r : Result KubeError (List Text))
      → denied n r ≡ ok true
      → (actions : List Text) × (r ≡ ok actions) × (denies n actions ≡ true)
  denied-true (ok actions) e = (actions, refl, ground arith)
  denied-true (err (api code message)) e = absurd (ground arith)
  denied-true (err other) e = absurd (ground arith)

  -- PolicyEnforced answers yes only after the API server showed the policy, and a binding of the
  -- same name that denies; each answer came to a request with the client's token, and had a code
  -- below 300.
  pub policy_enforced-Enforced :
      (c : HttpClient) (name : Text) (s : Link n)
      → (policy_enforced n c name s).0 ≡ ok true
      → Enforced n c name s
  unfolding policy_enforced
  policy_enforced-Enforced c name s e =
      go (perform n c get (policy_path n name) none (ignored n) s) refl e
    where
      go :
          (r : Result KubeError Done × Link n)
          → perform n c get (policy_path n name) none (ignored n) s ≡ r
          → (after_policy n c name r.0 r.1).0 ≡ ok true
          → Enforced n c name s
      go (err (api code message), t) q x = absurd (ground arith)
      go (err other, t) q x = absurd (ground arith)
      go (ok d, t) q x =
          let (actions, answered, denial) =
            denied-true (perform n c get (binding_path n name) none n.decode_actions t).0 x in
          record {
            policy = perform-Answered c get (policy_path n name) none (ignored n) s tt (rw q refl);
            between = t;
            actions = actions;
            binding =
                perform-Answered c get (binding_path n name) none n.decode_actions t actions
                  answered;
            denial = denial;
          }
