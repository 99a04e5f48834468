-- ===== src/Kube/Deletion.antt =====
-- pkg/kube/client.go, DeletePod: what it asks the API server for, and what it makes of the answer.
use fileblock_csi.Base.{
  Bool, true, false, not, ◌&&◌, ◌==◌, leb, ◌≡◌, refl, ◌⊎◌, inl, inr, Option, none, some, Result, ok,
  err, ◌∷◌, ◌++◌, if◌then◌else◌, arith,
}
use fileblock_csi.Base.Text.{Text, lit, text_eq, trim_space}
use fileblock_csi.Machine.{Done}
use fileblock_csi.Kube.Net.{
  Json, Members, str, obj, end, member, delete, Request, Response, KubeError, api, other, Net, Link,
  HttpClient,
}
use fileblock_csi.Kube.Client.{
  request, verdict, message_of, perform, ignored, delete_pod, delete_options, pod_path, finish,
  unless_not_found,
}

-- The value at a key of a JSON object.
abbrev in_members : Text → Members → Option Json
in_members k end = none
in_members k (member j v ms) = let rest = in_members k ms in if text_eq j k then some v else rest

abbrev pub at_key : Text → Option Json → Option Json
at_key k (some (obj ms)) = in_members k ms
at_key k _ = none

module _ (n : Net) where
  -- What a deletion returns, by the answer: a pod that is not there is as good as deleted.
  abbrev pub outcome : Option Response → Result KubeError Done
  outcome none = err other
  outcome (some r) =
      if leb 300 r.code && not (r.code == 404) then err (api r.code (message_of n r)) else ok tt

  -- One request was sent: the deletion of the pod with this namespace and name, on the condition that
  -- it has this UID, with the token of the client's file.
  pub record Asked (c : HttpClient) (namespace name uid : Text) (s t : Link n)
      (result : Result KubeError Done) : Type 0 where
    pub token : Text
    pub token_read : n.read_token c.token_path s.sys ≡ some token
    pub request : Request
    pub sent : t.sent ≡ request ∷ s.sent
    pub deletes : request.verb ≡ delete
    pub of_pod :
        request.url
        ≡ c.base
          ++ (lit "/api/v1/namespaces/"
              ++ (n.path_escape namespace ++ (lit "/pods/" ++ n.path_escape name)))
    pub condition : at_key (lit "uid") (at_key (lit "preconditions") request.body) ≡ some (str uid)
    pub authorized : request.authorization ≡ lit "Bearer " ++ trim_space token
    pub answered : result ≡ outcome (n.send request s.sys).0

  -- No request was sent: the token cannot be read, or the URL is refused.
  pub record Stopped (c : HttpClient) (namespace name : Text) (s t : Link n)
      (result : Result KubeError Done) : Type 0 where
    pub cause :
        (n.read_token c.token_path s.sys ≡ none)
        ⊎ (n.is_url (c.base ++ pod_path n namespace name) ≡ false)
    pub failed : result ≡ err other
    pub same : t ≡ s

  deletion_verdict :
      (r : Option Response) → unless_not_found n (verdict n (ignored n) r) ≡ outcome r
  deletion_verdict none = refl
  deletion_verdict (some r) = ground arith

  -- A deletion sends one request or none. The one that it sends is the deletion of the pod, on the
  -- condition that the pod has this UID; it succeeds when the answer has a code below 300 or 404, and
  -- otherwise fails, with the code of the answer if there is one. It sends none, and fails, only when
  -- the token cannot be read or the URL is refused.
  pub delete_pod_lem :
      (c : HttpClient) (namespace name uid : Text) (s : Link n)
      → Asked c namespace name uid s
          (delete_pod n c namespace name uid s).1
          (delete_pod n c namespace name uid s).0
        ⊎ Stopped c namespace name s
            (delete_pod n c namespace name uid s).1
            (delete_pod n c namespace name uid s).0
  unfolding delete_pod perform text_eq
  delete_pod_lem c namespace name uid s =
      go (n.read_token c.token_path s.sys) refl (n.is_url (c.base ++ pod_path n namespace name))
        refl
    where
      go :
          (t : Option Text)
          → n.read_token c.token_path s.sys ≡ t
          → (u : Bool) → n.is_url (c.base ++ pod_path n namespace name) ≡ u
          → let r =
              finish n c delete
                (pod_path n namespace name)
                (some (delete_options n uid))
                (ignored n)
                s
                t
                u in
            Asked c namespace name uid s r.1 (unless_not_found n r.0)
            ⊎ Stopped c namespace name s r.1 (unless_not_found n r.0)
      go none et u eu = inr (record { cause = inl et; failed = refl; same = refl })
      go (some t) et false eu = inr (record { cause = inr eu; failed = refl; same = refl })
      go (some t) et true eu = inl (record {
        token = t;
        token_read = et;
        request = request n c delete (pod_path n namespace name) (some (delete_options n uid)) t;
        sent = refl;
        deletes = refl;
        of_pod = refl;
        condition = refl;
        authorized = refl;
        answered =
            deletion_verdict
              (n.send
                (request n c delete (pod_path n namespace name) (some (delete_options n uid)) t)
                s.sys).0;
      })
