-- ===== src/Kube/Client.antt =====
-- pkg/kube/client.go: HTTPClient and its four calls.
use fileblock_csi.Base.{
  ◌&&◌, ◌||◌, ℕ, ◌*◌, ◌^◌, Bool, true, false, ◌==◌, leb, Option, none, some, Result, ok, err, List,
  [], ◌∷◌, ◌++◌, if◌then◌else◌, take,
}
use fileblock_csi.Base.Text.{Text, lit, is_empty, trim_space}
use fileblock_csi.Host.{Pod}
use fileblock_csi.Machine.{Done}
use fileblock_csi.Kube.Net.{
  Json, Members, str, num, obj, end, member, Verb, get, post, delete, Request, Response, KubeError,
  api, other, Net, Link, HttpClient,
}

abbrev pub K : (n : Net) → Type 0 → Type 0
K n A = Link n → Result KubeError A × Link n

-- strings.TrimRight(s, "/")
unfoldable pub trim_slashes : Text → Text
trim_slashes [] = []
trim_slashes (c ∷ s) =
    let rest = trim_slashes s in if c == b'/' && is_empty rest then [] else c ∷ rest

unfoldable pub new_http_client : Text → Text → HttpClient
unfolding trim_slashes
new_http_client base token_path = record { base = trim_slashes base; token_path = token_path }

abbrev pub sa_dir : Text
sa_dir = lit "/var/run/secrets/kubernetes.io/serviceaccount"

-- InCluster, given the two variables, what ca.crt holds if it can be read, whether that has a
-- certificate, and net.JoinHostPort.
unfoldable pub in_cluster :
    (Text → Text → Text) → (Text → Bool) → Text → Text → Option Text → Option HttpClient
unfolding new_http_client
in_cluster join_host_port has_certificate host port ca =
    if is_empty host || is_empty port then none else elim ca [
      | none ↦ none
      | some pem ↦
          if has_certificate pem
          then some (
              new_http_client (lit "https://" ++ join_host_port host port) (sa_dir ++ lit "/token"))
          else none
    ]

abbrev pub fields : List (Text × Json) → Members
fields [] = end
fields ((k, v) ∷ ms) = member k v (fields ms)

abbrev pub is_not_found : KubeError → Bool
is_not_found (api code message) = code == 404
is_not_found other = false

-- What is read of a body: 4 MiB at most.
abbrev pub body_limit : ℕ
body_limit = 4 * 2 ^ 20

module _ (n : Net) where
  abbrev pub message_of : Response → Text
  message_of r =
      let m = n.decode_message (take body_limit r.body) in
      if is_empty m then n.status_text r.code else m

  abbrev decoded : {A : Type 0} → (Text → Option A) → Text → Result KubeError A
  decoded decode text = elim (decode text) [ none ↦ err other | some a ↦ ok a ]

  -- The verdict on an answer: an error above 299, and the decoded body otherwise.
  abbrev pub verdict : {A : Type 0} → (Text → Option A) → Option Response → Result KubeError A
  verdict decode none = err other
  verdict decode (some r) =
      if leb 300 r.code
      then err (api r.code (message_of r))
      else decoded decode (take body_limit r.body)

  abbrev type_of : Option Json → Option Text
  type_of none = none
  type_of (some b) = some (lit "application/json")

  abbrev pub request : HttpClient → Verb → Text → Option Json → Text → Request
  request c verb path body token = record {
    verb = verb;
    url = c.base ++ path;
    authorization = lit "Bearer " ++ trim_space token;
    accept = lit "application/json";
    user_agent = lit "fileblock-node";
    content_type = type_of body;
    body = body;
  }

  -- The request goes out: what comes back, and the request on record.
  abbrev pub exchange : Request → Link n → Option Response × Link n
  exchange r s = let (a, sys) = n.send r s.sys in (a, record s { sys = sys; sent = r ∷ s.sent })

  abbrev answer :
      {A : Type 0} → (Text → Option A) → Option Response × Link n → Result KubeError A × Link n
  answer decode (a, s) = (verdict decode a, s)

  -- What do does once it tried to read the token, and with a URL that is accepted or not.
  abbrev pub finish :
      {A : Type 0}
      → HttpClient
      → Verb
      → Text
      → Option Json
      → (Text → Option A)
      → Link n
      → Option Text
      → Bool
      → Result KubeError A × Link n
  finish c verb path body decode s none good = (err other, s)
  finish c verb path body decode s (some token) false = (err other, s)
  finish c verb path body decode s (some token) true =
      answer decode (exchange (request c verb path body token) s)

  -- HTTPClient.do
  unfoldable pub perform :
      {A : Type 0} → HttpClient → Verb → Text → Option Json → (Text → Option A) → K n A
  unfolding trim_space
  perform c verb path body decode s =
      finish c verb path body decode s (n.read_token c.token_path s.sys) (n.is_url (c.base ++ path))

  -- `out` is nil: the body is not looked at.
  abbrev pub ignored : Text → Option Done
  ignored body = some tt

  unfoldable pub list_pods_on_node : HttpClient → Text → K n (List Pod)
  unfolding perform
  list_pods_on_node c node =
      perform c get
        (lit "/api/v1/pods?" ++ n.encode_query (lit "fieldSelector") (lit "spec.nodeName=" ++ node))
        none n.decode_pods

  abbrev pub pod_path : Text → Text → Text
  pod_path namespace name =
      lit "/api/v1/namespaces/" ++ (n.path_escape namespace ++ (lit "/pods/" ++ n.path_escape name))

  abbrev pub delete_options : Text → Json
  delete_options uid = obj (
      fields (
        (lit "apiVersion", str (lit "v1"))
        ∷ (lit "kind", str (lit "DeleteOptions"))
        ∷ (lit "preconditions", obj (fields ((lit "uid", str uid) ∷ [])))
        ∷ []))

  -- A pod that is not there is as good as deleted.
  abbrev pub unless_not_found : Result KubeError Done → Result KubeError Done
  unless_not_found (ok d) = ok d
  unless_not_found (err e) = if is_not_found e then ok tt else err e

  unfoldable pub delete_pod : HttpClient → Text → Text → Text → K n Done
  unfolding perform
  delete_pod c namespace name uid s =
      let (r, s') =
        perform c delete (pod_path namespace name) (some (delete_options uid)) ignored s in
      (unless_not_found r, s')

  abbrev pub event : Pod → Text → Text → Text → Json
  event pod reason message now = obj (
      fields (
        (lit "apiVersion", str (lit "v1"))
        ∷ (lit "kind", str (lit "Event"))
        ∷ (
          lit "metadata",
          obj (
              fields (
                (lit "generateName", str (pod.name ++ lit "."))
                ∷ (lit "namespace", str pod.namespace)
                ∷ [])),
        )
        ∷ (
          lit "involvedObject",
          obj (
              fields (
                (lit "apiVersion", str (lit "v1"))
                ∷ (lit "kind", str (lit "Pod"))
                ∷ (lit "name", str pod.name)
                ∷ (lit "namespace", str pod.namespace)
                ∷ (lit "uid", str pod.uid)
                ∷ [])),
        )
        ∷ (lit "reason", str reason)
        ∷ (lit "message", str message)
        ∷ (lit "type", str (lit "Warning"))
        ∷ (
          lit "source",
          obj (
              fields
                ((lit "component", str (lit "fileblock-node")) ∷ (lit "host", str pod.node) ∷ [])),
        )
        ∷ (lit "firstTimestamp", str now)
        ∷ (lit "lastTimestamp", str now)
        ∷ (lit "count", num 1)
        ∷ []))

  unfoldable pub pod_event : HttpClient → Pod → Text → Text → K n Done
  unfolding perform
  pod_event c pod reason message s =
      perform c post (lit "/api/v1/namespaces/" ++ (n.path_escape pod.namespace ++ lit "/events"))
        (some (event pod reason message (n.now_rfc3339 s.sys))) ignored s
