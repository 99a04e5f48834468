-- ===== src/Kube/Net.antt =====
-- What pkg/kube/client.go calls and does not implement: the HTTP client, the token file, URL escapes
-- and JSON. A request that reaches the HTTP client is recorded, the newest first.
use fileblock_csi.Base.{ℕ, Bool, Option, List}
use fileblock_csi.Base.Text.{Text}
use fileblock_csi.Host.{Pod}

-- The JSON values that the client builds.
mutual
  pub data Json : Type 0 where
    str : Text → Json
    num : ℕ → Json
    obj : Members → Json

  pub data Members : Type 0 where
    end : Members
    member : Text → Json → Members → Members

pub data Verb : Type 0 where
  get post delete : Verb

-- http.Request, with the headers that the client sets.
pub record Request : Type 0 where
  pub verb : Verb
  pub url : Text
  pub authorization : Text
  pub accept : Text
  pub user_agent : Text
  pub content_type : Option Text
  pub body : Option Json

pub record Response : Type 0 where
  pub code : ℕ
  pub body : Text

-- apiError, or any other error.
pub data KubeError : Type 0 where
  api : ℕ → Text → KubeError
  other : KubeError

pub record Net : Type 1 where
  pub State : Type 0
  pub read_token : Text → State → Option Text
  -- Whether http.NewRequestWithContext accepts the URL.
  pub is_url : Text → Bool
  pub send : Request → State → Option Response × State
  pub path_escape : Text → Text
  -- url.Values.Encode of one key and its value.
  pub encode_query : Text → Text → Text
  pub status_text : ℕ → Text
  -- json.Unmarshal into the structs of the client; a text with no message has the empty one.
  pub decode_message : Text → Text
  pub decode_pods : Text → Option (List Pod)
  pub decode_actions : Text → Option (List Text)
  pub now_rfc3339 : State → Text

pub record Link (n : Net) : Type 0 where
  pub sys : n.State
  pub sent : List Request

-- HTTPClient: base and tokenPath; its hc is the net.
pub record HttpClient : Type 0 where
  pub base : Text
  pub token_path : Text
