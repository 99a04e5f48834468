-- ===== src/Tests/Nets.antt =====
-- An API server and sockets for the examples: every request is answered with 200 and a binding that
-- denies, and every call on a socket succeeds.
use fileblock_csi.Base.{ℕ, ◌+◌, true, none, some, ok, [], ◌∷◌, ◌++◌}
use fileblock_csi.Base.Text.{lit}
use fileblock_csi.Kube.Net.{Net, Link, HttpClient}
use fileblock_csi.Server.Endpoint.{Sockets, Socket}

abbrev pub net : Net
net = record {
  State = ℕ;
  read_token = λ p s. some (lit "token");
  is_url = λ u. true;
  send = λ r s. (some (record { code = 200; body = lit "Deny" }), s + 1);
  path_escape = λ t. t;
  encode_query = λ k v. k ++ (lit "=" ++ v);
  status_text = λ c. lit "status";
  decode_message = λ t. t;
  decode_pods = λ t. some [];
  decode_actions = λ t. some (t ∷ []);
  now_rfc3339 = λ s. lit "2026-01-01T00:00:00Z";
}

abbrev pub link : Link net
link = record { sys = 0; sent = [] }

abbrev pub api_client : HttpClient
api_client = record { base = lit "https://10.0.0.1:443"; token_path = lit "/token" }

abbrev pub sockets : Sockets
sockets = record {
  State = Unit;
  parse_url = λ t. none;
  unlink = λ a s. s;
  listen = λ n a s. (ok tt, s);
  serve = λ ss s. (ok tt, s);
}

abbrev pub socket : Socket sockets
socket = record { sys = tt; log = [] }
