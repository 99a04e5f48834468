-- ===== src/Server/Endpoint.antt =====
-- pkg/driver/server.go: the endpoint, and serving on it. Sockets, url.Parse and gRPC are a record of
-- functions; the interceptor only logs.
use fileblock_csi.Base.{
  Bool, Option, none, some, Result, ok, err, List, [], ◌∷◌, ◌++◌, if◌then◌else◌,
}
use fileblock_csi.Base.Text.{Text, lit, is_empty, text_eq, has_prefix}
use fileblock_csi.Base.Path.{slash}
use fileblock_csi.Host.{Error, other}
use fileblock_csi.Machine.{Done}

-- url.URL, with the fields that are read.
pub record Url : Type 0 where
  pub scheme : Text
  pub host : Text
  pub path : Text

pub data Service : Type 0 where
  identity controller node : Service

-- What a server does, the newest first.
pub data ServerOp : Type 0 where
  unlinked : Text → ServerOp
  listened : Text → Text → ServerOp
  served : List Service → ServerOp

-- `serve` returns when the context is cancelled, or with gRPC's error.
pub record Sockets : Type 1 where
  pub State : Type 0
  pub parse_url : Text → Option Url
  pub unlink : Text → State → State
  pub listen : Text → Text → State → Result Error Done × State
  pub serve : List Service → State → Result Error Done × State

pub record Socket (k : Sockets) : Type 0 where
  pub sys : k.State
  pub log : List ServerOp

abbrev socket_path : Url → Text
socket_path u = if is_empty u.path then u.host ++ u.path else u.path

abbrev pub by_scheme : Option Url → Result Error (Text × Text)
by_scheme none = err other
by_scheme (some u) =
    if text_eq u.scheme (lit "unix")
    then ok (lit "unix", socket_path u)
    else if text_eq u.scheme (lit "tcp")
    then ok (lit "tcp", u.host)
    else err other

-- The services that were passed in; a nil one is skipped.
abbrev pub services : Bool → Bool → List Service
services has_controller has_node =
    identity
    ∷ ((if has_controller then controller ∷ [] else []) ++ (if has_node then node ∷ [] else []))

module _ (k : Sockets) where
  unfoldable pub parse_endpoint : Text → Result Error (Text × Text)
  unfolding has_prefix text_eq
  parse_endpoint ep =
      if has_prefix ep (slash ∷ []) then ok (lit "unix", ep) else by_scheme (k.parse_url ep)

  -- A stale socket is removed; whether there was one does not matter.
  abbrev pub remove_stale : Text → Text → Socket k → Socket k
  remove_stale scheme addr s =
      if text_eq scheme (lit "unix")
      then record { sys = k.unlink addr s.sys; log = unlinked addr ∷ s.log }
      else s

  abbrev serve_on : List Service → Result Error Done → Socket k → Result Error Done × Socket k
  serve_on ss (err e) s = (err e, s)
  serve_on ss (ok d) s =
      let (r, sys) = k.serve ss s.sys in (r, record { sys = sys; log = served ss ∷ s.log })

  abbrev pub listen_on :
      List Service → Result Error (Text × Text) → Socket k → Result Error Done × Socket k
  listen_on ss (err e) s = (err e, s)
  listen_on ss (ok (scheme, addr)) s =
      let s' = remove_stale scheme addr s in
      let (r, sys) = k.listen scheme addr s'.sys in
      serve_on ss r (record { sys = sys; log = listened scheme addr ∷ s'.log })

  -- Serve
  unfoldable pub serve : Text → List Service → Socket k → Result Error Done × Socket k
  unfolding parse_endpoint text_eq
  serve ep ss s = listen_on ss (parse_endpoint ep) s
