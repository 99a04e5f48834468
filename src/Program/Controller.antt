-- ===== src/Program/Controller.antt =====
-- cmd/controller/main.go: the start of the controller plugin.
use fileblock_csi.Base.{ℕ, true, false, Result, ok, err}
use fileblock_csi.Base.Text.{Text, lit}
use fileblock_csi.Host.{Host, Error}
use fileblock_csi.Machine.{M, Machine, Done, pure, attempt, ◌>>◌, make_dirs}
use fileblock_csi.Store.Registry.{adopt_existing}
use fileblock_csi.Server.Endpoint.{Sockets, Socket, services, serve}
use fileblock_csi.Program.Node.{exit_code, new_registry}

pub record ControllerFlags : Type 0 where
  pub endpoint : Text
  pub stores_root : Text
  pub log_level : Text

abbrev pub default_flags : ControllerFlags
default_flags = record {
  endpoint = lit "unix:///csi/csi.sock";
  stores_root = lit "/var/lib/fileblock/stores";
  log_level = lit "info";
}

module _ (h : Host) where
  unfoldable pub set_up : ControllerFlags → M h Done
  unfolding adopt_existing
  set_up f = do
    make_dirs h f.stores_root
    new_registry h f.stores_root
    attempt (adopt_existing h)
    pure tt

module _ {h : Host} {k : Sockets} where
  abbrev pub finish :
      ControllerFlags → Result Error Done → Machine h → Socket k → ℕ × Machine h × Socket k
  finish f (err e) m s = (2, m, s)
  finish f (ok d) m s =
      let (served, s') = serve k f.endpoint (services true false) s in (exit_code served, m, s')

  unfoldable pub main : ControllerFlags → Machine h → Socket k → ℕ × Machine h × Socket k
  unfolding set_up serve
  main f m s = let (r, m') = set_up h f m in finish f r m' s
