-- ===== src/Krotctl/Uninstall.antt =====
-- cmd/krotctl/uninstall.go: cmdUninstall, behind the parsing of its flags.
pub mod Stopped
use krot_vpn.Prelude.{Bool, not, ◌&&◌, List, [], ◌∷◌, ◌++◌, if◌then◌else◌, Result, ok, err}
use krot_vpn.Krotctl.{not_root, config_dir, Tools, Error, systemctl}
use krot_vpn.Krotctl.ClientUp
use krot_vpn.Krotctl.Names.{client_unit, discover_instances}
use krot_vpn.Krotctl.ServerUp
use krot_vpn.Krotctl.ServerUp.{server_unit}
use krot_vpn.Netif.{Text}
use krot_vpn.Prelude.Bytes.{codes}

-- The flags; `confirmed` is the answer to the prompt.
pub record Choices : Type 0 where
  pub yes_given : Bool
  pub confirmed : Bool
  pub keep_binaries : Bool
  pub keep_config : Bool

unfoldable pub binaries : List Text
binaries = codes "krot-server" ∷ codes "krot-client" ∷ codes "krot-keygen" ∷ codes "krotctl" ∷ []

-- `matches` are filepath.Glob's of the clients' configs, `remove_all` is os.RemoveAll, and `dir`
-- is installDir's result.
module _ (T : Tools) (matches : T.State → List Text) (remove_all : T.State → Text → T.State)
    (dir : Text) where
  -- Both errors are printed alone.
  unfoldable pub stop_disable : T.State → Text → T.State
  unfolding systemctl
  stop_disable s unit =
      let s1 = (T.run s (systemctl (codes "stop" ∷ unit ∷ []))).0 in
      (T.run s1 (systemctl (codes "disable" ∷ unit ∷ []))).0

  unfoldable pub stop_clients : T.State → List Text → T.State
  unfolding stop_disable client_unit
  stop_clients s [] = s
  stop_clients s (name ∷ names) = stop_clients (stop_disable s (client_unit name)) names

  unfoldable pub remove_units : T.State → T.State
  unfolding systemctl ServerUp.unit_path ClientUp.unit_path
  remove_units s =
      let s1 = T.remove (T.remove s ServerUp.unit_path) ClientUp.unit_path in
      let s2 = (T.run s1 (systemctl (codes "daemon-reload" ∷ []))).0 in
      (T.run s2 (systemctl (codes "reset-failed" ∷ []))).0

  -- filepath.Join of a clean directory and a name.
  unfoldable pub remove_binaries : T.State → List Text → T.State
  remove_binaries s [] = s
  remove_binaries s (name ∷ names) = remove_binaries (T.remove s (dir ++ 47 ∷ name)) names

  unfoldable pub uninstall : T.State → Choices → T.State × Result Error Unit
  unfolding stop_disable stop_clients remove_units remove_binaries discover_instances config_dir
      server_unit binaries
  uninstall s c =
      if not T.root
      then (s, err not_root)
      else if not c.yes_given && not c.confirmed
      then (s, ok tt)
      else (let clients = discover_instances (matches s) in
          let s1 = remove_units (stop_clients (stop_disable s server_unit) clients) in
          let s2 = if c.keep_config then s1 else remove_all s1 config_dir in
          (if c.keep_binaries then s2 else remove_binaries s2 binaries, ok tt))
