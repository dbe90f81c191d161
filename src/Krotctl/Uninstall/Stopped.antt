-- ===== src/Krotctl/Uninstall/Stopped.antt =====
-- What runs after the tool was uninstalled.
use krot_vpn.Prelude.{
  ◌≡◌, refl, ◌∙◌, Bool, true, false, not, ◌&&◌, ◌||◌, List, [], ◌∷◌, ◌++◌, map, arith, All,
}
use krot_vpn.Krotctl.{Tools, systemctl, config_dir}
use krot_vpn.Krotctl.ClientUp
use krot_vpn.Krotctl.Names.{client_cfg_path, client_unit, discover_instances}
use krot_vpn.Krotctl.Names.Distinct.{IsPlain, discover_instances-client_cfg_path}
use krot_vpn.Krotctl.ServerUp
use krot_vpn.Krotctl.ServerUp.{server_unit}
use krot_vpn.Krotctl.Uninstall.{
  Choices, binaries, stop_disable, stop_clients, remove_units, remove_binaries, uninstall,
}
use krot_vpn.Netif.{Text}
use krot_vpn.Prelude.Bytes.{codes, bytes_eq}

-- `active`: a unit runs. `stop` ends the one unit; nothing else that is run here starts one.
pub record IsSystemd (T : Tools) (remove_all : T.State → Text → T.State)
    (active : T.State → Text → Bool) : Type 0 where
  pub stopped :
      (s : T.State) (unit u : Text)
      → active (T.run s (systemctl (codes "stop" ∷ unit ∷ []))).0 u
        ≡ (not (bytes_eq u unit) && active s u)
  pub active-disable :
      (s : T.State) (unit u : Text)
      → active (T.run s (systemctl (codes "disable" ∷ unit ∷ []))).0 u ≡ active s u
  pub active-reload :
      (s : T.State) (u : Text)
      → active (T.run s (systemctl (codes "daemon-reload" ∷ []))).0 u ≡ active s u
  pub active-reset :
      (s : T.State) (u : Text)
      → active (T.run s (systemctl (codes "reset-failed" ∷ []))).0 u ≡ active s u
  pub active-remove : (s : T.State) (p u : Text) → active (T.remove s p) u ≡ active s u
  pub active-remove_all : (s : T.State) (p u : Text) → active (remove_all s p) u ≡ active s u

-- The unit is one of those of the names.
unfoldable pub is_client : Text → List Text → Bool
unfolding client_unit
is_client u [] = false
is_client u (name ∷ names) = bytes_eq u (client_unit name) || is_client u names

module _ (T : Tools) (matches : T.State → List Text) (remove_all : T.State → Text → T.State)
    (dir : Text) (active : T.State → Text → Bool) (laws : IsSystemd T remove_all active) where
  active-stop_disable :
      (s : T.State) (unit u : Text)
      → active (stop_disable T matches remove_all dir s unit) u
        ≡ (not (bytes_eq u unit) && active s u)
  unfolding stop_disable
  active-stop_disable s unit u =
      laws.active-disable (T.run s (systemctl (codes "stop" ∷ unit ∷ []))).0 unit u
      ∙ laws.stopped s unit u

  active-stop_clients :
      (names : List Text) (s : T.State) (u : Text)
      → active (stop_clients T matches remove_all dir s names) u
        ≡ (not (is_client u names) && active s u)
  unfolding stop_clients is_client
  active-stop_clients [] s u = refl
  active-stop_clients (name ∷ names) s u = ground (
    arith,
    active-stop_clients names (stop_disable T matches remove_all dir s (client_unit name)) u,
    active-stop_disable s (client_unit name) u,
  )

  active-remove_units :
      (s : T.State) (u : Text) → active (remove_units T matches remove_all dir s) u ≡ active s u
  unfolding remove_units
  active-remove_units s u =
      laws.active-reset _ u
      ∙ laws.active-reload _ u
      ∙ laws.active-remove _ ClientUp.unit_path u
      ∙ laws.active-remove s ServerUp.unit_path u

  active-remove_binaries :
      (names : List Text) (s : T.State) (u : Text)
      → active (remove_binaries T matches remove_all dir s names) u ≡ active s u
  unfolding remove_binaries
  active-remove_binaries [] s u = refl
  active-remove_binaries (name ∷ names) s u =
      active-remove_binaries names (T.remove s (dir ++ 47 ∷ name)) u
      ∙ laws.active-remove s (dir ++ 47 ∷ name) u

  -- An uninstallation that is run as root and confirmed stops the server and every client with a
  -- config, and no other unit: with the clients' configs as `client up` names them, no name empty
  -- or with a slash, a unit runs afterwards if and only if it ran and is none of those. `systemctl
  -- stop` stops the one unit, and nothing that is run starts one.
  pub uninstall_stops :
      (s : T.State) (c : Choices) (names : List Text) (u : Text)
      → T.root ≡ true
      → (c.yes_given || c.confirmed) ≡ true
      → matches s ≡ map client_cfg_path names
      → All (λ name. (bytes_eq name [] ≡ false) × IsPlain name) names
      → active (uninstall T matches remove_all dir s c).0 u
        ≡ (not (bytes_eq u server_unit) && (not (is_client u names) && active s u))
  unfolding uninstall
  uninstall_stops s c names u root sure found plain =
      let sure_or : (not c.yes_given && not c.confirmed) ≡ false = ground (arith, sure) in
      let clients : discover_instances (matches s) ≡ names =
        rw found (discover_instances-client_cfg_path names plain) in
      let s0 =
        stop_clients T matches remove_all dir (stop_disable T matches remove_all dir s server_unit)
          names in
      let s1 = remove_units T matches remove_all dir s0 in
      let known : active s1 u
          ≡ (not (bytes_eq u server_unit) && (not (is_client u names) && active s u)) =
        ground (
          arith,
          active-remove_units s0 u,
          active-stop_clients names (stop_disable T matches remove_all dir s server_unit) u,
          active-stop_disable s server_unit u,
        ) in
      let s2 = remove_all s1 config_dir in
      rw (root, uninstall, sure_or, clients)
        (ground (
          arith,
          known,
          laws.active-remove_all s1 config_dir u,
          active-remove_binaries binaries s1 u,
          active-remove_binaries binaries s2 u,
        ))
