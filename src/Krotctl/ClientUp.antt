-- ===== src/Krotctl/ClientUp.antt =====
-- cmd/krotctl/client.go: clientUp, behind the parsing of its flags, and clientDown and clientRun's
-- way to the config.
pub mod Written
use krot_vpn.Prelude.{Bool, not, ◌&&◌, ◌||◌, List, [], ◌∷◌, ◌++◌, if◌then◌else◌, Result, ok, err}
use krot_vpn.Config
use krot_vpn.Config.{load_client}
use krot_vpn.Krotctl.{
  not_root, bad_mode, missing, already_exists, not_written, rejected, Tools, Error, system_of,
  systemctl, write_config, bring_up,
}
use krot_vpn.Krotctl.Names.{client_cfg_path, client_unit, tun_dev_name, table_for}
use krot_vpn.Netif.{Text}
use krot_vpn.Prelude.Bytes.{codes, bytes_eq}
use krot_vpn.Prelude.Int.{ℤ}

-- The flags, with the values of those that are not given.
pub record Flags : Type 0 where
  pub name : Text
  pub mode : Text
  pub server : Text
  pub port : ℤ
  pub sni : Text
  pub path : Text
  pub psk : Text
  pub server_pub : Text
  pub insecure : Bool
  pub pin : Text
  pub tun_name : Text
  pub mtu : ℤ
  pub channels : ℤ
  pub dns : Text
  pub socks_addr : Text
  pub socks_table : Text
  pub force : Bool
  pub no_start : Bool

unfoldable pub unit_path : Text
unit_path = codes "/etc/systemd/system/krot-client@.service"

unfoldable pub is_mode : Text → Bool
is_mode mode =
    bytes_eq mode (codes "full")
    || (bytes_eq mode (codes "socks") || bytes_eq mode (codes "manual"))

-- A required flag is empty.
unfoldable pub is_missing : Flags → Bool
is_missing o =
    bytes_eq o.server []
    || (bytes_eq o.sni []
        || (bytes_eq o.path [] || (bytes_eq o.psk [] || bytes_eq o.server_pub [])))

unfoldable pub client_config : Flags → Config.Client
unfolding tun_dev_name table_for
client_config o =
    let socks = bytes_eq o.mode (codes "socks") in
    record {
      server_ip = o.server;
      server_port = o.port;
      sni = o.sni;
      path = o.path;
      psk = o.psk;
      server_pub = o.server_pub;
      insecure = o.insecure;
      pin_sha256 = o.pin;
      tun_name = if bytes_eq o.tun_name [] then tun_dev_name o.name else o.tun_name;
      mtu = o.mtu;
      dns = o.dns;
      channels = o.channels;
      route_mode = if bytes_eq o.mode (codes "manual") then codes "manual" else [];
      socks_listen = if socks then o.socks_addr else [];
      socks_table =
          if socks
          then (if bytes_eq o.socks_table [] then table_for o.name else o.socks_table)
          else [];
    }

-- Lines of text.
unfoldable pub lines : List Text → Text
lines [] = []
lines (l ∷ ls) = l ++ 10 ∷ lines ls

unfoldable pub unit_text : Text → Text
unfolding lines
unit_text self = lines (
    codes "[Unit]"
    ∷ codes "Description=Krot VPN client (instance %i)"
    ∷ codes "After=network-online.target"
    ∷ codes "Wants=network-online.target"
    ∷ []
    ∷ codes "[Service]"
    ∷ (codes "ExecStart=" ++ (self ++ codes " client run -config /etc/krot/client-%i.json"))
    ∷ codes "Restart=always"
    ∷ codes "RestartSec=3"
    ∷ []
    ∷ codes "[Install]"
    ∷ codes "WantedBy=multi-user.target"
    ∷ [])

module _ (T : Tools) where
  -- With the flags accepted.
  unfoldable pub write_client : T.State → Flags → T.State × Result Error Unit
  unfolding write_config client_config client_cfg_path system_of bring_up client_unit unit_text
      unit_path
  write_client s o =
      let cfg_path = client_cfg_path o.name in
      let (s1, wrote) = write_config T s cfg_path (T.print_client (client_config o)) in
      if not wrote then (s1, err not_written) else elim (load_client (system_of T s1) cfg_path) [
        | err e ↦ (T.remove s1 cfg_path, err (rejected e))
        | ok loaded ↦ bring_up T s1 unit_path unit_text (client_unit o.name) o.no_start
      ]

  unfoldable pub client_up : T.State → Flags → T.State × Result Error Unit
  unfolding is_mode is_missing client_cfg_path write_client
  client_up s o =
      if not T.root
      then (s, err not_root)
      else if not (is_mode o.mode)
      then (s, err bad_mode)
      else if is_missing o
      then (s, err missing)
      else if T.is_file s (client_cfg_path o.name) && not o.force
      then (s, err already_exists)
      else write_client s o

  -- `stop`'s error is printed alone.
  unfoldable pub client_down : T.State → Text → T.State × Result Error Unit
  unfolding systemctl client_unit
  client_down s name =
      if not T.root
      then (s, err not_root)
      else ((T.run s (systemctl (codes "stop" ∷ client_unit name ∷ []))).0, ok tt)
