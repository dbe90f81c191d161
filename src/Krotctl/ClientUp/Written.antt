-- ===== src/Krotctl/ClientUp/Written.antt =====
-- The config that a client is left with.
use krot_vpn.Prelude.{◌≡◌, ◌≢◌, true, false, none, [], arith, if◌then◌else◌, ok, err}
use krot_vpn.Config
use krot_vpn.Config.{default_text, default_int}
use krot_vpn.Krotctl.{rejected, Tools, IsHost, write_config, install_unit, start_unit, bring_up}
use krot_vpn.Krotctl.ClientUp.{Flags, client_config, write_client, client_up}
use krot_vpn.Krotctl.Names.{client_cfg_path, tun_dev_name, table_for}
use krot_vpn.Prelude.Bytes.{codes, bytes_eq}
use krot_vpn.Prelude.Int.{pos}

-- The config that the flags describe: each field has the flag of its meaning; an empty device or
-- table name stands for the one of the instance, a port, MTU or number of channels that is zero
-- for the loader's default; the mode decides on the routing and on the two SOCKS fields.
pub record IsGiven (o : Flags) (c : Config.Client) : Type 0 where
  pub server_ip : c.server_ip ≡ o.server
  pub server_port : c.server_port ≡ default_int o.port (pos 443)
  pub sni : c.sni ≡ o.sni
  pub path : c.path ≡ o.path
  pub psk : c.psk ≡ o.psk
  pub server_pub : c.server_pub ≡ o.server_pub
  pub insecure : c.insecure ≡ o.insecure
  pub pin_sha256 : c.pin_sha256 ≡ o.pin
  pub tun_name : c.tun_name ≡ default_text o.tun_name (tun_dev_name o.name)
  pub mtu : c.mtu ≡ default_int o.mtu (pos 1320)
  pub dns : c.dns ≡ o.dns
  pub channels : c.channels ≡ default_int o.channels (pos 4)
  pub route_mode : c.route_mode ≡ (if bytes_eq o.mode (codes "manual") then codes "manual" else [])
  pub socks_listen : c.socks_listen ≡ (if bytes_eq o.mode (codes "socks") then o.socks_addr else [])
  pub socks_table : c.socks_table ≡ (
      if bytes_eq o.mode (codes "socks") then default_text o.socks_table (table_for o.name) else [])

module _ (T : Tools) (host : IsHost T) where
  write_client-none :
      (s : T.State) (o : Flags) (e : Config.Error)
      → (write_client T s o).1 ≡ err (rejected e)
      → T.read_file (write_client T s o).0 (client_cfg_path o.name) ≡ none
  unfolding write_client bring_up install_unit start_unit
  write_client-none s o e failed = ground (
    arith,
    host.removed (write_config T s (client_cfg_path o.name) (T.print_client (client_config o))).0
        (client_cfg_path o.name),
  )

  client_up_refused :
      (s : T.State) (o : Flags) (e : Config.Error)
      → (client_up T s o).1 ≡ err (rejected e)
      → (client_up T s o ≡ write_client T s o) × ((write_client T s o).1 ≡ err (rejected e))
  unfolding client_up
  client_up_refused s o e failed = ground (arith, failed)

  -- A config that the loader rejects does not stay: when `client up` fails because of it, there is
  -- no config of that instance, also not the one that `-force` was to replace.
  pub client_up_rejected :
      (s : T.State) (o : Flags) (e : Config.Error)
      → (client_up T s o).1 ≡ err (rejected e)
      → T.read_file (client_up T s o).0 (client_cfg_path o.name) ≡ none
  client_up_rejected s o e failed =
      let (e1, refused) = client_up_refused s o e failed in rw e1 (write_client-none s o e refused)

  -- Without `-force`, and with a config of this name in place, `client up` fails and changes
  -- nothing.
  pub client_up_kept :
      (s : T.State) (o : Flags)
      → T.is_file s (client_cfg_path o.name) ≡ true
      → o.force ≡ false
      → ((client_up T s o).0 ≡ s) × ((client_up T s o).1 ≢ ok tt)
  unfolding client_up
  client_up_kept s o there careful = ground (arith, there, careful)
