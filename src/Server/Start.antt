-- ===== src/Server/Start.antt =====
-- internal/server/server.go: New and Close, and what they do to the host.
pub mod Reverted
use krot_vpn.Prelude.{ℕ, not, Option, none, some, List, [], if◌then◌else◌, Result, ok, err}
use krot_vpn.Config
use krot_vpn.Config.{decode_psk, decode_key32}
use krot_vpn.Crypto.Keys.{public_from_private}
use krot_vpn.Crypto.{Primitives}
use krot_vpn.Netif.{Text, Args, System, if_up}
use krot_vpn.Netif.Nat.{setup_server_nat, delete_rules}
use krot_vpn.Server.Pool
use krot_vpn.Server.Pool.{Cidr, IpPool, new_ip_pool}

pub data Error : Type 0 where
  bad_psk bad_key bad_public no_device not_configured nat_failed : Error
  bad_pool : Pool.Error → Error

-- What net.ParseCIDR returns, with the texts of the address and of the network.
pub record Parsed : Type 0 where
  pub cidr : Cidr
  pub address : Text
  pub network : Text

-- The server that New returns: `nat` are the rules to delete. It has no sessions yet.
pub record Running : Type 0 where
  pub psk : List ℕ
  pub private : List ℕ
  pub public : List ℕ
  pub dev : Text
  pub nat : List Args
  pub pool : IpPool
  pub gw : Text

abbrev pub cidr_of : Option Parsed → Option Cidr
cidr_of none = none
cidr_of (some p) = some p.cidr

abbrev pub network_of : Option Parsed → Option Text
network_of none = none
network_of (some p) = some p.network

abbrev pub address_of : Option Parsed → Text
address_of none = []
address_of (some p) = p.address

module _ (S : System) (files : Config.System) (prims : Primitives)
    (parse_cidr : Text → Option Parsed) where
  -- From tun.Open on, with what was decoded.
  unfoldable pub open_server :
      S.State → Config.Server → List ℕ → List ℕ → List ℕ → IpPool → S.State × Result Error Running
  open_server s cfg psk private public pool =
      let (s1, opened) = S.open_tun s cfg.tun_name in
      elim opened [
        | none ↦ (s1, err no_device)
        | some dev ↦
            (let (s2, up) = if_up S s1 dev cfg.tun_cidr cfg.mtu in
              if not up
              then (S.close_tun s2 dev, err not_configured)
              else (let (s3, made) =
                    setup_server_nat S s2 dev (network_of (parse_cidr cfg.tun_cidr))
                      cfg.wan_iface in
                  elim made [
                    | none ↦ (S.close_tun s3 dev, err nat_failed)
                    | some nat ↦ (
                      s3,
                      ok (record {
                        psk = psk;
                        private = private;
                        public = public;
                        dev = dev;
                        nat = nat;
                        pool = pool;
                        gw = address_of (parse_cidr cfg.tun_cidr);
                      }),
                    )
                  ]))
      ]

  unfoldable pub new_server : S.State → Config.Server → S.State × Result Error Running
  unfolding open_server
  new_server s cfg = elim (decode_psk files cfg.psk) [
    | err e ↦ (s, err bad_psk)
    | ok psk ↦ elim (decode_key32 files cfg.server_priv) [
      | err e ↦ (s, err bad_key)
      | ok private ↦ elim (public_from_private prims private) [
        | none ↦ (s, err bad_public)
        | some public ↦ elim (new_ip_pool (cidr_of (parse_cidr cfg.tun_cidr))) [
          | err e ↦ (s, err (bad_pool e))
          | ok pool ↦ open_server s cfg psk private public pool
        ]
      ]
    ]
  ]

-- Teardown of the rules, then the device.
unfoldable pub close_server : (S : System) → S.State → Running → S.State
close_server S s running = S.close_tun (delete_rules S s running.nat) running.dev
