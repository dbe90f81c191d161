-- ===== src/Client.antt =====
-- internal/client/client.go: Run, from the first connection to the last deferred call. The pumps
-- run between the setup and the deferred calls, and leave the host's configuration alone.
pub mod Lifecycle
pub mod Reverted
use krot_vpn.Prelude.{
  Bool, true, false, not, Option, none, some, [], if◌then◌else◌, Result, ok, err,
}
use krot_vpn.Prelude.Bytes.{codes, bytes_eq}
use krot_vpn.Config
use krot_vpn.Config.{decode_psk, decode_key32}
use krot_vpn.Netif.{Text, System, if_up}
use krot_vpn.Netif.Routes.{setup_client_routes, teardown}
use krot_vpn.Netif.SourceRoute.{SrcRouteState, setup_source_route, src_teardown}
use krot_vpn.Server.Router.{host_ip}
use krot_vpn.Transport.Dial.{Assignment}

pub data Error : Type 0 where
  bad_psk bad_key dial_failed no_address no_device not_configured : Error
  source_route proxy_failed routes_failed : Error

-- How the two pumps and the context end a run.
pub data Ending : Type 0 where
  cancelled pump_failed : Ending

module _ (S : System) where
  -- The host and what Run holds on it: the tunnel's connections, the device by its name, the
  -- proxy's listener.
  pub record Host : Type 0 where
    pub sys : S.State
    pub conn : Bool
    pub dev : Option Text
    pub listener : Bool

  unfoldable pub close_conn : Host → Host
  close_conn h = record h { conn = false }

  -- A second Close of the device finds it closed.
  unfoldable pub close_dev : Host → Host
  close_dev h = elim h.dev [
    | none ↦ h
    | some name ↦ record h { sys = S.close_tun h.sys name; dev = none }
  ]

  -- The first two deferred calls, the last to run.
  unfoldable pub close_both : Host → Host
  unfolding close_conn close_dev
  close_both h = close_conn (close_dev h)

  unfoldable pub close_listener : Host → Host
  close_listener h = record h { listener = false }

  -- `cfg.DNS`, or what the server assigned.
  unfoldable pub dns_of : Config.Client → Assignment → Text
  dns_of cfg assign = if bytes_eq cfg.dns [] then assign.dns else cfg.dns

  unfoldable pub undo_source : Host → SrcRouteState → Host × SrcRouteState
  undo_source h sr = let (s1, sr1) = src_teardown S h.sys sr in (record h { sys = s1 }, sr1)

  -- socks.New fails: what was set up is undone at once, and again by the deferred calls.
  unfoldable pub without_proxy : Host → SrcRouteState → Host
  unfolding undo_source close_both
  without_proxy h sr =
      let (h1, sr1) = undo_source h sr in
      let (h2, sr2) = undo_source (close_both h1) sr1 in close_both h2

  -- The proxy serves until the run ends; the deferred calls, the last one first.
  unfoldable pub with_proxy : Host → SrcRouteState → Host
  unfolding undo_source close_both close_listener
  with_proxy h sr =
      let (h1, sr1) = undo_source (close_listener (record h { listener = true })) sr in
      close_both h1

  -- SOCKS mode: `listens` says whether socks.New succeeds.
  unfoldable pub run_socks :
      Host → Config.Client → Assignment → Text → Bool → Ending → Host × Result Error Ending
  unfolding close_both without_proxy with_proxy
  run_socks h cfg assign dev listens ending =
      let (s1, made) = setup_source_route S h.sys (host_ip assign.addr) dev cfg.socks_table in
      let h1 : Host = record h { sys = s1 } in
      elim made [
        | none ↦ (close_both (close_both h1), err source_route)
        | some sr ↦
            if listens
            then (with_proxy h1 sr, ok ending)
            else (without_proxy h1 sr, err proxy_failed)
      ]

  unfoldable pub run_full :
      Host → Config.Client → Assignment → Text → Ending → Host × Result Error Ending
  unfolding close_both dns_of
  run_full h cfg assign dev ending =
      let (s1, made) = setup_client_routes S h.sys cfg.server_ip dev (dns_of cfg assign) in
      elim made [
        | none ↦ (close_both (close_both (record h { sys = s1 })), err routes_failed)
        | some rs ↦ (close_both (record h { sys = (teardown S s1 rs).0 }), ok ending)
      ]

  -- From the configured device on.
  unfoldable pub run_routed :
      Host → Config.Client → Assignment → Text → Bool → Ending → Host × Result Error Ending
  unfolding run_socks run_full close_both
  run_routed h cfg assign dev listens ending =
      if not (bytes_eq cfg.socks_listen [])
      then run_socks h cfg assign dev listens ending
      else if bytes_eq cfg.route_mode (codes "manual")
      then (close_both h, ok ending)
      else run_full h cfg assign dev ending

  -- From the assignment on.
  unfoldable pub run_dialled :
      Host → Config.Client → Assignment → Bool → Ending → Host × Result Error Ending
  unfolding run_routed close_conn close_dev
  run_dialled h cfg assign listens ending =
      if bytes_eq assign.addr []
      then (close_conn h, err no_address)
      else (let (s1, opened) = S.open_tun h.sys cfg.tun_name in
          elim opened [
            | none ↦ (close_conn (record h { sys = s1 }), err no_device)
            | some dev ↦
                (let (s2, up) = if_up S s1 dev assign.addr cfg.mtu in
                  let h2 : Host = record h { sys = s2; dev = some dev } in
                  if not up
                  then (close_conn (close_dev h2), err not_configured)
                  else run_routed h2 cfg assign dev listens ending)
          ])

  -- `dial` is transport.Dial for the keys; its tunnel is open when it succeeds.
  unfoldable pub run_client :
      Config.System
      → (Text → Text → Option Assignment)
      → S.State
      → Config.Client
      → Bool
      → Ending
      → Host × Result Error Ending
  unfolding run_dialled
  run_client files dial s cfg listens ending =
      let idle : Host = record { sys = s; conn = false; dev = none; listener = false } in
      elim (decode_psk files cfg.psk) [
        | err e ↦ (idle, err bad_psk)
        | ok psk ↦ elim (decode_key32 files cfg.server_pub) [
          | err e ↦ (idle, err bad_key)
          | ok key ↦ elim (dial psk key) [
            | none ↦ (idle, err dial_failed)
            | some assign ↦ run_dialled (record idle { conn = true }) cfg assign listens ending
          ]
        ]
      ]
