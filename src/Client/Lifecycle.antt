-- ===== src/Client/Lifecycle.antt =====
-- Whatever ends a run, what it holds is given back.
use krot_vpn.Prelude.{
  ◌≡◌, refl, inl, inr, Bool, true, false, Option, none, some, [], arith, Bool-cases, Option-cases,
  Result-cases,
}
use krot_vpn.Prelude.Bytes.{bytes_eq}
use krot_vpn.Client.{
  Ending, Host, close_conn, close_dev, close_both, close_listener, dns_of, undo_source,
  without_proxy, with_proxy, run_socks, run_full, run_routed, run_dialled, run_client,
}
use krot_vpn.Config
use krot_vpn.Config.{decode_psk, decode_key32}
use krot_vpn.Netif.{Text, System, if_up}
use krot_vpn.Netif.Routes.{setup_client_routes, teardown}
use krot_vpn.Netif.SourceRoute.{SrcRouteState, setup_source_route}
use krot_vpn.Server.Router.{host_ip}
use krot_vpn.Transport.Dial.{Assignment}

module _ (S : System) where
  abbrev pub Closed : Host S → Type 0
  Closed h = (h.conn ≡ false) × (h.dev ≡ none) × (h.listener ≡ false)

  close_both-Closed : (h : Host S) → h.listener ≡ false → Closed (close_both S h)
  unfolding close_both close_conn close_dev
  close_both-Closed h quiet = elim (Option-cases h.dev) [
    | inl gone ↦ rw (gone, close_both, close_dev) (refl, gone, quiet)
    | inr (d, there) ↦ rw (there, close_both, close_dev) (refl, refl, quiet)
  ]

  close_both_twice-Closed :
      (h : Host S) → h.listener ≡ false → Closed (close_both S (close_both S h))
  close_both_twice-Closed h quiet = close_both-Closed (close_both S h) (close_both-Closed h quiet).2

  undo_source-listener :
      (h : Host S) (sr : SrcRouteState)
      → h.listener ≡ false
      → (undo_source S h sr).0.listener ≡ false
  unfolding undo_source
  undo_source-listener h sr quiet = quiet

  without_proxy-Closed :
      (h : Host S) (sr : SrcRouteState) → h.listener ≡ false → Closed (without_proxy S h sr)
  unfolding without_proxy
  without_proxy-Closed h sr quiet =
      let first = undo_source S h sr in
      let closed = close_both S first.0 in
      let second = undo_source S closed first.1 in
      close_both-Closed second.0 (
        undo_source-listener closed first.1
          (close_both-Closed first.0 (undo_source-listener h sr quiet)).2)

  with_proxy-Closed : (h : Host S) (sr : SrcRouteState) → Closed (with_proxy S h sr)
  unfolding with_proxy close_listener
  with_proxy-Closed h sr =
      let quiet : Host S = record h { listener = false } in
      close_both-Closed (undo_source S quiet sr).0 (undo_source-listener quiet sr refl)

  run_socks-Closed :
      (h : Host S) (cfg : Config.Client) (assign : Assignment) (dev : Text) (listens : Bool)
      (ending : Ending)
      → h.listener ≡ false
      → Closed (run_socks S h cfg assign dev listens ending).0
  unfolding run_socks
  run_socks-Closed h cfg assign dev listens ending quiet =
      let h1 : Host S = record h {
        sys = (setup_source_route S h.sys (host_ip assign.addr) dev cfg.socks_table).0;
      } in
      elim (Option-cases (setup_source_route S h.sys (host_ip assign.addr) dev cfg.socks_table).1) [
        | inl refused ↦ rw (refused, run_socks) (close_both_twice-Closed h1 quiet)
        | inr (sr, made) ↦ elim (Bool-cases listens) [
          | inl yes_ ↦ rw (made, run_socks, yes_) (with_proxy-Closed h1 sr)
          | inr no_ ↦ rw (made, run_socks, no_) (without_proxy-Closed h1 sr quiet)
        ]
      ]

  run_full-Closed :
      (h : Host S) (cfg : Config.Client) (assign : Assignment) (dev : Text) (ending : Ending)
      → h.listener ≡ false
      → Closed (run_full S h cfg assign dev ending).0
  unfolding run_full
  run_full-Closed h cfg assign dev ending quiet =
      let routed = setup_client_routes S h.sys cfg.server_ip dev (dns_of S cfg assign) in
      let failed : Host S = record h { sys = routed.0 } in
      elim (Option-cases routed.1) [
        | inl refused ↦ rw (refused, run_full) (close_both_twice-Closed failed quiet)
        | inr (rs, made) ↦
            let undone : Host S = record h { sys = (teardown S routed.0 rs).0 } in
            rw (made, run_full) (close_both-Closed undone quiet)
      ]

  run_routed-Closed :
      (h : Host S) (cfg : Config.Client) (assign : Assignment) (dev : Text) (listens : Bool)
      (ending : Ending)
      → h.listener ≡ false
      → Closed (run_routed S h cfg assign dev listens ending).0
  unfolding run_routed
  run_routed-Closed h cfg assign dev listens ending quiet = ground (
    arith,
    run_socks-Closed h cfg assign dev listens ending quiet,
    run_full-Closed h cfg assign dev ending quiet,
    close_both-Closed h quiet,
  )

  run_dialled-Closed :
      (h : Host S) (cfg : Config.Client) (assign : Assignment) (listens : Bool) (ending : Ending)
      → h.listener ≡ false
      → h.dev ≡ none
      → Closed (run_dialled S h cfg assign listens ending).0
  unfolding run_dialled close_conn close_dev
  run_dialled-Closed h cfg assign listens ending quiet bare =
      elim (Bool-cases (bytes_eq assign.addr [])) [
        | inl nothing ↦ rw (nothing, run_dialled) (refl, bare, quiet)
        | inr address ↦ elim (Option-cases (S.open_tun h.sys cfg.tun_name).1) [
          | inl refused ↦ rw (address, run_dialled, refused) (refl, bare, quiet)
          | inr (dev, opened) ↦
              let up = if_up S (S.open_tun h.sys cfg.tun_name).0 dev assign.addr cfg.mtu in
              let h2 : Host S = record h { sys = up.0; dev = some dev } in
              elim (Bool-cases up.1) [
                | inl ready ↦
                    rw (address, run_dialled, opened, ready)
                      (run_routed-Closed h2 cfg assign dev listens ending quiet)
                | inr failed ↦ rw (address, run_dialled, opened, failed) (refl, refl, quiet)
              ]
        ]
      ]

  -- However a run of the client ends, and at whichever step it fails, the tunnel's connections,
  -- the device and the proxy's listener are closed when Run returns.
  pub run_client-Closed :
      (files : Config.System) (dial : Text → Text → Option Assignment) (s : S.State)
      (cfg : Config.Client) (listens : Bool) (ending : Ending)
      → Closed (run_client S files dial s cfg listens ending).0
  unfolding run_client
  run_client-Closed files dial s cfg listens ending =
      elim (Result-cases (decode_psk files cfg.psk)) [
        | inl (e, bad) ↦ rw (bad, run_client) (refl, refl, refl)
        | inr (psk, good) ↦ elim (Result-cases (decode_key32 files cfg.server_pub)) [
          | inl (e, bad) ↦ rw (good, run_client, bad) (refl, refl, refl)
          | inr (key, sound) ↦ elim (Option-cases (dial psk key)) [
            | inl refused ↦ rw (good, run_client, sound, refused) (refl, refl, refl)
            | inr (assign, dialled) ↦
                let h : Host S = record { sys = s; conn = true; dev = none; listener = false } in
                rw (good, run_client, sound, dialled)
                  (run_dialled-Closed h cfg assign listens ending refl refl)
          ]
        ]
      ]
