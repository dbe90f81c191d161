-- ===== src/Client/Reverted.antt =====
-- The routes and the DNS of the host after a run that sends everything through the tunnel, or
-- nothing.
use krot_vpn.Prelude.{
  ◌≡◌, refl, ◌∙◌, inl, inr, Bool, true, false, not, ◌&&◌, Option, none, some, [], arith, Bool-cases,
  Option-cases, Result-cases,
}
use krot_vpn.Client.{
  Ending, Host, close_conn, close_dev, close_both, dns_of, run_full, run_routed, run_dialled,
  run_client,
}
use krot_vpn.Config
use krot_vpn.Config.{decode_psk, decode_key32}
use krot_vpn.Netif.{Text, Args, System, if_up}
use krot_vpn.Netif.Laws.{IsIproute, IsFiles}
use krot_vpn.Netif.Routes.{resolv, low_half, high_half, setup_client_routes, teardown}
use krot_vpn.Netif.Routes.Reverted.{settled, client_routes_reverted}
use krot_vpn.Netif.Views.{IsUnseen, view-if_up}
use krot_vpn.Prelude.Bytes.{codes, bytes_eq}
use krot_vpn.Prelude.Int.{ℤ}
use krot_vpn.Transport.Dial.{Assignment}

-- A new device has no routes, and closing it removes those `through` it; `ip addr add` and `ip
-- link set` add no others. None of this touches the files.
pub record IsTunRoutes (S : System) (has : S.State → Args → Bool) (through : Text → Args → Bool)
    : Type 0 where
  pub has-open : (s : S.State) (name : Text) (q : Args) → has (S.open_tun s name).0 q ≡ has s q
  pub fresh :
      (s : S.State) (name dev : Text) (q : Args)
      → (S.open_tun s name).1 ≡ some dev
      → through dev q ≡ true
      → has s q ≡ false
  pub closed :
      (s : S.State) (dev : Text) (q : Args)
      → has (S.close_tun s dev) q ≡ (not (through dev q) && has s q)
  pub outside :
      (q : Args) (cidr dev : Text) → through dev q ≡ false → IsUnseen S (λ s. has s q) cidr dev
  pub through_low : (dev : Text) → through dev (low_half dev) ≡ true
  pub through_high : (dev : Text) → through dev (high_half dev) ≡ true
  pub read-open :
      (s : S.State) (name p : Text) → S.read_file (S.open_tun s name).0 p ≡ S.read_file s p
  pub read-close :
      (s : S.State) (dev p : Text) → S.read_file (S.close_tun s dev) p ≡ S.read_file s p
  pub read-if_up : (p cidr dev : Text) → IsUnseen S (λ s. S.read_file s p) cidr dev

-- The two halves of the default route are not what `ip addr add` connects.
pub record IsApart (S : System) (has : S.State → Args → Bool) (cidr : Text) : Type 0 where
  pub low : (dev : Text) → IsUnseen S (λ s. has s (low_half dev)) cidr dev
  pub high : (dev : Text) → IsUnseen S (λ s. has s (high_half dev)) cidr dev

module _ (S : System) (has : S.State → Args → Bool) (through : Text → Args → Bool)
    (laws : IsIproute S has) (files : IsFiles S) (tun : IsTunRoutes S has through) (cur : Text)
    (writable : (t : S.State) (d : Text) → (S.write_file t resolv d).1 ≡ true) where
  -- The main routing table and /etc/resolv.conf are as before.
  abbrev pub Same : S.State → S.State → Type 0
  Same s end = ((q : Args) → has end q ≡ has s q) × (S.read_file end resolv ≡ some cur)

  closed-Same :
      (s t : S.State) (name dev : Text)
      → (S.open_tun s name).1 ≡ some dev
      → ((q : Args) → through dev q ≡ false → has t q ≡ has s q)
      → S.read_file t resolv ≡ some cur
      → Same s (S.close_tun t dev)
  closed-Same s t name dev got apart now = (
    λ q. ground (arith, tun.closed t dev q, tun.fresh s name dev q got, apart q),
    tun.read-close t dev resolv ∙ now,
  )

  close_both-sys :
      (h : Host S) (dev : Text) → h.dev ≡ some dev → (close_both S h).sys ≡ S.close_tun h.sys dev
  unfolding close_both close_conn close_dev
  close_both-sys h dev there = rw there refl

  -- A second time changes nothing.
  close_both_twice-sys :
      (h : Host S) (dev : Text)
      → h.dev ≡ some dev
      → (close_both S (close_both S h)).sys ≡ S.close_tun h.sys dev
  unfolding close_both close_conn close_dev
  close_both_twice-sys h dev there = rw there refl

  run_full-sys :
      (h : Host S) (cfg : Config.Client) (assign : Assignment) (dev : Text) (ending : Ending)
      → h.dev ≡ some dev
      → (run_full S h cfg assign dev ending).0.sys
        ≡ S.close_tun
            (settled S (setup_client_routes S h.sys cfg.server_ip dev (dns_of S cfg assign)))
            dev
  unfolding run_full
  run_full-sys h cfg assign dev ending there =
      let routed = setup_client_routes S h.sys cfg.server_ip dev (dns_of S cfg assign) in
      elim (Option-cases routed.1) [
        | inl refused ↦
            let failed : Host S = record h { sys = routed.0 } in
            rw (refused, run_full) (close_both_twice-sys failed dev there)
        | inr (rs, made) ↦
            let undone : Host S = record h { sys = (teardown S routed.0 rs).0 } in
            rw (made, run_full) (close_both-sys undone dev there)
      ]

  -- With the device configured: the state that the routes are set up in.
  abbrev ready : S.State → Text → Text → Text → ℤ → S.State
  ready s name dev cidr mtu = (if_up S (S.open_tun s name).0 dev cidr mtu).0

  has-ready :
      (s : S.State) (name dev cidr : Text) (mtu : ℤ) (q : Args)
      → through dev q ≡ false
      → has (ready s name dev cidr mtu) q ≡ has s q
  has-ready s name dev cidr mtu q out =
      view-if_up S (λ t. has t q) (S.open_tun s name).0 dev cidr mtu (tun.outside q cidr dev out)
      ∙ tun.has-open s name q

  read-ready :
      (s : S.State) (name dev cidr : Text) (mtu : ℤ)
      → S.read_file (ready s name dev cidr mtu) resolv ≡ S.read_file s resolv
  read-ready s name dev cidr mtu =
      view-if_up S (λ t. S.read_file t resolv) (S.open_tun s name).0 dev cidr mtu
        (tun.read-if_up resolv cidr dev)
      ∙ tun.read-open s name resolv

  -- A route of the device that IfUp does not make is not there.
  no_route :
      (s : S.State) (name dev cidr : Text) (mtu : ℤ) (q : Args)
      → (S.open_tun s name).1 ≡ some dev
      → through dev q ≡ true
      → IsUnseen S (λ t. has t q) cidr dev
      → has (ready s name dev cidr mtu) q ≡ false
  no_route s name dev cidr mtu q got inside unseen =
      view-if_up S (λ t. has t q) (S.open_tun s name).0 dev cidr mtu unseen
      ∙ tun.has-open s name q
      ∙ tun.fresh s name dev q got inside

  routed-Same :
      (s : S.State) (h : Host S) (cfg : Config.Client) (assign : Assignment) (dev : Text)
      (listens : Bool) (ending : Ending)
      → (S.open_tun s cfg.tun_name).1 ≡ some dev
      → h.dev ≡ some dev
      → h.sys ≡ ready s cfg.tun_name dev assign.addr cfg.mtu
      → S.read_file s resolv ≡ some cur
      → IsApart S has assign.addr
      → bytes_eq cfg.socks_listen [] ≡ true
      → Same s (run_routed S h cfg assign dev listens ending).0.sys
  unfolding run_routed
  routed-Same s h cfg assign dev listens ending got there at now apart plain =
      let t = ready s cfg.tun_name dev assign.addr cfg.mtu in
      let now1 : S.read_file t resolv ≡ some cur =
        read-ready s cfg.tun_name dev assign.addr cfg.mtu ∙ now in
      elim (Bool-cases (bytes_eq cfg.route_mode (codes "manual"))) [
        | inl manual ↦
            rw (plain, run_routed, manual, close_both-sys h dev there, at)
              (closed-Same s t cfg.tun_name dev got
                (has-ready s cfg.tun_name dev assign.addr cfg.mtu) now1)
        | inr full ↦
            let dns = dns_of S cfg assign in
            let no_low =
              no_route s cfg.tun_name dev assign.addr cfg.mtu (low_half dev) got
                (tun.through_low dev) (apart.low dev) in
            let no_high =
              no_route s cfg.tun_name dev assign.addr cfg.mtu (high_half dev) got
                (tun.through_high dev) (apart.high dev) in
            let back : (q : Args) → _ = λ q.
              client_routes_reverted S has laws files t cfg.server_ip dev dns cur q no_low no_high
                now1 writable in
            rw (plain, run_routed, full, run_full-sys h cfg assign dev ending there, at)
              (closed-Same s (settled S (setup_client_routes S t cfg.server_ip dev dns))
                cfg.tun_name dev got
                (λ q out. (back q).0 ∙ has-ready s cfg.tun_name dev assign.addr cfg.mtu q out)
                (back []).1)
      ]

  dialled-Same :
      (h : Host S) (cfg : Config.Client) (assign : Assignment) (listens : Bool) (ending : Ending)
      → S.read_file h.sys resolv ≡ some cur
      → IsApart S has assign.addr
      → bytes_eq cfg.socks_listen [] ≡ true
      → Same h.sys (run_dialled S h cfg assign listens ending).0.sys
  unfolding run_dialled close_conn close_dev
  dialled-Same h cfg assign listens ending now apart plain =
      elim (Bool-cases (bytes_eq assign.addr [])) [
        | inl nothing ↦ rw (nothing, run_dialled) (λ q. refl, now)
        | inr address ↦ elim (Option-cases (S.open_tun h.sys cfg.tun_name).1) [
          | inl refused ↦
              rw (address, run_dialled, refused)
                (
                  λ q. tun.has-open h.sys cfg.tun_name q,
                  tun.read-open h.sys cfg.tun_name resolv ∙ now,
                )
          | inr (dev, got) ↦
              let up = if_up S (S.open_tun h.sys cfg.tun_name).0 dev assign.addr cfg.mtu in
              let h2 : Host S = record h { sys = up.0; dev = some dev } in
              elim (Bool-cases up.1) [
                | inl ready_ ↦
                    rw (address, run_dialled, got, ready_)
                      (routed-Same h.sys h2 cfg assign dev listens ending got refl refl now apart
                        plain)
                | inr failed ↦
                    rw (address, run_dialled, got, failed)
                      (closed-Same h.sys up.0 cfg.tun_name dev got
                        (has-ready h.sys cfg.tun_name dev assign.addr cfg.mtu)
                        (read-ready h.sys cfg.tun_name dev assign.addr cfg.mtu ∙ now))
              ]
        ]
      ]

  -- Without the SOCKS mode, a run of the client leaves the main routing table and /etc/resolv.conf
  -- as they were, however it ends and at whichever step it fails: in full mode and in manual mode.
  -- The kernel, iproute2 and the file system do as documented, /etc/resolv.conf can be read and
  -- written, and the assigned network is neither half of the address space.
  pub run_client_reverted :
      (sys : Config.System) (dial : Text → Text → Option Assignment) (s : S.State)
      (cfg : Config.Client) (listens : Bool) (ending : Ending)
      → S.read_file s resolv ≡ some cur
      → ((psk key : Text) (assign : Assignment)
          → dial psk key ≡ some assign
          → IsApart S has assign.addr)
      → bytes_eq cfg.socks_listen [] ≡ true
      → Same s (run_client S sys dial s cfg listens ending).0.sys
  unfolding run_client
  run_client_reverted sys dial s cfg listens ending now apart plain =
      elim (Result-cases (decode_psk sys cfg.psk)) [
        | inl (e, bad) ↦ rw (bad, run_client) (λ q. refl, now)
        | inr (psk, good) ↦ elim (Result-cases (decode_key32 sys cfg.server_pub)) [
          | inl (e, bad) ↦ rw (good, run_client, bad) (λ q. refl, now)
          | inr (key, sound) ↦ elim (Option-cases (dial psk key)) [
            | inl refused ↦ rw (good, run_client, sound, refused) (λ q. refl, now)
            | inr (assign, dialled) ↦
                let h : Host S = record { sys = s; conn = true; dev = none; listener = false } in
                rw (good, run_client, sound, dialled)
                  (dialled-Same h cfg assign listens ending now (apart psk key assign dialled)
                    plain)
          ]
        ]
      ]
