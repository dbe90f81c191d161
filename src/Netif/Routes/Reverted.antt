-- ===== src/Netif/Routes/Reverted.antt =====
-- The client's routes and its DNS are put back.
use krot_vpn.Prelude.{
  ◌≡◌, refl, sym, ◌∙◌, ◌≢◌, ◌⊎◌, inl, inr, Bool, true, false, ◌||◌, Option, none, some, [], ◌∷◌,
  arith, if◌then◌else◌, Bool-cases, Option-cases,
}
use krot_vpn.Prelude.Bytes.{bytes_eq}
use krot_vpn.Netif.{Text, Args, System, ip_route_add, ip_route_del, route_to}
use krot_vpn.Netif.Laws.{IsIproute, IsFiles, is, is-eq}
use krot_vpn.Netif.Routes.{
  RouteState, resolv, resolv_bak, managed, host_route, low_half, high_half, set_dns, restore_dns,
  drop_routes, teardown, setup_dns, setup_halves, setup_client_routes,
}

pub resolv-ne : resolv ≢ resolv_bak
unfolding resolv resolv_bak
resolv-ne e = cc

resolv_bak-ne : bytes_eq resolv_bak [] ≡ false
unfolding resolv_bak
resolv_bak-ne = refl

-- One of the three routes.
abbrev covered : RouteState → Args → Bool
covered rs q = is q (low_half rs.tun) || (is q (high_half rs.tun) || is q (host_route rs))

-- What a call of setup leaves once what it made is torn down.
abbrev pub settled : (S : System) → S.State × Option RouteState → S.State
settled S (s, none) = s
settled S (s, some rs) = (teardown S s rs).0

module _ (S : System) (files : IsFiles S) where
  -- A backup comes back.
  pub read-restore_dns :
      (t : S.State) (rs : RouteState) (cur : Text)
      → (S.write_file t resolv cur).1 ≡ true
      → rs.dns_bak ≡ resolv_bak
      → S.read_file t resolv_bak ≡ some cur
      → S.read_file (restore_dns S t rs).0 resolv ≡ some cur
  unfolding restore_dns
  read-restore_dns t rs cur writable named there =
      let kept : bytes_eq rs.dns_bak [] ≡ false = rw named resolv_bak-ne in
      rw (kept, restore_dns, named, there)
        (files.removed_other (S.write_file t resolv cur).0 resolv_bak resolv resolv-ne
          ∙ files.written t resolv cur writable)

  pub read-drop_routes :
      (s : S.State) (rs : RouteState) (p : Text)
      → S.read_file (drop_routes S s rs) p ≡ S.read_file s p
  unfolding drop_routes
  read-drop_routes s rs p = rw (files.kept_del, files.kept_del, files.kept_del) refl

module _ (S : System) (has : S.State → Args → Bool) (laws : IsIproute S has)
    (files : IsFiles S) where
  has-drop_routes :
      (s : S.State) (rs : RouteState) (q : Args)
      → has (drop_routes S s rs) q ≡ (if covered rs q then false else has s q)
  unfolding drop_routes
  has-drop_routes s rs q = ground (
    arith,
    laws.deleted s (low_half rs.tun) q,
    laws.deleted (S.run s (ip_route_del (low_half rs.tun))).0 (high_half rs.tun) q,
    laws.deleted
        (S.run (S.run s (ip_route_del (low_half rs.tun))).0 (ip_route_del (high_half rs.tun))).0
        (host_route rs) q,
  )

  has-restore_dns :
      (s : S.State) (rs : RouteState) (q : Args) → has (restore_dns S s rs).0 q ≡ has s q
  unfolding restore_dns
  has-restore_dns s rs q = elim (Bool-cases (bytes_eq rs.dns_bak [])) [
    | inl none_kept ↦ rw (none_kept, restore_dns) refl
    | inr kept ↦ elim (Option-cases (S.read_file s rs.dns_bak)) [
      | inl gone ↦ rw (kept, restore_dns, gone, laws.has-remove) refl
      | inr (saved, there) ↦ rw (kept, restore_dns, there, laws.has-remove, laws.has-write) refl
    ]
  ]

  has-teardown :
      (s : S.State) (rs : RouteState) (q : Args)
      → has (teardown S s rs).0 q ≡ (if covered rs q then false else has s q)
  unfolding teardown
  has-teardown s rs q = has-restore_dns (drop_routes S s rs) rs q ∙ has-drop_routes s rs q

  covered-absent :
      (s : S.State) (rs : RouteState) (q : Args)
      → has s (low_half rs.tun) ≡ false
      → has s (high_half rs.tun) ≡ false
      → has s (host_route rs) ≡ false
      → covered rs q ≡ true
      → has s q ≡ false
  covered-absent s rs q no_low no_high no_host inside = elim (Bool-cases (is q (low_half rs.tun))) [
    | inl low ↦ rw (is-eq q (low_half rs.tun) low) no_low
    | inr other ↦ elim (Bool-cases (is q (high_half rs.tun))) [
      | inl high ↦ rw (is-eq q (high_half rs.tun) high) no_high
      | inr neither ↦ rw (is-eq q (host_route rs) (ground arith)) no_host
    ]
  ]

  module _ (s0 : S.State) (cur : Text)
      (writable : (t : S.State) (d : Text) → (S.write_file t resolv d).1 ≡ true) where
    -- The routes but for the three are as they were, and those were not there.
    abbrev Near : RouteState → S.State → Type 0
    Near rs s =
        (q : Args)
        → ((covered rs q ≡ false → has s q ≡ has s0 q) × (covered rs q ≡ true → has s0 q ≡ false))

    -- The old resolv.conf is where teardown finds it.
    abbrev Kept : RouteState → S.State → Type 0
    Kept rs s =
        ((bytes_eq rs.dns_bak [] ≡ true) × (S.read_file s resolv ≡ some cur))
        ⊎ ((rs.dns_bak ≡ resolv_bak) × (S.read_file s resolv_bak ≡ some cur))

    abbrev Settles : S.State × Option RouteState → Type 0
    Settles p =
        ((q : Args) → has (settled S p) q ≡ has s0 q)
        × (S.read_file (settled S p) resolv ≡ some cur)

    read-teardown :
        (s : S.State) (rs : RouteState)
        → Kept rs s
        → S.read_file (teardown S s rs).0 resolv ≡ some cur
    unfolding teardown
    read-teardown s rs (inl (none_kept, now)) =
        rw (none_kept, restore_dns) (read-drop_routes S files s rs resolv ∙ now)
    read-teardown s rs (inr (named, saved)) =
        read-restore_dns S files (drop_routes S s rs) rs cur (writable (drop_routes S s rs) cur)
          named (read-drop_routes S files s rs resolv_bak ∙ saved)

    torn :
        (s : S.State) (rs : RouteState)
        → Near rs s
        → Kept rs s
        → Settles ((teardown S s rs).0, none)
    torn s rs near kept =
        (λ q. ground (arith, has-teardown s rs q, near q), read-teardown s rs kept)

    standing : (s : S.State) (rs : RouteState) → Near rs s → Kept rs s → Settles (s, some rs)
    standing s rs near kept =
        (λ q. ground (arith, has-teardown s rs q, near q), read-teardown s rs kept)

    set_dns-Kept :
        (s : S.State) (rs : RouteState) (dns : Text)
        → Near rs s
        → bytes_eq rs.dns_bak [] ≡ true
        → S.read_file s resolv ≡ some cur
        → let (s1, rs1, done) = set_dns S s rs dns in Near rs1 s1 × Kept rs1 s1
    unfolding set_dns host_route
    set_dns-Kept s rs dns near bare now =
        let t = (S.write_file s resolv_bak cur).0 in
        elim (Bool-cases (S.write_file s resolv_bak cur).1) [
          | inr lost ↦
              rw (now, set_dns, lost)
                (
                  (λ q. rw laws.has-write (near q)),
                  inl (bare, files.written_other s resolv_bak cur resolv resolv-ne ∙ now),
                )
          | inl saved ↦
              rw (now, set_dns, saved)
                (
                  (λ q. rw (laws.has-write, laws.has-write) (near q)),
                  inr (
                    refl,
                    files.written_other t resolv (managed dns) resolv_bak (λ e. resolv-ne (sym e))
                        ∙ files.written s resolv_bak cur saved,
                  ),
                )
        ]

    setup_dns-Settles :
        (s : S.State) (rs : RouteState) (dns : Text)
        → Near rs s
        → bytes_eq rs.dns_bak [] ≡ true
        → S.read_file s resolv ≡ some cur
        → Settles (setup_dns S s rs dns)
    unfolding setup_dns
    setup_dns-Settles s rs [] near bare now = standing s rs near (inl (bare, now))
    setup_dns-Settles s rs (c ∷ cs) near bare now =
        let (near1, kept1) = set_dns-Kept s rs (c ∷ cs) near bare now in
        elim (Bool-cases (set_dns S s rs (c ∷ cs)).2) [
          | inl done ↦ rw (done, setup_dns) (standing _ _ near1 kept1)
          | inr failed ↦ rw (failed, setup_dns) (torn _ _ near1 kept1)
        ]

    add-Near :
        (s : S.State) (rs : RouteState) (r : Args)
        → ((q : Args) → is q r ≡ true → (covered rs q ≡ true) × (has s0 q ≡ false))
        → Near rs s
        → Near rs (S.run s (ip_route_add r)).0
    add-Near s rs r known near q = ground (arith, laws.added s r q, known q, near q)

    setup_halves-Settles :
        (s : S.State) (rs : RouteState) (dns : Text)
        → Near rs s
        → has s0 (low_half rs.tun) ≡ false
        → has s0 (high_half rs.tun) ≡ false
        → bytes_eq rs.dns_bak [] ≡ true
        → S.read_file s resolv ≡ some cur
        → Settles (setup_halves S s rs dns)
    unfolding setup_halves
    setup_halves-Settles s rs dns near no_low no_high bare now =
        let s1 = (S.run s (ip_route_add (low_half rs.tun))).0 in
        let s2 = (S.run s1 (ip_route_add (high_half rs.tun))).0 in
        let near1 =
          add-Near s rs (low_half rs.tun)
            (λ q e. (rw e refl, rw (is-eq q (low_half rs.tun) e) no_low)) near in
        let near2 =
          add-Near s1 rs (high_half rs.tun)
            (λ q e. (ground (arith, e), rw (is-eq q (high_half rs.tun) e) no_high)) near1 in
        let now1 : S.read_file s1 resolv ≡ some cur = rw files.kept_add now in
        let now2 : S.read_file s2 resolv ≡ some cur = rw files.kept_add now1 in
        elim (Bool-cases (S.run s (ip_route_add (low_half rs.tun))).1) [
          | inr no_route ↦ rw (no_route, setup_halves) (torn s1 rs near1 (inl (bare, now1)))
          | inl low ↦ elim (Bool-cases (S.run s1 (ip_route_add (high_half rs.tun))).1) [
            | inr no_route ↦ rw (low, setup_halves, no_route) (torn s2 rs near2 (inl (bare, now2)))
            | inl high ↦ rw (low, setup_halves, high) (setup_dns-Settles s2 rs dns near2 bare now2)
          ]
        ]

  -- Whatever becomes of SetupClientRoutes, the host is as before once what it made is torn down:
  -- with iproute2 and the file system as documented, a new TUN device that no route of the two
  -- halves goes through, and an /etc/resolv.conf that can be read and written, the routing table
  -- is the old one and so is /etc/resolv.conf, after a failure at any of its commands and after a
  -- success that Teardown follows.
  pub client_routes_reverted :
      (s : S.State) (server_ip tun dns cur : Text) (q : Args)
      → has s (low_half tun) ≡ false
      → has s (high_half tun) ≡ false
      → S.read_file s resolv ≡ some cur
      → ((t : S.State) (d : Text) → (S.write_file t resolv d).1 ≡ true)
      → let end = settled S (setup_client_routes S s server_ip tun dns) in
        (has end q ≡ has s q) × (S.read_file end resolv ≡ some cur)
  unfolding setup_client_routes
  client_routes_reverted s server_ip tun dns cur q no_low no_high now writable =
      elim (Option-cases (route_to S s server_ip)) [
        | inl unknown ↦ rw (unknown, setup_client_routes) (refl, now)
        | inr ((gw, dev), known) ↦
            let rs : RouteState = record {
              server_ip = server_ip;
              gw = gw;
              dev = dev;
              tun = tun;
              dns_bak = [];
            } in
            let s1 = (S.run s (ip_route_add (host_route rs))).0 in
            let now1 : S.read_file s1 resolv ≡ some cur = rw files.kept_add now in
            elim (Bool-cases (S.run s (ip_route_add (host_route rs))).1) [
              | inr refused ↦
                  rw (known, setup_client_routes, refused)
                    (ground (arith, laws.added s (host_route rs) q), now1)
              | inl pinned ↦
                  let absent = laws.fresh s (host_route rs) pinned in
                  let near1 : Near s cur writable rs s1 = λ p. (
                    λ outside. ground (arith, laws.added s (host_route rs) p),
                    covered-absent s rs p no_low no_high absent,
                  ) in
                  let settles =
                    setup_halves-Settles s cur writable s1 rs dns near1 no_low no_high refl now1 in
                  rw (known, setup_client_routes, pinned) (settles.0 q, settles.1)
            ]
      ]
