-- ===== src/Netif/Routes.antt =====
-- internal/netif/netif_linux.go: RouteState, the client's routes and its DNS.
pub mod Crash
pub mod Reverted
use krot_vpn.Prelude.{Bool, false, not, Option, none, some, [], ◌∷◌, ◌++◌, if◌then◌else◌}
use krot_vpn.Prelude.Bytes.{codes, bytes_eq}
use krot_vpn.Netif.{Text, Args, System, ip_route_add, ip_route_del, route_to}

pub record RouteState : Type 0 where
  pub server_ip : Text
  pub gw : Text
  pub dev : Text
  pub tun : Text
  pub dns_bak : Text

unfoldable pub resolv : Text
resolv = codes "/etc/resolv.conf"

unfoldable pub resolv_bak : Text
resolv_bak = codes "/etc/resolv.conf.krot.bak"

unfoldable pub managed : Text → Text
managed dns = codes "# managed by krot" ++ (10 ∷ (codes "nameserver " ++ (dns ++ 10 ∷ [])))

-- The three routes: the server's own, by the old gateway, and the two halves of the default route.
unfoldable pub host_route : RouteState → Args
host_route rs =
    let ip = rs.server_ip ++ codes "/32" in
    if bytes_eq rs.gw []
    then ip ∷ codes "dev" ∷ rs.dev ∷ []
    else ip ∷ codes "via" ∷ rs.gw ∷ codes "dev" ∷ rs.dev ∷ []

unfoldable pub low_half : Text → Args
low_half tun = codes "0.0.0.0/1" ∷ codes "dev" ∷ tun ∷ []

unfoldable pub high_half : Text → Args
high_half tun = codes "128.0.0.0/1" ∷ codes "dev" ∷ tun ∷ []

module _ (S : System) where
  -- The backup, if there is a file, and then the file; `true` is success.
  unfoldable pub set_dns : S.State → RouteState → Text → S.State × RouteState × Bool
  set_dns s rs dns = elim (S.read_file s resolv) [
    | none ↦ (let (s', wrote) = S.write_file s resolv (managed dns) in (s', rs, wrote))
    | some cur ↦
        (let (s1, saved) = S.write_file s resolv_bak cur in
          if not saved
          then (s1, rs, false)
          else (let (s2, wrote) = S.write_file s1 resolv (managed dns) in
              (s2, record rs { dns_bak = resolv_bak }, wrote)))
  ]

  abbrev put_back : S.State → Option Text → S.State
  put_back s none = s
  put_back s (some saved) = (S.write_file s resolv saved).0

  unfoldable pub restore_dns : S.State → RouteState → S.State × RouteState
  restore_dns s rs =
      if bytes_eq rs.dns_bak []
      then (s, rs)
      else (let s1 = put_back s (S.read_file s rs.dns_bak) in
          (S.remove s1 rs.dns_bak, record rs { dns_bak = [] }))

  -- The commands' errors are dropped.
  unfoldable pub drop_routes : S.State → RouteState → S.State
  drop_routes s rs =
      let s1 = (S.run s (ip_route_del (low_half rs.tun))).0 in
      let s2 = (S.run s1 (ip_route_del (high_half rs.tun))).0 in
      (S.run s2 (ip_route_del (host_route rs))).0

  unfoldable pub teardown : S.State → RouteState → S.State × RouteState
  unfolding drop_routes restore_dns
  teardown s rs = restore_dns (drop_routes s rs) rs

  -- From the two halves on, with what goes wrong torn down.
  unfoldable pub setup_dns : S.State → RouteState → Text → S.State × Option RouteState
  unfolding set_dns teardown
  setup_dns s rs [] = (s, some rs)
  setup_dns s rs (c ∷ cs) =
      let (s1, rs1, done) = set_dns s rs (c ∷ cs) in
      if done then (s1, some rs1) else ((teardown s1 rs1).0, none)

  unfoldable pub setup_halves : S.State → RouteState → Text → S.State × Option RouteState
  unfolding setup_dns
  setup_halves s rs dns =
      let (s1, low) = S.run s (ip_route_add (low_half rs.tun)) in
      if not low
      then ((teardown s1 rs).0, none)
      else (let (s2, high) = S.run s1 (ip_route_add (high_half rs.tun)) in
          if not high then ((teardown s2 rs).0, none) else setup_dns s2 rs dns)

  unfoldable pub setup_client_routes : S.State → Text → Text → Text → S.State × Option RouteState
  unfolding setup_halves
  setup_client_routes s server_ip tun dns = elim (route_to S s server_ip) [
    | none ↦ (s, none)
    | some (gw, dev) ↦
        (let rs : RouteState = record {
          server_ip = server_ip;
          gw = gw;
          dev = dev;
          tun = tun;
          dns_bak = [];
        } in
          let (s1, pinned) = S.run s (ip_route_add (host_route rs)) in
          if not pinned then (s1, none) else setup_halves s1 rs dns)
  ]
