-- ===== src/Tests/Hosting.antt =====
-- Runs on the toy host: the client's routes, DNS and source routing, the client's life, and the
-- server's start.
use krot_vpn.Prelude.{
  ◌+◌, ◌*◌, ◌^◌, ◌≡◌, ◌≢◌, refl, ap, get_or, sym, true, false, none, some, [], ◌∷◌, arith,
  replicate, ok,
}
use mathlib.Core.Option.{some-injective}
use krot_vpn.Client.{run_client, cancelled}
use krot_vpn.Client.Reverted.{run_client_reverted}
use krot_vpn.Client.Lifecycle.{run_client-Closed}
use krot_vpn.Config
use krot_vpn.Config.{load_server, load_json, decode_psk, decode_key32, apply_server_defaults}
use krot_vpn.Krotctl.ServerRun.{server_run, server_run_reverted}
use mathlib.Core.Path.{subst}
use krot_vpn.Crypto.Replay.{new_replay_filter}
use krot_vpn.Crypto.Replay.Log.{answers, log_answers, answers_refined}
use krot_vpn.Netif.{Args, Text}
use krot_vpn.Netif.Nat.{append_flag, egress_of}
use krot_vpn.Netif.Routes.{RouteState, resolv, managed, set_dns, teardown}
use krot_vpn.Netif.Routes.Crash.{dns_lost_after_crash}
use krot_vpn.Netif.SourceRoute.{
  SrcRouteState, setup_source_route, src_teardown, default_table, install_rule, loosen_filters,
  sysctl_set, replace_default, rule_add, rule_del,
}
use krot_vpn.Netif.SourceRoute.Tables.{settled_source, source_route_undone, source_table_emptied}
use krot_vpn.Prelude.Bytes.{codes, bytes_eq}
use krot_vpn.Prelude.Int.{pos}
use krot_vpn.Server.Start.{Parsed}
use krot_vpn.Server.Start.Reverted.{Restored}
use krot_vpn.Tests.Fixtures.{toy, address}
use krot_vpn.Tests.Lab.{Lab, has_route, through, run_lab, run_ip, run_route, run_rule, word, lab}
use krot_vpn.Tests.Lab.Laws.{
  lab-IsTunRoutes, lab-IsApart, lab-IsIproute, lab-IsFiles, lab-IsPolicyRouting, lab-IsIptables,
  lab-IsTun, opened_lem,
}

abbrev tun0 : Text
tun0 = codes "krot0"

abbrev old_dns : Text
old_dns = codes "nameserver 192.0.2.53"

-- A host with the default route, one route in the main table 254, and a resolv.conf.
abbrev idle : Lab
idle = record {
  routes = λ q. false;
  tables = λ t q. bytes_eq t (codes "254");
  lookups = λ a b. false;
  files = λ p. some old_dns;
  filters = λ r. 0;
  devices = λ q. bytes_eq q (codes "eth0");
}

abbrev routed : RouteState
routed = record {
  server_ip = codes "198.51.100.7";
  gw = [];
  dev = codes "eth0";
  tun = tun0;
  dns_bak = [];
}

dns_lost_after_crash_example :
    let s1 = (set_dns lab idle routed (codes "1.1.1.1")).0 in
    let (s2, rs, done) = set_dns lab s1 routed (codes "8.8.8.8") in
    let end = (teardown lab s2 rs).0 in
    (end.files resolv ≡ some (managed (codes "1.1.1.1"))) × (end.files resolv ≢ some old_dns)
unfolding managed
dns_lost_after_crash_example =
    dns_lost_after_crash lab lab-IsFiles (λ t p d. refl) idle routed routed (codes "1.1.1.1")
      (codes "8.8.8.8") old_dns refl (λ e. absurd (omega (arith, ap (λ p. get_or p 0 0) e)))

source_route_undone_example :
    let end = settled_source lab (setup_source_route lab idle (codes "10.8.0.2") tun0 []) in
    (end.lookups (codes "10.8.0.2") (codes "100") ≡ false) × (end.tables (codes "254") [] ≡ true)
unfolding default_table
source_route_undone_example =
    source_route_undone lab bytes_eq (λ s. s.lookups) (λ s. s.tables) lab-IsPolicyRouting idle
      (codes "10.8.0.2") tun0 [] (codes "10.8.0.2") (codes "100") (codes "254") [] refl refl

abbrev source_mode : Text → SrcRouteState
source_mode table = record { src_ip = codes "10.8.0.2"; tun = tun0; table = table; added = true }

-- The state after the setup in the main table.
abbrev in_main : Lab
in_main = (setup_source_route lab idle (codes "10.8.0.2") tun0 (codes "254")).0

set_up_in_main :
    setup_source_route lab idle (codes "10.8.0.2") tun0 (codes "254")
    ≡ (in_main, some (source_mode (codes "254")))
unfolding setup_source_route install_rule loosen_filters default_table sysctl_set replace_default
    rule_add rule_del run_lab run_ip run_route run_rule word
set_up_in_main = refl

-- The main table had a route, and has none.
main_table_emptied :
    (src_teardown lab in_main (source_mode (codes "254"))).0.tables (default_table (codes "254")) []
    ≡ false
main_table_emptied =
    source_table_emptied lab bytes_eq (λ s. s.lookups) (λ s. s.tables) lab-IsPolicyRouting idle
      (codes "10.8.0.2") tun0 (codes "254") [] set_up_in_main

abbrev server_cfg : Config.Server
server_cfg = record {
  listen = codes ":443";
  sni = codes "example.org";
  path = codes "/";
  psk = replicate 32 5;
  server_priv = replicate 32 1;
  cert_file = [];
  key_file = [];
  self_signed = true;
  decoy = [];
  tun_name = tun0;
  tun_cidr = codes "10.8.0.1/29";
  dns = [];
  wan_iface = codes "eth0";
  mtu = pos 1320;
}

-- The texts are their own base64.
abbrev files : Config.System
files = record {
  read_file = λ p. some p;
  parse_server = λ b. some server_cfg;
  parse_client = λ b. none;
  unb64 = λ b. some b;
}

abbrev client_cfg : Config.Client
client_cfg = record {
  server_ip = codes "198.51.100.7";
  server_port = pos 443;
  sni = codes "example.org";
  path = codes "/";
  psk = replicate 32 5;
  server_pub = replicate 32 1;
  insecure = false;
  pin_sha256 = [];
  tun_name = tun0;
  mtu = pos 1320;
  dns = codes "1.1.1.1";
  channels = pos 4;
  route_mode = [];
  socks_listen = [];
  socks_table = [];
}

run_client_reverted_example :
    let end =
      (run_client lab files (λ psk key. some address) idle client_cfg true cancelled).0.sys in
    ((q : Args) → has_route end q ≡ has_route idle q) × (end.files resolv ≡ some old_dns)
run_client_reverted_example =
    run_client_reverted lab has_route through lab-IsIproute lab-IsFiles lab-IsTunRoutes old_dns
      (λ t d. refl) files (λ psk key. some address) idle client_cfg true cancelled refl
      (λ psk key assign dialled. lab-IsApart assign.addr) refl

run_client-Closed_example :
    let end = (run_client lab files (λ psk key. some address) idle client_cfg true cancelled).0 in
    (end.conn ≡ false) × (end.dev ≡ none) × (end.listener ≡ false)
run_client-Closed_example =
    run_client-Closed lab files (λ psk key. some address) idle client_cfg true cancelled

-- 10.8.0.0/29 with the gateway 10.8.0.1.
abbrev network : Parsed
network = record {
  cidr = record {
    ip4 = some (10 * 2 ^ 24 + 8 * 2 ^ 16 + 1);
    network = 10 * 2 ^ 24 + 8 * 2 ^ 16;
    prefix = 29;
    bits = 32;
  };
  address = codes "10.8.0.1";
  network = codes "10.8.0.0/29";
}

named_plain :
    (x y : Text) → bytes_eq x append_flag ≡ false → some x ≡ some y → bytes_eq y append_flag ≡ false
named_plain x y h same = rw (← some-injective x y same) h

tun0_plain :
    (s : Lab) (dev : Text) → (lab.open_tun s tun0).1 ≡ some dev → bytes_eq dev append_flag ≡ false
unfolding append_flag
tun0_plain s dev got = rw (← (opened_lem s tun0 dev got).0) refl

eth0_plain : bytes_eq (codes "eth0") append_flag ≡ false
unfolding append_flag
eth0_plain = refl

network_plain : bytes_eq (codes "10.8.0.0/29") append_flag ≡ false
unfolding append_flag
network_plain = refl

server_loaded : load_server files (codes "/etc/krot/server.json") ≡ ok server_cfg
unfolding load_server load_json decode_psk decode_key32 apply_server_defaults
server_loaded = refl

server_known :
    (cfg : Config.Server)
    → load_server files (codes "/etc/krot/server.json") ≡ ok cfg
    → server_cfg ≡ cfg
server_known cfg good = ground (arith, server_loaded, good)

loaded_dev_plain :
    (cfg : Config.Server) (s : Lab) (dev : Text)
    → load_server files (codes "/etc/krot/server.json") ≡ ok cfg
    → (lab.open_tun s cfg.tun_name).1 ≡ some dev
    → bytes_eq dev append_flag ≡ false
loaded_dev_plain cfg s dev good got =
    tun0_plain s dev
      (subst (λ c. (lab.open_tun s c.tun_name).1 ≡ some dev) (sym (server_known cfg good)) got)

loaded_network_plain :
    (cfg : Config.Server) (net : Text)
    → load_server files (codes "/etc/krot/server.json") ≡ ok cfg
    → some network.network ≡ some net
    → bytes_eq net append_flag ≡ false
loaded_network_plain cfg net good named = named_plain (codes "10.8.0.0/29") net network_plain named

loaded_egress_plain :
    (cfg : Config.Server) (s : Lab) (egress : Text)
    → load_server files (codes "/etc/krot/server.json") ≡ ok cfg
    → egress_of lab s cfg.wan_iface ≡ some egress
    → bytes_eq egress append_flag ≡ false
loaded_egress_plain cfg s egress good named =
    named_plain (codes "eth0") egress eth0_plain
      (subst (λ c. egress_of lab s c.wan_iface ≡ some egress) (sym (server_known cfg good)) named)

server_run_reverted_example :
    let path = codes "/etc/krot/server.json" in
    let end = (server_run lab files toy (λ t. some network) idle path (ok tt)).0 in
    Restored lab (λ s. s.filters) (λ s. s.devices) idle end
server_run_reverted_example =
    server_run_reverted lab (λ s. s.filters) (λ s. s.devices) lab-IsIptables lab-IsTun files toy
      (λ t. some network) idle (codes "/etc/krot/server.json") (ok tt) loaded_dev_plain
      loaded_network_plain loaded_egress_plain

-- A repeated token, before and after its TTL of one second.
answers_refined_example :
    answers (new_replay_filter (pos 1_000_000_000)) ((5, 1 ∷ []) ∷ (5, 1 ∷ []) ∷ (6, 1 ∷ []) ∷ [])
    ≡ log_answers 1 [] ((5, 1 ∷ []) ∷ (5, 1 ∷ []) ∷ (6, 1 ∷ []) ∷ [])
unfolding new_replay_filter
answers_refined_example =
    answers_refined (pos 1_000_000_000) ((5, 1 ∷ []) ∷ (5, 1 ∷ []) ∷ (6, 1 ∷ []) ∷ []) 6
      (omega arith, (omega arith, (omega arith, refl)))
