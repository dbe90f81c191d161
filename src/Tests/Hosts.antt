-- ===== src/Tests/Hosts.antt =====
-- Runs of the server's address pool, its sessions and its routing, of the SOCKS proxy and of the
-- configuration.
use krot_vpn.Prelude.{
  ℕ, ◌+◌, ◌*◌, ◌^◌, ◌≤◌, ◌≡◌, refl, ◌≢◌, ◌⊎◌, true, false, none, some, List, [], ◌∷◌, arith, length,
  replicate, ok,
}
use native.Mathlib.Decide.{ℕ_discrete}
use krot_vpn.Prelude.Bytes.{codes, bytes_discrete}
use krot_vpn.Prelude.Counts.{count}
use krot_vpn.Prelude.Int.{pos}
use krot_vpn.Prelude.Maps.{find, Uniq}
use krot_vpn.Config.{
  System, Server, is_empty, apply_server_defaults, decode_psk, decode_key32, load_json, load_server,
}
use krot_vpn.Config.Loaded.{load_server_usable}
use krot_vpn.Crypto.Keys.{key_size}
use krot_vpn.Net.{print_dec, print_quad}
use krot_vpn.Server.Pool.{Cidr, IpPool, Lease, host_loop, build, new_ip_pool, alloc, alloc_from}
use krot_vpn.Server.Pool.Balance.{IsNetwork, in_range}
use krot_vpn.Server.Pool.Leases
use krot_vpn.Server.Pool.Leases.{lease_unique, holders, allocs, releases}
use krot_vpn.Server.Router.{writes, dispatch, handle_start, register, unregister}
use krot_vpn.Server.Router.Assigned.{dispatch-assigned}
use krot_vpn.Server.Router.Ownership.{packet_to, unregister-overlap}
use krot_vpn.Server.Sessions.Addresses
use krot_vpn.Server.Sessions.Addresses.{Step, address_exclusive, leases_of}
use krot_vpn.Socks.{Texts, ver5, handshake, reply, join_host_port}
use krot_vpn.Socks.Replies.{handshake-answers, is_ok}
use krot_vpn.Socks.Requests.{domain, greeting, request, handshake-request}
use krot_vpn.Crypto.Keys.{generate_keypair}
use krot_vpn.Crypto.Replay.{check, collect, sweep}
use krot_vpn.Server.Sessions.{Session, Handler, upgrade_failed, serve_http}
use krot_vpn.Server.Sessions.Failures.{Waits, failed_upgrade-Waits}
use krot_vpn.Transport.Auth.{Request, Claims, check_auth}
use krot_vpn.Transport.Dial.Agreement.{claims_of, dial_admitted}
use krot_vpn.Transport.Dial.{upgrade_request}
use krot_vpn.Tests.Fixtures.{
  toy, toy-IsSound, plain, plain-IsFaithful, pair, client_config, session_id, auth,
}

-- 10.8.0.0/29 with the gateway 10.8.0.1.
abbrev base : ℕ
base = 10 * 2 ^ 24 + 8 * 2 ^ 16

abbrev network : Cidr
network = record { ip4 = some (base + 1); network = base; prefix = 29; bits = 32 }

network-IsNetwork : IsNetwork network
network-IsNetwork = record { fits = omega arith; inside = omega arith }

abbrev pool : IpPool
pool = record {
  prefix = 29;
  free = (base + 6) ∷ (base + 5) ∷ (base + 4) ∷ (base + 3) ∷ (base + 2) ∷ [];
  used = [];
}

pool_built : new_ip_pool (some network) ≡ ok pool
unfolding new_ip_pool build host_loop
pool_built = refl

lease_unique_example :
    let b =
      Leases.run
        (record { pool = pool; leases = [] })
        (allocs ∷ releases 0 ∷ releases 0 ∷ allocs ∷ []) in
    let hosts = in_range network.network (base + 1) 1 7 in
    (hosts (base + 6) ≤ 1)
    × (holders (base + 6) b.leases ≤ hosts (base + 6))
    × (count (base + 6) b.pool.free + holders (base + 6) b.leases ≡ hosts (base + 6))
lease_unique_example =
    lease_unique network (base + 1) (allocs ∷ releases 0 ∷ releases 0 ∷ allocs ∷ []) (base + 6)
      {p = pool} network-IsNetwork refl pool_built

abbrev calls : List Step
calls =
    Addresses.serves (1000, 1000)
      (upgrade_request toy plain client_config session_id 0 (pair 20) (pos 1000))
      (some (replicate 32 4)) true 7
    ∷ Addresses.ends session_id
    ∷ Addresses.releases 0
    ∷ []

address_exclusive_example :
    let h =
      Addresses.run toy plain
        (record { auth = auth; sessions = []; tunnels = []; next = 0; pool = pool; pending = [] })
        calls in
    let hosts = in_range network.network (base + 1) 1 7 in
    Uniq bytes_discrete h.sessions
    × (hosts (base + 6) ≤ 1)
    × (holders (base + 6) (leases_of h.sessions) + holders (base + 6) h.pending ≤ hosts (base + 6))
    × (count (base + 6) h.pool.free
          + (holders (base + 6) (leases_of h.sessions) + holders (base + 6) h.pending)
        ≡ hosts (base + 6))
address_exclusive_example =
    address_exclusive toy plain network (base + 1) auth calls (base + 6) {pool = pool}
      network-IsNetwork refl pool_built

abbrev header : List ℕ
header = 69 ∷ replicate 15 0

abbrev leased : List ℕ
leased = print_quad (base + 6) (47 ∷ print_dec 29)

abbrev lease : Lease
lease = record { ip = base + 6; fired = false }

abbrev pool_next : IpPool
pool_next = record {
  prefix = 29;
  free = (base + 5) ∷ (base + 4) ∷ (base + 3) ∷ (base + 2) ∷ [];
  used = (base + 6) ∷ [];
}

dispatch-assigned_example :
    dispatch (handle_start (λ t. none) 3 leased []) (packet_to header (base + 6) (1 ∷ []))
    ≡ writes 3 (packet_to header (base + 6) (1 ∷ []))
unfolding alloc alloc_from
dispatch-assigned_example =
    dispatch-assigned pool (λ t. none) 3 [] leased header (1 ∷ []) lease pool_next refl
      (omega arith) refl refl

unregister-overlap_example :
    find ℕ_discrete 9 (unregister 9 1 (register 9 2 (register 9 1 ((8, 5) ∷ [])))) ≡ some 2
unregister-overlap_example = unregister-overlap 9 1 2 9 ((8, 5) ∷ []) (λ e. omega (arith, e))

abbrev texts : Texts
texts = record { ip6 = λ b. b; itoa = print_dec }

handshake-request_example :
    handshake texts true (greeting (0 ∷ []) (request (domain (codes "krot.example")) 443 (1 ∷ [])))
    ≡ record {
      out = ver5 ∷ 0 ∷ [];
      result = ok (join_host_port (codes "krot.example") (print_dec 443));
    }
handshake-request_example =
    handshake-request texts (0 ∷ []) (domain (codes "krot.example")) 443 (1 ∷ []) (omega arith)
      (omega arith)

handshake-answers_example :
    let a = handshake texts true (5 ∷ 1 ∷ 0 ∷ 5 ∷ 2 ∷ 0 ∷ 1 ∷ []) in
    (a.out ≡ 5 ∷ 0 ∷ reply 7) × (is_ok a.result ≡ false)
handshake-answers_example = handshake-answers texts true (5 ∷ 1 ∷ 0 ∷ 5 ∷ 2 ∷ 0 ∷ 1 ∷ [])

abbrev server_file : Server
server_file = record {
  listen = [];
  sni = [];
  path = [];
  psk = replicate 32 5;
  server_priv = replicate 32 1;
  cert_file = [];
  key_file = [];
  self_signed = true;
  decoy = [];
  tun_name = [];
  tun_cidr = [];
  dns = [];
  wan_iface = [];
  mtu = pos 0;
}

abbrev system : System
system = record {
  read_file = λ p. some p;
  parse_server = λ b. some server_file;
  parse_client = λ b. none;
  unb64 = λ b. some b;
}

server_loaded : load_server system [] ≡ ok (apply_server_defaults server_file)
unfolding load_server load_json decode_psk decode_key32 apply_server_defaults
server_loaded = refl

load_server_usable_example :
    let c = apply_server_defaults server_file in
    ((b : List ℕ) × (system.unb64 c.psk ≡ some b) × (length b ≡ key_size))
    × ((b : List ℕ) × (system.unb64 c.server_priv ≡ some b) × (length b ≡ 32))
    × ((c.self_signed ≡ true) ⊎ ((is_empty c.cert_file ≡ false) × (is_empty c.key_file ≡ false)))
    × (is_empty c.listen ≡ false)
    × (is_empty c.path ≡ false)
    × (is_empty c.tun_name ≡ false)
    × (is_empty c.tun_cidr ≡ false)
    × (c.mtu ≢ pos 0)
    × (apply_server_defaults c ≡ c)
load_server_usable_example =
    load_server_usable system [] {c = apply_server_defaults server_file} server_loaded

abbrev dialled : Request
dialled = upgrade_request toy plain client_config session_id 0 (pair 20) (pos 1000)

abbrev handler : Handler
handler = record { auth = auth; sessions = []; tunnels = []; next = 0; pool = pool; pending = [] }

abbrev claims : Claims
claims = claims_of toy client_config session_id 0 (pair 20) (pos 1000)

dial_passes : (check_auth toy plain auth (1000, 1000) dialled).1 ≡ some claims
unfolding check collect find sweep
dial_passes =
    dial_admitted toy plain toy-IsSound plain-IsFaithful auth (1000, 1000) client_config session_id
      0 (pair 20) (pos 1000) refl refl refl (omega arith) refl (omega arith, omega arith) refl

failed_upgrade-Waits_example :
    let (h', outcome) =
      serve_http toy plain handler (1000, 1000) dialled (some (30 ∷ replicate 31 0)) false 7 in
    (outcome ≡ upgrade_failed)
    × ((s : Session) × Waits session_id lease h' s)
    × (h'.pool ≡ pool_next)
unfolding find alloc alloc_from generate_keypair upgrade_request
failed_upgrade-Waits_example =
    failed_upgrade-Waits toy plain handler (1000, 1000) dialled (some (30 ∷ replicate 31 0)) 7
      {c = claims} {srv = pair 30} {cidr = leased} {lease = lease} {pool = pool_next} dial_passes
      refl refl refl refl
