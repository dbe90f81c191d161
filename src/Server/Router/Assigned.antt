-- ===== src/Server/Router/Assigned.antt =====
-- An address from the pool, as text, reaches the routing table as the address.
use krot_vpn.Prelude.{
  ℕ, ◌/◌, ◌%◌, ◌^◌, ◌<◌, ◌≡◌, refl, ◌∙◌, false, Option, some, List, [], ◌∷◌, ◌++◌, arith, length,
  length-append, get_or, drop-append_of_length,
}
use native.Mathlib.Decide.{ℕ_discrete}
use krot_vpn.Prelude.Bytes.{put_uint, uint-put_uint_four}
use krot_vpn.Prelude.Counts.{contains}
use krot_vpn.Prelude.Maps.{find, find-assign_self}
use krot_vpn.Net.{print_dec, print_quad}
use krot_vpn.Net.Text.{parse-print_quad}
use krot_vpn.Server.Pool.{IpPool, Lease, alloc_from, alloc}
use krot_vpn.Server.Router.{
  Table, register, ipv4_dst, writes, dispatch, host_ip, parse_host_ip, handle_start,
}
use krot_vpn.Server.Router.Ownership.{packet_to}

host_ip-print_dec : (b : ℕ) (cs : List ℕ) → host_ip (print_dec b ++ cs) ≡ print_dec b ++ host_ip cs
unfolding host_ip print_dec
host_ip-print_dec b cs = ground arith

host_ip-dot : (cs : List ℕ) → host_ip (b'.' ∷ cs) ≡ b'.' ∷ host_ip cs
unfolding host_ip
host_ip-dot cs = refl

host_ip-print_quad : (ip : ℕ) (cs : List ℕ) → host_ip (print_quad ip (b'/' ∷ cs)) ≡ print_quad ip []
host_ip-print_quad ip cs =
    let slash : host_ip (b'/' ∷ cs) ≡ [] = unfold host_ip in refl in
    rw
      (
        host_ip-print_dec, host_ip-dot, host_ip-print_dec, host_ip-dot, host_ip-print_dec,
        host_ip-dot, host_ip-print_dec, slash,
      )
      refl

contains-print_dec :
    (b : ℕ) (cs : List ℕ) → b < 1000 → contains b':' (print_dec b ++ cs) ≡ contains b':' cs
unfolding print_dec
contains-print_dec b cs h = ground arith

contains-print_quad : (ip : ℕ) → contains b':' (print_quad ip []) ≡ false
contains-print_quad ip =
    contains-print_dec (ip / 2 ^ 24 % 256) _ (omega arith)
    ∙ contains-print_dec (ip / 2 ^ 16 % 256) _ (omega arith)
    ∙ contains-print_dec (ip / 2 ^ 8 % 256) _ (omega arith)
    ∙ contains-print_dec (ip % 256) [] (omega arith)

parse_host_ip-print_quad :
    (ip6 : List ℕ → Option ℕ) (ip : ℕ) (cs : List ℕ)
    → ip < 2 ^ 32
    → parse_host_ip ip6 (print_quad ip (b'/' ∷ cs)) ≡ some ip
unfolding parse_host_ip
parse_host_ip-print_quad ip6 ip cs h =
    rw (host_ip-print_quad ip cs, contains-print_quad ip) (parse-print_quad ip h)

alloc_from-text :
    (p : IpPool) (free : List ℕ) {text : List ℕ} {l : Lease} {q : IpPool}
    → alloc_from p free ≡ some (text, l, q)
    → text ≡ print_quad l.ip (b'/' ∷ print_dec p.prefix)
unfolding alloc_from
alloc_from-text p [] h = cc
alloc_from-text p (ip ∷ free) h = ground arith

ipv4_dst-packet_to :
    (header rest : List ℕ) (dst : ℕ)
    → length header ≡ 16
    → get_or header 0 0 / 16 ≡ 4
    → dst < 2 ^ 32
    → ipv4_dst (packet_to header dst rest) ≡ some dst
unfolding ipv4_dst
ipv4_dst-packet_to [] rest dst hl hv hd = absurd (omega arith)
ipv4_dst-packet_to (x ∷ header) rest dst hl hv hd =
    let tail = put_uint 4 dst ++ rest in
    rw (drop-append_of_length 15 header tail (omega arith))
      (ground (arith, length-append header tail, uint-put_uint_four dst hd))

handle_start-register :
    (ip6 : List ℕ → Option ℕ) (tun ip : ℕ) (addr : List ℕ) (t : Table)
    → parse_host_ip ip6 addr ≡ some ip
    → handle_start ip6 tun addr t ≡ register ip tun t
unfolding handle_start
handle_start-register ip6 tun ip addr t h = rw (h, handle_start) refl

dispatch-found :
    (t : Table) (p : List ℕ) (dst tun : ℕ)
    → ipv4_dst p ≡ some dst
    → find ℕ_discrete dst t ≡ some tun
    → dispatch t p ≡ writes tun p
unfolding dispatch
dispatch-found t p dst tun h found = rw (h, dispatch, found) refl

find-register_self : (ip tun : ℕ) (t : Table) → find ℕ_discrete ip (register ip tun t) ≡ some tun
unfolding register
find-register_self ip tun t = find-assign_self ℕ_discrete ip tun t

-- The reply path: after the pool handed out an address and the handler of its tunnel has started,
-- a packet from the device to that address (an IPv4 header of at least 20 bytes) is written to
-- that tunnel, whole.
pub dispatch-assigned :
    (p : IpPool) (ip6 : List ℕ → Option ℕ) (tun : ℕ) (t : Table) (text header rest : List ℕ)
    (l : Lease) (q : IpPool)
    → alloc p ≡ some (text, l, q)
    → l.ip < 2 ^ 32
    → length header ≡ 16
    → get_or header 0 0 / 16 ≡ 4
    → dispatch (handle_start ip6 tun text t) (packet_to header l.ip rest)
      ≡ writes tun (packet_to header l.ip rest)
unfolding alloc
dispatch-assigned p ip6 tun t text header rest l q given small hl hv =
    let named = alloc_from-text p p.free given in
    let parsed = parse_host_ip-print_quad ip6 l.ip (print_dec p.prefix) small in
    rw (named, handle_start-register ip6 tun l.ip _ t parsed)
      (dispatch-found (register l.ip tun t) (packet_to header l.ip rest) l.ip tun
        (ipv4_dst-packet_to header rest l.ip hl hv small) (find-register_self l.ip tun t))
