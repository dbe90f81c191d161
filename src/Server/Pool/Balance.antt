-- ===== src/Server/Pool/Balance.antt =====
-- The pool's books: each host address is free or used, once.
use krot_vpn.Prelude.{
  ℕ, zero, suc, ◌+◌, ◌-◌, ◌%◌, ◌^◌, ◌≤◌, ◌≡◌, refl, ap, not, ◌&&◌, some, List, [], ◌∷◌, arith, ltb,
  leb, ◌==◌, if◌then◌else◌, ok,
}
use krot_vpn.Prelude.Counts.{count, contains-count, remove-count_self, remove-count_ne}
use native.Mathlib.Nat.{pow-le-pow_right, one-le-pow}
use krot_vpn.Server.Pool.{
  alloc_from, Cidr, IpPool, Lease, host_loop, last_offset, build, new_ip_pool, mark, alloc, release,
}

-- 1 for an address at an offset from `lo` to below `hi` that is not the gateway's, and 0 for
-- others.
abbrev pub in_range : ℕ → ℕ → ℕ → ℕ → ℕ → ℕ
in_range base gw lo hi a =
    if leb (base + lo) a && (ltb a (base + hi) && not (a == gw)) then 1 else 0

-- The free and the used addresses, taken together, are the hosts, each once: `hosts a` is 1 if the
-- pool is to serve `a`, else 0.
pub record Balanced (hosts : ℕ → ℕ) (p : IpPool) : Type 0 where
  pub balance : (a : ℕ) → count a p.free + count a p.used ≡ hosts a
  pub once : (a : ℕ) → hosts a ≤ 1

count-host_loop :
    (base gw rounds off a : ℕ) (free : List ℕ)
    → base + off + rounds ≤ 2 ^ 32
    → count a (host_loop base gw rounds off free)
      ≡ count a free + in_range base gw off (off + rounds) a
unfolding host_loop
count-host_loop base gw zero off a free h = ground arith
count-host_loop base gw (suc rounds) off a free h =
    let wrap : (base + off) % 2 ^ 32 ≡ base + off = omega arith in
    rw wrap (
      ground (
        arith,
        count-host_loop base gw rounds (off + 1) a
            (if base + off == gw then free else (base + off) ∷ free),
      ))

-- What net.ParseCIDR promises of an IPv4 network: the host bits of its address are zero.
pub record IsNetwork (c : Cidr) : Type 0 where
  pub fits : c.prefix ≤ 32
  pub inside : c.network + 2 ^ (32 - c.prefix) ≤ 2 ^ 32

pow_two_bounds : (k : ℕ) → k ≤ 32 → (1 ≤ 2 ^ k) × (2 ^ k ≤ 2 ^ 32)
pow_two_bounds k h = (one-le-pow k 2 (omega arith), pow-le-pow_right (omega arith) h)

-- `size - 1`, also for the prefix 0, where `size` wraps to 0.
last_offset_lem : (prefix : ℕ) → last_offset prefix ≡ 2 ^ (32 - prefix) - 1
last_offset_lem prefix = omega (arith, pow_two_bounds (32 - prefix) (omega arith))

pub count-mark :
    (a b : ℕ) (used : List ℕ) → count b (mark a used) ≡ (if a == b then 1 else count b used)
count-mark a b used = ground (arith, remove-count_self a used, remove-count_ne a b used)

build-Balanced :
    (c : Cidr) (gw : ℕ) {p : IpPool}
    → IsNetwork c
    → build c gw ≡ ok p
    → Balanced (in_range c.network gw 1 (2 ^ (32 - c.prefix) - 1)) p
      × (p.used ≡ [])
      × (p.prefix ≡ c.prefix)
unfolding build
build-Balanced c gw {p = p} net built = (
  record { balance = λ a. ground (arith, counted a); once = λ a. ground arith },
  ground arith,
  ground arith,
)
  where
    rounds : ℕ
    rounds = last_offset c.prefix - 1

    counted :
        (a : ℕ)
        → count a (host_loop c.network gw rounds 1 [])
          ≡ in_range c.network gw 1 (2 ^ (32 - c.prefix) - 1) a
    counted a =
        let facts = last_offset_lem c.prefix in
        let size = pow_two_bounds (32 - c.prefix) (omega arith) in
        ground (
          arith,
          count-host_loop c.network gw rounds 1 a [] (omega (arith, facts, size, net.inside)),
          facts,
        )

-- A pool that is built serves exactly the addresses strictly between the network's and the
-- broadcast address, but for the gateway's, all of them free.
pub new_ip_pool-Balanced :
    (c : Cidr) (gw : ℕ) {p : IpPool}
    → IsNetwork c
    → c.ip4 ≡ some gw
    → new_ip_pool (some c) ≡ ok p
    → Balanced (in_range c.network gw 1 (2 ^ (32 - c.prefix) - 1)) p
      × (p.used ≡ [])
      × (p.prefix ≡ c.prefix)
unfolding new_ip_pool
new_ip_pool-Balanced c gw {p = p} net e built = ground (arith, build-Balanced c gw {p = p} net)

alloc_from-Balanced :
    {hosts : ℕ → ℕ} (p : IpPool) (free : List ℕ) {text : List ℕ} {l : Lease} {q : IpPool}
    → p.free ≡ free
    → Balanced hosts p
    → alloc_from p free ≡ some (text, l, q)
    → Balanced hosts q
unfolding alloc_from
alloc_from-Balanced p [] e v h = cc
alloc_from-Balanced p (ip ∷ free) {q = q} e v h =
    let e' : q ≡ record p { free = free; used = mark ip p.used } = ground arith in
    rw e' (record {
      balance = λ a. ground (arith, v.balance a, v.once a, ap (count a) e, count-mark ip a p.used);
      once = v.once;
    })

pub alloc-Balanced :
    {hosts : ℕ → ℕ} (p : IpPool) {text : List ℕ} {l : Lease} {q : IpPool}
    → Balanced hosts p
    → alloc p ≡ some (text, l, q)
    → Balanced hosts q
unfolding alloc
alloc-Balanced p v h = alloc_from-Balanced p p.free refl v h

pub release-Balanced :
    {hosts : ℕ → ℕ} (p : IpPool) (l : Lease) → Balanced hosts p → Balanced hosts (release p l).1
unfolding release
release-Balanced {hosts} p l v = record { balance = λ a. at a; once = v.once }
  where
    at : (a : ℕ) → count a (release p l).1.free + count a (release p l).1.used ≡ hosts a
    at a = ground (
      arith,
      v.balance a,
      v.once a,
      contains-count l.ip p.used,
      remove-count_self l.ip p.used,
      remove-count_ne l.ip a p.used,
    )
