-- ===== src/Server/Pool/Leases.antt =====
-- The pool and the release closures that are about: any sequence of allocations and releases.
use krot_vpn.Prelude.{
  ℕ, zero, suc, ◌+◌, ◌-◌, ◌^◌, ◌≤◌, ◌<◌, ◌≡◌, refl, ap, inl, inr, true, false, not, ◌&&◌, none,
  some, List, [], ◌∷◌, arith, get_elem?, set, ◌==◌, if◌then◌else◌, Option-cases, ok,
}
use krot_vpn.Prelude.Counts.{count, contains-count, remove-count_self, remove-count_ne}
use krot_vpn.Server.Pool.{Cidr, IpPool, Lease, new_ip_pool, alloc_from, alloc, release}
use krot_vpn.Server.Pool.Balance.{
  Balanced, IsNetwork, in_range, count-mark, new_ip_pool-Balanced, alloc-Balanced, release-Balanced,
}

-- The pool beside every lease ever handed out.
pub record Book : Type 0 where
  pub pool : IpPool
  pub leases : List Lease

pub data Call : Type 0 where
  allocs : Call
  releases : ℕ → Call

pub step : Book → Call → Book
step b allocs = elim (alloc b.pool) [
  | none ↦ b
  | some (text, l, q) ↦ record { pool = q; leases = l ∷ b.leases }
]
step b (releases i) = elim (get_elem? b.leases i) [
  | none ↦ b
  | some l ↦ record { pool = (release b.pool l).1; leases = set b.leases i (release b.pool l).0 }
]

pub run : Book → List Call → Book
run b [] = b
run b (c ∷ cs) = run (step b c) cs

-- How many of the leases that were not released hold the address.
abbrev pub holders : ℕ → List Lease → ℕ
holders a [] = 0
holders a (l ∷ ls) = (if not l.fired && (l.ip == a) then 1 else 0) + holders a ls

pub record Inv (hosts : ℕ → ℕ) (b : Book) : Type 0 where
  pub balanced : Balanced hosts b.pool
  pub held : (a : ℕ) → count a b.pool.used ≡ holders a b.leases

holders-set :
    (a i : ℕ) (l m : Lease) (ls : List Lease)
    → get_elem? ls i ≡ some l
    → holders a (set ls i m) + (if not l.fired && (l.ip == a) then 1 else 0)
      ≡ holders a ls + (if not m.fired && (m.ip == a) then 1 else 0)
holders-set a i l m [] h = cc
holders-set a zero l m (x ∷ ls) h = ground arith
holders-set a (suc i) l m (x ∷ ls) h = omega (arith, holders-set a i l m ls h)

alloc_from-held :
    (p : IpPool) (free : List ℕ) (a : ℕ) {hosts : ℕ → ℕ} {text : List ℕ} {l : Lease} {q : IpPool}
    → p.free ≡ free
    → Balanced hosts p
    → alloc_from p free ≡ some (text, l, q)
    → count a q.used ≡ count a p.used + (if not l.fired && (l.ip == a) then 1 else 0)
unfolding alloc_from
alloc_from-held p [] a e v h = cc
alloc_from-held p (ip ∷ free) a e v h =
    ground (arith, v.balance a, v.once a, ap (count a) e, count-mark ip a p.used)

pub alloc-held :
    (p : IpPool) (a : ℕ) {hosts : ℕ → ℕ} {text : List ℕ} {l : Lease} {q : IpPool}
    → Balanced hosts p
    → alloc p ≡ some (text, l, q)
    → count a q.used ≡ count a p.used + (if not l.fired && (l.ip == a) then 1 else 0)
unfolding alloc
alloc-held p a v h = alloc_from-held p p.free a refl v h

-- Releasing takes the lease's own mark away, if it was open and marked.
pub release-held :
    (p : IpPool) (l : Lease) (a : ℕ) {hosts : ℕ → ℕ}
    → Balanced hosts p
    → (l.fired ≡ false → 0 < count l.ip p.used)
    → count a (release p l).1.used + (if not l.fired && (l.ip == a) then 1 else 0) ≡ count a p.used
unfolding release
release-held p l a v marked = ground (
  arith,
  v.balance a,
  v.once a,
  marked,
  contains-count l.ip p.used,
  remove-count_self l.ip p.used,
  remove-count_ne l.ip a p.used,
)

pub release-fired :
    (p : IpPool) (l : Lease) → ((release p l).0.fired ≡ true) × ((release p l).0.ip ≡ l.ip)
unfolding release
release-fired p l = ground arith

holders-pos :
    (i : ℕ) (l : Lease) (ls : List Lease)
    → get_elem? ls i ≡ some l
    → l.fired ≡ false
    → 0 < holders l.ip ls
holders-pos i l [] h e = cc
holders-pos zero l (x ∷ ls) h e = ground arith
holders-pos (suc i) l (x ∷ ls) h e = omega (arith, holders-pos i l ls h e)

step-Inv : {hosts : ℕ → ℕ} (b : Book) (c : Call) → Inv hosts b → Inv hosts (step b c)
unfolding step
step-Inv {hosts} b allocs v = elim (Option-cases (alloc b.pool)) [
  | inl e ↦ rw (e, step) v
  | inr ((text, l, q), e) ↦
      rw (e, step)
        (record {
          balanced = alloc-Balanced b.pool v.balanced e;
          held = λ a. omega (arith, v.held a, alloc-held b.pool a v.balanced e);
        })
]
step-Inv {hosts} b (releases i) v = elim (Option-cases (get_elem? b.leases i)) [
  | inl e ↦ rw (e, step) v
  | inr (l, e) ↦
      rw (e, step)
        (record {
          balanced = release-Balanced b.pool l v.balanced;
          held = λ a. ground (
            arith,
            v.held a,
            release-held b.pool l a v.balanced
                (λ o. omega (arith, v.held l.ip, holders-pos i l b.leases e o)),
            release-fired b.pool l,
            holders-set a i l (release b.pool l).0 b.leases e,
          );
        })
]

run-Inv : {hosts : ℕ → ℕ} (b : Book) (cs : List Call) → Inv hosts b → Inv hosts (run b cs)
unfolding run
run-Inv b [] v = v
run-Inv b (c ∷ cs) v = run-Inv (step b c) cs (step-Inv b c v)

-- No address is handed out twice: on a pool made for an IPv4 network, after any sequence of
-- allocations and calls of release closures, each closure called any number of times, an address
-- is held by at most one lease that was not released, and by none if it is not a host address
-- (strictly between the network's and the broadcast address, and not the gateway's); what is not
-- held is free.
pub lease_unique :
    (c : Cidr) (gw : ℕ) (cs : List Call) (a : ℕ) {p : IpPool}
    → IsNetwork c
    → c.ip4 ≡ some gw
    → new_ip_pool (some c) ≡ ok p
    → let b = run (record { pool = p; leases = [] }) cs in
      let hosts = in_range c.network gw 1 (2 ^ (32 - c.prefix) - 1) in
      (hosts a ≤ 1)
      × (holders a b.leases ≤ hosts a)
      × (count a b.pool.free + holders a b.leases ≡ hosts a)
lease_unique c gw cs a {p = p} net e built =
    let (balanced, unused, _) = new_ip_pool-Balanced c gw net e built in
    let v =
      run-Inv (record { pool = p; leases = [] }) cs
        (record { balanced = balanced; held = λ x. ap (count x) unused }) in
    omega (arith, v.balanced.once a, v.balanced.balance a, v.held a)
