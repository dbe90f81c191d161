-- ===== src/Server/Pool.antt =====
-- internal/server/pool.go. Addresses are 32-bit numbers. The lock makes each call one step.
pub mod Balance
pub mod Leases
use krot_vpn.Prelude.{
  ℕ, zero, suc, ◌+◌, ◌-◌, ◌%◌, ◌^◌, Bool, true, false, Option, none, some, List, [], ◌∷◌, ◌==◌,
  if◌then◌else◌, Result, ok, err,
}
use krot_vpn.Prelude.Counts.{contains, remove}
use krot_vpn.Net.{print_quad, print_dec}

-- What net.ParseCIDR gives for the text of `tun_cidr`: the address (`none` if it has no IPv4 form),
-- the network's address, and the size of the mask.
pub record Cidr : Type 0 where
  pub ip4 : Option ℕ
  pub network : ℕ
  pub prefix : ℕ
  pub bits : ℕ

pub data Error : Type 0 where
  bad_cidr not_ipv4 no_hosts : Error

-- `free`: the head of the list is the end of the slice. `used`: the keys that map to true.
pub record IpPool : Type 0 where
  pub prefix : ℕ
  pub free : List ℕ
  pub used : List ℕ

-- `off` steps through the offsets, `rounds` of them.
unfoldable pub host_loop : ℕ → ℕ → ℕ → ℕ → List ℕ → List ℕ
host_loop base gw zero off free = free
host_loop base gw (suc rounds) off free =
    let addr = (base + off) % 2 ^ 32 in
    host_loop base gw rounds (off + 1) (if addr == gw then free else addr ∷ free)

-- `uint32(1) << uint(32-prefix)`, and `size - 1`, which wraps for the prefix 0.
abbrev pub subnet_size : ℕ → ℕ
subnet_size prefix = 2 ^ (32 - prefix) % 2 ^ 32

abbrev pub last_offset : ℕ → ℕ
last_offset prefix = (subnet_size prefix + (2 ^ 32 - 1)) % 2 ^ 32

unfoldable pub is_empty : List ℕ → Bool
is_empty [] = true
is_empty (x ∷ xs) = false

unfoldable pub build : Cidr → ℕ → Result Error IpPool
unfolding is_empty
build c gw =
    let free = host_loop c.network gw (last_offset c.prefix - 1) 1 [] in
    if is_empty free
    then err no_hosts
    else ok (record { prefix = c.prefix; free = free; used = [] })

-- `parsed`: what net.ParseCIDR returns, `none` for its error.
unfoldable pub new_ip_pool : Option Cidr → Result Error IpPool
unfolding build
new_ip_pool none = err bad_cidr
new_ip_pool (some c) = elim c.ip4 [
  | none ↦ err not_ipv4
  | some gw ↦ if c.bits == 32 then build c gw else err not_ipv4
]

-- `p.used[ip] = true`
abbrev pub mark : ℕ → List ℕ → List ℕ
mark a used = a ∷ remove a used

-- The release closure: its address, and whether its sync.Once has fired.
pub record Lease : Type 0 where
  pub ip : ℕ
  pub fired : Bool

-- The text handed out, the address, the closure; `none` when the pool is empty.
unfoldable pub alloc_from : IpPool → List ℕ → Option (List ℕ × Lease × IpPool)
alloc_from p [] = none
alloc_from p (ip ∷ free) = some (
  print_quad ip (b'/' ∷ print_dec p.prefix),
  record { ip = ip; fired = false },
  record p { free = free; used = mark ip p.used },
)

unfoldable pub alloc : IpPool → Option (List ℕ × Lease × IpPool)
unfolding alloc_from
alloc p = alloc_from p p.free

unfoldable pub release : IpPool → Lease → Lease × IpPool
release p l = if l.fired then (l, p) else (
  record l { fired = true },
  if contains l.ip p.used then record p { used = remove l.ip p.used; free = l.ip ∷ p.free } else p,
)
