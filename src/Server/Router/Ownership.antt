-- ===== src/Server/Router/Ownership.antt =====
-- Which tunnel gets a packet.
use krot_vpn.Prelude.{
  ℕ, ◌≡◌, ◌≢◌, inl, inr, ◌&&◌, none, some, List, ◌++◌, arith, ◌==◌, if◌then◌else◌, ==_iff,
  Bool-cases,
}
use native.Mathlib.Decide.{ℕ_discrete}
use krot_vpn.Prelude.Bytes.{put_uint}
use krot_vpn.Prelude.Maps.{find, find-assign_self, find-assign_ne, find-delete_self, find-delete_ne}
use krot_vpn.Server.Router.{Table, register, owns, unregister}

-- A header of 16 bytes, a destination, and the rest of a packet.
abbrev pub packet_to : List ℕ → ℕ → List ℕ → List ℕ
packet_to header dst rest = header ++ (put_uint 4 dst ++ rest)

-- Registering a tunnel sends the packets for its address to it, and changes no other address.
find-register :
    (ip tun dst : ℕ) (t : Table)
    → find ℕ_discrete dst (register ip tun t)
      ≡ (if dst == ip then some tun else find ℕ_discrete dst t)
unfolding register
find-register ip tun dst t = elim (Bool-cases (dst == ip)) [
  | inl same ↦ rw (same, (==_iff dst ip).0 same) (find-assign_self ℕ_discrete ip tun t)
  | inr other ↦ rw other (find-assign_ne ℕ_discrete ip dst tun t (λ e. ground arith))
]

find-unregister :
    (ip tun dst : ℕ) (t : Table)
    → find ℕ_discrete dst (unregister ip tun t)
      ≡ (if (dst == ip) && owns (find ℕ_discrete ip t) tun then none else find ℕ_discrete dst t)
unfolding unregister
find-unregister ip tun dst t =
    ground (arith, find-delete_self ℕ_discrete ip t, find-delete_ne ℕ_discrete ip dst t)

-- An overlap of sessions is harmless: if an address is released and handed to a new tunnel before
-- the old tunnel's handler has ended, the old one's unregistering leaves the new one registered,
-- and every other address keeps its tunnel throughout.
pub unregister-overlap :
    (ip old new dst : ℕ) (t : Table)
    → old ≢ new
    → find ℕ_discrete dst (unregister ip old (register ip new (register ip old t)))
      ≡ (if dst == ip then some new else find ℕ_discrete dst t)
unregister-overlap ip old new dst t h =
    let v = register ip old t in
    let w = register ip new v in
    ground (
      arith,
      find-unregister ip old dst w,
      find-register ip new ip v,
      find-register ip new dst v,
      find-register ip old dst t,
    )
