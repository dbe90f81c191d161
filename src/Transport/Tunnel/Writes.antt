-- ===== src/Transport/Tunnel/Writes.antt =====
-- What a bonded tunnel's WritePacket and WriteKeepalive do.
use krot_vpn.Prelude.{
  ℕ, zero, suc, ◌+◌, ◌%◌, ◌^◌, ◌≤◌, ◌<◌, ◌≡◌, refl, ◌≢◌, ◌⊎◌, inl, inr, Bool, true, false, Option,
  none, some, List, [], ◌∷◌, arith, length, get_elem?, ◌==◌, if◌then◌else◌, Bool-cases,
}
use native.Mathlib.Decide.{ℕ_discrete}
use native.Mathlib.Nat.{mod-lt}
use krot_vpn.Prelude.Counts.{count, count-get, get_elem?-lt}
use krot_vpn.Prelude.Maps.{find}
use krot_vpn.Transport.Tunnel.{
  Tunnel, Outcome, sent, tunnel_closed, panic, remove_channel, write_loop, write_packet, snapshot,
  keepalive_loop, write_keepalive,
}
use krot_vpn.Transport.Tunnel.Validity.{IsValid, keys, find-count, remove_channel-IsValid}

no_elements : (l : List ℕ) → length l ≡ 0 → l ≡ []
no_elements [] h = refl
no_elements (x ∷ xs) h = absurd (omega arith)

-- An index of `order` has a connection.
module _ (t : Tunnel) (v : IsValid t) where
  attached :
      (i idx : ℕ)
      → get_elem? t.order i ≡ some idx
      → (c : ℕ) × (find ℕ_discrete idx t.channels ≡ some c)
  attached i idx at = elim (find-count idx t.channels) [
    | inl (missing, none_there) ↦ absurd (omega (arith, count-get i idx t.order at, v.same idx))
    | inr (c, found, pos) ↦ (c, found)
  ]

  -- The connection that the hash chooses, if there is a channel.
  chosen :
      (h : ℕ)
      → (length t.order == 0) ≡ false
      → (idx : ℕ) × (c : ℕ) × (get_elem? t.order (h % length t.order) ≡ some idx)
        × (find ℕ_discrete idx t.channels ≡ some c)
  chosen h some_left =
      let (idx, at) = get_elem?-lt (h % length t.order) t.order (mod-lt h (ground arith)) in
      let (c, found) = attached (h % length t.order) idx at in (idx, c, at, found)

-- From `t` to `t'` these channels were removed, one after another, each when a write on its
-- connection had failed.
abbrev pub Dropped : (ℕ → Bool) → List ℕ → Tunnel → Tunnel → Type 0
Dropped writes [] t t' = t' ≡ t
Dropped writes (idx ∷ rest) t t' =
    ((c : ℕ) × (find ℕ_discrete idx t.channels ≡ some c) × (writes c ≡ false))
    × Dropped writes rest (remove_channel idx t) t'

-- How the loop may end with `left` tries, of which `failed` cost their channels: it sent the packet
-- on a connection that took it and is attached; or no channel is left, or no try is.
abbrev pub End : (ℕ → Bool) → ℕ → List ℕ → Tunnel → Outcome → Type 0
End writes left failed t' (sent c) =
    (writes c ≡ true)
    × ((i : ℕ) × (find ℕ_discrete i t'.channels ≡ some c))
    × (length failed < left)
End writes left failed t' tunnel_closed = (t'.order ≡ []) ⊎ (length failed ≡ left)
End writes left failed t' panic = ⊥

abbrev pub Ends : (ℕ → Bool) → ℕ → Tunnel → Tunnel × Outcome → Type 0
Ends writes left t (t', outcome) =
    (failed : List ℕ) × (length failed ≤ left)
    × Dropped writes failed t t'
    × End writes left failed t' outcome

-- A try that cost a channel, in front of the rest.
End-step :
    (writes : ℕ → Bool) (left idx : ℕ) (failed : List ℕ) (t : Tunnel) (outcome : Outcome)
    → End writes left failed t outcome
    → End writes (suc left) (idx ∷ failed) t outcome
End-step writes left idx failed t (sent c) (took, at, few) = (took, at, omega arith)
End-step writes left idx failed t tunnel_closed (inl none_left) = inl none_left
End-step writes left idx failed t tunnel_closed (inr used) = inr (omega arith)
End-step writes left idx failed t panic e = e

Ends-step :
    (writes : ℕ → Bool) (left idx c : ℕ) (t : Tunnel) (r : Tunnel × Outcome)
    → find ℕ_discrete idx t.channels ≡ some c
    → writes c ≡ false
    → Ends writes left (remove_channel idx t) r
    → Ends writes (suc left) t r
Ends-step writes left idx c t (t', outcome) found broke (failed, few, dropped, end) = (
  idx ∷ failed,
  omega arith,
  ((c, found, broke), dropped),
  End-step writes left idx failed t' outcome end,
)

write_loop-Ends :
    (writes : ℕ → Bool) (h tries left : ℕ) (t : Tunnel)
    → IsValid t
    → IsValid (write_loop writes h tries left t).0
      × Ends writes left t (write_loop writes h tries left t)
unfolding write_loop
write_loop-Ends writes h tries zero t v = (v, ([], omega arith, refl, inr refl))
write_loop-Ends writes h tries (suc left) t v = elim (Bool-cases (length t.order == 0)) [
  | inl none_left ↦
      rw none_left (v, ([], omega arith, refl, inl (no_elements t.order (ground arith))))
  | inr some_left ↦
      let (idx, c, at, found) = chosen t v ((h + tries) % 2 ^ 32) some_left in
      elim (Bool-cases (writes c)) [
        | inl took ↦
            rw (some_left, at, found, took)
              (v, ([], omega arith, refl, (took, (idx, found), omega arith)))
        | inr broke ↦
            let (w, ends) =
              write_loop-Ends writes h (tries + 1) left (remove_channel idx t)
                (remove_channel-IsValid idx t v) in
            rw (some_left, at, found, broke)
              (
                w,
                Ends-step writes left idx c t
                    (write_loop writes h (tries + 1) left (remove_channel idx t)) found broke ends,
              )
      ]
]

-- On a valid tunnel a write keeps the tunnel valid and never panics. What it does to the tunnel is
-- that it removes, one after another, at most four channels, each after a write on its connection
-- failed. It sends the packet, with fewer than four of them removed, on a connection that took it
-- and is attached; or it reports the tunnel closed, and then no channel is left, or exactly four
-- were removed, also while others are left.
pub write_packet-Ends :
    (writes : ℕ → Bool) (h : ℕ) (t : Tunnel)
    → IsValid t
    → IsValid (write_packet writes h t).0 × Ends writes 4 t (write_packet writes h t)
unfolding write_packet
write_packet-Ends writes h t v = write_loop-Ends writes h 0 4 t v

-- While every connection takes its writes, a packet with hash h, below 2^32, on a valid tunnel
-- with a channel, goes to the connection of the channel at position h mod n of the order, and
-- the tunnel stays as it is.
pub write_packet-pinned :
    (writes : ℕ → Bool) (h : ℕ) (t : Tunnel)
    → IsValid t
    → h < 2 ^ 32
    → t.order ≢ []
    → ((c : ℕ) → writes c ≡ true)
    → (idx : ℕ) × (c : ℕ) × (get_elem? t.order (h % length t.order) ≡ some idx)
      × (find ℕ_discrete idx t.channels ≡ some c)
      × (write_packet writes h t ≡ (t, sent c))
unfolding write_packet write_loop
write_packet-pinned writes h t v small nonempty healthy =
    let some_left : (length t.order == 0) ≡ false = ground arith in
    let (idx, c, at, found) = chosen t v h some_left in
    let e : (h + 0) % 2 ^ 32 ≡ h = omega arith in
    (idx, c, at, found, rw (some_left, e, at, found, healthy c) refl)

-- The snapshot holds a connection for each index.
abbrev AllAttached : List (ℕ × Option ℕ) → Type 0
AllAttached [] = Unit {0}
AllAttached ((idx, none) ∷ cs) = ⊥
AllAttached ((idx, some c) ∷ cs) = AllAttached cs

snapshot-AllAttached :
    (m : List (ℕ × ℕ)) (order : List ℕ)
    → ((i : ℕ) → 0 < count i order → 0 < count i (keys m))
    → AllAttached (snapshot m order)
unfolding snapshot
snapshot-AllAttached m [] h = tt
snapshot-AllAttached m (idx ∷ order) h = elim (find-count idx m) [
  | inl (missing, none_there) ↦ absurd (omega (arith, h idx (ground arith)))
  | inr (c, found, pos) ↦ rw found (snapshot-AllAttached m order (λ i k. h i (omega arith)))
]

keepalive_loop-safe :
    (writes : ℕ → Bool) (cs : List (ℕ × Option ℕ)) (t : Tunnel)
    → AllAttached cs
    → IsValid t
    → IsValid (keepalive_loop writes cs t).0 × ((keepalive_loop writes cs t).1 ≡ sent 0)
unfolding keepalive_loop
keepalive_loop-safe writes [] t a v = (v, refl)
keepalive_loop-safe writes ((idx, none) ∷ cs) t a v = absurd a
keepalive_loop-safe writes ((idx, some c) ∷ cs) t a v = elim (Bool-cases (writes c)) [
  | inl took ↦ rw (took, keepalive_loop) (keepalive_loop-safe writes cs t a v)
  | inr failed ↦
      rw (failed, keepalive_loop)
        (keepalive_loop-safe writes cs (remove_channel idx t) a (remove_channel-IsValid idx t v))
]

-- A round of keepalives keeps a valid tunnel valid, never panics, and reports the tunnel closed
-- exactly if it has no channel.
pub write_keepalive-safe :
    (writes : ℕ → Bool) (t : Tunnel)
    → IsValid t
    → IsValid (write_keepalive writes t).0
      × ((write_keepalive writes t).1 ≡ (if length t.order == 0 then tunnel_closed else sent 0))
unfolding write_keepalive
write_keepalive-safe writes t v = elim (Bool-cases (length t.order == 0)) [
  | inl none_left ↦ rw none_left (v, refl)
  | inr some_left ↦ rw some_left (
      keepalive_loop-safe writes (snapshot t.channels t.order) t
        (snapshot-AllAttached t.channels t.order (λ i k. omega (arith, v.same i))) v)
]
