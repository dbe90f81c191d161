-- ===== src/Transport/Bond/Channels.antt =====
-- Which channels a dialled tunnel holds.
use krot_vpn.Prelude.{
  ℕ, zero, suc, ◌≤◌, ◌<◌, ◌≡◌, refl, ap, ◌∙◌, inl, inr, Bool, true, false, ◌&&◌, ◌||◌, none, some,
  List, [], ◌∷◌, arith, ltb, ◌==◌, if◌then◌else◌, Bool-cases, ok,
}
use krot_vpn.Prelude.{then-eq-ok}
use native.Mathlib.Decide.{ℕ_discrete}
use krot_vpn.Prelude.Counts.{count}
use krot_vpn.Prelude.Int.{ℤ}
use krot_vpn.Prelude.Maps.{find, assign, delete, find-delete_ne, find-assign_self, find-assign_ne}
use krot_vpn.Crypto.{Primitives}
use krot_vpn.Transport.Auth.{Codec}
use krot_vpn.Transport.Bond.{Event, arrives, breaks, bond_size, is_ok, gather, dial}
use krot_vpn.Transport.Conn.{Conn}
use krot_vpn.Transport.Dial.{Assignment, ClientConfig, Network, dial_channel}
use krot_vpn.Transport.Handshake.{max_channels_per_session}
use krot_vpn.Transport.Tunnel.{
  Tunnel, new_tunnel, add_channel, close_conn, mark_dead, detach, remove_channel,
}

bond_size-bounds : (c : ℤ) → (0 < bond_size c) × (bond_size c ≤ max_channels_per_session)
unfolding bond_size
bond_size-bounds c = ground arith

-- The indices whose results are received, and whether the reader of an index ends.
abbrev pub arrivals : List Event → List ℕ
arrivals [] = []
arrivals (arrives idx ∷ events) = idx ∷ arrivals events
arrivals (breaks idx ∷ events) = arrivals events

abbrev pub is_broken : ℕ → List Event → Bool
is_broken i [] = false
is_broken i (arrives idx ∷ events) = is_broken i events
is_broken i (breaks idx ∷ events) = (idx == i) || is_broken i events

-- The end of one channel, of two, leaves the tunnel open and the others attached.
remove_channel-others :
    (j i k c : ℕ) (t : Tunnel)
    → t.closed ≡ false
    → find ℕ_discrete k t.channels ≡ some c
    → (j == k) ≡ false
    → (j == i) ≡ false
    → ((remove_channel j t).closed ≡ false)
      × (find ℕ_discrete i (remove_channel j t).channels ≡ find ℕ_discrete i t.channels)
unfolding remove_channel detach close_conn mark_dead find
remove_channel-others j i k c t alive there hk hi = ground (
  arith,
  find-delete_ne ℕ_discrete j i t.channels (λ e. absurd (ground (arith, e, hi))),
  find-delete_ne ℕ_discrete j k t.channels (λ e. absurd (ground (arith, e, hk))),
)

-- A channel that is added leaves index k taken.
added :
    (idx conn k c : ℕ) (t : Tunnel)
    → t.closed ≡ false
    → find ℕ_discrete k t.channels ≡ some c
    → (d : ℕ) × (find ℕ_discrete k (add_channel idx conn t).channels ≡ some d)
unfolding add_channel
added idx conn k c t alive there = elim (ℕ_discrete k idx) [
  | yes same ↦ (conn, rw (alive, same) (find-assign_self ℕ_discrete idx conn t.channels))
  | no other ↦ (c, rw alive (find-assign_ne ℕ_discrete idx k conn t.channels other ∙ there))
]

-- Every index that arrives and was dialled is bonded to its own connection, if its reader and the
-- one of channel 0 do not end; the others are as they were.
gather-find :
    (dialled : ℕ → Bool) (events : List Event) (t : Tunnel) (i c : ℕ)
    → t.closed ≡ false
    → find ℕ_discrete 0 t.channels ≡ some c
    → is_broken 0 events ≡ false
    → is_broken i events ≡ false
    → ((gather dialled events t).closed ≡ false)
      × (find ℕ_discrete i (gather dialled events t).channels ≡ (
          if ltb 0 (count i (arrivals events)) && dialled i
          then some i
          else find ℕ_discrete i t.channels))
unfolding gather add_channel
gather-find dialled [] t i c alive first whole0 whole = (alive, refl)
gather-find dialled (breaks idx ∷ rest) t i c alive first whole0 whole =
    let (alive', same) =
      remove_channel-others idx i 0 c t alive first (ground (arith, whole0))
        (ground (arith, whole)) in
    let (_, first') =
      remove_channel-others idx 0 0 c t alive first (ground (arith, whole0))
        (ground (arith, whole0)) in
    let later =
      gather-find dialled rest (remove_channel idx t) i c alive' (first' ∙ first)
        (ground (arith, whole0)) (ground (arith, whole)) in
    (later.0, ground (arith, later.1, same))
gather-find dialled (arrives idx ∷ rest) t i c alive first whole0 whole =
    elim (Bool-cases (dialled idx)) [
      | inl good ↦
          let (d, first') = added idx idx 0 c t alive first in
          let later =
            gather-find dialled rest (add_channel idx idx t) i d (rw alive refl) first' whole0
              whole in
          elim (ℕ_discrete i idx) [
            | yes same ↦ ground (arith, later, find-assign_self ℕ_discrete idx idx t.channels)
            | no other ↦ ground (arith, later, find-assign_ne ℕ_discrete idx i idx t.channels other)
          ]
      | inr bad ↦
          let later = gather-find dialled rest t i c alive first whole0 whole in
          elim (ℕ_discrete i idx) [
            | yes same ↦ ground (arith, later)
            | no other ↦ ground (arith, later)
          ]
    ]

abbrev dialled_tunnel : (ℕ → Bool) → ℕ → List Event → Tunnel
dialled_tunnel dialled n events =
    if ltb 1 n
    then gather dialled events (add_channel 0 0 new_tunnel)
    else add_channel 0 0 new_tunnel

dialled_tunnel-find :
    (dialled : ℕ → Bool) (n : ℕ) (events : List Event) (i : ℕ)
    → 0 < n
    → dialled 0 ≡ true
    → count i (arrivals events) ≡ (if ltb 0 i && ltb i n then 1 else 0)
    → is_broken 0 events ≡ false
    → is_broken i events ≡ false
    → ((dialled_tunnel dialled n events).closed ≡ false)
      × (find ℕ_discrete i (dialled_tunnel dialled n events).channels
          ≡ (if ltb i n && dialled i then some i else none))
unfolding add_channel find assign delete
dialled_tunnel-find dialled n events zero some_channel first each whole0 whole = ground (
  arith,
  gather-find dialled events (add_channel 0 0 new_tunnel) 0 0 refl
      (find-assign_self ℕ_discrete 0 0 []) whole0 whole,
)
dialled_tunnel-find dialled n events (suc i) some_channel first each whole0 whole = ground (
  arith,
  gather-find dialled events (add_channel 0 0 new_tunnel) (suc i) 0 refl
      (find-assign_self ℕ_discrete 0 0 []) whole0 whole,
)

module _ (p : Primitives) (k : Codec) where
  -- Let Dial succeed with the session id `sid`, and let, in any order, the goroutines' results
  -- arrive, each of the indices from 1 below the number of channels once, and readers end, but not
  -- the one of channel 0. Then the number of channels is between 1 and the cap, channel 0 was
  -- dialled and its answer is the assignment that Dial returns, the tunnel is open, and of each
  -- index `i` whose reader does not end meanwhile it holds a channel, on the connection that was
  -- dialled for it, exactly if `i` is below that number and its dial worked: a channel that fails,
  -- in its dial or later, costs only itself.
  pub dial_channels :
      (nets : ℕ → Network) (cfg : ClientConfig) (sid : List ℕ) (events : List Event) (i : ℕ)
      {t : Tunnel} {a : Assignment}
      → ((j : ℕ)
          → count j (arrivals events)
            ≡ (if ltb 0 j && ltb j (bond_size cfg.channels) then 1 else 0))
      → is_broken 0 events ≡ false
      → is_broken i events ≡ false
      → dial p k nets cfg (some sid) events ≡ ok (t, a)
      → (0 < bond_size cfg.channels)
        × (bond_size cfg.channels ≤ max_channels_per_session)
        × ((c : Conn) × (dial_channel p k (nets 0) cfg sid 0 ≡ ok (c, a)))
        × (t.closed ≡ false)
        × (find ℕ_discrete i t.channels ≡ (
            if ltb i (bond_size cfg.channels) && is_ok (dial_channel p k (nets i) cfg sid i)
            then some i
            else none))
  unfolding dial
  dial_channels nets cfg sid events i {t = t} {a = a} each whole0 whole dialled =
      let (low, high) = bond_size-bounds cfg.channels in
      let ((c0, b), first, rest) = then-eq-ok (dial_channel p k (nets 0) cfg sid 0) _ dialled in
      let given : b ≡ a = ground arith in
      let built : t
          ≡ dialled_tunnel (λ idx. is_ok (dial_channel p k (nets idx) cfg sid idx))
              (bond_size cfg.channels) events =
        ground arith in
      let (alive, found) =
        dialled_tunnel-find (λ idx. is_ok (dial_channel p k (nets idx) cfg sid idx))
          (bond_size cfg.channels) events i low (ap is_ok first) (each i) whole0 whole in
      (
        low,
        high,
        (c0, first ∙ ap (λ x. ok (c0, x)) given),
        ap (λ x. x.closed) built ∙ alive,
        ap (λ x. find ℕ_discrete i x.channels) built ∙ found,
      )
