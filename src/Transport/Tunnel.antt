-- ===== src/Transport/Tunnel.antt =====
-- internal/transport/tunnel.go: Tunnel, a bonded group of channels. A channel's connection is a
-- number; `closes` logs the calls of its Close. Each function is one call, or the part of one that
-- runs under the lock.
pub mod Lifecycle
pub mod Validity
pub mod Writes
use krot_vpn.Prelude.{
  ℕ, zero, suc, ◌+◌, ◌%◌, ◌^◌, Bool, true, false, Option, none, some, List, [], ◌∷◌, ◌++◌, length,
  get_elem?, ◌==◌, if◌then◌else◌,
}
use native.Mathlib.Decide.{ℕ_discrete}
use krot_vpn.Prelude.Counts.{remove}
use krot_vpn.Prelude.Maps.{find, delete, assign}

-- `dead`: the channel `dead` is closed, which `deadOnce` does with `closed`; `empties`: how often
-- `onEmpty` was reached, which is called there unless it is nil.
pub record Tunnel : Type 0 where
  pub channels : List (ℕ × ℕ)
  pub order : List ℕ
  pub closed : Bool
  pub inbound : List (List ℕ)
  pub dead : Bool
  pub empties : ℕ
  pub closes : List ℕ

abbrev pub new_tunnel : Tunnel
new_tunnel = record {
  channels = [];
  order = [];
  closed = false;
  inbound = [];
  dead = false;
  empties = 0;
  closes = [];
}

unfoldable pub close_conn : ℕ → Tunnel → Tunnel
close_conn c t = record t { closes = c ∷ t.closes }

unfoldable pub add_channel : ℕ → ℕ → Tunnel → Tunnel
unfolding close_conn
add_channel idx c t =
    if t.closed
    then close_conn c t
    else record t { channels = assign ℕ_discrete idx c t.channels; order = t.order ++ idx ∷ [] }

-- The three steps of `markDead`: `closed`, under the lock; the channel `dead`; `onEmpty`.
unfoldable pub mark_closed : Tunnel → Tunnel
mark_closed t = record t { closed = true }

unfoldable pub close_dead : Tunnel → Tunnel
close_dead t = record t { dead = true }

unfoldable pub fire_empty : Tunnel → Tunnel
fire_empty t = record t { empties = t.empties + 1 }

-- `deadOnce.Do`, with nothing in between its steps.
unfoldable pub mark_dead : Tunnel → Tunnel
unfolding mark_closed close_dead fire_empty
mark_dead t = if t.dead then t else fire_empty (close_dead (mark_closed t))

-- The part of `removeChannel` under the lock.
unfoldable pub detach : ℕ → Tunnel → Tunnel
detach idx t = record t { channels = delete ℕ_discrete idx t.channels; order = remove idx t.order }

abbrev pub is_nil : List (ℕ × ℕ) → Bool
is_nil [] = true
is_nil (x ∷ xs) = false

unfoldable pub remove_channel : ℕ → Tunnel → Tunnel
unfolding detach close_conn mark_dead
remove_channel idx t = elim (find ℕ_discrete idx t.channels) [
  | none ↦ t
  | some c ↦
      let t' = detach idx t in
      if is_nil t'.channels then mark_dead (close_conn c t') else close_conn c t'
]

abbrev pub channel_count : Tunnel → ℕ
channel_count t = length t.channels

-- `panic`: an index out of range, or a call on a connection that is not in the map.
pub data Outcome : Type 0 where
  sent : ℕ → Outcome
  tunnel_closed panic : Outcome

-- The loop of `WritePacket`: `left` of the four tries are left. `writes` says of each connection
-- whether its WritePacket succeeds.
unfoldable pub write_loop : (ℕ → Bool) → ℕ → ℕ → ℕ → Tunnel → Tunnel × Outcome
write_loop writes h tries zero t = (t, tunnel_closed)
write_loop writes h tries (suc left) t =
    if length t.order == 0
    then (t, tunnel_closed)
    else elim (get_elem? t.order ((h + tries) % 2 ^ 32 % length t.order)) [
      | none ↦ (t, panic)
      | some idx ↦ elim (find ℕ_discrete idx t.channels) [
        | none ↦ (t, panic)
        | some c ↦ elim (writes c) [
          | true ↦ (t, sent c)
          | false ↦ write_loop writes h (tries + 1) left (remove_channel idx t)
        ]
      ]
    ]

unfoldable pub write_packet : (ℕ → Bool) → ℕ → Tunnel → Tunnel × Outcome
unfolding write_loop
write_packet writes h t = write_loop writes h 0 4 t

-- The connections of the indices, in their order.
unfoldable pub snapshot : List (ℕ × ℕ) → List ℕ → List (ℕ × Option ℕ)
snapshot channels [] = []
snapshot channels (idx ∷ order) = (idx, find ℕ_discrete idx channels) ∷ snapshot channels order

-- The loop of `WriteKeepalive`; `none` stands for a nil connection, whose use panics.
unfoldable pub keepalive_loop : (ℕ → Bool) → List (ℕ × Option ℕ) → Tunnel → Tunnel × Outcome
keepalive_loop writes [] t = (t, sent 0)
keepalive_loop writes ((idx, none) ∷ cs) t = (t, panic)
keepalive_loop writes ((idx, some c) ∷ cs) t =
    keepalive_loop writes cs (if writes c then t else remove_channel idx t)

unfoldable pub write_keepalive : (ℕ → Bool) → Tunnel → Tunnel × Outcome
unfolding snapshot keepalive_loop
write_keepalive writes t =
    if length t.order == 0
    then (t, tunnel_closed)
    else keepalive_loop writes (snapshot t.channels t.order) t

-- What a ReadPacket finds: it blocks while there is no packet and the tunnel lives.
pub data Read : Type 0 where
  got : List ℕ → Read
  ended blocks : Read

unfoldable pub read_from : List (List ℕ) → Tunnel → Tunnel × Read
read_from [] t = (t, if t.dead then ended else blocks)
read_from (p ∷ ps) t = (record t { inbound = ps }, got p)

unfoldable pub read_packet : Tunnel → Tunnel × Read
unfolding read_from
read_packet t = read_from t.inbound t

-- `readLoop` hands a packet over; with the tunnel dead it may drop it instead.
unfoldable pub deliver : List ℕ → Tunnel → Tunnel
deliver p t = record t { inbound = t.inbound ++ p ∷ [] }

unfoldable pub close_all : List (ℕ × ℕ) → Tunnel → Tunnel
close_all [] t = t
close_all ((idx, c) ∷ cs) t = close_all cs (record t { closes = c ∷ t.closes })

unfoldable pub close : Tunnel → Tunnel
unfolding close_all mark_dead
close t = mark_dead (close_all t.channels (record t { channels = []; order = [] }))
