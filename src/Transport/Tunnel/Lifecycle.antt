-- ===== src/Transport/Tunnel/Lifecycle.antt =====
-- How a bonded tunnel ends, with its calls cut at the lock as the code cuts them.
use krot_vpn.Prelude.{ℕ, ◌≡◌, true, false, none, some, List, [], ◌∷◌, arith}
use native.Mathlib.Decide.{ℕ_discrete}
use krot_vpn.Prelude.Maps.{find, assign, delete, find-assign_self, find-delete_self}
use krot_vpn.Transport.Tunnel.{
  Tunnel, add_channel, close_conn, mark_dead, detach, remove_channel, deliver, read_packet,
}
use krot_vpn.Transport.Tunnel.Validity.{IsValid}

-- What a goroutine does to the tunnel between two points where others may run; `dies` is the whole
-- of `markDead`.
pub data Action : Type 0 where
  attaches : ℕ → ℕ → Action
  -- `removeChannel`: the part under the lock, then Close, then `markDead`.
  detaches : ℕ → Action
  closes : ℕ → Action
  dies : Action
  -- `Close`: the part under the lock.
  clears : Action
  delivers : List ℕ → Action
  reads : Action

pub act : Tunnel → Action → Tunnel
act t (attaches i c) = add_channel i c t
act t (detaches i) = detach i t
act t (closes c) = close_conn c t
act t dies = mark_dead t
act t clears = record t { channels = []; order = [] }
act t (delivers p) = deliver p t
act t reads = (read_packet t).0

pub run : Tunnel → List Action → Tunnel
run t [] = t
run t (a ∷ as') = run (act t a) as'

-- When `removeChannel` drops the last channel of a valid live tunnel, the tunnel is dead and
-- `onEmpty` has run once, and a channel that is added after that is not attached and its
-- connection is closed at once.
pub late_channel_closed :
    (i c j d : ℕ) (t : Tunnel)
    → IsValid t
    → t.dead ≡ false
    → find ℕ_discrete i t.channels ≡ some c
    → delete ℕ_discrete i t.channels ≡ []
    → let u = add_channel j d (remove_channel i t) in
      (u.dead ≡ true) × (u.channels ≡ []) × (u.closes ≡ d ∷ c ∷ t.closes) × (u.empties ≡ 1)
unfolding add_channel remove_channel mark_dead detach close_conn
late_channel_closed i c j d t v live found last = ground (arith, v.fired)

-- A race: `removeChannel` finds the last channel of a valid live tunnel gone, and before it
-- closes the connection and marks the tunnel dead another channel is attached. The tunnel is
-- dead then, `onEmpty` has run once, and the new channel is still attached and its connection
-- was not closed.
pub late_channel_survives :
    (i c j d : ℕ) (t : Tunnel)
    → IsValid t
    → t.dead ≡ false
    → find ℕ_discrete i t.channels ≡ some c
    → delete ℕ_discrete i t.channels ≡ []
    → let u = run t (detaches i ∷ attaches j d ∷ closes c ∷ dies ∷ []) in
      (u.dead ≡ true)
      × (find ℕ_discrete j u.channels ≡ some d)
      × (u.closes ≡ c ∷ t.closes)
      × (u.empties ≡ 1)
unfolding run act add_channel mark_dead detach close_conn
late_channel_survives i c j d t v live found last =
    ground
      (arith, v.flags, v.fired, find-assign_self ℕ_discrete j d (delete ℕ_discrete i t.channels))

-- A second connection under an index that is taken on a live tunnel replaces the first, which is
-- not closed; when the first one's reader then fails, `removeChannel` closes the second.
pub reattached_loses_new :
    (i c d : ℕ) (t : Tunnel)
    → t.closed ≡ false
    → t.dead ≡ false
    → find ℕ_discrete i t.channels ≡ some c
    → let u = add_channel i d t in
      let w = remove_channel i u in
      (find ℕ_discrete i u.channels ≡ some d)
      × (u.closes ≡ t.closes)
      × (w.closes ≡ d ∷ t.closes)
      × (find ℕ_discrete i w.channels ≡ none)
unfolding add_channel remove_channel detach mark_dead close_conn
reattached_loses_new i c d t open' live found = ground (
  arith,
  find-assign_self ℕ_discrete i d t.channels,
  find-delete_self ℕ_discrete i (assign ℕ_discrete i d t.channels),
)
