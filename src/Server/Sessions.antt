-- ===== src/Server/Sessions.antt =====
-- ServeHTTP of internal/transport/server.go, with the address pool behind its Alloc as
-- internal/server/server.go wires it. The critical section, the answer and the end of a session
-- are steps of their own.
pub mod Addresses
pub mod Failures
use krot_vpn.Prelude.{
  zero, suc, ℕ, ◌+◌, Bool, Option, none, some, List, [], ◌∷◌, leb, if◌then◌else◌, ok, err,
}
use native.Mathlib.Decide.{ℕ_discrete}
use krot_vpn.Prelude.Bytes.{bytes_discrete, bytes_eq}
use krot_vpn.Prelude.Int.{pos_part}
use krot_vpn.Prelude.Maps.{find, delete, assign}
use krot_vpn.Crypto.{Primitives}
use krot_vpn.Crypto.Keys.{generate_keypair}
use krot_vpn.Server.Pool.{IpPool, Lease, alloc, release}
use krot_vpn.Transport.Auth.{Codec, Request, Auth, Claims, Clock, check_auth}
use krot_vpn.Transport.Conn.{Conn}
use krot_vpn.Transport.Dial.{Assignment, Response, server_response, server_conn}
use krot_vpn.Transport.Handshake.{max_channels_per_session}
use krot_vpn.Transport.Tunnel.{Tunnel, new_tunnel, add_channel, channel_count}

-- serverSession, and the release closure that its tunnel's `onEmpty` calls.
pub record Session : Type 0 where
  pub tun : ℕ
  pub assign : Assignment
  pub lease : Lease

-- `tunnels`: the tunnels by their number; `pending`: the leases of sessions that are off the map
-- and not yet released.
pub record Handler : Type 0 where
  pub auth : Auth
  pub sessions : List (List ℕ × Session)
  pub tunnels : List (ℕ × Tunnel)
  pub next : ℕ
  pub pool : IpPool
  pub pending : List Lease

unfoldable pub channels_of : Handler → ℕ → ℕ
channels_of h tun = elim (find ℕ_discrete tun h.tunnels) [ none ↦ 0 | some t ↦ channel_count t ]

-- A new session: an address, an empty tunnel, an entry in the map.
unfoldable pub create : Handler → List ℕ → Option (Handler × Session)
create h sid = elim (alloc h.pool) [
  | none ↦ none
  | some (cidr, lease, pool) ↦
      let s : Session = record {
        tun = h.next;
        assign = record { addr = cidr; gw = h.auth.cfg.gw; dns = h.auth.cfg.dns };
        lease = lease;
      } in
      some (
        record h {
          sessions = assign bytes_discrete sid s h.sessions;
          tunnels = assign ℕ_discrete h.next new_tunnel h.tunnels;
          next = h.next + 1;
          pool = pool;
        },
        s,
      )
]

-- The critical section: join the session of the id, under the cap, or create one; `none` is the
-- decoy.
unfoldable pub join_or_create : Handler → List ℕ → Option (Handler × Session)
unfolding create
join_or_create h sid = elim (find bytes_discrete sid h.sessions) [
  | some s ↦ if leb max_channels_per_session (channels_of h s.tun) then none else some (h, s)
  | none ↦ create h sid
]

unfoldable pub attach : ℕ → ℕ → ℕ → Handler → Handler
attach tun chan conn h = elim (find ℕ_discrete tun h.tunnels) [
  | none ↦ h
  | some t ↦ record h { tunnels = assign ℕ_discrete tun (add_channel chan conn t) h.tunnels }
]

-- How a request ends; `attached` carries the answer's header and the channel.
pub data Outcome : Type 0 where
  decoy upgrade_failed dropped : Outcome
  attached : Response → Conn → Outcome

module _ (p : Primitives) (k : Codec) where
  -- From the fresh key on. `upgrades`: whether the WebSocket upgrade works; `conn` names the new
  -- connection.
  unfoldable pub answer :
      Handler → Session → Claims → Option (List ℕ) → Bool → ℕ → Handler × Outcome
  answer h s c random upgrades conn = elim (generate_keypair p random) [
    | none ↦ (h, decoy)
    | some srv ↦
        if upgrades
        then elim (server_conn p k h.auth.cfg c (pos_part c.chan) srv) [
          | err e ↦ (h, dropped)
          | ok made ↦ (
            attach s.tun (pos_part c.chan) conn h,
            attached (server_response p k srv s.assign) made,
          )
        ]
        else (h, upgrade_failed)
  ]

  unfoldable pub admitted :
      Handler → Request → Claims → Option (List ℕ) → Bool → ℕ → Handler × Outcome
  unfolding answer
  admitted h r c random upgrades conn =
      if bytes_eq r.path h.auth.cfg.path
      then elim (join_or_create h c.sid) [
        | none ↦ (h, decoy)
        | some (h', s) ↦ answer h' s c random upgrades conn
      ]
      else (h, decoy)

  unfoldable pub serve_http :
      Handler → Clock → Request → Option (List ℕ) → Bool → ℕ → Handler × Outcome
  unfolding admitted
  serve_http h now r random upgrades conn =
      let (auth, claims) = check_auth p k h.auth now r in
      let h' : Handler = record h { auth = auth } in
      elim claims [ none ↦ (h', decoy) | some c ↦ admitted h' r c random upgrades conn ]

-- The two halves of `onEmpty`: off the map, then the release.
unfoldable pub unlist : List ℕ → Handler → Handler
unlist sid h = elim (find bytes_discrete sid h.sessions) [
  | none ↦ h
  | some s ↦ record h {
    sessions = delete bytes_discrete sid h.sessions;
    pending = s.lease ∷ h.pending;
  }
]

-- The lease at a position, and the others.
unfoldable pub take_lease : ℕ → List Lease → Option (Lease × List Lease)
take_lease i [] = none
take_lease zero (l ∷ ls) = some (l, ls)
take_lease (suc i) (l ∷ ls) = elim (take_lease i ls) [
  | none ↦ none
  | some (m, rest) ↦ some (m, l ∷ rest)
]

-- Any of the pending releases may be the next.
unfoldable pub release_next : ℕ → Handler → Handler
unfolding take_lease
release_next i h = elim (take_lease i h.pending) [
  | none ↦ h
  | some (l, ls) ↦ record h { pool = (release h.pool l).1; pending = ls }
]
