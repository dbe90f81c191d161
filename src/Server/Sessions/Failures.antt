-- ===== src/Server/Sessions/Failures.antt =====
-- A session whose first channel fails.
use krot_vpn.Prelude.{ℕ, ◌+◌, ◌≡◌, refl, true, false, Option, none, some, List, arith}
use native.Mathlib.Decide.{ℕ_discrete}
use krot_vpn.Prelude.Bytes.{bytes_discrete, bytes_eq}
use krot_vpn.Prelude.Maps.{find, assign, find-assign_self}
use krot_vpn.Crypto.{Primitives}
use krot_vpn.Crypto.Keys.{Keypair, generate_keypair}
use krot_vpn.Server.Pool.{IpPool, Lease, alloc}
use krot_vpn.Server.Sessions.{
  Session, Handler, upgrade_failed, create, join_or_create, answer, admitted, serve_http,
}
use krot_vpn.Transport.Auth.{Codec, Request, Auth, Claims, Clock, admit, check_auth}
use krot_vpn.Transport.Tunnel.{new_tunnel}

-- The session `s` is on the map with an empty tunnel and holds the address.
abbrev pub Waits : List ℕ → Lease → Handler → Session → Type 0
Waits sid lease h s =
    (find bytes_discrete sid h.sessions ≡ some s)
    × (s.lease ≡ lease)
    × (find ℕ_discrete s.tun h.tunnels ≡ some new_tunnel)

-- What `create` makes of the address that the pool gives.
abbrev opened : Handler → List ℕ → Lease → Session
opened h cidr lease = record {
  tun = h.next;
  assign = record { addr = cidr; gw = h.auth.cfg.gw; dns = h.auth.cfg.dns };
  lease = lease;
}

abbrev holding : Handler → List ℕ → List ℕ → Lease → IpPool → Handler
holding h sid cidr lease pool = record h {
  sessions = assign bytes_discrete sid (opened h cidr lease) h.sessions;
  tunnels = assign ℕ_discrete h.next new_tunnel h.tunnels;
  next = h.next + 1;
  pool = pool;
}

create-opened :
    (h : Handler) (sid : List ℕ) {cidr : List ℕ} {lease : Lease} {pool : IpPool}
    → alloc h.pool ≡ some (cidr, lease, pool)
    → create h sid ≡ some (holding h sid cidr lease pool, opened h cidr lease)
unfolding create
create-opened h sid given = rw (given, create) refl

module _ (p : Primitives) (k : Codec) where
  check_auth-cfg : (a : Auth) (now : Clock) (r : Request) → (check_auth p k a now r).0.cfg ≡ a.cfg
  unfolding check_auth admit
  check_auth-cfg a now r = ground arith

  answer_refused :
      (h : Handler) (s : Session) (c : Claims) (random : Option (List ℕ)) (conn : ℕ) {srv : Keypair}
      → generate_keypair p random ≡ some srv
      → answer p k h s c random false conn ≡ (h, upgrade_failed)
  unfolding answer
  answer_refused h s c random conn made = rw (made, answer) refl

  -- A session whose first upgrade fails stays: let an authenticated request with the right path
  -- open a new session while the pool has an address, and let the upgrade fail after the server's
  -- key was made. Then the session is on the map with a tunnel that has no channel, and its
  -- address is out of the pool.
  pub failed_upgrade-Waits :
      (h : Handler) (now : Clock) (r : Request) (random : Option (List ℕ)) (conn : ℕ) {c : Claims}
      {srv : Keypair} {cidr : List ℕ} {lease : Lease} {pool : IpPool}
      → (check_auth p k h.auth now r).1 ≡ some c
      → bytes_eq r.path h.auth.cfg.path ≡ true
      → find bytes_discrete c.sid h.sessions ≡ none
      → alloc h.pool ≡ some (cidr, lease, pool)
      → generate_keypair p random ≡ some srv
      → let (h', outcome) = serve_http p k h now r random false conn in
        (outcome ≡ upgrade_failed) × ((s : Session) × Waits c.sid lease h' s) × (h'.pool ≡ pool)
  unfolding serve_http admitted join_or_create
  failed_upgrade-Waits h now r random conn {c = c} {cidr = cidr} {lease = lease} {pool = pool}
        passed path absent given made =
      let auth = (check_auth p k h.auth now r).0 in
      let h1 : Handler = record h { auth = auth } in
      let h2 = holding h1 c.sid cidr lease pool in
      let s = opened h1 cidr lease in
      let joined : join_or_create h1 c.sid ≡ some (h2, s) =
        rw (absent, join_or_create) (create-opened h1 c.sid given) in
      let right : bytes_eq r.path auth.cfg.path ≡ true = rw (check_auth-cfg h.auth now r) path in
      let ends : admitted p k h1 r c random false conn ≡ (h2, upgrade_failed) =
        rw (right, joined, admitted) (answer_refused h2 s c random conn made) in
      rw (passed, serve_http, ends)
        (
          refl,
          (
            s,
            (
              find-assign_self bytes_discrete c.sid s h.sessions,
              refl,
              find-assign_self ℕ_discrete h.next new_tunnel h.tunnels,
            ),
          ),
          refl,
        )
