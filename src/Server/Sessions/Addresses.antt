-- ===== src/Server/Sessions/Addresses.antt =====
-- Sessions and addresses.
use krot_vpn.Prelude.{
  zero, suc, ℕ, ◌+◌, ◌-◌, ◌^◌, ◌≤◌, ◌≡◌, refl, ap, inl, inr, Bool, true, false, not, ◌&&◌, Option,
  none, some, List, [], ◌∷◌, map, arith, ◌==◌, if◌then◌else◌, Bool-cases, Option-cases, ok,
  Result-cases,
}
use native.Mathlib.Decide.{ℕ_discrete}
use krot_vpn.Prelude.Bytes.{bytes_discrete, bytes_eq}
use krot_vpn.Prelude.Counts.{count}
use krot_vpn.Prelude.Int.{pos_part}
use krot_vpn.Prelude.Maps.{find, delete, assign, delete_absent, delete-Uniq, Uniq}
use krot_vpn.Crypto.{Primitives}
use krot_vpn.Crypto.Keys.{generate_keypair}
use krot_vpn.Server.Pool.{Cidr, IpPool, Lease, new_ip_pool, alloc}
use krot_vpn.Server.Pool.Balance.{
  Balanced, IsNetwork, in_range, new_ip_pool-Balanced, alloc-Balanced, release-Balanced,
}
use krot_vpn.Server.Pool.Leases.{holders, alloc-held, release-held}
use krot_vpn.Server.Sessions.{
  Session, Handler, create, join_or_create, attach, answer, admitted, serve_http, unlist,
  take_lease, release_next,
}
use krot_vpn.Transport.Auth.{Codec, Request, Auth, Claims, Clock, check_auth}
use krot_vpn.Transport.Dial.{server_conn}

abbrev pub Sessions : Type 0
Sessions = List (List ℕ × Session)

abbrev pub leases_of : Sessions → List Lease
leases_of = map (λ e. e.1.lease)

-- The address book of a handler: an address in use belongs to exactly one session on the map or
-- one pending release.
pub record Inv (hosts : ℕ → ℕ) (h : Handler) : Type 0 where
  pub balanced : Balanced hosts h.pool
  pub held : (a : ℕ) → count a h.pool.used ≡ holders a (leases_of h.sessions) + holders a h.pending
  pub uniq : Uniq bytes_discrete h.sessions

holders-delete :
    (a : ℕ) (sid : List ℕ) (s : Session) (m : Sessions)
    → Uniq bytes_discrete m
    → find bytes_discrete sid m ≡ some s
    → holders a (leases_of (delete bytes_discrete sid m))
        + (if not s.lease.fired && (s.lease.ip == a) then 1 else 0)
      ≡ holders a (leases_of m)
unfolding find delete
holders-delete a sid s [] u h = cc
holders-delete a sid s ((k, t) ∷ m) u h = elim (bytes_discrete k sid) [
  | yes same ↦ ground (arith, u.0, delete_absent bytes_discrete sid m)
  | no other ↦ ground (arith, holders-delete a sid s m u.1)
]

created_session :
    (h : Handler) (sid : List ℕ) {h' : Handler} {s : Session} {cidr : List ℕ} {lease : Lease}
    {pool : IpPool}
    → find bytes_discrete sid h.sessions ≡ none
    → alloc h.pool ≡ some (cidr, lease, pool)
    → create h sid ≡ some (h', s)
    → (t : Session) × (h'.sessions ≡ (sid, t) ∷ h.sessions) × (t.lease ≡ lease)
unfolding create assign
created_session h sid {s = s} absent given made =
    (s, ground (arith, delete_absent bytes_discrete sid h.sessions), ground arith)

create-Inv :
    {hosts : ℕ → ℕ} (h : Handler) (sid : List ℕ) {h' : Handler} {s : Session}
    → Inv hosts h
    → find bytes_discrete sid h.sessions ≡ none
    → create h sid ≡ some (h', s)
    → Inv hosts h'
unfolding create
create-Inv {hosts} h sid {h' = h'} v absent made = elim (Option-cases (alloc h.pool)) [
  | inl full ↦ absurd (ground arith)
  | inr ((cidr, lease, pool), given) ↦
      let pool≡ : h'.pool ≡ pool = ground arith in
      let pending≡ : h'.pending ≡ h.pending = ground arith in
      let sessions≡ : (s : Session) × (h'.sessions ≡ (sid, s) ∷ h.sessions) × (s.lease ≡ lease) =
        created_session h sid absent given made in
      let (s, listed, leased) = sessions≡ in
      record {
        balanced = rw pool≡ (alloc-Balanced h.pool v.balanced given);
        held = λ a.
            rw (pool≡, pending≡, listed, leased)
              (omega (arith, v.held a, alloc-held h.pool a v.balanced given));
        uniq = rw listed (absent, v.uniq);
      }
]

-- The parts of a handler that the invariant reads are the same.
abbrev Same : Handler → Handler → Type 0
Same h h' = (h'.sessions ≡ h.sessions) × (h'.pool ≡ h.pool) × (h'.pending ≡ h.pending)

Same-Inv : {hosts : ℕ → ℕ} (h h' : Handler) → Same h h' → Inv hosts h → Inv hosts h'
Same-Inv h h' (listed, pooled, waiting) v = record {
  balanced = rw pooled v.balanced;
  held = λ a. rw (pooled, listed, waiting) (v.held a);
  uniq = rw listed v.uniq;
}

join_or_create-Inv :
    {hosts : ℕ → ℕ} (h : Handler) (sid : List ℕ) {h' : Handler} {s : Session}
    → Inv hosts h
    → join_or_create h sid ≡ some (h', s)
    → Inv hosts h'
unfolding join_or_create
join_or_create-Inv {hosts} h sid {h' = h'} {s = s} v made =
    elim (Option-cases (find bytes_discrete sid h.sessions)) [
      | inl absent ↦ create-Inv h sid {s = s} v absent (ground arith)
      | inr (t, there) ↦ Same-Inv h h' (ground arith, ground arith, ground arith) v
    ]

attach-Same : (tun chan conn : ℕ) (h : Handler) → Same h (attach tun chan conn h)
unfolding attach
attach-Same tun chan conn h = elim (Option-cases (find ℕ_discrete tun h.tunnels)) [
  | inl e ↦ rw (e, attach) (refl, refl, refl)
  | inr (t, e) ↦ rw (e, attach) (refl, refl, refl)
]

unlist-Inv : {hosts : ℕ → ℕ} (sid : List ℕ) (h : Handler) → Inv hosts h → Inv hosts (unlist sid h)
unfolding unlist
unlist-Inv {hosts} sid h v = elim (Option-cases (find bytes_discrete sid h.sessions)) [
  | inl e ↦ rw (e, unlist) v
  | inr (s, e) ↦
      rw (e, unlist)
        (record {
          balanced = v.balanced;
          held = λ a. omega (arith, v.held a, holders-delete a sid s h.sessions v.uniq e);
          uniq = delete-Uniq bytes_discrete sid h.sessions v.uniq;
        })
]

holders-take_lease :
    (a i : ℕ) (ls : List Lease) {l : Lease} {rest : List Lease}
    → take_lease i ls ≡ some (l, rest)
    → holders a ls ≡ holders a (l ∷ rest)
unfolding take_lease
holders-take_lease a i [] e = cc
holders-take_lease a zero (m ∷ ls) e = ground (arith, e)
holders-take_lease a (suc i) (m ∷ ls) e = elim (Option-cases (take_lease i ls)) [
  | inl missing ↦ absurd (ground (arith, e))
  | inr ((n, rest), found) ↦ ground (arith, e, holders-take_lease a i ls found)
]

release_next-Inv :
    {hosts : ℕ → ℕ} (i : ℕ) (h : Handler) → Inv hosts h → Inv hosts (release_next i h)
unfolding release_next
release_next-Inv i h v = elim (Option-cases (take_lease i h.pending)) [
  | inl missing ↦ rw (missing, release_next) v
  | inr ((l, ls), found) ↦
      rw (found, release_next)
        (record {
          balanced = release-Balanced h.pool l v.balanced;
          held = λ a. omega (
            arith,
            v.held a,
            holders-take_lease a i h.pending found,
            release-held h.pool l a v.balanced
                (λ unfired. ground (arith, v.held l.ip, holders-take_lease l.ip i h.pending found)),
          );
          uniq = v.uniq;
        })
]

-- What can happen to the handler, one after another: a request, a session's end (off the map), a
-- release, of any session whose end is not through.
pub data Step : Type 0 where
  serves : Clock → Request → Option (List ℕ) → Bool → ℕ → Step
  ends : List ℕ → Step
  releases : ℕ → Step

module _ (p : Primitives) (k : Codec) where
  abbrev pub step : Handler → Step → Handler
  step h (serves now r random upgrades conn) = (serve_http p k h now r random upgrades conn).0
  step h (ends sid) = unlist sid h
  step h (releases i) = release_next i h

  abbrev pub run : Handler → List Step → Handler
  run h [] = h
  run h (s ∷ ss) = run (step h s) ss

  answer-Same :
      (h : Handler) (s : Session) (c : Claims) (random : Option (List ℕ)) (upgrades : Bool)
      (conn : ℕ)
      → Same h (answer p k h s c random upgrades conn).0
  unfolding answer
  answer-Same h s c random false conn = elim (Option-cases (generate_keypair p random)) [
    | inl e ↦ rw (e, answer) (refl, refl, refl)
    | inr (srv, e) ↦ rw (e, answer) (refl, refl, refl)
  ]
  answer-Same h s c random true conn = elim (Option-cases (generate_keypair p random)) [
    | inl e ↦ rw (e, answer) (refl, refl, refl)
    | inr (srv, e) ↦ elim (Result-cases (server_conn p k h.auth.cfg c (pos_part c.chan) srv)) [
      | inl (x, e2) ↦ rw (e, e2, answer) (refl, refl, refl)
      | inr (x, e2) ↦ rw (e, e2, answer) (attach-Same s.tun (pos_part c.chan) conn h)
    ]
  ]

  admitted-Inv :
      {hosts : ℕ → ℕ} (h : Handler) (r : Request) (c : Claims) (random : Option (List ℕ))
      (upgrades : Bool) (conn : ℕ)
      → Inv hosts h
      → Inv hosts (admitted p k h r c random upgrades conn).0
  unfolding admitted
  admitted-Inv h r c random upgrades conn v = elim (Bool-cases (bytes_eq r.path h.auth.cfg.path)) [
    | inl e ↦ elim (Option-cases (join_or_create h c.sid)) [
      | inl none_left ↦ rw (e, none_left, admitted) v
      | inr ((h', s), made) ↦
          rw (e, made, admitted)
            (Same-Inv h' (answer p k h' s c random upgrades conn).0
              (answer-Same h' s c random upgrades conn) (join_or_create-Inv h c.sid v made))
    ]
    | inr e ↦ rw (e, admitted) v
  ]

  serve_http-Inv :
      {hosts : ℕ → ℕ} (h : Handler) (now : Clock) (r : Request) (random : Option (List ℕ))
      (upgrades : Bool) (conn : ℕ)
      → Inv hosts h
      → Inv hosts (serve_http p k h now r random upgrades conn).0
  unfolding serve_http
  serve_http-Inv {hosts} h now r random upgrades conn v =
      let h' : Handler = record h { auth = (check_auth p k h.auth now r).0 } in
      let w : Inv hosts h' = Same-Inv h h' (refl, refl, refl) v in
      elim (Option-cases (check_auth p k h.auth now r).1) [
        | inl e ↦ rw (e, serve_http) w
        | inr (c, e) ↦ rw (e, serve_http) (admitted-Inv h' r c random upgrades conn w)
      ]

  run-Inv : {hosts : ℕ → ℕ} (h : Handler) (ss : List Step) → Inv hosts h → Inv hosts (run h ss)
  run-Inv h [] v = v
  run-Inv h (serves now r random upgrades conn ∷ ss) v =
      run-Inv (serve_http p k h now r random upgrades conn).0 ss
        (serve_http-Inv h now r random upgrades conn v)
  run-Inv h (ends sid ∷ ss) v = run-Inv (unlist sid h) ss (unlist-Inv sid h v)
  run-Inv h (releases i ∷ ss) v = run-Inv (release_next i h) ss (release_next-Inv i h v)

  -- Start the handler with an empty map and the pool that newIPPool builds over a network in
  -- canonical form, and let any requests, session ends and pending releases, of any of them first,
  -- follow one another. Then every session id stands at most once on the map, each address is held
  -- by at most one session or pending release, by none unless it is a host address other than the
  -- gateway, and whatever is not held is in the free list.
  pub address_exclusive :
      (c : Cidr) (gw : ℕ) (auth : Auth) (ss : List Step) (a : ℕ) {pool : IpPool}
      → IsNetwork c
      → c.ip4 ≡ some gw
      → new_ip_pool (some c) ≡ ok pool
      → let h =
          run
            (record {
              auth = auth;
              sessions = [];
              tunnels = [];
              next = 0;
              pool = pool;
              pending = [];
            })
            ss in
        let hosts = in_range c.network gw 1 (2 ^ (32 - c.prefix) - 1) in
        Uniq bytes_discrete h.sessions
        × (hosts a ≤ 1)
        × (holders a (leases_of h.sessions) + holders a h.pending ≤ hosts a)
        × (count a h.pool.free + (holders a (leases_of h.sessions) + holders a h.pending) ≡ hosts a)
  address_exclusive c gw auth ss a {pool = pool} net e built =
      let (balanced, unused, _) = new_ip_pool-Balanced c gw net e built in
      let v =
        run-Inv
          (record { auth = auth; sessions = []; tunnels = []; next = 0; pool = pool; pending = [] })
          ss (record { balanced = balanced; held = λ x. ap (count x) unused; uniq = tt }) in
      (
        v.uniq,
        v.balanced.once a,
        omega (arith, v.balanced.balance a, v.held a),
        omega (arith, v.balanced.balance a, v.held a),
      )
