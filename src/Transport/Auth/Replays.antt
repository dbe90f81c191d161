-- ===== src/Transport/Auth/Replays.antt =====
-- Whether a captured request passes checkAuth again.
use krot_vpn.Prelude.{
  ℕ, ◌+◌, ◌*◌, ◌≤◌, ◌<◌, ◌≡◌, inl, inr, true, false, none, some, List, [], ◌∷◌, arith, All, ltb,
  ltb→lt, ltb_false→le, Bool-cases, Option-cases, ok,
}
use krot_vpn.Prelude.Int.{ℤ, pos, negsuc, pos_part, neg_part}
use krot_vpn.Crypto.{Primitives}
use krot_vpn.Crypto.Replay.{check, new_replay_filter}
use krot_vpn.Crypto.Replay.Window.{Holds, check_live, check-Holds, accepted-Holds, accepted_again}
use krot_vpn.Transport.Auth.{
  Codec, Request, HandlerConfig, Auth, Claims, Clock, read_claims, in_window, token_matches, admit,
  check_auth, auth_window, new_auth,
}
use krot_vpn.Transport.Auth.Accepts.{InWindow, in_window_iff, admit-some}

All-below :
    (rs : List (Clock × Request)) (later exp : ℕ)
    → later < exp
    → All (λ e. e.0.1 ≤ later) rs
    → All (λ e. e.0.1 < exp) rs
All-below [] later exp h a = tt
All-below (e ∷ rs) later exp h a = (omega arith, All-below rs later exp h a.1)

-- What an acceptance after the filter's span needs: a timestamp as far ahead as the window allows,
-- but for the time between the two readings, and a window that is still open.
abbrev pub AtEdge : ℤ → ℕ → Clock → Clock → Type 0
AtEdge ts gap first later =
    (first.0 + auth_window + neg_part ts ≤ pos_part ts + gap)
    × (first.1 + 2 * auth_window ≤ later.1)
    × (later.0 ≤ first.0 + 2 * auth_window)

at_edge :
    (ts : ℤ) (gap : ℕ) (first later : Clock)
    → InWindow ts first.0
    → first.0 ≤ first.1
    → later.1 ≤ later.0 + gap
    → first.1 + 2 * auth_window ≤ later.1
    → InWindow ts later.0
    → AtEdge ts gap first later
at_edge (pos n) gap first later w order close late w' = omega arith
at_edge (negsuc n) gap first later w order close late w' = omega arith

stale :
    (ts : ℤ) (gap : ℕ) (first later : Clock)
    → InWindow ts first.0
    → first.0 ≤ first.1
    → later.1 ≤ later.0 + gap
    → first.1 + 2 * auth_window ≤ later.1
    → ¬ AtEdge ts gap first later
    → in_window ts later.0 ≡ false
stale ts gap first later w order close late inside = elim (Bool-cases (in_window ts later.0)) [
  | inl fresh ↦
      absurd (
        inside (at_edge ts gap first later w order close late ((in_window_iff ts later.0).0 fresh)))
  | inr old ↦ old
]

module _ (p : Primitives) (k : Codec) where
  -- The requests that come in between, with their times.
  pub run : Auth → List (Clock × Request) → Auth
  run h [] = h
  run h ((now, r) ∷ rs) = run (check_auth p k h now r).0 rs

  admit-Holds :
      (h : Auth) (now : Clock) (exp : ℕ) (token : List ℕ) (c : Claims)
      → Holds h.replay token exp
      → now.1 < exp
      → Holds (admit p h now c).0.replay token exp
  unfolding admit
  admit-Holds h now exp token c held early =
      ground (arith, check-Holds h.replay now.1 exp token c.token held early)

  check_auth-Holds :
      (h : Auth) (now : Clock) (exp : ℕ) (token : List ℕ) (r : Request)
      → Holds h.replay token exp
      → now.1 < exp
      → Holds (check_auth p k h now r).0.replay token exp
  unfolding check_auth
  check_auth-Holds h now exp token r held early = elim (Option-cases (read_claims k r)) [
    | inl missing ↦ rw (missing, check_auth) held
    | inr (c, found) ↦ rw (found, check_auth) (admit-Holds h now exp token c held early)
  ]

  run-Holds :
      (h : Auth) (rs : List (Clock × Request)) (exp : ℕ) (token : List ℕ)
      → Holds h.replay token exp
      → All (λ e. e.0.1 < exp) rs
      → Holds (run h rs).replay token exp
  unfolding run
  run-Holds h [] exp token held early = held
  run-Holds h ((now, r) ∷ rs) exp token held early =
      run-Holds (check_auth p k h now r).0 rs exp token
        (check_auth-Holds h now exp token r held early.0) early.1

  admit-cfg : (h : Auth) (now : Clock) (c : Claims) → (admit p h now c).0.cfg ≡ h.cfg
  unfolding admit
  admit-cfg h now c = ground arith

  -- A request with an accepted claim.
  accepted :
      (h : Auth) (now : Clock) (r : Request) {c : Claims}
      → (check_auth p k h now r).1 ≡ some c
      → (read_claims k r ≡ some c)
        × InWindow c.ts now.0
        × (token_matches p h.cfg c ≡ true)
        × ((check h.replay now.1 c.token).1 ≡ true)
        × ((check_auth p k h now r).0.replay ≡ (check h.replay now.1 c.token).0)
        × ((check_auth p k h now r).0.cfg ≡ h.cfg)
  unfolding check_auth
  accepted h now r {c = c} e = elim (Option-cases (read_claims k r)) [
    | inl missing ↦ absurd (ground arith)
    | inr (d, found) ↦
        let (same, window, matches, unseen, replayed) = admit-some p h now d c (ground arith) in
        rw same (
          found,
          (in_window_iff d.ts now.0).0 window,
          matches,
          unseen,
          rw (found, check_auth) replayed,
          rw (found, check_auth) (admit-cfg h now d),
        )
  ]

  rejected_seen :
      (h : Auth) (now : Clock) (exp : ℕ) (r : Request) (c : Claims)
      → read_claims k r ≡ some c
      → Holds h.replay c.token exp
      → now.1 < exp
      → (check_auth p k h now r).1 ≡ none
  unfolding check_auth admit
  rejected_seen h now exp r c found held early =
      rw (found, check_auth, admit)
        (ground (arith, check_live h.replay now.1 exp c.token held early))

  rejected_stale :
      (h : Auth) (now : Clock) (r : Request) (c : Claims)
      → read_claims k r ≡ some c
      → in_window c.ts now.0 ≡ false
      → (check_auth p k h now r).1 ≡ none
  unfolding check_auth admit
  rejected_stale h now r c found stale = rw (found, check_auth, admit) (ground arith)

  pub passes :
      (h : Auth) (now : Clock) (r : Request) (c : Claims)
      → read_claims k r ≡ some c
      → in_window c.ts now.0 ≡ true
      → token_matches p h.cfg c ≡ true
      → (check h.replay now.1 c.token).1 ≡ true
      → (check_auth p k h now r).1 ≡ some c
  unfolding check_auth admit
  passes h now r c found fresh matches unseen = rw (found, check_auth, admit) (ground arith)

  -- Let a server whose filter remembers tokens for 240 seconds accept a request. It rejects the
  -- same request whenever it comes again, whatever requests come in between with clocks of the
  -- filter not after its own. Both of checkAuth's readings of the clock, its own and the filter's,
  -- count: the first time they are in order, and the second time the filter's comes at most `gap`
  -- seconds after checkAuth's. The one exception needs all of this: the timestamp was at least
  -- 120 - gap seconds ahead of the clock, the filter's second reading is at least 240 seconds after
  -- its first, and checkAuth's is at most 240 seconds after its first.
  pub replay_rejected :
      (h : Auth) (gap : ℕ) (first later : Clock) (r : Request) (rs : List (Clock × Request))
      (c : Claims)
      → h.replay.ttl ≡ 2 * auth_window
      → (check_auth p k h first r).1 ≡ some c
      → All (λ e. e.0.1 ≤ later.1) rs
      → first.0 ≤ first.1
      → later.1 ≤ later.0 + gap
      → ¬ AtEdge c.ts gap first later
      → (check_auth p k (run (check_auth p k h first r).0 rs) later r).1 ≡ none
  replay_rejected h gap first later r rs c ttl passed between order close inside =
      let (found, window, _, unseen, replayed, _) = accepted h first r passed in
      let g = run (check_auth p k h first r).0 rs in
      let exp = first.1 + h.replay.ttl in
      elim (Bool-cases (ltb later.1 (first.1 + 2 * auth_window))) [
        | inl early ↦
            let start : Holds (check_auth p k h first r).0.replay c.token exp =
              rw replayed (accepted-Holds h.replay first.1 c.token unseen) in
            let before : later.1 < exp = omega (arith, ltb→lt _ _ early) in
            rejected_seen g later exp r c found
              (run-Holds _ rs exp c.token start (All-below rs later.1 exp before between)) before
        | inr late ↦
            rejected_stale g later r c found
              (stale c.ts gap first later window order close (ltb_false→le _ _ late) inside)
      ]

  -- With a filter that remembers tokens for 240 seconds, a request whose timestamp was 120
  -- seconds ahead of the server's clock when it was accepted is accepted a second time, if no
  -- other request came in between, when checkAuth reads a clock at most 240 seconds later and the
  -- filter one at least 240 seconds later, as both do 240 seconds later.
  pub replay_at_window_end :
      (h : Auth) (first later : Clock) (r : Request) (c : Claims)
      → h.replay.ttl ≡ 2 * auth_window
      → (check_auth p k h first r).1 ≡ some c
      → c.ts ≡ pos (first.0 + auth_window)
      → first.0 ≤ later.0
      → later.0 ≤ first.0 + 2 * auth_window
      → first.1 + 2 * auth_window ≤ later.1
      → (check_auth p k (check_auth p k h first r).0 later r).1 ≡ some c
  replay_at_window_end h first later r c ttl passed ahead after open_still expired =
      let (found, window, matches, unseen, replayed, same_cfg) = accepted h first r passed in
      let h' = (check_auth p k h first r).0 in
      passes h' later r c found ((in_window_iff c.ts later.0).1 (rw ahead (omega arith)))
        (rw same_cfg matches)
        (rw replayed (accepted_again h.replay first.1 later.1 c.token unseen (omega arith)))

-- The filter that NewHandler makes remembers a token for 240 seconds.
pub new_auth-ttl :
    (cfg : HandlerConfig) {h : Auth}
    → cfg.replay ≡ none
    → new_auth cfg ≡ ok h
    → h.replay.ttl ≡ 2 * auth_window
unfolding new_auth new_replay_filter
new_auth-ttl cfg unset made = ground arith
