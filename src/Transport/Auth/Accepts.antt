-- ===== src/Transport/Auth/Accepts.antt =====
-- What a request that checkAuth lets through has shown.
use krot_vpn.Prelude.{
  ℕ, ◌+◌, ◌-◌, ◌≤◌, ◌≡◌, sym, ◌↔◌, inl, inr, true, some, List, arith, length, Option-cases,
  >>=-eq-some,
}
use krot_vpn.Prelude.Bytes.{bytes_eq_iff}
use krot_vpn.Prelude.Int.{ℤ, pos, negsuc, ◌≤ℤ◌, pos_part, neg_part}
use krot_vpn.Crypto.{Primitives}
use krot_vpn.Crypto.Replay.{check}
use krot_vpn.Transport.Auth.{
  Codec, Request, Auth, Claims, Clock, decode_key, decode_chan, decode_sid, read_claims, in_window,
  token_matches, admit, check_auth, auth_window, cookie, cookie_eph, cookie_ts, cookie_auth,
  cookie_sid, cookie_chan,
}
use krot_vpn.Transport.Handshake.{auth_token, max_channels_per_session}

-- The shapes that the decoders let through.
pub record IsWellFormed (c : Claims) : Type 0 where
  pub eph : length c.eph ≡ 32
  pub token : length c.token ≡ 32
  pub sid : length c.sid ≡ 16
  pub low : pos 0 ≤ℤ c.chan
  pub high : c.chan ≤ℤ pos (max_channels_per_session - 1)

module _ (k : Codec) where
  decode_key-length : (text : List ℕ) {b : List ℕ} → decode_key k text ≡ some b → length b ≡ 32
  unfolding decode_key
  decode_key-length text h = ground arith

  decode_sid-length : (text : List ℕ) {b : List ℕ} → decode_sid k text ≡ some b → length b ≡ 16
  unfolding decode_sid
  decode_sid-length text h = ground arith

  decode_chan-range :
      (text : List ℕ) {ci : ℤ}
      → decode_chan k text ≡ some ci
      → (pos 0 ≤ℤ ci) × (ci ≤ℤ pos (max_channels_per_session - 1))
  unfolding decode_chan
  decode_chan-range text h = ground arith

  read_claims-IsWellFormed : (r : Request) {c : Claims} → read_claims k r ≡ some c → IsWellFormed c
  unfolding read_claims
  read_claims-IsWellFormed r h =
      let (ek, _, h1) = >>=-eq-some (cookie cookie_eph r.cookies) _ h in
      let (ts, _, h2) = >>=-eq-some (cookie cookie_ts r.cookies) _ h1 in
      let (au, _, h3) = >>=-eq-some (cookie cookie_auth r.cookies) _ h2 in
      let (si, _, h4) = >>=-eq-some (cookie cookie_sid r.cookies) _ h3 in
      let (ci, _, h5) = >>=-eq-some (cookie cookie_chan r.cookies) _ h4 in
      let (eph, e1, h6) = >>=-eq-some (decode_key k ek) _ h5 in
      let (token, e2, h7) = >>=-eq-some (decode_key k au) _ h6 in
      let (sid, e3, h8) = >>=-eq-some (decode_sid k si) _ h7 in
      let (chan, e4, h9) = >>=-eq-some (decode_chan k ci) _ h8 in
      let (t, e5, h10) = >>=-eq-some (k.parse_int ts) _ h9 in
      ground (
        arith,
        decode_key-length ek e1,
        decode_key-length au e2,
        decode_sid-length si e3,
        decode_chan-range ci e4,
      )

-- The timestamp lies at most `authWindow` seconds before or after the clock.
abbrev pub InWindow : ℤ → ℕ → Type 0
InWindow ts now =
    (now + neg_part ts ≤ pos_part ts + auth_window)
    × (pos_part ts ≤ neg_part ts + (now + auth_window))

pub in_window_iff : (ts : ℤ) (now : ℕ) → (in_window ts now ≡ true) ↔ InWindow ts now
unfolding in_window
in_window_iff (pos n) now = ground arith
in_window_iff (negsuc n) now = ground arith

-- What `admit` lets through.
pub admit-some :
    (p : Primitives) (h : Auth) (now : Clock) (c c' : Claims)
    → (admit p h now c).1 ≡ some c'
    → (c' ≡ c)
      × (in_window c.ts now.0 ≡ true)
      × (token_matches p h.cfg c ≡ true)
      × ((check h.replay now.1 c.token).1 ≡ true)
      × ((admit p h now c).0.replay ≡ (check h.replay now.1 c.token).0)
unfolding admit
admit-some p h now c c' e = ground arith

-- A request that passes has a 32-byte ephemeral key, a 16-byte session id and a channel index from
-- 0 to 15, a timestamp within 120 seconds of the clock that checkAuth reads, and a token that is
-- the HMAC under the server's PSK of the key, the timestamp, the server's static key and the
-- session id, and that the replay filter did not hold when it read the clock.
pub check_auth_sound :
    (p : Primitives) (k : Codec) (h : Auth) (now : Clock) (r : Request) {c : Claims}
    → (check_auth p k h now r).1 ≡ some c
    → IsWellFormed c
      × InWindow c.ts now.0
      × (c.token ≡ auth_token p h.cfg.psk c.eph c.ts h.cfg.static.public c.sid)
      × ((check h.replay now.1 c.token).1 ≡ true)
unfolding check_auth token_matches
check_auth_sound p k h now r {c = c} e = elim (Option-cases (read_claims k r)) [
  | inl missing ↦ absurd (ground arith)
  | inr (d, found) ↦
      let (same, window, matches, unseen, _) = admit-some p h now d c (ground arith) in
      rw same (
        read_claims-IsWellFormed k r found,
        (in_window_iff d.ts now.0).0 window,
        sym ((bytes_eq_iff _ d.token).0 matches),
        unseen,
      )
]
