-- ===== src/Transport/Auth.antt =====
-- internal/transport/server.go: HandlerConfig and checkAuth, and the decoding helpers of
-- internal/transport/client.go.
pub mod Accepts
pub mod Replays
use krot_vpn.Prelude.{
  ◌>>=◌, ℕ, ◌+◌, ◌*◌, ◌≡◌, Bool, not, ◌&&◌, ◌||◌, Option, none, some, List, [], ◌∷◌, length, ◌==◌,
  if◌then◌else◌, Result, ok, err,
}
use krot_vpn.Prelude.Bytes.{codes, bytes_eq}
use krot_vpn.Prelude.Int.{ℤ, pos, ltb_ℤ, sub_ℕ}
use krot_vpn.Crypto.{Primitives}
use krot_vpn.Crypto.Keys.{Keypair, key_size}
use krot_vpn.Crypto.Replay.{ReplayFilter, check, new_replay_filter}
use krot_vpn.Frame.{PadPolicy, default_pad}
use krot_vpn.Transport.Handshake.{auth_token, max_channels_per_session}

-- Go's text codecs: base64.RawURLEncoding, `%d` and strconv of an int64.
pub record Codec : Type 0 where
  pub b64 : List ℕ → List ℕ
  pub unb64 : List ℕ → Option (List ℕ)
  pub print_int : ℤ → List ℕ
  pub parse_int : List ℕ → Option ℤ

-- What their documentation promises.
pub record IsFaithful (k : Codec) : Type 0 where
  pub unb64-b64 : (b : List ℕ) → k.unb64 (k.b64 b) ≡ some b
  pub parse-print : (z : ℤ) → k.parse_int (k.print_int z) ≡ some z

abbrev pub cookie_eph : List ℕ
cookie_eph = codes "ek"

abbrev pub cookie_ts : List ℕ
cookie_ts = codes "ts"

abbrev pub cookie_auth : List ℕ
cookie_auth = codes "au"

abbrev pub cookie_sid : List ℕ
cookie_sid = codes "si"

abbrev pub cookie_chan : List ℕ
cookie_chan = codes "ci"

abbrev pub auth_window : ℕ
auth_window = 120

-- A request as net/http parsed it.
pub record Request : Type 0 where
  pub cookies : List (List ℕ × List ℕ)
  pub path : List ℕ

pub record HandlerConfig : Type 0 where
  pub psk : List ℕ
  pub static : Keypair
  pub path : List ℕ
  pub gw : List ℕ
  pub dns : List ℕ
  pub pad : PadPolicy
  pub replay : Option ReplayFilter

-- The part of the Handler that authenticates.
pub record Auth : Type 0 where
  pub cfg : HandlerConfig
  pub replay : ReplayFilter

pub data Error : Type 0 where
  bad_psk : Error

abbrev pub default_ttl : ℤ
default_ttl = pos (2 * auth_window * 1_000_000_000)

-- NewHandler: the checks and the defaults.
unfoldable pub new_auth : HandlerConfig → Result Error Auth
new_auth cfg =
    if length cfg.psk == key_size
    then ok (record {
      cfg = record cfg {
        pad =
            if (cfg.pad.burst_records == 0) && (cfg.pad.burst_max == 0)
            then default_pad
            else cfg.pad;
      };
      replay = elim cfg.replay [ none ↦ new_replay_filter default_ttl | some f ↦ f ];
    })
    else err bad_psk

-- `r.Cookie`: the first cookie of the name.
abbrev pub cookie : List ℕ → List (List ℕ × List ℕ) → Option (List ℕ)
cookie name [] = none
cookie name ((n, v) ∷ cs) = if bytes_eq n name then some v else cookie name cs

pub record Claims : Type 0 where
  pub eph : List ℕ
  pub token : List ℕ
  pub sid : List ℕ
  pub chan : ℤ
  pub ts : ℤ

module _ (k : Codec) where
  unfoldable pub decode_key : List ℕ → Option (List ℕ)
  decode_key text = do b ← k.unb64 text; if length b == 32 then some b else none

  -- `parseChan`, with the range that its caller wants.
  unfoldable pub decode_chan : List ℕ → Option ℤ
  decode_chan text = do
    ci ← k.parse_int text
    if ltb_ℤ ci (pos 0) || not (ltb_ℤ ci (pos max_channels_per_session)) then none else some ci

  unfoldable pub decode_sid : List ℕ → Option (List ℕ)
  decode_sid text = do b ← k.unb64 text; if length b == 16 then some b else none

  -- The first half of `checkAuth`: the cookies, in the order of the code.
  unfoldable pub read_claims : Request → Option Claims
  unfolding decode_key decode_chan decode_sid
  read_claims r = do
    ek_text ← cookie cookie_eph r.cookies
    ts_text ← cookie cookie_ts r.cookies
    au_text ← cookie cookie_auth r.cookies
    si_text ← cookie cookie_sid r.cookies
    ci_text ← cookie cookie_chan r.cookies
    eph ← decode_key ek_text
    token ← decode_key au_text
    sid ← decode_sid si_text
    chan ← decode_chan ci_text
    ts ← k.parse_int ts_text
    some (record { eph = eph; token = token; sid = sid; chan = chan; ts = ts })

-- `ts < now-authWindow || ts > now+authWindow` fails.
unfoldable pub in_window : ℤ → ℕ → Bool
in_window ts now = not (ltb_ℤ ts (sub_ℕ now auth_window) || ltb_ℤ (pos (now + auth_window)) ts)

-- The two readings of the clock for a request: the one of `checkAuth` and the one of `Check`.
abbrev pub Clock : Type 0
Clock = ℕ × ℕ

module _ (p : Primitives) where
  unfoldable pub token_matches : HandlerConfig → Claims → Bool
  token_matches cfg c = bytes_eq (auth_token p cfg.psk c.eph c.ts cfg.static.public c.sid) c.token

  -- The second half: the window, the token, the replay filter.
  unfoldable pub admit : Auth → Clock → Claims → Auth × Option Claims
  admit h now c =
      if in_window c.ts now.0 && token_matches h.cfg c
      then (let (f, unseen) = check h.replay now.1 c.token in
          (record h { replay = f }, if unseen then some c else none))
      else (h, none)

  unfoldable pub check_auth : Codec → Auth → Clock → Request → Auth × Option Claims
  check_auth k h now r = elim (read_claims k r) [ none ↦ (h, none) | some c ↦ admit h now c ]
