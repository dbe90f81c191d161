-- ===== src/Transport/Dial/Agreement.antt =====
-- A client's dial against the server that it is configured for.
use krot_vpn.Prelude.{
  ℕ, ◌<◌, ◌≡◌, refl, Bool, true, false, ◌&&◌, some, List, arith, length, replicate, ◌==◌,
  if◌then◌else◌, ok,
}
use krot_vpn.Prelude.Bytes.{bytes_eq_iff}
use krot_vpn.Prelude.Int.{ℤ, pos}
use krot_vpn.Crypto.{Primitives, IsSound}
use krot_vpn.Crypto.Keys.{Keypair, hmac, derive_session_keys}
use krot_vpn.Crypto.Replay.{check}
use krot_vpn.Crypto.Stream.{new_stream}
use krot_vpn.Frame.{PadPolicy, default_pad, new_sealer, new_opener}
use krot_vpn.Frame.RoundTrip.{InStep}
use krot_vpn.Transport.Auth.{
  Codec, IsFaithful, HandlerConfig, Auth, Claims, decode_key, decode_sid, decode_chan, read_claims,
  Clock, token_matches, check_auth,
}
use krot_vpn.Transport.Auth.Accepts.{InWindow, in_window_iff}
use krot_vpn.Transport.Auth.Replays.{passes}
use krot_vpn.Transport.Conn.{Conn, new_conn}
use krot_vpn.Transport.Dial.{
  ClientConfig, Assignment, upgrade_request, client_conn, server_response, server_conn,
}
use krot_vpn.Transport.Handshake.{auth_token, combine_dh, channel_salt, max_channels_per_session}
use krot_vpn.Transport.Handshake.Agreement.{IsPair, combine_dh_agree, derive_session_keys_cross}

-- What the client claims.
abbrev pub claims_of : Primitives → ClientConfig → List ℕ → ℕ → Keypair → ℤ → Claims
claims_of p cfg sid chan eph ts = record {
  eph = eph.public;
  token = auth_token p cfg.psk eph.public ts cfg.server_static sid;
  sid = sid;
  chan = pos chan;
  ts = ts;
}

module _ (p : Primitives) (k : Codec) (sound : IsSound p) (faithful : IsFaithful k) where
  decode_key-b64 : (b : List ℕ) → length b ≡ 32 → decode_key k (k.b64 b) ≡ some b
  unfolding decode_key
  decode_key-b64 b h = ground (arith, faithful.unb64-b64 b)

  decode_sid-b64 : (b : List ℕ) → length b ≡ 16 → decode_sid k (k.b64 b) ≡ some b
  unfolding decode_sid
  decode_sid-b64 b h = ground (arith, faithful.unb64-b64 b)

  decode_chan-print :
      (n : ℕ) → n < max_channels_per_session → decode_chan k (k.print_int (pos n)) ≡ some (pos n)
  unfolding decode_chan
  decode_chan-print n h = ground (arith, faithful.parse-print (pos n))

  auth_token-length :
      (psk eph : List ℕ) (ts : ℤ) (static sid : List ℕ)
      → length (auth_token p psk eph ts static sid) ≡ 32
  unfolding auth_token hmac
  auth_token-length psk eph ts static sid = sound.length-hmac _ _

  read_claims-upgrade_request :
      (cfg : ClientConfig) (sid : List ℕ) (chan : ℕ) (eph : Keypair) (ts : ℤ)
      → length sid ≡ 16
      → chan < max_channels_per_session
      → length eph.public ≡ 32
      → read_claims k (upgrade_request p k cfg sid chan eph ts)
        ≡ some (claims_of p cfg sid chan eph ts)
  unfolding read_claims upgrade_request
  read_claims-upgrade_request cfg sid chan eph ts hs hc he =
      let tok = auth_token p cfg.psk eph.public ts cfg.server_static sid in
      rw
        (
          decode_key-b64 eph.public he,
          decode_key-b64 tok (auth_token-length cfg.psk eph.public ts cfg.server_static sid),
          decode_sid-b64 sid hs,
          decode_chan-print chan hc,
          faithful.parse-print ts,
        )
        refl

  -- A dial passes: the request of a client that has the server's PSK and static key, with a
  -- session id of 16 bytes and a channel index below 16, and whose clock is within 120 seconds of
  -- the server's, is accepted with exactly the client's ephemeral key, session id and channel,
  -- unless the replay filter holds its token.
  pub dial_admitted :
      (h : Auth) (now : Clock) (cfg : ClientConfig) (sid : List ℕ) (chan : ℕ) (eph : Keypair)
      (ts : ℤ)
      → cfg.psk ≡ h.cfg.psk
      → cfg.server_static ≡ h.cfg.static.public
      → length sid ≡ 16
      → chan < max_channels_per_session
      → IsPair p eph
      → InWindow ts now.0
      → (check h.replay now.1 (auth_token p cfg.psk eph.public ts cfg.server_static sid)).1 ≡ true
      → (check_auth p k h now (upgrade_request p k cfg sid chan eph ts)).1
        ≡ some (claims_of p cfg sid chan eph ts)
  unfolding token_matches
  dial_admitted h now cfg sid chan eph ts same_psk same_static hs hc pair window unseen =
      passes p k h now _ (claims_of p cfg sid chan eph ts)
        (read_claims-upgrade_request cfg sid chan eph ts hs hc (sound.length-x25519 _ _ _ pair))
        ((in_window_iff ts now.0).1 window)
        (rw (← same_psk, ← same_static)
          (let tok = auth_token p cfg.psk eph.public ts cfg.server_static sid in
            (bytes_eq_iff tok tok).1 refl))
        unseen

-- A fresh channel over two keys.
new_conn-ok :
    (tx rx : List ℕ) (pad : PadPolicy)
    → length tx ≡ 32
    → length rx ≡ 32
    → (c : Conn) × (new_conn tx rx pad ≡ ok c)
      × (new_stream tx ≡ ok c.sealer.aead)
      × (new_stream rx ≡ ok c.opener.aead)
unfolding new_conn new_sealer new_opener new_stream
new_conn-ok tx rx pad ht hr = (
  record {
    sealer = record {
      aead = record { key = tx; counter = 0; nonce = replicate 12 0 };
      pad = pad;
      count = 0;
    };
    opener = record { aead = record { key = rx; counter = 0; nonce = replicate 12 0 } };
  },
  ground arith,
  ground arith,
  ground arith,
)

module _ (p : Primitives) (k : Codec) (sound : IsSound p) (faithful : IsFaithful k) where
  derived-length :
      (shared salt : List ℕ) (b : Bool)
      → (length (derive_session_keys p shared salt b).tx_key ≡ 32)
        × (length (derive_session_keys p shared salt b).rx_key ≡ 32)
  unfolding derive_session_keys
  derived-length shared salt true = (sound.length-hkdf _ _ _ _, sound.length-hkdf _ _ _ _)
  derived-length shared salt false = (sound.length-hkdf _ _ _ _, sound.length-hkdf _ _ _ _)

  -- The handshake gives both ends one channel: for key pairs as GenerateKeypair makes them, if
  -- neither side meets a low-order key, the server builds its end, the client builds its own from
  -- the server's answer, and each end's sealer is in step with the other end's opener.
  pub server_conn-InStep :
      (cfg : ClientConfig) (hcfg : HandlerConfig) (sid : List ℕ) (chan : ℕ) (ts : ℤ)
      (eph srv : Keypair) (assign : Assignment) (shared : List ℕ)
      → IsPair p eph
      → IsPair p srv
      → IsPair p hcfg.static
      → cfg.server_static ≡ hcfg.static.public
      → combine_dh p srv.private eph.public hcfg.static.private eph.public ≡ some shared
      → (s : Conn) × (c : Conn) × (server_conn p k hcfg (claims_of p cfg sid chan eph ts) chan srv
          ≡ ok s)
        × (client_conn p k cfg sid chan eph (server_response p k srv assign) ≡ ok c)
        × InStep c.sealer s.opener
        × InStep s.sealer c.opener
  unfolding server_conn client_conn server_response
  server_conn-InStep cfg hcfg sid chan ts eph srv assign shared he hs ht same_static agreed =
      let salt = channel_salt eph.public srv.public sid chan in
      let ks = derive_session_keys p shared salt false in
      let kc = derive_session_keys p shared salt true in
      let pad =
        if (cfg.pad.burst_records == 0) && (cfg.pad.burst_max == 0) then default_pad else cfg.pad in
      let (ls, ls') = derived-length shared salt false in
      let (lc, lc') = derived-length shared salt true in
      let (s, made_s, s_tx, s_rx) = new_conn-ok ks.tx_key ks.rx_key hcfg.pad ls ls' in
      let (c, made_c, c_tx, c_rx) = new_conn-ok kc.tx_key kc.rx_key pad lc lc' in
      let (cross, cross') = derive_session_keys_cross p shared salt in
      (
        s,
        c,
        ground (arith, agreed, made_s),
        ground (
          arith,
          decode_key-b64 p k sound faithful srv.public (sound.length-x25519 _ _ _ hs),
          same_static,
          combine_dh_agree p sound eph srv hcfg.static he hs ht,
          agreed,
          made_c,
        ),
        cc (cross),
        cc (cross'),
      )
