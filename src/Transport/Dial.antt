-- ===== src/Transport/Dial.antt =====
-- internal/transport/client.go and the second half of ServeHTTP in internal/transport/server.go:
-- one channel's handshake, seen from both ends. TCP, TLS and the WebSocket upgrade are the
-- network's answers.
pub mod Agreement
use krot_vpn.Prelude.{
  ℕ, Bool, true, false, ◌&&◌, Option, List, [], ◌∷◌, ◌==◌, if◌then◌else◌, Result, ok, err,
}
use krot_vpn.Prelude.{check, or_fail, ◌then◌}
use krot_vpn.Prelude.Bytes.{bytes_eq}
use krot_vpn.Prelude.Int.{ℤ, pos}
use krot_vpn.Crypto.{Primitives}
use krot_vpn.Crypto.Keys.{Keypair, generate_keypair, derive_session_keys}
use krot_vpn.Frame.{PadPolicy, default_pad}
use krot_vpn.Transport.Auth.{
  Codec, Request, HandlerConfig, Claims, cookie_eph, cookie_ts, cookie_auth, cookie_sid,
  cookie_chan, decode_key,
}
use krot_vpn.Transport.Conn.{Conn, new_conn}
use krot_vpn.Transport.Handshake.{auth_token, combine_dh, channel_salt}

pub record Assignment : Type 0 where
  pub addr : List ℕ
  pub gw : List ℕ
  pub dns : List ℕ

-- The header of the server's answer to an upgrade: X-Accel-Token and the assignment.
pub record Response : Type 0 where
  pub server_eph : List ℕ
  pub assign : Assignment

pub record ClientConfig : Type 0 where
  pub server_addr : List ℕ
  pub sni : List ℕ
  pub path : List ℕ
  pub psk : List ℕ
  pub server_static : List ℕ
  pub insecure : Bool
  pub pin_sha256 : List ℕ
  pub channels : ℤ
  pub pad : PadPolicy

pub data Error : Type 0 where
  tcp_dial tls_handshake no_certificate pin_mismatch key_generation upgrade_rejected : Error
  server_key low_order record_layer : Error

-- What a dial meets: the connections, the certificates' SPKI and their SHA-256 in base64,
-- randomness, the clock, and the server's answer to the upgrade.
pub record Network : Type 0 where
  pub tcp : Bool
  pub tls : Bool
  pub certificates : List (List ℕ)
  pub fingerprint : List ℕ → List ℕ
  pub random : Option (List ℕ)
  pub now : ℤ
  pub upgrade : Request → Option Response

unfoldable pub verify_pin : Network → List ℕ → Result Error (Unit {0})
verify_pin net pin = elim net.certificates [
  | [] ↦ err no_certificate
  | spki ∷ _ ↦ check (bytes_eq (net.fingerprint spki) pin) pin_mismatch
]

-- `cfg.PinSHA256 != ""`
unfoldable pub check_pin : Network → List ℕ → Result Error (Unit {0})
unfolding verify_pin
check_pin net [] = ok tt
check_pin net (b ∷ bs) = verify_pin net (b ∷ bs)

module _ (p : Primitives) (k : Codec) where
  -- The cookies that the client sends.
  unfoldable pub upgrade_request : ClientConfig → List ℕ → ℕ → Keypair → ℤ → Request
  upgrade_request cfg sid chan eph ts = record {
    cookies =
        (cookie_eph, k.b64 eph.public)
        ∷ (cookie_ts, k.print_int ts)
        ∷ (cookie_auth, k.b64 (auth_token p cfg.psk eph.public ts cfg.server_static sid))
        ∷ (cookie_sid, k.b64 sid)
        ∷ (cookie_chan, k.print_int (pos chan))
        ∷ [];
    path = cfg.path;
  }

  -- What the client does with the answer.
  unfoldable pub client_conn : ClientConfig → List ℕ → ℕ → Keypair → Response → Result Error Conn
  client_conn cfg sid chan eph resp =
      or_fail (decode_key k resp.server_eph) server_key then λ srv_eph.
      or_fail (combine_dh p eph.private srv_eph eph.private cfg.server_static) low_order
      then λ shared.
          let keys = derive_session_keys p shared (channel_salt eph.public srv_eph sid chan) true in
          let pad =
            if (cfg.pad.burst_records == 0) && (cfg.pad.burst_max == 0)
            then default_pad
            else cfg.pad in
          elim (new_conn keys.tx_key keys.rx_key pad) [ err e ↦ err record_layer | ok c ↦ ok c ]

  unfoldable pub dial_channel :
      Network → ClientConfig → List ℕ → ℕ → Result Error (Conn × Assignment)
  unfolding check_pin upgrade_request client_conn
  dial_channel net cfg sid chan = check net.tcp tcp_dial then λ _.
      check net.tls tls_handshake then λ _. check_pin net cfg.pin_sha256 then λ _.
      or_fail (generate_keypair p net.random) key_generation then λ eph.
      or_fail (net.upgrade (upgrade_request cfg sid chan eph net.now)) upgrade_rejected then λ resp.
      client_conn cfg sid chan eph resp then λ c. ok (c, resp.assign)

  -- `srv` is the server's fresh key: its answer to the upgrade, and its end of the channel.
  unfoldable pub server_response : Keypair → Assignment → Response
  server_response srv assign = record { server_eph = k.b64 srv.public; assign = assign }

  unfoldable pub server_conn : HandlerConfig → Claims → ℕ → Keypair → Result Error Conn
  server_conn cfg c chan srv =
      or_fail (combine_dh p srv.private c.eph cfg.static.private c.eph) low_order then λ shared.
      let keys = derive_session_keys p shared (channel_salt c.eph srv.public c.sid chan) false in
      elim (new_conn keys.tx_key keys.rx_key cfg.pad) [
        | err e ↦ err record_layer
        | ok conn ↦ ok conn
      ]
