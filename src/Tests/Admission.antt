-- ===== src/Tests/Admission.antt =====
-- Runs of the handshake: a dial with the server of the fixtures, and requests that come twice.
use krot_vpn.Prelude.{ℕ, ◌≡◌, refl, true, none, some, [], ◌∷◌, ◌++◌, arith, replicate, ok}
use krot_vpn.Prelude.Int.{ℤ, pos, negsuc}
use krot_vpn.Prelude.Maps.{find}
use krot_vpn.Crypto.Keys.{dh}
use krot_vpn.Crypto.Replay.{check, collect, sweep}
use krot_vpn.Frame.RoundTrip.{InStep}
use krot_vpn.Transport.Auth.{Request, Claims, check_auth}
use krot_vpn.Transport.Auth.Accepts.{InWindow, IsWellFormed, check_auth_sound}
use krot_vpn.Transport.Auth.Replays.{replay_rejected, replay_at_window_end, run}
use krot_vpn.Transport.Conn.{Conn}
use krot_vpn.Transport.Dial.{upgrade_request, client_conn, server_response, server_conn}
use krot_vpn.Transport.Dial.Agreement.{claims_of, dial_admitted, server_conn-InStep}
use krot_vpn.Transport.Handshake.{auth_token, combine_dh}
use krot_vpn.Transport.Handshake.Binding.{auth_parts-injective, channel_salt-injective}
use krot_vpn.Tests.Fixtures.{
  toy, toy-IsSound, plain, plain-IsFaithful, pair, server_config, client_config, session_id, auth,
  address,
}

abbrev claims : ℤ → Claims
claims ts = claims_of toy client_config session_id 1 (pair 20) ts

abbrev request : ℤ → Request
request ts = upgrade_request toy plain client_config session_id 1 (pair 20) ts

dial_admitted_example :
    (check_auth toy plain auth (1000, 1000) (request (pos 1100))).1 ≡ some (claims (pos 1100))
unfolding check collect find sweep
dial_admitted_example =
    dial_admitted toy plain toy-IsSound plain-IsFaithful auth (1000, 1000) client_config session_id
      1 (pair 20) (pos 1100) refl refl refl (omega arith) refl (omega arith, omega arith) refl

check_auth_sound_example :
    IsWellFormed (claims (pos 1100))
    × InWindow (pos 1100) 1000
    × ((claims (pos 1100)).token
        ≡ auth_token toy auth.cfg.psk (pair 20).public (pos 1100) auth.cfg.static.public session_id)
    × ((check auth.replay 1000 (claims (pos 1100)).token).1 ≡ true)
check_auth_sound_example =
    check_auth_sound toy plain auth (1000, 1000) (request (pos 1100)) {c = claims (pos 1100)}
      dial_admitted_example

replay_rejected_example :
    (check_auth toy plain
      (run toy plain
        (check_auth toy plain auth (1000, 1000) (request (pos 1100))).0
        (((1050, 1050), request (pos 1040)) ∷ []))
      (1200, 1201)
      (request (pos 1100))).1
    ≡ none
replay_rejected_example =
    replay_rejected toy plain auth 5 (1000, 1000) (1200, 1201) (request (pos 1100))
      (((1050, 1050), request (pos 1040)) ∷ []) (claims (pos 1100)) refl dial_admitted_example
      (omega arith, tt) (omega arith) (omega arith) (λ e. omega (arith, e.1))

dial_ahead_admitted :
    (check_auth toy plain auth (1000, 1000) (request (pos 1120))).1 ≡ some (claims (pos 1120))
unfolding check collect find sweep
dial_ahead_admitted =
    dial_admitted toy plain toy-IsSound plain-IsFaithful auth (1000, 1000) client_config session_id
      1 (pair 20) (pos 1120) refl refl refl (omega arith) refl (omega arith, omega arith) refl

replay_at_window_end_example :
    (check_auth toy plain
      (check_auth toy plain auth (1000, 1000) (request (pos 1120))).0
      (1240, 1240)
      (request (pos 1120))).1
    ≡ some (claims (pos 1120))
replay_at_window_end_example =
    replay_at_window_end toy plain auth (1000, 1000) (1240, 1240) (request (pos 1120))
      (claims (pos 1120)) refl dial_ahead_admitted refl (omega arith) (omega arith) (omega arith)

server_conn-InStep_example :
    (s : Conn) × (c : Conn) × (server_conn toy plain server_config (claims (pos 1100)) 1 (pair 30)
      ≡ ok s)
    × (client_conn toy plain client_config session_id 1
          (pair 20)
          (server_response toy plain (pair 30) address)
        ≡ ok c)
    × InStep c.sealer s.opener
    × InStep s.sealer c.opener
unfolding combine_dh dh
server_conn-InStep_example =
    server_conn-InStep toy plain toy-IsSound plain-IsFaithful client_config server_config session_id
      1 (pos 1100) (pair 20) (pair 30) address ((59 ∷ replicate 31 7) ++ (30 ∷ replicate 31 7)) refl
      refl refl refl refl

auth_parts-injective_example :
    ((pair 20).public ≡ (pair 20).public)
    × (negsuc 4 ≡ negsuc 4)
    × ((pair 1).public ≡ (pair 1).public)
    × (session_id ≡ session_id)
auth_parts-injective_example =
    auth_parts-injective (pair 20).public (pair 20).public (pair 1).public (pair 1).public
      session_id session_id (negsuc 4) (negsuc 4) refl refl refl refl (omega arith) (omega arith)
      refl

abbrev channel : ℕ
channel = 5

channel_salt-injective_example :
    ((pair 20).public ≡ (pair 20).public)
    × ((pair 30).public ≡ (pair 30).public)
    × (session_id ≡ session_id)
    × (channel ≡ channel)
channel_salt-injective_example =
    channel_salt-injective (pair 20).public (pair 20).public (pair 30).public (pair 30).public
      session_id session_id channel channel refl refl refl refl refl refl (omega arith)
      (omega arith) refl
