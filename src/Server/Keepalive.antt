-- ===== src/Server/Keepalive.antt =====
-- keepalive of internal/server/server.go (and of internal/client/client.go, which has the same
-- loop): one tick.
pub mod Recovery
use krot_vpn.Prelude.{ℕ, Bool, true, false}
use krot_vpn.Transport.Tunnel.{Tunnel, sent, tunnel_closed, panic, write_keepalive, close}

-- A round of keepalives; if it fails the tunnel is closed and the loop ends, which `true` says.
unfoldable pub keepalive_tick : (ℕ → Bool) → Tunnel → Tunnel × Bool
keepalive_tick writes t =
    let (t', outcome) = write_keepalive writes t in
    elim outcome [ sent c ↦ (t', false) | tunnel_closed ↦ (close t', true) | panic ↦ (t', true) ]
