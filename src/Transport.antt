-- ===== src/Transport.antt =====
-- internal/transport: the handshake, the channels and the bonded tunnel.
pub mod Handshake
pub mod Dial
pub mod Flow
pub mod Tunnel
pub mod Auth
pub mod Bond
pub mod Conn
