-- ===== src/Server.antt =====
-- internal/server: the address pool and the server that dispatches packets.
pub mod Keepalive
pub mod Pool
pub mod Router
pub mod Sessions
pub mod Start
