-- ===== src/Lib.antt =====
-- A model of the krotVPN daemons and of the properties that make them correct.
--
-- The program. A client (internal/client) and a server (internal/server) carry IP packets through
-- several parallel WebSocket connections, the channels of one bonded tunnel, that look like web traffic.
-- A channel begins with an HTTP upgrade: the client (internal/transport/client.go) sends an
-- ephemeral key, a timestamp, a session id, a channel index and an HMAC under a pre-shared key in
-- cookies; the server (internal/transport/server.go) checks them, joins the channel to the session
-- of its id or creates one with an address of its pool (internal/server/pool.go), and both derive
-- keys for a record layer (internal/frame over internal/crypto). Packets are spread over the channels
-- by a hash of their flow (internal/transport/tunnel.go), and the server routes the packets of its device
-- back by their destination (internal/server/server.go).
--
-- The files.
-- Crypto: internal/crypto/crypto.go. Primitives is the record of what the Go standard library and
-- golang.org/x/crypto provide, IsSound what their documentation promises: the round trip and the
-- overhead of the cipher, the equation of Diffie and Hellman, lengths. Crypto.Stream is AEADStream
-- (advance, Seal, Open as `unseal`), Crypto.Keys the key exchange and derivation, Crypto.Replay the
-- ReplayFilter, whose map is an association list and whose clock is in whole seconds.
-- Frame: internal/frame/frame.go. `seal` and `unseal` are Seal and Open; a Random stands for the
-- padding's randomness.
-- Transport.Handshake: internal/transport/handshake.go. Transport.Auth: checkAuth and NewHandler; the
-- text codecs are the parameter Codec, and the clock is read twice, by checkAuth and by the filter.
-- Transport.Dial: dialChannel and the server's half of the handshake; a Network holds what the
-- outside answers. Transport.Bond: Dial; the order in which the goroutines' results arrive and
-- readers of channels end is an argument.
-- Transport.Conn: internal/transport/conn.go, over a socket that is a list of messages and refuses
-- those above the read limit.
-- Transport.Tunnel: internal/transport/tunnel.go. A connection is a number, `closes` logs the calls
-- of its Close. Where a method gives up the lock in between, its parts are functions of their own
-- (`detach`, `close_conn`, `mark_dead`), which Transport.Tunnel.Lifecycle runs with others in between;
-- `mark_dead` itself is one step.
-- Transport.Flow: flowHash.
-- Server.Pool: internal/server/pool.go. Server.Router: register, unregister, dispatch and the ends of
-- handleConn of internal/server/server.go. Server.Sessions: ServeHTTP over the map of sessions, a
-- store of tunnels and the pool; the end of a session is two steps, off the map and the release, as
-- in the closure that its tunnel calls, so that requests come in between.
-- Server.Keepalive: one tick of keepalive, of internal/server/server.go and internal/client/client.go.
-- Socks: internal/socks/socks.go, the input and the output of the negotiation as bytes.
-- Config: internal/config/config.go; the file system, JSON and base64 are the parameter System.
-- Netif: internal/netif/netif_linux.go. Its System holds what the commands, the files and the TUN device
-- do; Netif.Laws and the records IsPolicyRouting, IsIptables and IsTun say what is relied on.
-- Netif.Routes is RouteState with the DNS, Netif.SourceRoute SrcRouteState, Netif.Nat NATState.
-- Client: Run of internal/client/client.go, with the host and what Run holds on it as a record; the
-- deferred calls are written out in the order in which they run.
-- Server.Start: New and Close of internal/server/server.go, Krotctl.ServerRun the serverRun around them.
-- Krotctl: cmd/krotctl. Krotctl.ClientUp and Krotctl.ServerUp write the configs that Config loads,
-- over the files and the systemd of the parameter Tools; Krotctl.Names has the names of an instance;
-- Krotctl.Uninstall is cmdUninstall; Krotctl.Wizard has the prompts over a buffered standard input,
-- Krotctl.ClientFlags and Krotctl.ServerDialogue the two dialogues with the flags that they build, the
-- first with their reading by Go's flag package.
-- Net: the dotted text of IPv4 addresses, as Go's fmt and net print and parse it. Prelude: shared
-- tests, lists, integers, bytes and maps. Tests: every theorem with hypotheses at a concrete input.
--
-- Numbers and fuel. A uint8, uint16, uint32 or uint64 is a native number with its wrap-around
-- written out where the code can reach it; the nonce counter is bounded by the guard of `advance`.
-- `read_loop` takes fuel, and the theorem on it holds for any fuel above the number of messages.
-- `write_loop` counts the four tries of the code. The prompts of Krotctl.Wizard take fuel, one unit for
-- a prompt; two more than there are line breaks left are enough where there is a default.
--
-- Not modelled: the driver of the TUN device, TLS and certificates, the decoy proxy, deadlines, the
-- capacity of the inbound queue, the relay of the SOCKS proxy, the pumps between the device and the
-- tunnel, the parsing of the other commands' flags, and what the tools only print.
pub mod Prelude
pub mod Client
pub mod Config
pub mod Crypto
pub mod Frame
pub mod Krotctl
pub mod Net
pub mod Netif
pub mod Server
pub mod Socks
pub mod Tests
pub mod Transport
