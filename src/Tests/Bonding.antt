-- ===== src/Tests/Bonding.antt =====
-- Runs of the bonded tunnel, its lifecycle and the flow hash.
use krot_vpn.Prelude.{
  ℕ, ◌%◌, ◌≤◌, ◌<◌, ◌≡◌, refl, ◌≢◌, Bool, true, false, not, ◌&&◌, none, some, [], ◌∷◌, arith,
  length, get_elem?, replicate, ltb, ◌==◌, if◌then◌else◌, ok,
}
use native.Mathlib.Decide.{ℕ_discrete}
use krot_vpn.Prelude.Counts.{count}
use krot_vpn.Prelude.Int.{pos}
use krot_vpn.Prelude.Maps.{find, delete, assign}
use krot_vpn.Crypto.Keys.{generate_keypair, dh, derive_session_keys}
use krot_vpn.Crypto.Stream.{new_stream}
use krot_vpn.Frame.{new_sealer, new_opener}
use krot_vpn.Server.Keepalive.{keepalive_tick}
use krot_vpn.Server.Keepalive.Recovery.{empty_torn_down}
use krot_vpn.Transport.Auth.{decode_key}
use krot_vpn.Transport.Bond.{arrives, breaks, bond_size, is_ok, gather, dial}
use krot_vpn.Transport.Bond.Channels.{dial_channels}
use krot_vpn.Transport.Conn.{Conn, new_conn}
use krot_vpn.Transport.Dial.{
  Network, dial_channel, upgrade_request, client_conn, server_response, check_pin,
}
use krot_vpn.Transport.Flow.{flow_hash}
use krot_vpn.Transport.Flow.Pinning.{Datagram, encode, flow_of, fnv_1a, flow_hash-encode}
use krot_vpn.Transport.Handshake.{max_channels_per_session, combine_dh, channel_salt}
use krot_vpn.Transport.Tunnel.{
  read_packet, blocks, Tunnel, sent, new_tunnel, add_channel, remove_channel, write_packet,
}
use krot_vpn.Transport.Tunnel.Lifecycle
use krot_vpn.Transport.Tunnel.Lifecycle.{
  attaches, detaches, closes, dies, late_channel_closed, late_channel_survives,
  reattached_loses_new,
}
use krot_vpn.Transport.Tunnel.Validity.{IsValid, new_tunnel-IsValid, add_channel-IsValid}
use krot_vpn.Transport.Tunnel.Writes.{write_packet-Ends, write_packet-pinned, Ends}
use krot_vpn.Tests.Fixtures.{toy, plain, pair, client_config, session_id, address}

-- A tunnel with channel 0 on connection 10 and channel 1 on connection 11, and one with channel 0
-- alone.
abbrev one : Tunnel
one = add_channel 0 10 new_tunnel

abbrev two : Tunnel
two = add_channel 1 11 one

one-IsValid : IsValid one
unfolding find
one-IsValid = add_channel-IsValid 0 10 new_tunnel refl new_tunnel-IsValid

two-IsValid : IsValid two
unfolding add_channel find delete assign ℕ_discrete
two-IsValid = add_channel-IsValid 1 11 one refl one-IsValid

-- Connection 10 is broken.
abbrev takes : ℕ → Bool
takes c = not (c == 10)

write_packet-Ends_example :
    IsValid (write_packet takes 4 two).0 × Ends takes 4 two (write_packet takes 4 two)
write_packet-Ends_example = write_packet-Ends takes 4 two two-IsValid

write_packet-pinned_example :
    (idx : ℕ) × (c : ℕ) × (get_elem? two.order (5 % length two.order) ≡ some idx)
    × (find ℕ_discrete idx two.channels ≡ some c)
    × (write_packet (λ c. true) 5 two ≡ (two, sent c))
unfolding add_channel
write_packet-pinned_example =
    write_packet-pinned (λ c. true) 5 two two-IsValid (omega arith) (λ e. cc) (λ c. refl)

late_channel_closed_example :
    let u = add_channel 1 11 (remove_channel 0 one) in
    (u.dead ≡ true) × (u.channels ≡ []) × (u.closes ≡ 11 ∷ 10 ∷ []) × (u.empties ≡ 1)
unfolding add_channel find assign delete ℕ_discrete
late_channel_closed_example = late_channel_closed 0 10 1 11 one one-IsValid refl refl refl

late_channel_survives_example :
    let u = Lifecycle.run one (detaches 0 ∷ attaches 1 11 ∷ closes 10 ∷ dies ∷ []) in
    (u.dead ≡ true)
    × (find ℕ_discrete 1 u.channels ≡ some 11)
    × (u.closes ≡ 10 ∷ one.closes)
    × (u.empties ≡ 1)
unfolding add_channel find delete assign ℕ_discrete
late_channel_survives_example = late_channel_survives 0 10 1 11 one one-IsValid refl refl refl

reattached_loses_new_example :
    let u = add_channel 0 12 one in
    let w = remove_channel 0 u in
    (find ℕ_discrete 0 u.channels ≡ some 12)
    × (u.closes ≡ one.closes)
    × (w.closes ≡ 12 ∷ one.closes)
    × (find ℕ_discrete 0 w.channels ≡ none)
unfolding add_channel find delete assign ℕ_discrete
reattached_loses_new_example = reattached_loses_new 0 10 12 one refl refl refl

-- The answer of a server whose fresh key is `pair 30`; channel 1 meets no server.
abbrev network : ℕ → Network
network idx = record {
  tcp = idx == 0;
  tls = true;
  certificates = [];
  fingerprint = λ spki. spki;
  random = some (20 ∷ replicate 31 0);
  now = pos 1000;
  upgrade = λ r. some (server_response toy plain (pair 30) address);
}

abbrev bonded : Tunnel
bonded = add_channel 0 0 new_tunnel

once :
    (j : ℕ)
    → count j (1 ∷ []) ≡ (if ltb 0 j && ltb j (bond_size client_config.channels) then 1 else 0)
unfolding bond_size
once j = ground arith

dial_channels_example :
    (0 < bond_size client_config.channels)
    × (bond_size client_config.channels ≤ max_channels_per_session)
    × ((c : Conn) × (dial_channel toy plain (network 0) client_config session_id 0
          ≡ ok (c, address)))
    × (bonded.closed ≡ false)
    × (find ℕ_discrete 1 bonded.channels ≡ (
        if ltb 1 (bond_size client_config.channels)
          && is_ok (dial_channel toy plain (network 1) client_config session_id 1)
        then some 1
        else none))
unfolding dial dial_channel check_pin upgrade_request client_conn generate_keypair combine_dh dh
    derive_session_keys new_conn new_sealer new_opener new_stream decode_key channel_salt
    server_response gather bond_size add_channel remove_channel find assign delete ℕ_discrete
dial_channels_example =
    dial_channels toy plain network client_config session_id (arrives 1 ∷ breaks 2 ∷ []) 1
      {t = bonded} {a = address} once refl refl refl

-- UDP from 10.0.0.2:1 to 10.0.0.3:2, with a word of options.
abbrev datagram : Datagram
datagram = record {
  tos = 0;
  size = 33;
  ident = 7;
  flags = 2;
  offset = 0;
  ttl = 64;
  proto = 17;
  sum = 0;
  src = 10 ∷ 0 ∷ 0 ∷ 2 ∷ [];
  dst = 10 ∷ 0 ∷ 0 ∷ 3 ∷ [];
  words = 1;
  options = 1 ∷ 1 ∷ 1 ∷ 0 ∷ [];
  payload = 0 ∷ 1 ∷ 0 ∷ 2 ∷ 0 ∷ 9 ∷ 0 ∷ 0 ∷ 5 ∷ [];
}

flow_hash-encode_example : flow_hash (encode datagram) ≡ fnv_1a (flow_of datagram)
flow_hash-encode_example = flow_hash-encode datagram (omega arith)

empty_torn_down_example :
    let (u, stops) = keepalive_tick takes new_tunnel in
    (stops ≡ true) × IsValid u × (u.dead ≡ true) × (u.empties ≡ 1) × ((read_packet u).1 ≢ blocks)
empty_torn_down_example = empty_torn_down takes new_tunnel new_tunnel-IsValid refl refl
