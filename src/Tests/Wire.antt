-- ===== src/Tests/Wire.antt =====
-- Runs of the record layer, the streams, the replay filter and the channel.
use krot_vpn.Prelude.{
  ℕ, ◌+◌, ◌≤◌, ◌<◌, ◌≡◌, refl, ◌≢◌, ◌⊎◌, List, [], ◌∷◌, ◌++◌, arith, length, replicate, ok,
}
use krot_vpn.Prelude.Bytes.{put_uint}
use krot_vpn.Crypto.Stream
use krot_vpn.Crypto.Stream.{Stream, new_stream, advance, advances}
use krot_vpn.Crypto.Stream.Nonces
use krot_vpn.Crypto.Replay.{ReplayFilter}
use krot_vpn.Frame
use krot_vpn.Frame.{Sealer, Opener, default_pad, header_len, max_payload, pad_for, plain_record}
use krot_vpn.Frame.Bounds.{burst_bounds, length-seal-le}
use krot_vpn.Frame.RoundTrip.{unseal-seal_frame}
use krot_vpn.Transport.Conn.{Conn, read_loop, write_packet, write_keepalive, write_record}
use krot_vpn.Transport.Conn.Delivery.{Item, packet, keepalive, write_item, write_all, delivered}
use krot_vpn.Tests.Fixtures.{toy, toy-IsSound, still}

abbrev key : List ℕ
key = replicate 32 1

abbrev fresh : Stream
fresh = record { key = key; counter = 0; nonce = replicate 12 0 }

abbrev after_one : Stream
after_one = record { key = key; counter = 1; nonce = replicate 12 0 }

abbrev after_two : Stream
after_two = record { key = key; counter = 2; nonce = replicate 4 0 ++ put_uint 8 1 }

nonce_unique_example : after_one.nonce ≢ after_two.nonce
unfolding new_stream advances advance
nonce_unique_example =
    Nonces.nonce_unique key 0 1 {s = fresh} {a = after_one} {b = after_two} refl refl refl
      (λ e. omega (arith, e))

abbrev filter : ReplayFilter
filter = record { seen = []; ttl = 240; last_gc = 0 }

abbrev token : List ℕ
token = 1 ∷ 2 ∷ []

abbrev sealer : Sealer
sealer = record { aead = fresh; pad = default_pad; count = 0 }

abbrev opener : Opener
opener = record { aead = fresh }

abbrev small_pad : Sealer
small_pad = record {
  aead = fresh;
  pad = record { burst_records = 2; burst_min = 8; burst_max = 9; steady_max = 4 };
  count = 0;
}

abbrev sealed : List ℕ
sealed = plain_record still 1 (7 ∷ []) 4 ++ replicate 16 0

abbrev small_pad_next : Sealer
small_pad_next = record small_pad { aead = after_one; count = 1 }

unseal-seal_frame_example :
    Frame.unseal toy opener sealed ≡ (record { aead = after_one }, ok (1, 7 ∷ []))
unfolding Frame.seal pad_for Stream.seal advance
unseal-seal_frame_example =
    unseal-seal_frame toy small_pad opener still 1 (7 ∷ []) sealed {s' = small_pad_next} toy-IsSound
      refl refl

burst_bounds_example :
    let size = header_len + 40 + pad_for sealer still 40 in
    (900 ≤ size) × ((size ≡ header_len + 40) ⊎ (size ≡ 900) ⊎ (size < 1380))
burst_bounds_example = burst_bounds sealer still 40 (omega arith)

length-seal-le_example : length sealed ≤ max_payload + 2048
unfolding Frame.seal pad_for Stream.seal advance
length-seal-le_example =
    length-seal-le toy small_pad still 1 (7 ∷ []) sealed {s' = small_pad_next} toy-IsSound
      (omega arith) (omega arith) (omega arith) refl

abbrev ends : Conn
ends = record { sealer = small_pad; opener = opener }

abbrev items : List (Frame.Random × Item)
items = (still, packet (7 ∷ 8 ∷ [])) ∷ (still, keepalive) ∷ (still, packet (9 ∷ [])) ∷ []

delivered_example : read_loop toy 9 ends (write_all toy ends items).1 ≡ (7 ∷ 8 ∷ []) ∷ (9 ∷ []) ∷ []
unfolding write_all write_item write_packet write_keepalive write_record Frame.seal pad_for
    Stream.seal advance
delivered_example =
    delivered toy ends ends items 9 toy-IsSound refl (omega arith)
      (omega arith, (tt, (omega arith, tt))) (omega arith) (omega arith)
