-- ===== src/Transport/Conn.antt =====
-- internal/transport/conn.go: one channel. The WebSocket is a message queue: whether it takes a
-- message is the argument `takes`, and the end of the incoming messages is a read error (a closed
-- socket or the deadline).
pub mod Delivery
use krot_vpn.Prelude.{
  ℕ, zero, suc, ◌+◌, Bool, List, [], ◌∷◌, length, ltb, ◌==◌, if◌then◌else◌, Result, ok, err,
}
use krot_vpn.Crypto.{Primitives}
use krot_vpn.Crypto.Stream
use krot_vpn.Frame
use krot_vpn.Frame.{PadPolicy, Random, Sealer, Opener, type_data, type_pad, new_sealer, new_opener}

pub data Error : Type 0 where
  record_layer : Frame.Error → Error
  socket : Error

pub record Conn : Type 0 where
  pub sealer : Sealer
  pub opener : Opener

unfoldable pub new_conn : List ℕ → List ℕ → PadPolicy → Result Stream.Error Conn
new_conn seal_key open_key pad = elim (new_sealer seal_key pad) [
  | err e ↦ err e
  | ok s ↦ elim (new_opener open_key) [
    | err e ↦ err e
    | ok o ↦ ok (record { sealer = s; opener = o })
  ]
]

-- `SetReadLimit`: a longer message makes ReadMessage fail.
abbrev pub read_limit : ℕ
read_limit = Frame.max_payload + 2048

module _ (p : Primitives) where
  -- Seal, then write, both under the lock; the message that went out.
  unfoldable pub write_record : Conn → Random → Bool → ℕ → List ℕ → Conn × Result Error (List ℕ)
  write_record c r takes typ payload =
      let (s, sealed) = Frame.seal p c.sealer r typ payload in
      (
        record c { sealer = s },
        elim sealed [ err e ↦ err (record_layer e) | ok ct ↦ if takes then ok ct else err socket ],
      )

  unfoldable pub write_packet : Conn → Random → Bool → List ℕ → Conn × Result Error (List ℕ)
  unfolding write_record
  write_packet c r takes packet = write_record c r takes type_data packet

  unfoldable pub write_keepalive : Conn → Random → Bool → Conn × Result Error (List ℕ)
  unfolding write_record
  write_keepalive c r takes = write_record c r takes type_pad []

  -- The loop reads messages until one is no padding. The result: the channel, what is left to
  -- read, and the packet.
  unfoldable pub read_packet : Conn → List (List ℕ) → Conn × List (List ℕ) × Result Error (List ℕ)
  read_packet c [] = (c, [], err socket)
  read_packet c (ct ∷ wire) =
      let (o, opened) = Frame.unseal p c.opener ct in
      let c' : Conn = record c { opener = o } in
      let next = read_packet c' wire in
      let got : Conn × List (List ℕ) × Result Error (List ℕ) = elim opened [
        | err e ↦ (c', wire, err (record_layer e))
        | ok (typ, payload) ↦ if typ == type_pad then next else (c', wire, ok payload)
      ] in
      if ltb read_limit (length ct) then (c, wire, err socket) else got

  -- The loop of `readLoop` in tunnel.go: the packets that reach the tunnel until a read fails.
  unfoldable pub read_loop : ℕ → Conn → List (List ℕ) → List (List ℕ)
  read_loop zero c wire = []
  read_loop (suc fuel) c wire =
      let (c', rest, got) = read_packet c wire in
      elim got [ err e ↦ [] | ok packet ↦ packet ∷ read_loop fuel c' rest ]
