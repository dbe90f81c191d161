-- ===== src/Transport/Conn/Delivery.antt =====
-- One direction of a channel delivers the packets that were written, in order.
use krot_vpn.Prelude.{
  ℕ, zero, suc, ◌+◌, ◌≤◌, ◌<◌, ◌≡◌, refl, ◌∙◌, true, List, [], ◌∷◌, ◌++◌, map, arith, length, All,
  ltb, ◌==◌, if◌then◌else◌, Result, ok, err,
}
use krot_vpn.Crypto.{Primitives, IsSound}
use krot_vpn.Crypto.Stream.{max_u64}
use krot_vpn.Frame
use krot_vpn.Frame.{PadPolicy, Random, Sealer, Opener, type_data, type_pad, max_payload}
use krot_vpn.Frame.Bounds.{length-seal-le}
use krot_vpn.Frame.RoundTrip.{InStep, unseal-seal_frame, seal_total}
use krot_vpn.Transport.Conn.{
  Conn, Error, write_record, write_packet, write_keepalive, read_packet, read_loop, read_limit,
}

-- What the callers of a channel write.
pub data Item : Type 0 where
  packet : List ℕ → Item
  keepalive : Item

abbrev pub packets : List Item → List (List ℕ)
packets [] = []
packets (packet d ∷ items) = d ∷ packets items
packets (keepalive ∷ items) = packets items

abbrev pub Fits : Item → Type 0
Fits (packet d) = length d ≤ max_payload
Fits keepalive = Unit {0}

-- A padding policy whose records stay within the read limit.
pub record IsModest (pad : PadPolicy) : Type 0 where
  pub burst_min : pad.burst_min ≤ 11032
  pub burst_max : pad.burst_max ≤ 11033
  pub steady_max : pad.steady_max ≤ 2030

seal-pad :
    (p : Primitives) (s : Sealer) (r : Random) (typ : ℕ) (payload : List ℕ) {ct : List ℕ}
    {s' : Sealer}
    → Frame.seal p s r typ payload ≡ (s', ok ct)
    → s'.pad ≡ s.pad
unfolding Frame.seal
seal-pad p s r typ payload h = ground (arith, h)

abbrev pub emit : Result Error (List ℕ) → List (List ℕ) → List (List ℕ)
emit (ok ct) wire = ct ∷ wire
emit (err e) wire = wire

packets-cons :
    (item : Item) (items : List Item)
    → packets (item ∷ []) ++ packets items ≡ packets (item ∷ items)
packets-cons (packet d) items = refl
packets-cons keepalive items = refl

module _ (p : Primitives) where
  unfoldable pub write_item : Conn → Random → Item → Conn × Result Error (List ℕ)
  write_item c r (packet d) = write_packet p c r true d
  write_item c r keepalive = write_keepalive p c r true

  -- The calls in turn, on a socket that takes them: the messages on the wire.
  unfoldable pub write_all : Conn → List (Random × Item) → Conn × List (List ℕ)
  write_all c [] = (c, [])
  write_all c ((r, item) ∷ items) =
      let (c', sent) = write_item c r item in
      let (c'', wire) = write_all c' items in (c'', emit sent wire)

  -- The reader by recursion on the wire.
  receive : Conn → List (List ℕ) → List (List ℕ)
  receive c [] = []
  receive c (ct ∷ wire) =
      let (o, opened) = Frame.unseal p c.opener ct in
      let rest = receive (record c { opener = o }) wire in
      let got : List (List ℕ) = elim opened [
        | err e ↦ []
        | ok (typ, payload) ↦ if typ == type_pad then rest else payload ∷ rest
      ] in
      if ltb read_limit (length ct) then [] else got

  read_loop-receive :
      (wire : List (List ℕ)) (fuel : ℕ) (c : Conn)
      → length wire < fuel
      → read_loop p fuel c wire ≡ receive c wire
  unfolding read_loop read_packet receive
  read_loop-receive wire zero c h = absurd (omega arith)
  read_loop-receive [] (suc fuel) c h = refl
  read_loop-receive (ct ∷ wire) (suc fuel) c h =
      let c' : Conn = record c { opener = (Frame.unseal p c.opener ct).0 } in
      ground (arith, read_loop-receive wire (suc fuel) c', read_loop-receive wire fuel c')

  receive_step :
      (d : Conn) (ct : List ℕ) (wire : List (List ℕ)) {o : Opener} {typ : ℕ} {payload : List ℕ}
      → Frame.unseal p d.opener ct ≡ (o, ok (typ, payload))
      → length ct ≤ read_limit
      → receive d (ct ∷ wire) ≡ (
          if typ == type_pad
          then receive (record d { opener = o }) wire
          else payload ∷ receive (record d { opener = o }) wire)
  unfolding receive
  receive_step d ct wire h short = ground (arith, h, short)

  -- A write on a channel with room in its counter goes out, and the peer reads it.
  write_item-receive :
      (c d : Conn) (r : Random) (item : Item)
      → IsSound p
      → InStep c.sealer d.opener
      → IsModest c.sealer.pad
      → Fits item
      → c.sealer.aead.counter < max_u64
      → (c' : Conn) × (ct : List ℕ) × (d' : Conn) × (write_item c r item ≡ (c', ok ct))
        × InStep c'.sealer d'.opener
        × (c'.sealer.aead.counter ≡ c.sealer.aead.counter + 1)
        × (c'.sealer.pad ≡ c.sealer.pad)
        × ((wire : List (List ℕ)) → receive d (ct ∷ wire) ≡ packets (item ∷ []) ++ receive d' wire)
  unfolding write_item write_packet write_keepalive write_record receive
  write_item-receive c d r (packet m) sound step modest fits room =
      let (s, ct, sent, counted) = seal_total p c.sealer r type_data m fits room in
      let opened = unseal-seal_frame p c.sealer d.opener r type_data m ct sound step sent in
      let short =
        length-seal-le p c.sealer r type_data m ct sound modest.burst_min modest.burst_max
          modest.steady_max sent in
      (
        record c { sealer = s },
        ct,
        record d { opener = record { aead = s.aead } },
        rw sent refl,
        refl,
        counted,
        seal-pad p c.sealer r type_data m sent,
        λ wire. receive_step d ct wire opened short,
      )
  write_item-receive c d r keepalive sound step modest fits room =
      let (s, ct, sent, counted) = seal_total p c.sealer r type_pad [] (omega arith) room in
      let opened = unseal-seal_frame p c.sealer d.opener r type_pad [] ct sound step sent in
      let short =
        length-seal-le p c.sealer r type_pad [] ct sound modest.burst_min modest.burst_max
          modest.steady_max sent in
      (
        record c { sealer = s },
        ct,
        record d { opener = record { aead = s.aead } },
        rw sent refl,
        refl,
        counted,
        seal-pad p c.sealer r type_pad [] sent,
        λ wire. receive_step d ct wire opened short,
      )

  write_all-receive :
      (items : List (Random × Item)) (c d : Conn)
      → IsSound p
      → InStep c.sealer d.opener
      → IsModest c.sealer.pad
      → All (λ i. Fits i.1) items
      → c.sealer.aead.counter + length items ≤ max_u64
      → receive d (write_all c items).1 ≡ packets (map (λ i. i.1) items)
  unfolding write_all receive
  write_all-receive [] c d sound step modest fits room = refl
  write_all-receive ((r, item) ∷ items) c d sound step modest fits room =
      let (c', ct, d', sent, step', counted, same_pad, read) =
        write_item-receive c d r item sound step modest fits.0 (omega arith) in
      rw
        (
          sent,
          read (write_all c' items).1,
          write_all-receive items c' d' sound step' (rw same_pad modest) fits.1 (omega arith),
        )
        (packets-cons item (map (λ i. i.1) items))

  -- The packets and keepalives that are written on one end, in any mixture, on a socket that takes
  -- them all, reach the other end's read loop as exactly the packets in their order, if the
  -- primitives are sound, the ends start in step, each packet fits a record, the nonce counter has
  -- room, the padding policy keeps every record within the read limit (`BurstMin` at most 11032,
  -- `BurstMax` at most 11033, `SteadyMax` at most 2030), and the fuel of the loop is above the
  -- number of messages.
  pub delivered :
      (c d : Conn) (items : List (Random × Item)) (fuel : ℕ)
      → IsSound p
      → InStep c.sealer d.opener
      → IsModest c.sealer.pad
      → All (λ i. Fits i.1) items
      → c.sealer.aead.counter + length items ≤ max_u64
      → length (write_all c items).1 < fuel
      → read_loop p fuel d (write_all c items).1 ≡ packets (map (λ i. i.1) items)
  delivered c d items fuel sound step modest fits room enough =
      read_loop-receive (write_all c items).1 fuel d enough
      ∙ write_all-receive items c d sound step modest fits room
