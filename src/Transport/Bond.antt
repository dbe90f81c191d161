-- ===== src/Transport/Bond.antt =====
-- internal/transport/client.go: Dial, the channels of a bonded tunnel. The connection of channel
-- `idx` is the number `idx`; the goroutines' results, and the ends of the readers that are running
-- already, come in an order that is an argument.
pub mod Channels
use krot_vpn.Prelude.{
  ℕ, Bool, true, false, Option, List, [], ◌∷◌, ltb, if◌then◌else◌, Result, ok, err,
}
use krot_vpn.Prelude.{or_fail, ◌then◌}
use krot_vpn.Prelude.Int.{ℤ, pos, ltb_ℤ, pos_part}
use krot_vpn.Crypto.{Primitives}
use krot_vpn.Transport.Auth.{Codec}
use krot_vpn.Transport.Dial.{Assignment, ClientConfig, Error, key_generation, Network, dial_channel}
use krot_vpn.Transport.Handshake.{max_channels_per_session}
use krot_vpn.Transport.Tunnel.{Tunnel, new_tunnel, add_channel, remove_channel}

-- The number of channels to open: `cfg.Channels`, at least one and at most the cap.
unfoldable pub bond_size : ℤ → ℕ
bond_size channels =
    let n = if ltb_ℤ channels (pos 1) then pos 1 else channels in
    pos_part (if ltb_ℤ (pos max_channels_per_session) n then pos max_channels_per_session else n)

abbrev pub is_ok : {E A : Type 0} → Result E A → Bool
is_ok (ok a) = true
is_ok (err e) = false

-- What happens to the tunnel while Dial waits for the goroutines: the result of an index is
-- received, or the reader of a channel, which addChannel has started, ends and calls
-- `removeChannel`. What readers deliver is for later.
pub data Event : Type 0 where
  arrives breaks : ℕ → Event

-- The loop that receives: `dialled` says of an index whether its dial worked.
unfoldable pub gather : (ℕ → Bool) → List Event → Tunnel → Tunnel
gather dialled [] t = t
gather dialled (arrives idx ∷ rest) t =
    gather dialled rest (if dialled idx then add_channel idx idx t else t)
gather dialled (breaks idx ∷ rest) t = gather dialled rest (remove_channel idx t)

module _ (p : Primitives) (k : Codec) where
  -- `nets`: what the dial of each channel meets; `random`: the session id that rand.Read gives;
  -- `events`: what happens after channel 0 was added, in its order.
  unfoldable pub dial :
      (ℕ → Network)
      → ClientConfig
      → Option (List ℕ)
      → List Event
      → Result Error (Tunnel × Assignment)
  unfolding gather bond_size
  dial nets cfg random events = or_fail random key_generation then λ sid.
      dial_channel p k (nets 0) cfg sid 0 then λ (c0, assign).
      let t = add_channel 0 0 new_tunnel in
      ok (
        if ltb 1 (bond_size cfg.channels)
            then gather (λ idx. is_ok (dial_channel p k (nets idx) cfg sid idx)) events t
            else t,
        assign,
      )
