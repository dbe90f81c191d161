-- ===== src/Transport/Handshake.antt =====
-- internal/transport/handshake.go and the constants of internal/transport/wire.go.
pub mod Agreement
pub mod Binding
use krot_vpn.Prelude.{◌>>=◌, ℕ, ◌-◌, ◌%◌, ◌^◌, Option, some, List, [], ◌∷◌, ◌++◌}
use krot_vpn.Prelude.Bytes.{put_uint}
use krot_vpn.Prelude.Int.{ℤ, pos, negsuc}
use krot_vpn.Crypto.{Primitives}
use krot_vpn.Crypto.Keys.{dh, hmac}

abbrev pub max_channels_per_session : ℕ
max_channels_per_session = 16

-- Go's `uint64(ts)` of an int64: two's complement.
abbrev pub to_u64 : ℤ → ℕ
to_u64 (pos n) = n % 2 ^ 64
to_u64 (negsuc n) = 2 ^ 64 - 1 - n % 2 ^ 64

-- What `authToken` writes into the HMAC, in order.
abbrev pub auth_parts : List ℕ → ℤ → List ℕ → List ℕ → List (List ℕ)
auth_parts eph_pub ts server_static sid =
    eph_pub ∷ put_uint 8 (to_u64 ts) ∷ server_static ∷ sid ∷ []

-- `PutUint32(ci[:], uint32(chanIdx))` behind both ephemeral keys and the session id.
unfoldable pub channel_salt : List ℕ → List ℕ → List ℕ → ℕ → List ℕ
channel_salt client_eph server_eph sid chan_idx =
    client_eph ++ (server_eph ++ (sid ++ put_uint 4 (chan_idx % 2 ^ 32)))

module _ (p : Primitives) where
  unfoldable pub auth_token : List ℕ → List ℕ → ℤ → List ℕ → List ℕ → List ℕ
  auth_token psk eph_pub ts server_static sid = hmac p psk (auth_parts eph_pub ts server_static sid)

  unfoldable pub combine_dh : List ℕ → List ℕ → List ℕ → List ℕ → Option (List ℕ)
  combine_dh priv1 pub1 priv2 pub2 = do
    ss1 ← dh p priv1 pub1
    ss2 ← dh p priv2 pub2
    some (ss1 ++ ss2)
