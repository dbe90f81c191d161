-- ===== src/Transport/Handshake/Agreement.antt =====
-- Both ends of a handshake derive the same keys.
use krot_vpn.Prelude.{ℕ, ◌≡◌, refl, true, false, Option, some, List, arith}
use krot_vpn.Crypto.{Primitives, IsSound}
use krot_vpn.Crypto.Keys.{Keypair, dh, generate_keypair, derive_session_keys}
use krot_vpn.Transport.Handshake.{combine_dh}

-- A key pair as `GenerateKeypair` makes it.
abbrev pub IsPair : Primitives → Keypair → Type 0
IsPair p k = p.x25519 k.private p.basepoint ≡ some k.public

pub generate_keypair-IsPair :
    (p : Primitives) (random : Option (List ℕ)) {k : Keypair}
    → generate_keypair p random ≡ some k
    → IsPair p k
unfolding generate_keypair
generate_keypair-IsPair p random h = ground arith

module _ (p : Primitives) (sound : IsSound p) where
  pub dh_comm :
      (a b : Keypair) → IsPair p a → IsPair p b → dh p a.private b.public ≡ dh p b.private a.public
  unfolding dh
  dh_comm a b ha hb = rw (sound.x25519_comm a.private b.private a.public b.public ha hb)

  -- With sound primitives and key pairs as GenerateKeypair makes them: the client mixes its
  -- ephemeral key with the server's ephemeral and static keys, the server its ephemeral and
  -- static keys with the client's ephemeral key, and the two get the same secret, or both
  -- refuse.
  pub combine_dh_agree :
      (client server static : Keypair)
      → IsPair p client
      → IsPair p server
      → IsPair p static
      → combine_dh p client.private server.public client.private static.public
        ≡ combine_dh p server.private client.public static.private client.public
  unfolding combine_dh
  combine_dh_agree client server static hc hs ht =
      rw (dh_comm client server hc hs, dh_comm client static hc ht)

-- The directions cross: what one end sends with is what the other receives with.
pub derive_session_keys_cross :
    (p : Primitives) (shared salt : List ℕ)
    → let c = derive_session_keys p shared salt true in
      let s = derive_session_keys p shared salt false in
      (c.tx_key ≡ s.rx_key) × (c.rx_key ≡ s.tx_key)
unfolding derive_session_keys
derive_session_keys_cross p shared salt = (refl, refl)
