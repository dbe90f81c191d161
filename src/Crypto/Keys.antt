-- ===== src/Crypto/Keys.antt =====
-- internal/crypto/crypto.go: keypairs, key agreement, key derivation, HMAC.
use krot_vpn.Prelude.{◌>>=◌, ℕ, Bool, Option, none, some, List, replicate, if◌then◌else◌}
use mathlib.Core.List.{flatten}
use krot_vpn.Prelude.Bytes.{codes, bytes_eq}
use krot_vpn.Crypto.{Primitives}

pub record Keypair : Type 0 where
  pub private : List ℕ
  pub public : List ℕ

pub record SessionKeys : Type 0 where
  pub tx_key : List ℕ
  pub rx_key : List ℕ

abbrev pub key_size : ℕ
key_size = 32

abbrev pub info_client_to_server : List ℕ
info_client_to_server = codes "mirage v1 c2s"

abbrev pub info_server_to_client : List ℕ
info_server_to_client = codes "mirage v1 s2c"

module _ (p : Primitives) where
  -- `random` is what the system's source of randomness gives, `none` if it fails.
  unfoldable pub generate_keypair : Option (List ℕ) → Option Keypair
  generate_keypair random = do
    private ← random
    public ← p.x25519 private p.basepoint
    some (record { private = private; public = public })

  unfoldable pub public_from_private : List ℕ → Option (List ℕ)
  public_from_private private = p.x25519 private p.basepoint

  -- An all-zero secret comes from a low-order point, and is refused.
  unfoldable pub dh : List ℕ → List ℕ → Option (List ℕ)
  dh private peer = do
    s ← p.x25519 private peer
    if bytes_eq s (replicate key_size 0) then none else some s

  unfoldable pub derive_session_keys : List ℕ → List ℕ → Bool → SessionKeys
  derive_session_keys shared salt is_client =
      let c2s = p.hkdf shared salt info_client_to_server key_size in
      let s2c = p.hkdf shared salt info_server_to_client key_size in
      if is_client
      then record { tx_key = c2s; rx_key = s2c }
      else record { tx_key = s2c; rx_key = c2s }

  -- `mac.Write` of each part in turn.
  unfoldable pub hmac : List ℕ → List (List ℕ) → List ℕ
  hmac key parts = p.hmac key (flatten parts)
