-- ===== src/Crypto/Stream.antt =====
-- internal/crypto/crypto.go: AEADStream, one direction of a connection with counter nonces.
pub mod Nonces
use krot_vpn.Prelude.{
  ℕ, zero, suc, ◌+◌, ◌-◌, ◌^◌, none, some, List, ◌++◌, length, take, replicate, ◌==◌, if◌then◌else◌,
  Result, ok, err,
}
use krot_vpn.Prelude.Bytes.{put_uint}
use krot_vpn.Crypto.{Primitives}

pub data Error : Type 0 where
  bad_key counter_exhausted auth_failed : Error

-- The key stands for the cipher.AEAD made from it.
pub record Stream : Type 0 where
  pub key : List ℕ
  pub counter : ℕ
  pub nonce : List ℕ

abbrev pub max_u64 : ℕ
max_u64 = 2 ^ 64 - 1

-- NewAEADStream: chacha20poly1305.New refuses a key that is not of 32 bytes.
unfoldable pub new_stream : List ℕ → Result Error Stream
new_stream key =
    if length key == 32
    then ok (record { key = key; counter = 0; nonce = replicate 12 0 })
    else err bad_key

-- `PutUint64(s.nonce[4:], s.counter)`, then the increment, which the guard keeps from wrapping.
unfoldable pub advance : Stream → Result Error Stream
advance s =
    if s.counter == max_u64
    then err counter_exhausted
    else ok (record s { nonce = take 4 s.nonce ++ put_uint 8 s.counter; counter = s.counter + 1 })

module _ (p : Primitives) where
  unfoldable pub seal : Stream → List ℕ → Stream × Result Error (List ℕ)
  seal s plain = elim (advance s) [
    | err e ↦ (s, err e)
    | ok s' ↦ (s', ok (p.seal s'.key s'.nonce plain))
  ]

  -- A record that does not authenticate leaves the counter advanced.
  unfoldable pub unseal : Stream → List ℕ → Stream × Result Error (List ℕ)
  unseal s ct = elim (advance s) [
    | err e ↦ (s, err e)
    | ok s' ↦ elim (p.unseal s'.key s'.nonce ct) [
      | none ↦ (s', err auth_failed)
      | some plain ↦ (s', ok plain)
    ]
  ]

-- `k` records sent over a stream, one after another.
unfoldable pub advances : ℕ → Stream → Result Error Stream
advances zero s = ok s
advances (suc k) s = elim (advances k s) [ err e ↦ err e | ok t ↦ advance t ]
