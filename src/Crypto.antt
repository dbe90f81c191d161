-- ===== src/Crypto.antt =====
-- internal/crypto/crypto.go: the primitives that the Go standard library and golang.org/x/crypto
-- provide, and the code of the package on top of them, in the modules below.
pub mod Stream
pub mod Keys
pub mod Replay
use krot_vpn.Prelude.{ℕ, ◌+◌, ◌≡◌, List, Option, some, length}

-- A key, a nonce, a text: bytes. The operations are those that the package calls.
pub record Primitives : Type 0 where
  -- chacha20poly1305: `Seal(nil, nonce, plaintext, nil)` and `Open(nil, nonce, ciphertext, nil)`.
  pub seal : List ℕ → List ℕ → List ℕ → List ℕ
  pub unseal : List ℕ → List ℕ → List ℕ → Option (List ℕ)
  -- curve25519.X25519: `none` is its error.
  pub x25519 : List ℕ → List ℕ → Option (List ℕ)
  pub basepoint : List ℕ
  -- hkdf.New(sha256.New, secret, salt, info) read for n bytes.
  pub hkdf : List ℕ → List ℕ → List ℕ → ℕ → List ℕ
  -- HMAC-SHA256 of the bytes written.
  pub hmac : List ℕ → List ℕ → List ℕ

-- What the documentation of these packages promises.
pub record IsSound (p : Primitives) : Type 0 where
  pub unseal-seal : (k n t : List ℕ) → p.unseal k n (p.seal k n t) ≡ some t
  -- The overhead is the 16 bytes of the Poly1305 tag.
  pub length-seal : (k n t : List ℕ) → length (p.seal k n t) ≡ length t + 16
  -- Diffie and Hellman's equation.
  pub x25519_comm :
      (a b pa pb : List ℕ)
      → p.x25519 a p.basepoint ≡ some pa
      → p.x25519 b p.basepoint ≡ some pb
      → p.x25519 a pb ≡ p.x25519 b pa
  pub length-x25519 : (a b s : List ℕ) → p.x25519 a b ≡ some s → length s ≡ 32
  pub length-hkdf : (s t i : List ℕ) (n : ℕ) → length (p.hkdf s t i n) ≡ n
  pub length-hmac : (k t : List ℕ) → length (p.hmac k t) ≡ 32
