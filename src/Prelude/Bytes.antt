-- ===== src/Prelude/Bytes.antt =====
-- encoding/binary: big-endian integers as lists of bytes.
use krot_vpn.Prelude.{
  ℕ, zero, suc, ◌+◌, ◌*◌, ◌/◌, ◌%◌, ◌^◌, ◌<◌, ◌≡◌, refl, ap, ◌↔◌, Bool, true, false, ◌&&◌, List, [],
  ◌∷◌, arith, length, ◌==◌,
}
use Prim.Native.Char.{code}
use Prim.Native.String.{String}
use native.Mathlib.Decide.{ℕ_discrete}

-- `PutUint` of `k` bytes: the highest byte first; what does not fit is cut off.
abbrev pub put_uint : ℕ → ℕ → List ℕ
put_uint zero v = []
put_uint (suc k) v = v / 256 ^ k % 256 ∷ put_uint k v

-- The loop of `Uint`: the bytes read so far are `acc`.
abbrev pub uint_from : ℕ → List ℕ → ℕ
uint_from acc [] = acc
uint_from acc (b ∷ bs) = uint_from (acc * 256 + b) bs

abbrev pub uint : List ℕ → ℕ
uint bs = uint_from 0 bs

pub length-put_uint : (k v : ℕ) → length (put_uint k v) ≡ k
length-put_uint zero v = refl
length-put_uint (suc k) v = ap suc (length-put_uint k v)

-- Each byte of a list is below 256.
abbrev pub IsBytes : List ℕ → Type 0
IsBytes [] = Unit {0}
IsBytes (b ∷ bs) = (b < 256) × IsBytes bs

pub put_uint-IsBytes : (k v : ℕ) → IsBytes (put_uint k v)
put_uint-IsBytes zero v = tt
put_uint-IsBytes (suc k) v = (omega arith, put_uint-IsBytes k v)

-- Two bytes suffice below 2^16, four below 2^32, eight below 2^64.
pub uint-put_uint_two : (v : ℕ) → v < 65536 → uint (put_uint 2 v) ≡ v
uint-put_uint_two v h = omega arith

pub uint-put_uint_four : (v : ℕ) → v < 2 ^ 32 → uint (put_uint 4 v) ≡ v
uint-put_uint_four v h = omega arith

pub uint-put_uint_eight : (v : ℕ) → v < 2 ^ 64 → uint (put_uint 8 v) ≡ v
uint-put_uint_eight v h = omega arith

-- The bytes of an ASCII text.
abbrev pub codes : String → List ℕ
codes (String.◌∷◌ first rest) = code first ∷ codes rest
codes String.[] = []

unfoldable pub bytes_discrete : Discrete (List ℕ)
bytes_discrete = hlevel ℕ_discrete

-- subtle.ConstantTimeCompare(a, b) == 1
abbrev pub bytes_eq : List ℕ → List ℕ → Bool
bytes_eq [] [] = true
bytes_eq [] (b ∷ bs) = false
bytes_eq (a ∷ as') [] = false
bytes_eq (a ∷ as') (b ∷ bs) = a == b && bytes_eq as' bs

pub bytes_eq_iff : (a b : List ℕ) → (bytes_eq a b ≡ true) ↔ (a ≡ b)
bytes_eq_iff [] [] = ground arith
bytes_eq_iff [] (b ∷ bs) = ground arith
bytes_eq_iff (a ∷ as') [] = ground arith
bytes_eq_iff (a ∷ as') (b ∷ bs) = ground (arith, bytes_eq_iff as' bs)
