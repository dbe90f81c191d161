-- ===== src/Transport/Handshake/Binding.antt =====
-- What the authentication token and the channel salt bind.
use krot_vpn.Prelude.{ℕ, ◌^◌, ◌<◌, ◌≡◌, refl, sym, ap, ◌∙◌, List, arith, length, append-injective}
use mathlib.Core.List.{flatten, append-nil}
use krot_vpn.Prelude.Bytes.{put_uint, uint, uint-put_uint_four, uint-put_uint_eight}
use krot_vpn.Prelude.Int.{ℤ, pos, negsuc}
use krot_vpn.Transport.Handshake.{auth_parts, to_u64, channel_salt}

-- The range of an int64.
abbrev pub IsInt64 : ℤ → Type 0
IsInt64 (pos n) = n < 2 ^ 63
IsInt64 (negsuc n) = n < 2 ^ 63

to_u64-lt : (ts : ℤ) → to_u64 ts < 2 ^ 64
to_u64-lt (pos n) = omega arith
to_u64-lt (negsuc n) = omega arith

to_u64-injective : (s t : ℤ) → IsInt64 s → IsInt64 t → to_u64 s ≡ to_u64 t → s ≡ t
to_u64-injective (pos m) (pos n) hs ht e = ap pos (omega arith)
to_u64-injective (pos m) (negsuc n) hs ht e = absurd (omega arith)
to_u64-injective (negsuc m) (pos n) hs ht e = absurd (omega arith)
to_u64-injective (negsuc m) (negsuc n) hs ht e = ap negsuc (omega arith)

put_uint_eight-injective : (a b : ℕ) → a < 2 ^ 64 → b < 2 ^ 64 → put_uint 8 a ≡ put_uint 8 b → a ≡ b
put_uint_eight-injective a b ha hb e =
    sym (uint-put_uint_eight a ha) ∙ ap uint e ∙ uint-put_uint_eight b hb

-- The message under the HMAC determines what it is made of: the client's ephemeral key, the
-- timestamp, the server's static key and the session id, for keys of 32 bytes and timestamps in
-- the range of an int64.
pub auth_parts-injective :
    (e e' k k' sid sid' : List ℕ) (ts ts' : ℤ)
    → length e ≡ 32
    → length e' ≡ 32
    → length k ≡ 32
    → length k' ≡ 32
    → IsInt64 ts
    → IsInt64 ts'
    → flatten (auth_parts e ts k sid) ≡ flatten (auth_parts e' ts' k' sid')
    → (e ≡ e') × (ts ≡ ts') × (k ≡ k') × (sid ≡ sid')
unfolding flatten
auth_parts-injective e e' k k' sid sid' ts ts' he he' hk hk' ht ht' same =
    let (e≡, rest) = append-injective e e' _ _ (he ∙ sym he') same in
    let (t≡, rest') =
      append-injective (put_uint 8 (to_u64 ts)) (put_uint 8 (to_u64 ts')) _ _ refl rest in
    let (k≡, rest'') = append-injective k k' _ _ (hk ∙ sym hk') rest' in
    (
      e≡,
      to_u64-injective ts ts' ht ht'
          (put_uint_eight-injective (to_u64 ts) (to_u64 ts') (to_u64-lt ts) (to_u64-lt ts') t≡),
      k≡,
      sym (append-nil sid) ∙ rest'' ∙ append-nil sid',
    )

-- Equal channel salts come from equal ephemeral keys, session ids and channel indices, for keys
-- of 32 bytes, session ids of 16 and indices below 2^32.
pub channel_salt-injective :
    (c c' s s' sid sid' : List ℕ) (i j : ℕ)
    → length c ≡ 32
    → length c' ≡ 32
    → length s ≡ 32
    → length s' ≡ 32
    → length sid ≡ 16
    → length sid' ≡ 16
    → i < 2 ^ 32
    → j < 2 ^ 32
    → channel_salt c s sid i ≡ channel_salt c' s' sid' j
    → (c ≡ c') × (s ≡ s') × (sid ≡ sid') × (i ≡ j)
unfolding channel_salt
channel_salt-injective c c' s s' sid sid' i j hc hc' hs hs' hd hd' hi hj same =
    let (c≡, rest) = append-injective c c' _ _ (hc ∙ sym hc') same in
    let (s≡, rest') = append-injective s s' _ _ (hs ∙ sym hs') rest in
    let (d≡, last) = append-injective sid sid' _ _ (hd ∙ sym hd') rest' in
    (c≡, s≡, d≡, omega (arith, uint-put_uint_four i hi, uint-put_uint_four j hj, ap uint last))
