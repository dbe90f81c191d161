-- ===== src/Transport/Flow.antt =====
-- internal/transport/tunnel.go: flowHash, the channel of a packet. A packet is a list of bytes.
pub mod Pinning
use krot_vpn.Prelude.{
  ℕ, ◌+◌, ◌*◌, ◌/◌, ◌%◌, ◌^◌, Bool, not, ◌&&◌, ◌||◌, List, [], ◌∷◌, length, get_or, take, drop, ltb,
  leb, ◌==◌, if◌then◌else◌,
}
use Prim.Native.Nat.{bit_xor}

abbrev pub fnv_offset : ℕ
fnv_offset = 2166136261

abbrev pub fnv_prime : ℕ
fnv_prime = 16777619

-- `h ^= uint32(b); h *= prim`
unfoldable pub mix : ℕ → ℕ → ℕ
mix h b = bit_xor h b * fnv_prime % 2 ^ 32

unfoldable pub mix_all : ℕ → List ℕ → ℕ
mix_all h [] = h
mix_all h (b ∷ bs) = mix_all (mix h b) bs

-- The byte at a position; the guards keep the positions in range.
abbrev pub byte : List ℕ → ℕ → ℕ
byte p i = get_or p i 0

-- `int(p[0]&0x0f) * 4`
abbrev pub header_size : List ℕ → ℕ
header_size p = byte p 0 % 16 * 4

-- `p[0]>>4 == 4` and both length guards.
unfoldable pub is_ipv4 : List ℕ → Bool
is_ipv4 p =
    not (ltb (length p) 20)
    && (byte p 0 / 16 == 4)
    && (not (ltb (header_size p) 20) && not (ltb (length p) (header_size p)))

-- `(uint16(p[6]&0x1f) << 8) | uint16(p[7])`
unfoldable pub frag_offset : List ℕ → ℕ
frag_offset p = byte p 6 % 32 * 256 + byte p 7

unfoldable pub has_ports : List ℕ → Bool
unfolding frag_offset
has_ports p =
    (frag_offset p == 0)
    && (((byte p 9 == 6) || ((byte p 9 == 17) || (byte p 9 == 132)))
        && leb (header_size p + 4) (length p))

-- The source and destination ports.
unfoldable pub ports : List ℕ → List ℕ
ports p = take 4 (drop (header_size p) p)

-- The source and destination addresses.
unfoldable pub addresses : List ℕ → List ℕ
addresses p = take 8 (drop 12 p)

unfoldable pub flow_hash : List ℕ → ℕ
flow_hash p =
    if is_ipv4 p
    then (let h = mix (mix_all fnv_offset (addresses p)) (byte p 9) in
        if has_ports p then mix_all h (ports p) else h)
    else 0
