-- ===== src/Transport/Flow/Pinning.antt =====
-- Packets of one flow have one hash, and so one channel.
use krot_vpn.Prelude.{
  ℕ, ◌+◌, ◌*◌, ◌/◌, ◌%◌, ◌^◌, ◌≤◌, ◌<◌, ◌≡◌, refl, sym, ap, ◌∙◌, inl, inr, Bool, true, ◌&&◌, ◌||◌,
  List, [], ◌∷◌, ◌++◌, arith, length, length-append, take, drop-append_of_length, leb, ◌==◌,
  if◌then◌else◌, Bool-cases,
}
use Prim.Native.Nat.{bit_xor}
use mathlib.Core.List.{foldl}
use krot_vpn.Transport.Flow.{
  mix, mix_all, byte, header_size, is_ipv4, frag_offset, has_ports, ports, addresses, flow_hash,
  fnv_offset,
}

mix_all-lt : (h : ℕ) (bs : List ℕ) → h < 2 ^ 32 → mix_all h bs < 2 ^ 32
unfolding mix_all mix
mix_all-lt h [] k = k
mix_all-lt h (b ∷ bs) k = mix_all-lt (mix h b) bs (omega arith)

-- The hash is a uint32.
pub flow_hash-lt : (p : List ℕ) → flow_hash p < 2 ^ 32
unfolding flow_hash mix
flow_hash-lt p =
    ground (arith, mix_all-lt (mix (mix_all fnv_offset (addresses p)) (byte p 9)) (ports p))

-- An IPv4 datagram by its fields; `words`: the options' length in units of four bytes.
pub record Datagram : Type 0 where
  pub tos : ℕ
  pub size : ℕ
  pub ident : ℕ
  pub flags : ℕ
  pub offset : ℕ
  pub ttl : ℕ
  pub proto : ℕ
  pub sum : ℕ
  pub src : List ℕ
  pub dst : List ℕ
  pub words : ℕ
  pub options : List ℕ
  pub payload : List ℕ

pub record IsDatagram (d : Datagram) : Type 0 where
  pub src : length d.src ≡ 4
  pub dst : length d.dst ≡ 4
  pub few : d.words ≤ 10
  pub options : length d.options ≡ 4 * d.words
  pub offset : d.offset < 8192

-- The layout of RFC 791.
abbrev header :
    (words tos size ident flags offset ttl proto sum : ℕ) (src dst options : List ℕ) → List ℕ
header words tos size ident flags offset ttl proto sum src dst options =
    (64 + 5 + words)
    ∷ tos
    ∷ (size / 256)
    ∷ (size % 256)
    ∷ (ident / 256)
    ∷ (ident % 256)
    ∷ (flags * 32 + offset / 256)
    ∷ (offset % 256)
    ∷ ttl
    ∷ proto
    ∷ (sum / 256)
    ∷ (sum % 256)
    ∷ (src ++ (dst ++ options))

abbrev pub encode : Datagram → List ℕ
encode d =
    header d.words d.tos d.size d.ident d.flags d.offset d.ttl d.proto d.sum d.src d.dst d.options
    ++ d.payload

-- TCP, UDP and SCTP have their ports in front.
abbrev pub with_ports : ℕ → ℕ → List ℕ → Bool
with_ports offset proto payload =
    (offset == 0) && (((proto == 6) || ((proto == 17) || (proto == 132))) && leb 4 (length payload))

abbrev pub flow_of : Datagram → List ℕ
flow_of d =
    d.src
    ++ (d.dst
        ++ (d.proto ∷ (if with_ports d.offset d.proto d.payload then take 4 d.payload else [])))

-- The 32-bit FNV-1a hash.
abbrev pub fnv_1a : List ℕ → ℕ
fnv_1a = foldl (λ (h b : ℕ). bit_xor h b * 16777619 % 2 ^ 32) 2166136261

mix_all-foldl :
    (h : ℕ) (bs : List ℕ) → mix_all h bs ≡ foldl (λ (h b : ℕ). bit_xor h b * 16777619 % 2 ^ 32) h bs
unfolding mix_all mix
mix_all-foldl h [] = refl
mix_all-foldl h (b ∷ bs) = mix_all-foldl (mix h b) bs

pair_eq : {a b c d : List ℕ} → a ≡ b → c ≡ d → ◌≡◌ {A = List ℕ × List ℕ} (a, c) (b, d)
pair_eq p q = cc

quad : (l : List ℕ) → length l ≡ 4 → (a b c d : ℕ) × (l ≡ a ∷ b ∷ c ∷ d ∷ [])
quad [] h = absurd (omega arith)
quad (a ∷ []) h = absurd (omega arith)
quad (a ∷ b ∷ []) h = absurd (omega arith)
quad (a ∷ b ∷ c ∷ []) h = absurd (omega arith)
quad (a ∷ b ∷ c ∷ d ∷ []) h = (a, b, c, d, refl)
quad (a ∷ b ∷ c ∷ d ∷ e ∷ l) h = absurd (omega arith)

module _ (words tos size ident flags offset ttl proto sum : ℕ) (options payload : List ℕ)
    (few : words ≤ 10) (whole : length options ≡ 4 * words) (small : offset < 8192)
    (a b c d e f g h : ℕ) where
  abbrev head_bytes : List ℕ
  head_bytes =
      header words tos size ident flags offset ttl proto sum (a ∷ b ∷ c ∷ d ∷ [])
        (e ∷ f ∷ g ∷ h ∷ []) options

  abbrev datagram : List ℕ
  datagram = head_bytes ++ payload

  header_size-datagram : header_size datagram ≡ 20 + 4 * words
  header_size-datagram = omega (arith, few)

  length-datagram : length datagram ≡ 20 + 4 * words + length payload
  length-datagram = omega (arith, length-append options payload, whole)

  datagram-is_ipv4 : is_ipv4 datagram ≡ true
  unfolding is_ipv4
  datagram-is_ipv4 =
      let high : (64 + 5 + words) / 16 ≡ 4 = omega (arith, few) in
      rw (header_size-datagram, length-datagram, high) (ground arith)

  datagram-frag_offset : frag_offset datagram ≡ offset
  unfolding frag_offset
  datagram-frag_offset = omega (arith, small)

  datagram-has_ports : has_ports datagram ≡ with_ports offset proto payload
  unfolding has_ports
  datagram-has_ports =
      rw (datagram-frag_offset, header_size-datagram, length-datagram) (ground arith)

  datagram-ports : ports datagram ≡ take 4 payload
  unfolding ports
  datagram-ports = rw header_size-datagram (
      ap (take 4)
        (drop-append_of_length (20 + 4 * words) head_bytes payload (omega (arith, whole))))

  datagram-hash :
      flow_hash datagram
      ≡ fnv_1a (
          a
          ∷ b
          ∷ c
          ∷ d
          ∷ e
          ∷ f
          ∷ g
          ∷ h
          ∷ proto
          ∷ (if with_ports offset proto payload then take 4 payload else []))
  unfolding flow_hash addresses mix_all
  datagram-hash = elim (Bool-cases (with_ports offset proto payload)) [
    | inl carried ↦
        rw
          (
            datagram-is_ipv4,
            datagram-has_ports,
            carried,
            datagram-ports,
            ← mix_all-foldl fnv_offset (a ∷ b ∷ c ∷ d ∷ e ∷ f ∷ g ∷ h ∷ proto ∷ take 4 payload),
          )
          refl
    | inr without ↦
        rw
          (
            datagram-is_ipv4,
            datagram-has_ports,
            without,
            ← mix_all-foldl fnv_offset (a ∷ b ∷ c ∷ d ∷ e ∷ f ∷ g ∷ h ∷ proto ∷ []),
          )
          refl
  ]

-- The hash of an IPv4 datagram, laid out as RFC 791 says, with up to ten words of options, is
-- the 32-bit FNV-1a hash of its flow: the source and the destination address, the protocol, and,
-- if it is TCP, UDP or SCTP in a first fragment with at least four bytes of payload, the two ports.
-- So nothing else that the datagram holds enters it.
pub flow_hash-encode : (p : Datagram) → IsDatagram p → flow_hash (encode p) ≡ fnv_1a (flow_of p)
flow_hash-encode p v =
    let (a, b, c, d, from) = quad p.src v.src in
    let (e, f, g, h, to) = quad p.dst v.dst in
    let core =
      datagram-hash p.words p.tos p.size p.ident p.flags p.offset p.ttl p.proto p.sum p.options
        p.payload v.few v.options v.offset a b c d e f g h in
    ap
      (λ (x : List ℕ × List ℕ). flow_hash (
        header p.words p.tos p.size p.ident p.flags p.offset p.ttl p.proto p.sum x.0 x.1 p.options
        ++ p.payload))
      (pair_eq from to)
    ∙ core
    ∙ ap
        (λ (x : List ℕ × List ℕ). fnv_1a (
          x.0
          ++ (x.1
              ++ (p.proto
                  ∷ (if with_ports p.offset p.proto p.payload then take 4 p.payload else [])))))
        (sym (pair_eq from to))
