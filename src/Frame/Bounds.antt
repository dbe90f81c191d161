-- ===== src/Frame/Bounds.antt =====
-- The sizes of padded and sealed records.
use krot_vpn.Prelude.{
  ℕ, ◌+◌, ◌-◌, ◌≤◌, ◌<◌, ◌≡◌, ◌⊎◌, inl, inr, List, [], arith, length, length-append, ltb, ltb→lt,
  ltb_false→le, Bool-cases, ok, Result-cases,
}
use krot_vpn.Crypto.{Primitives, IsSound}
use krot_vpn.Crypto.Stream
use krot_vpn.Crypto.Stream.{Stream}
use krot_vpn.Frame.{
  Random, PadPolicy, Sealer, header_len, max_payload, burst_target, pad_for, plain_record, seal,
}
use krot_vpn.Frame.RoundTrip.{seal-ok}

burst_target_bounds :
    (pad : PadPolicy) (r : Random)
    → (pad.burst_min ≤ burst_target pad r)
      × ((burst_target pad r ≡ pad.burst_min) ⊎ (burst_target pad r < pad.burst_max))
burst_target_bounds pad r = ground (arith, r.int_n-lt (pad.burst_max - pad.burst_min))

-- While a sealer has sent fewer than `BurstRecords` records, the plaintext of each, padding
-- included, has at least `BurstMin` bytes, and it is the record without padding, or has exactly
-- `BurstMin` bytes, or fewer than `BurstMax`.
pub burst_bounds :
    (s : Sealer) (r : Random) (n : ℕ)
    → s.count < s.pad.burst_records
    → let size = header_len + n + pad_for s r n in
      (s.pad.burst_min ≤ size)
      × ((size ≡ header_len + n) ⊎ (size ≡ s.pad.burst_min) ⊎ (size < s.pad.burst_max))
unfolding pad_for
burst_bounds s r n h = ground (arith, burst_target_bounds s.pad r)

-- After the burst the padding stays below `SteadyMax`, or is none.
steady_bounds :
    (s : Sealer) (r : Random) (n : ℕ)
    → s.pad.burst_records ≤ s.count
    → (pad_for s r n ≡ 0) ⊎ (pad_for s r n < s.pad.steady_max)
unfolding pad_for
steady_bounds s r n h = ground (arith, r.int_n-lt s.pad.steady_max)

plain_size-le :
    (s : Sealer) (r : Random) (n : ℕ)
    → n ≤ max_payload
    → s.pad.burst_min ≤ 11032
    → s.pad.burst_max ≤ 11033
    → s.pad.steady_max ≤ 2030
    → header_len + n + pad_for s r n ≤ 11032
plain_size-le s r n hn hmin hmax hsteady = elim (Bool-cases (ltb s.count s.pad.burst_records)) [
  | inl burst ↦ omega (arith, burst_bounds s r n (ltb→lt _ _ burst))
  | inr steady ↦ omega (arith, steady_bounds s r n (ltb_false→le _ _ steady))
]

length-plain_record :
    (r : Random) (typ : ℕ) (payload : List ℕ) (pad : ℕ)
    → length (plain_record r typ payload pad) ≡ header_len + length payload + pad
length-plain_record r typ payload pad =
    ground
      (arith, length-append payload (r.bytes pad), length-append payload [], r.length-bytes pad)

stream_seal-length :
    (p : Primitives) (s : Stream) (text ct : List ℕ) {t : Stream}
    → IsSound p
    → Stream.seal p s text ≡ (t, ok ct)
    → length ct ≡ length text + 16
unfolding Stream.seal
stream_seal-length p s text ct sound h = elim (Result-cases (Stream.advance s)) [
  | inl (e, refused) ↦ ground arith
  | inr (u, moved) ↦ ground (arith, sound.length-seal u.key u.nonce text)
]

-- A sealed record is no longer than the peer's read limit of `MaxPayload + 2048` bytes, if
-- `BurstMin` is at most 11032, `BurstMax` at most 11033 and `SteadyMax` at most 2030.
pub length-seal-le :
    (p : Primitives) (s : Sealer) (r : Random) (typ : ℕ) (payload ct : List ℕ) {s' : Sealer}
    → IsSound p
    → s.pad.burst_min ≤ 11032
    → s.pad.burst_max ≤ 11033
    → s.pad.steady_max ≤ 2030
    → seal p s r typ payload ≡ (s', ok ct)
    → length ct ≤ max_payload + 2048
length-seal-le p s r typ payload ct sound hmin hmax hsteady h =
    let (small, sent) = seal-ok p s r typ payload ct h in
    let pad = pad_for s r (length payload) in
    omega (
      arith,
      stream_seal-length p s.aead (plain_record r typ payload pad) ct sound sent,
      length-plain_record r typ payload pad,
      plain_size-le s r (length payload) small hmin hmax hsteady,
    )
