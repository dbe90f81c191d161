-- ===== src/Frame.antt =====
-- internal/frame/frame.go: the record layer. The sizes of a padding policy are not negative; the
-- random choices of a call are its argument.
pub mod Bounds
pub mod RoundTrip
use krot_vpn.Prelude.{
  ℕ, ◌+◌, ◌-◌, ◌%◌, ◌^◌, ◌<◌, ◌≡◌, List, [], ◌∷◌, ◌++◌, length, get_or, take, drop, ltb,
  if◌then◌else◌, Result, ok, err,
}
use krot_vpn.Prelude.Bytes.{put_uint, uint}
use krot_vpn.Crypto.{Primitives}
use krot_vpn.Crypto.Stream
use krot_vpn.Crypto.Stream.{Stream, new_stream}

abbrev pub type_data : ℕ
type_data = 1

abbrev pub type_pad : ℕ
type_pad = 2

abbrev pub header_len : ℕ
header_len = 3

abbrev pub max_payload : ℕ
max_payload = 9000

-- `stream` wraps what the AEAD stream refuses.
pub data Error : Type 0 where
  short len big : Error
  stream : Stream.Error → Error

pub record PadPolicy : Type 0 where
  pub burst_records : ℕ
  pub burst_min : ℕ
  pub burst_max : ℕ
  pub steady_max : ℕ

abbrev pub default_pad : PadPolicy
default_pad = record { burst_records = 12; burst_min = 900; burst_max = 1380; steady_max = 128 }

-- math/rand/v2's IntN, called with a positive bound, and crypto/rand filling a slice.
pub record Random : Type 0 where
  pub int_n : ℕ → ℕ
  pub int_n-lt : (n : ℕ) → 0 < n → int_n n < n
  pub bytes : ℕ → List ℕ
  pub length-bytes : (n : ℕ) → length (bytes n) ≡ n

pub record Sealer : Type 0 where
  pub aead : Stream
  pub pad : PadPolicy
  pub count : ℕ

pub record Opener : Type 0 where
  pub aead : Stream

unfoldable pub new_sealer : List ℕ → PadPolicy → Result Stream.Error Sealer
new_sealer key pad = elim (new_stream key) [
  | err e ↦ err e
  | ok a ↦ ok (record { aead = a; pad = pad; count = 0 })
]

unfoldable pub new_opener : List ℕ → Result Stream.Error Opener
new_opener key = elim (new_stream key) [ err e ↦ err e | ok a ↦ ok (record { aead = a }) ]

-- The size that a record of the opening burst is padded to.
abbrev pub burst_target : PadPolicy → Random → ℕ
burst_target pad r =
    let span = pad.burst_max - pad.burst_min in
    if ltb 0 span then pad.burst_min + r.int_n span else pad.burst_min

unfoldable pub pad_for : Sealer → Random → ℕ → ℕ
pad_for s r payload_len =
    let used = header_len + payload_len in
    if ltb s.count s.pad.burst_records
    then (let target = burst_target s.pad r in if ltb used target then target - used else 0)
    else if ltb 0 s.pad.steady_max
    then r.int_n s.pad.steady_max
    else 0

-- The plaintext: type, length, payload, padding.
abbrev pub plain_record : Random → ℕ → List ℕ → ℕ → List ℕ
plain_record r typ payload pad =
    typ ∷ put_uint 2 (length payload % 2 ^ 16)
    ++ (payload ++ (if ltb 0 pad then r.bytes pad else []))

abbrev pub wrap_stream : {A : Type 0} → Result Stream.Error A → Result Error A
wrap_stream (ok a) = ok a
wrap_stream (err e) = err (stream e)

-- What `Open` does with a plaintext.
unfoldable pub parse_record : List ℕ → Result Error (ℕ × List ℕ)
parse_record plain =
    if ltb (length plain) header_len
    then err short
    else (let n = uint (take 2 (drop 1 plain)) in
        if ltb (length plain - header_len) n
        then err len
        else ok (get_or plain 0 0, take n (drop header_len plain)))

module _ (p : Primitives) where
  unfoldable pub seal : Sealer → Random → ℕ → List ℕ → Sealer × Result Error (List ℕ)
  seal s r typ payload =
      if ltb max_payload (length payload)
      then (s, err big)
      else (let plain = plain_record r typ payload (pad_for s r (length payload)) in
          let (aead, sealed) = Stream.seal p s.aead plain in
          (record s { aead = aead; count = s.count + 1 }, wrap_stream sealed))

  unfoldable pub unseal : Opener → List ℕ → Opener × Result Error (ℕ × List ℕ)
  unseal o ct =
      let (aead, plain) = Stream.unseal p o.aead ct in
      (record { aead = aead }, elim plain [ err e ↦ err (stream e) | ok t ↦ parse_record t ])
