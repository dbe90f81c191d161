-- ===== src/Frame/RoundTrip.antt =====
-- A record that is sealed opens to the same type and payload.
use krot_vpn.Prelude.{
  ℕ, ◌+◌, ◌≤◌, ◌<◌, ◌≡◌, ap, List, [], ◌∷◌, ◌++◌, arith, length, length-append, take-length-append,
  le→ltb_false, Result, ok,
}
use krot_vpn.Prelude.Bytes.{uint}
use krot_vpn.Crypto.{Primitives, IsSound}
use krot_vpn.Crypto.Stream
use krot_vpn.Crypto.Stream.{Stream}
use krot_vpn.Crypto.Stream.Nonces.{unseal-seal}
use krot_vpn.Frame.{
  Error, Random, Sealer, Opener, max_payload, plain_record, parse_record, pad_for, seal, unseal,
}

parse_lem :
    (typ hi lo : ℕ) (payload rest : List ℕ)
    → uint (hi ∷ lo ∷ []) ≡ length payload
    → parse_record (typ ∷ hi ∷ lo ∷ (payload ++ rest)) ≡ ok (typ, payload)
unfolding parse_record
parse_lem typ hi lo payload rest h =
    ground (arith, length-append payload rest, take-length-append payload rest)

-- `Open` reads back the type and the payload that `Seal` lays out, whatever the padding, for a
-- payload of at most `MaxPayload` bytes.
pub parse-plain_record :
    (r : Random) (typ : ℕ) (payload : List ℕ) (pad : ℕ)
    → length payload ≤ max_payload
    → parse_record (plain_record r typ payload pad) ≡ ok (typ, payload)
parse-plain_record r typ payload pad h = parse_lem typ _ _ payload _ (omega arith)

-- The two ends of a direction: their streams are in the same state.
abbrev pub InStep : Sealer → Opener → Type 0
InStep s o = s.aead ≡ o.aead

-- What a successful `Seal` did.
pub seal-ok :
    (p : Primitives) (s : Sealer) (r : Random) (typ : ℕ) (payload ct : List ℕ) {s' : Sealer}
    → seal p s r typ payload ≡ (s', ok ct)
    → (length payload ≤ max_payload)
      × (Stream.seal p s.aead (plain_record r typ payload (pad_for s r (length payload)))
          ≡ (s'.aead, ok ct))
unfolding seal
seal-ok p s r typ payload ct h = ground arith

-- With sound primitives, an opener in step with a sealer gets the type and the payload of a
-- sealed record back, and the two stay in step.
pub unseal-seal_frame :
    (p : Primitives) (s : Sealer) (o : Opener) (r : Random) (typ : ℕ) (payload ct : List ℕ)
    {s' : Sealer}
    → IsSound p
    → InStep s o
    → seal p s r typ payload ≡ (s', ok ct)
    → unseal p o ct ≡ (record { aead = s'.aead }, ok (typ, payload))
unfolding unseal
unseal-seal_frame p s o r typ payload ct {s' = s'} sound step h =
    let (small, sent) = seal-ok p s r typ payload ct h in
    let plain = plain_record r typ payload (pad_for s r (length payload)) in
    let opened = unseal-seal p s.aead plain ct sound sent in
    rw (← step, opened)
      (ap (λ (x : Result Error (ℕ × List ℕ)). (record { aead = s'.aead }, x))
        (parse-plain_record r typ payload _ small))

-- `Seal` succeeds and advances the counter by one on a payload of at most `MaxPayload` bytes
-- while the counter is below its limit.
pub seal_total :
    (p : Primitives) (s : Sealer) (r : Random) (typ : ℕ) (payload : List ℕ)
    → length payload ≤ max_payload
    → s.aead.counter < Stream.max_u64
    → (s' : Sealer) × (ct : List ℕ) × (seal p s r typ payload ≡ (s', ok ct))
      × (s'.aead.counter ≡ s.aead.counter + 1)
unfolding seal
seal_total p s r typ payload small room =
    let plain = plain_record r typ payload (pad_for s r (length payload)) in
    let (t, ct, sent, counted) = Stream.Nonces.seal_total p s.aead plain room in
    (record s { aead = t; count = s.count + 1 }, ct, rw (le→ltb_false _ _ small, sent), counted)
