-- ===== src/Crypto/Stream/Nonces.antt =====
-- The nonces of an AEADStream, and the two ends of one direction in step.
use krot_vpn.Prelude.{
  ℕ, zero, suc, ◌+◌, ◌^◌, ◌≤◌, ◌<◌, ◌≡◌, refl, sym, ap, ◌∙◌, ◌≢◌, inl, inr, List, [], ◌∷◌, ◌++◌,
  arith, take, drop, ok, err, Result-cases, Result-bind_ok,
}
use krot_vpn.Prelude.Bytes.{put_uint, uint, uint-put_uint_eight}
use krot_vpn.Crypto.{Primitives, IsSound}
use krot_vpn.Crypto.Stream.{
  Stream, counter_exhausted, max_u64, new_stream, advance, advances, seal, unseal,
}

-- The first four bytes stay zero, and the counter is a uint64.
pub record IsValid (s : Stream) : Type 0 where
  pub prefix : take 4 s.nonce ≡ 0 ∷ 0 ∷ 0 ∷ 0 ∷ []
  pub bounded : s.counter ≤ max_u64

pub new_stream-IsValid :
    (key : List ℕ) {s : Stream}
    → new_stream key ≡ ok s
    → IsValid s × (s.counter ≡ 0) × (s.key ≡ key)
unfolding new_stream
new_stream-IsValid key h = ground arith

abbrev advanced : Stream → Stream
advanced s = record s { nonce = take 4 s.nonce ++ put_uint 8 s.counter; counter = s.counter + 1 }

advance-ok_inv :
    (s : Stream) {t : Stream} → advance s ≡ ok t → (s.counter ≢ max_u64) × (t ≡ advanced s)
unfolding advance
advance-ok_inv s h = ground arith

nonce_lem :
    (n : List ℕ) (c : ℕ)
    → take 4 n ≡ 0 ∷ 0 ∷ 0 ∷ 0 ∷ []
    → c < 2 ^ 64
    → (take 4 (take 4 n ++ put_uint 8 c) ≡ 0 ∷ 0 ∷ 0 ∷ 0 ∷ [])
      × (uint (drop 4 (take 4 n ++ put_uint 8 c)) ≡ c)
nonce_lem n c h k = rw h (refl, uint-put_uint_eight c k)

advanced-IsValid :
    (s : Stream)
    → IsValid s
    → s.counter ≢ max_u64
    → IsValid (advanced s) × (uint (drop 4 (advanced s).nonce) ≡ s.counter)
advanced-IsValid s v h =
    let facts = nonce_lem s.nonce s.counter v.prefix (omega (arith, v.bounded)) in
    (record { prefix = facts.0; bounded = omega (arith, v.bounded) }, facts.1)

pub advance-IsValid :
    (s : Stream) {t : Stream}
    → IsValid s
    → advance s ≡ ok t
    → IsValid t × (t.counter ≡ s.counter + 1) × (uint (drop 4 t.nonce) ≡ s.counter)
advance-IsValid s v h =
    let (below, e) = advance-ok_inv s h in
    let (valid, counted) = advanced-IsValid s v below in rw e (valid, refl, counted)

advances-IsValid :
    (k : ℕ) (s : Stream) {t : Stream}
    → IsValid s
    → advances k s ≡ ok t
    → IsValid t × (t.counter ≡ s.counter + k)
unfolding advances
advances-IsValid zero s v h = ground arith
advances-IsValid (suc k) s v h =
    let (u, before, last) = Result-bind_ok (advances k s) advance h in
    let (valid, counted) = advances-IsValid k s v before in
    let (valid', counted', _) = advance-IsValid u valid last in (valid', omega arith)

-- The nonce of the record with number `k` on a fresh stream carries `k`.
nonce_of_record :
    (key : List ℕ) (k : ℕ) {s t : Stream}
    → new_stream key ≡ ok s
    → advances (suc k) s ≡ ok t
    → uint (drop 4 t.nonce) ≡ k
unfolding advances
nonce_of_record key k {s} fresh h =
    let (valid, zeroed, _) = new_stream-IsValid key fresh in
    let (u, before, last) = Result-bind_ok (advances k s) advance h in
    let (valid', counted) = advances-IsValid k s valid before in
    let (_, _, used) = advance-IsValid u valid' last in omega arith

-- A stream never uses a nonce twice: the records with numbers i and j, i ≢ j, that a stream made by
-- `NewAEADStream` gets through carry different nonces.
pub nonce_unique :
    (key : List ℕ) (i j : ℕ) {s a b : Stream}
    → new_stream key ≡ ok s
    → advances (suc i) s ≡ ok a
    → advances (suc j) s ≡ ok b
    → i ≢ j
    → a.nonce ≢ b.nonce
nonce_unique key i j fresh first second different same = different (
    sym (nonce_of_record key i fresh first)
    ∙ ap (λ n. uint (drop 4 n)) same
    ∙ nonce_of_record key j fresh second)

-- The guard: after 2^64 - 1 records a stream refuses the next one instead of starting again at
-- nonce 0, in both directions, and stays as it is.
pub exhausted :
    (p : Primitives) (s : Stream) (text : List ℕ)
    → s.counter ≡ max_u64
    → (seal p s text ≡ (s, err counter_exhausted)) × (unseal p s text ≡ (s, err counter_exhausted))
unfolding seal unseal advance
exhausted p s text h = ground arith

-- With sound primitives, what a stream seals opens, with a stream in the same state, to the
-- plaintext, and both streams end in the same state.
pub unseal-seal :
    (p : Primitives) (s : Stream) (text ct : List ℕ) {s' : Stream}
    → IsSound p
    → seal p s text ≡ (s', ok ct)
    → unseal p s ct ≡ (s', ok text)
unfolding seal unseal
unseal-seal p s text ct sound h = elim (Result-cases (advance s)) [
  | inl (e, refused) ↦ ground arith
  | inr (t, moved) ↦ ground (arith, sound.unseal-seal t.key t.nonce text)
]

-- Below the limit of the counter a stream seals.
pub seal_total :
    (p : Primitives) (s : Stream) (text : List ℕ)
    → s.counter < max_u64
    → (t : Stream) × (ct : List ℕ) × (seal p s text ≡ (t, ok ct)) × (t.counter ≡ s.counter + 1)
unfolding seal advance
seal_total p s text room = let t = advanced s in (t, p.seal t.key t.nonce text, ground arith, refl)
