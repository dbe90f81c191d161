-- ===== src/Transport/Tunnel/Validity.antt =====
-- The invariant of a bonded tunnel, and that the operations keep it.
use krot_vpn.Prelude.{
  ℕ, ◌+◌, ◌≤◌, ◌<◌, ◌≡◌, refl, ap, ◌⊎◌, inl, inr, true, none, some, List, [], ◌∷◌, map, arith,
  length, length-append, length-map, if◌then◌else◌, Bool-cases, Option-cases,
}
use native.Mathlib.Decide.{ℕ_discrete}
use krot_vpn.Prelude.Counts.{count, remove, remove-length, count-append, count-remove}
use krot_vpn.Prelude.Maps.{find, delete, assign}
use krot_vpn.Transport.Tunnel.{
  Tunnel, new_tunnel, add_channel, close_conn, mark_dead, detach, remove_channel, is_nil,
}

abbrev pub keys : List (ℕ × ℕ) → List ℕ
keys = map (λ e. e.0)

-- `order` holds the keys of `channels`, each once; a tunnel is closed exactly when it is dead, and
-- has fired `onEmpty` once if so and never if not.
pub record IsValid (t : Tunnel) : Type 0 where
  pub same : (i : ℕ) → count i t.order ≡ count i (keys t.channels)
  pub single : (i : ℕ) → count i t.order ≤ 1
  pub sized : length t.order ≡ length t.channels
  pub flags : t.closed ≡ t.dead
  pub fired : t.empties ≡ (if t.dead then 1 else 0)

-- A tunnel that is alive, or has no channel.
abbrev pub IsDrained : Tunnel → Type 0
IsDrained t = t.dead ≡ true → t.channels ≡ []

keys-delete : (i : ℕ) (m : List (ℕ × ℕ)) → keys (delete ℕ_discrete i m) ≡ remove i (keys m)
unfolding delete
keys-delete i [] = refl
keys-delete i ((j, c) ∷ m) = ground (arith, keys-delete i m)

pub find-count :
    (i : ℕ) (m : List (ℕ × ℕ))
    → ((find ℕ_discrete i m ≡ none) × (count i (keys m) ≡ 0))
      ⊎ ((c : ℕ) × (find ℕ_discrete i m ≡ some c) × (0 < count i (keys m)))
unfolding find
find-count i [] = inl (refl, refl)
find-count i ((j, c) ∷ m) = elim (ℕ_discrete j i) [
  | yes p ↦ inr (c, ground arith, ground arith)
  | no p ↦ elim (find-count i m) [
    | inl (missing, zero_count) ↦ inl (ground arith, ground arith)
    | inr (d, found, pos) ↦ inr (d, ground arith, ground arith)
  ]
]

length-keys : (m : List (ℕ × ℕ)) → length (keys m) ≡ length m
length-keys m = length-map m (λ e. e.0)

delete_absent : (i : ℕ) (m : List (ℕ × ℕ)) → find ℕ_discrete i m ≡ none → delete ℕ_discrete i m ≡ m
unfolding find delete
delete_absent i [] h = refl
delete_absent i ((j, c) ∷ m) h = ground (arith, delete_absent i m)

length-delete :
    (i : ℕ) (m : List (ℕ × ℕ)) → length (delete ℕ_discrete i m) + count i (keys m) ≡ length m
length-delete i m = omega (
  arith,
  ap length (keys-delete i m),
  length-keys (delete ℕ_discrete i m),
  length-keys m,
  remove-length i (keys m),
)

pub new_tunnel-IsValid : IsValid new_tunnel
new_tunnel-IsValid = ground arith

-- Attaching under an index that is not taken.
pub add_channel-IsValid :
    (i c : ℕ) (t : Tunnel)
    → find ℕ_discrete i t.channels ≡ none
    → IsValid t
    → IsValid (add_channel i c t)
unfolding add_channel assign
add_channel-IsValid i c t free v = elim (Bool-cases t.closed) [
  | inl shut ↦ rw shut (record {
    same = v.same;
    single = v.single;
    sized = v.sized;
    flags = ground arith;
    fired = v.fired;
  })
  | inr live ↦
      rw (live, delete_absent i t.channels free)
        (record {
          same = λ j. omega (arith, v.same j, count-append j t.order (i ∷ []));
          single = λ j. ground (
            arith,
            v.same i,
            v.single j,
            count-append j t.order (i ∷ []),
            find-count i t.channels,
          );
          sized = omega (arith, v.sized, length-append t.order (i ∷ []));
          flags = ground arith;
          fired = v.fired;
        })
]

pub detach-IsValid : (i : ℕ) (t : Tunnel) → IsValid t → IsValid (detach i t)
unfolding detach
detach-IsValid i t v = record {
  same = λ j.
      rw (keys-delete i t.channels)
        (ground (arith, v.same j, count-remove i j t.order, count-remove i j (keys t.channels)));
  single = λ j. ground (arith, v.single j, count-remove i j t.order);
  sized = omega (arith, v.same i, v.sized, remove-length i t.order, length-delete i t.channels);
  flags = v.flags;
  fired = v.fired;
}

pub mark_dead-IsValid : (t : Tunnel) → IsValid t → IsValid (mark_dead t)
unfolding mark_dead
mark_dead-IsValid t v = elim (Bool-cases t.dead) [
  | inl down ↦ simp down v
  | inr live ↦ rw live (record {
    same = v.same;
    single = v.single;
    sized = v.sized;
    flags = refl;
    fired = ground arith;
  })
]

close_conn-IsValid : (c : ℕ) (t : Tunnel) → IsValid t → IsValid (close_conn c t)
unfolding close_conn
close_conn-IsValid c t v = record {
  same = v.same;
  single = v.single;
  sized = v.sized;
  flags = v.flags;
  fired = v.fired;
}

pub remove_channel-IsValid : (i : ℕ) (t : Tunnel) → IsValid t → IsValid (remove_channel i t)
unfolding remove_channel
remove_channel-IsValid i t v = elim (Option-cases (find ℕ_discrete i t.channels)) [
  | inl missing ↦ rw (missing, remove_channel) v
  | inr (c, found) ↦
      let w = close_conn-IsValid c (detach i t) (detach-IsValid i t v) in
      elim (Bool-cases (is_nil (delete ℕ_discrete i t.channels))) [
        | inl last ↦
            rw (found, remove_channel, last) (mark_dead-IsValid (close_conn c (detach i t)) w)
        | inr more ↦ rw (found, remove_channel, more) w
      ]
]
