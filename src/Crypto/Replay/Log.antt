-- ===== src/Crypto/Replay/Log.antt =====
-- The ReplayFilter against a log of the accepted tokens that forgets nothing.
use krot_vpn.Prelude.{
  ℕ, ◌+◌, ◌≤◌, ◌≡◌, refl, sym, ◌∙◌, ◌≢◌, inl, inr, Bool, true, false, ◌&&◌, ◌||◌, List, [], ◌∷◌,
  arith, ltb, leb, if◌then◌else◌, Bool-cases,
}
use krot_vpn.Prelude.Bytes.{bytes_discrete, bytes_eq, bytes_eq_iff}
use krot_vpn.Prelude.Int.{ℤ}
use krot_vpn.Prelude.Maps.{
  find, assign, Uniq, delete-Uniq, find-delete_self, find-assign_self, find-assign_ne,
}
use krot_vpn.Crypto.Replay.{ReplayFilter, new_replay_filter, sweep, collect, is_live, check}
use krot_vpn.Crypto.Replay.Sweep.{Rises}
use krot_vpn.Crypto.Replay.Window.{find-sweep-none}

-- The accepted tokens with the times of their acceptance.
abbrev pub Log : Type 0
Log = List (List ℕ × ℕ)

-- Whether the token was accepted less than `ttl` before.
unfoldable pub recent : ℕ → Log → ℕ → List ℕ → Bool
recent ttl [] now token = false
recent ttl ((k, t) ∷ log) now token =
    (bytes_eq k token && ltb now (t + ttl)) || recent ttl log now token

-- One call, by the log: a token passes unless it was accepted less than `ttl` before.
unfoldable pub admit : ℕ → Log → ℕ → List ℕ → Log × Bool
unfolding recent
admit ttl log now token =
    if recent ttl log now token then (log, false) else ((token, now) ∷ log, true)

-- The answers to a history of calls, by the log and by the filter.
unfoldable pub log_answers : ℕ → Log → List (ℕ × List ℕ) → List Bool
unfolding admit
log_answers ttl log [] = []
log_answers ttl log ((now, token) ∷ cs) =
    let (next, passes) = admit ttl log now token in passes ∷ log_answers ttl next cs

unfoldable pub answers : ReplayFilter → List (ℕ × List ℕ) → List Bool
unfolding check
answers f [] = []
answers f ((now, token) ∷ cs) = let (g, passes) = check f now token in passes ∷ answers g cs

-- The filter with this TTL and the log agree from the time `now` on.
record Agrees (ttl : ℕ) (f : ReplayFilter) (log : Log) (now : ℕ) : Type 0 where
  kept : f.ttl ≡ ttl
  uniq : Uniq bytes_discrete f.seen
  same :
      (t : ℕ) (token : List ℕ)
      → now ≤ t
      → is_live (find bytes_discrete token f.seen) t ≡ recent ttl log t token

sweep-Uniq : (now : ℕ) (m : Log) → Uniq bytes_discrete m → Uniq bytes_discrete (sweep now m)
unfolding sweep
sweep-Uniq now [] u = tt
sweep-Uniq now ((k, e) ∷ m) u = elim (Bool-cases (leb e now)) [
  | inl over ↦ rw over (sweep-Uniq now m u.1)
  | inr live ↦ rw live (find-sweep-none now k m u.0, sweep-Uniq now m u.1)
]

-- A sweep takes nothing that is live then or later.
is_live-sweep :
    (now t : ℕ) (token : List ℕ) (m : Log)
    → Uniq bytes_discrete m
    → now ≤ t
    → is_live (find bytes_discrete token (sweep now m)) t ≡ is_live (find bytes_discrete token m) t
unfolding sweep find
is_live-sweep now t token [] u later = refl
is_live-sweep now t token ((k, e) ∷ m) u later =
    ground (arith, is_live-sweep now t token m u.1 later, find-sweep-none now k m, u.0)

-- What was not recent does not become recent.
recent_later :
    (ttl : ℕ) (log : Log) (now t : ℕ) (token : List ℕ)
    → now ≤ t
    → recent ttl log now token ≡ false
    → recent ttl log t token ≡ false
unfolding recent
recent_later ttl [] now t token later h = refl
recent_later ttl ((k, x) ∷ log) now t token later h =
    ground (arith, recent_later ttl log now t token later)

collect-Agrees :
    (ttl : ℕ) (f : ReplayFilter) (log : Log) (now now' : ℕ)
    → Agrees ttl f log now
    → now ≤ now'
    → Agrees ttl (collect f now') log now'
unfolding collect
collect-Agrees ttl f log now now' v later = elim (Bool-cases (ltb (f.last_gc + f.ttl) now')) [
  | inl due ↦ rw due (record {
    kept = v.kept;
    uniq = sweep-Uniq now' f.seen v.uniq;
    same = λ t token h. is_live-sweep now' t token f.seen v.uniq h ∙ v.same t token (omega arith);
  })
  | inr early ↦
      rw early
        (record { kept = v.kept; uniq = v.uniq; same = λ t token h. v.same t token (omega arith) })
]

differ : (token q : List ℕ) → q ≢ token → bytes_eq token q ≡ false
differ token q other = elim (Bool-cases (bytes_eq token q)) [
  | inl equal ↦ absurd (other (sym ((bytes_eq_iff token q).0 equal)))
  | inr no_ ↦ no_
]

-- The accepted token in the map and in the log.
accepted_same :
    (ttl : ℕ) (g : ReplayFilter) (log : Log) (now t : ℕ) (token q : List ℕ)
    → Agrees ttl g log now
    → recent ttl log now token ≡ false
    → now ≤ t
    → is_live (find bytes_discrete q (assign bytes_discrete token (now + ttl) g.seen)) t
      ≡ recent ttl ((token, now) ∷ log) t q
unfolding recent
accepted_same ttl g log now t token q v fresh later = elim (bytes_discrete q token) [
  | yes same ↦
      rw
        (
          same,
          find-assign_self bytes_discrete token (now + ttl) g.seen,
          (bytes_eq_iff token token).1 refl,
          recent_later ttl log now t token later fresh,
        )
        (ground arith)
  | no other ↦
      rw
        (
          find-assign_ne bytes_discrete token q (now + ttl) g.seen other,
          differ token q other,
          v.same t q later,
        )
        refl
]

check-Agrees :
    (ttl : ℕ) (f : ReplayFilter) (log : Log) (now now' : ℕ) (token : List ℕ)
    → Agrees ttl f log now
    → now ≤ now'
    → ((check f now' token).1 ≡ (admit ttl log now' token).1)
      × Agrees ttl (check f now' token).0 (admit ttl log now' token).0 now'
unfolding check admit assign
check-Agrees ttl f log now now' token v later =
    let g = collect f now' in
    let w = collect-Agrees ttl f log now now' v later in
    elim (Bool-cases (is_live (find bytes_discrete token g.seen) now')) [
      | inl live ↦
          let seen : recent ttl log now' token ≡ true =
            sym (w.same now' token (omega arith)) ∙ live in
          rw (live, seen) (refl, w)
      | inr fresh ↦
          let unseen : recent ttl log now' token ≡ false =
            sym (w.same now' token (omega arith)) ∙ fresh in
          rw (fresh, unseen, w.kept)
            (
              refl,
              record {
                kept = refl;
                uniq = (
                  find-delete_self bytes_discrete token g.seen,
                  delete-Uniq bytes_discrete token g.seen w.uniq,
                );
                same = λ t q h. accepted_same ttl g log now' t token q w unseen h;
              },
            )
    ]

answers-log_answers :
    (ttl : ℕ) (f : ReplayFilter) (log : Log) (now last : ℕ) (cs : List (ℕ × List ℕ))
    → Agrees ttl f log now
    → Rises now cs last
    → answers f cs ≡ log_answers ttl log cs
unfolding answers log_answers
answers-log_answers ttl f log now last [] v e = refl
answers-log_answers ttl f log now last ((t, token) ∷ cs) v (h, rest) =
    let (same, w) = check-Agrees ttl f log now t token v h in
    rw
      (same, answers-log_answers ttl (check f t token).0 (admit ttl log t token).0 t last cs w rest)
      refl

-- The filter refines the log: for any TTL and any history of calls whose times do not fall, a new
-- filter gives the answers of a log of all accepted tokens that forgets nothing and lets a token
-- pass if and only if it was not accepted less than the TTL before. The sweeps and the overwritten
-- entries do not show.
pub answers_refined :
    (d : ℤ) (cs : List (ℕ × List ℕ)) (last : ℕ)
    → Rises 0 cs last
    → answers (new_replay_filter d) cs ≡ log_answers (new_replay_filter d).ttl [] cs
unfolding new_replay_filter recent find
answers_refined d cs last rises =
    let f = new_replay_filter d in
    answers-log_answers f.ttl f [] 0 last cs
      (record { kept = refl; uniq = tt; same = λ t token h. refl }) rises
