-- ===== src/Crypto/Replay/Sweep.antt =====
-- What the ReplayFilter's sweeps leave in memory.
use krot_vpn.Prelude.{
  ℕ, ◌+◌, ◌≤◌, ◌<◌, ◌≡◌, refl, inl, inr, List, [], ◌∷◌, arith, All, ltb, ltb_false→le, Bool-cases,
}
use krot_vpn.Prelude.Bytes.{bytes_discrete}
use krot_vpn.Prelude.Int.{ℤ}
use krot_vpn.Prelude.Maps.{find, delete, assign}
use krot_vpn.Crypto.Replay.{ReplayFilter, new_replay_filter, sweep, collect, is_live, check, run}

abbrev Entries : Type 0
Entries = List (List ℕ × ℕ)

-- The state after a call at time `now`.
pub record IsRecent (f : ReplayFilter) (now : ℕ) : Type 0 where
  pub positive : 0 < f.ttl
  pub swept : All (λ e. f.last_gc < e.1) f.seen
  pub capped : All (λ e. e.1 ≤ now + f.ttl) f.seen
  pub past : f.last_gc ≤ now
  pub due : now ≤ f.last_gc + f.ttl

All-mono :
    {P Q : List ℕ × ℕ → Type 0} (m : Entries) → ((e : List ℕ × ℕ) → P e → Q e) → All P m → All Q m
All-mono [] f a = tt
All-mono (e ∷ m) f a = (f e a.0, All-mono m f a.1)

All-sweep : (P : List ℕ × ℕ → Type 0) (now : ℕ) (m : Entries) → All P m → All P (sweep now m)
unfolding sweep
All-sweep P now [] a = tt
All-sweep P now ((k, e) ∷ m) a = ground (arith, All-sweep P now m a.1)

sweep-above : (now : ℕ) (m : Entries) → All (λ e. now < e.1) (sweep now m)
unfolding sweep
sweep-above now [] = tt
sweep-above now ((k, e) ∷ m) = ground (arith, sweep-above now m)

All-delete :
    (P : List ℕ × ℕ → Type 0) (k : List ℕ) (m : Entries)
    → All P m
    → All P (delete bytes_discrete k m)
unfolding delete
All-delete P k [] a = tt
All-delete P k ((j, e) ∷ m) a = ground (arith, All-delete P k m a.1)

collect-IsRecent :
    (f : ReplayFilter) (now now' : ℕ) → IsRecent f now → now ≤ now' → IsRecent (collect f now') now'
unfolding collect
collect-IsRecent f now now' v later =
    let grown =
      All-mono {P = λ e. e.1 ≤ now + f.ttl} {Q = λ e. e.1 ≤ now' + f.ttl} f.seen
        (λ e h. omega arith) v.capped in
    elim (Bool-cases (ltb (f.last_gc + f.ttl) now')) [
      | inl due ↦ rw due (record {
        positive = v.positive;
        swept = sweep-above now' f.seen;
        capped = All-sweep _ now' f.seen grown;
        past = omega arith;
        due = omega arith;
      })
      | inr early ↦ rw early (record {
        positive = v.positive;
        swept = v.swept;
        capped = grown;
        past = omega (arith, v.past);
        due = omega (arith, ltb_false→le _ _ early);
      })
    ]

pub check-IsRecent :
    (f : ReplayFilter) (now now' : ℕ) (token : List ℕ)
    → IsRecent f now
    → now ≤ now'
    → IsRecent (check f now' token).0 now'
unfolding check assign
check-IsRecent f now now' token v later =
    let w = collect-IsRecent f now now' v later in
    let g = collect f now' in
    elim (Bool-cases (is_live (find bytes_discrete token g.seen) now')) [
      | inl live ↦ rw live w
      | inr fresh ↦ rw fresh (record {
        positive = w.positive;
        swept = (omega (arith, w.positive, w.past), All-delete _ token g.seen w.swept);
        capped = (omega arith, All-delete _ token g.seen w.capped);
        past = w.past;
        due = w.due;
      })
    ]

-- The times of a history do not fall; `last` is the time of its last call.
abbrev pub Rises : ℕ → List (ℕ × List ℕ) → ℕ → Type 0
Rises now [] last = now ≡ last
Rises now ((t, _) ∷ cs) last = (now ≤ t) × Rises t cs last

pub run-IsRecent :
    (f : ReplayFilter) (now last : ℕ) (cs : List (ℕ × List ℕ))
    → IsRecent f now
    → Rises now cs last
    → IsRecent (run f cs) last
unfolding run
run-IsRecent f now last [] v e = rw (← e) v
run-IsRecent f now last ((t, token) ∷ cs) v (h, rest) =
    run-IsRecent (check f t token).0 t last cs (check-IsRecent f now t token v h) rest

new-IsRecent : (d : ℤ) → IsRecent (new_replay_filter d) 0
unfolding new_replay_filter
new-IsRecent d = ground arith

run-ttl : (f : ReplayFilter) (cs : List (ℕ × List ℕ)) → (run f cs).ttl ≡ f.ttl
unfolding run check collect
run-ttl f [] = refl
run-ttl f ((t, token) ∷ cs) = ground (arith, run-ttl (check f t token).0 cs)

-- After any history of calls on a new filter whose times do not fall, each token that is
-- remembered has an expiry after `last - ttl`, for the time `last` of the last call: older ones
-- were swept.
pub run_recent :
    (d : ℤ) (cs : List (ℕ × List ℕ)) (last : ℕ)
    → Rises 0 cs last
    → All (λ e. last < e.1 + (new_replay_filter d).ttl) (run (new_replay_filter d) cs).seen
run_recent d cs last h =
    let f = new_replay_filter d in
    let v = run-IsRecent f 0 last cs (new-IsRecent d) h in
    All-mono (run f cs).seen (λ e above. omega (arith, v.due, run-ttl f cs)) v.swept
