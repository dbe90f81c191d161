-- ===== src/Crypto/Replay/Window.antt =====
-- How long the ReplayFilter remembers a token.
use krot_vpn.Prelude.{
  ℕ, ◌+◌, ◌≤◌, ◌<◌, ◌≡◌, refl, true, false, none, some, List, [], ◌∷◌, arith, All,
}
use krot_vpn.Prelude.Bytes.{bytes_discrete}
use krot_vpn.Prelude.Maps.{find, delete, assign, find-assign_self, find-assign_ne, find-delete_self}
use krot_vpn.Crypto.Replay.{ReplayFilter, sweep, collect, is_live, check, run}

-- The filter holds the token with this expiry.
abbrev pub Holds : ReplayFilter → List ℕ → ℕ → Type 0
Holds f token exp = find bytes_discrete token f.seen ≡ some exp

find-sweep :
    (now exp : ℕ) (token : List ℕ) (m : List (List ℕ × ℕ))
    → find bytes_discrete token m ≡ some exp
    → now < exp
    → find bytes_discrete token (sweep now m) ≡ some exp
unfolding find sweep
find-sweep now exp token [] h live = cc
find-sweep now exp token ((k, e) ∷ m) h live = ground (arith, find-sweep now exp token m)

collect-Holds :
    (f : ReplayFilter) (now exp : ℕ) (token : List ℕ)
    → Holds f token exp
    → now < exp
    → Holds (collect f now) token exp
unfolding collect
collect-Holds f now exp token h live = ground (arith, find-sweep now exp token f.seen)

collect-ttl : (f : ReplayFilter) (now : ℕ) → (collect f now).ttl ≡ f.ttl
unfolding collect
collect-ttl f now = ground arith

-- A live token is rejected, and stays.
pub check_live :
    (f : ReplayFilter) (now exp : ℕ) (token : List ℕ)
    → Holds f token exp
    → now < exp
    → check f now token ≡ (collect f now, false)
unfolding check
check_live f now exp token h live = ground (arith, collect-Holds f now exp token)

-- Any other call before the expiry keeps the token.
pub check-Holds :
    (f : ReplayFilter) (now exp : ℕ) (token other : List ℕ)
    → Holds f token exp
    → now < exp
    → Holds (check f now other).0 token exp
check-Holds f now exp token other h live = elim (bytes_discrete token other) [
  | yes same ↦ rw (← same, check_live f now exp token h live) (collect-Holds f now exp token h live)
  | no different ↦
      unfold check in
      ground (
        arith,
        collect-Holds f now exp token,
        find-assign_ne bytes_discrete other token (now + (collect f now).ttl) (collect f now).seen,
      )
]

run-Holds :
    (f : ReplayFilter) (cs : List (ℕ × List ℕ)) (exp : ℕ) (token : List ℕ)
    → Holds f token exp
    → All (λ c. c.0 < exp) cs
    → Holds (run f cs) token exp
unfolding run
run-Holds f [] exp token h before = h
run-Holds f ((now, other) ∷ cs) exp token h before =
    run-Holds (check f now other).0 cs exp token (check-Holds f now exp token other h before.0)
      before.1

-- An accepted token is remembered for the TTL.
pub accepted-Holds :
    (f : ReplayFilter) (now : ℕ) (token : List ℕ)
    → (check f now token).1 ≡ true
    → Holds (check f now token).0 token (now + f.ttl)
unfolding check
accepted-Holds f now token h = ground (
  arith,
  collect-ttl f now,
  find-assign_self bytes_discrete token (now + (collect f now).ttl) (collect f now).seen,
)

-- No replay within the TTL: once a token is accepted at time `first`, the filter rejects it at
-- every `later` below `first + ttl`, whatever calls come in between, also under a clock that
-- jumps, as long as those are below `first + ttl` too. The rejection leaves the token in place.
pub no_replay :
    (f : ReplayFilter) (first later : ℕ) (token : List ℕ) (cs : List (ℕ × List ℕ))
    → (check f first token).1 ≡ true
    → All (λ c. c.0 < first + f.ttl) cs
    → later < first + f.ttl
    → let g = run (check f first token).0 cs in
      ((check g later token).1 ≡ false) × Holds (check g later token).0 token (first + f.ttl)
no_replay f first later token cs accepted between early =
    let held =
      run-Holds _ cs (first + f.ttl) token (accepted-Holds f first token accepted) between in
    (
      rw (check_live (run (check f first token).0 cs) later (first + f.ttl) token held early) refl,
      check-Holds (run (check f first token).0 cs) later (first + f.ttl) token token held early,
    )

pub find-sweep-none :
    (now : ℕ) (token : List ℕ) (m : List (List ℕ × ℕ))
    → find bytes_discrete token m ≡ none
    → find bytes_discrete token (sweep now m) ≡ none
unfolding find sweep
find-sweep-none now token [] h = refl
find-sweep-none now token ((k, e) ∷ m) h = ground (arith, find-sweep-none now token m)

-- An entry that has run out is not live, swept or not.
assigned_expired :
    (g : ReplayFilter) (exp now : ℕ) (token : List ℕ) (m : List (List ℕ × ℕ))
    → g.seen ≡ assign bytes_discrete token exp m
    → exp ≤ now
    → is_live (find bytes_discrete token (collect g now).seen) now ≡ false
unfolding collect sweep assign find
assigned_expired g exp now token m e over = ground (
  arith,
  find-delete_self bytes_discrete token m,
  find-sweep-none now token (delete bytes_discrete token m),
)

accepted_lem :
    (f : ReplayFilter) (now : ℕ) (token : List ℕ)
    → (check f now token).1 ≡ true
    → (check f now token).0.seen ≡ assign bytes_discrete token (now + f.ttl) (collect f now).seen
unfolding check
accepted_lem f now token h = ground (arith, collect-ttl f now)

check_not_live :
    (f : ReplayFilter) (now : ℕ) (token : List ℕ)
    → is_live (find bytes_discrete token (collect f now).seen) now ≡ false
    → (check f now token).1 ≡ true
unfolding check
check_not_live f now token h = ground arith

-- The TTL is exact: the second after it, with no call in between, the token is accepted again.
pub accepted_again :
    (f : ReplayFilter) (first later : ℕ) (token : List ℕ)
    → (check f first token).1 ≡ true
    → first + f.ttl ≤ later
    → (check (check f first token).0 later token).1 ≡ true
accepted_again f first later token accepted late =
    let g = (check f first token).0 in
    check_not_live g later token (
      assigned_expired g (first + f.ttl) later token (collect f first).seen
        (accepted_lem f first token accepted) late)
