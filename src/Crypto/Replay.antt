-- ===== src/Crypto/Replay.antt =====
-- internal/crypto/crypto.go: ReplayFilter. Unix seconds are natural numbers; the sums of a time and
-- a TTL are taken to stay within an int64. The clock is an argument of each call, in any order.
pub mod Log
pub mod Sweep
pub mod Window
use krot_vpn.Prelude.{
  ℕ, ◌+◌, ◌/◌, Bool, true, false, Option, none, some, List, [], ◌∷◌, ltb, leb, ◌==◌, if◌then◌else◌,
}
use krot_vpn.Prelude.Bytes.{bytes_discrete}
use krot_vpn.Prelude.Int.{ℤ, pos_part}
use krot_vpn.Prelude.Maps.{find, assign}

-- `seen`: token to expiry.
pub record ReplayFilter : Type 0 where
  pub seen : List (List ℕ × ℕ)
  pub ttl : ℕ
  pub last_gc : ℕ

-- `int64(ttl / time.Second)`; what is not positive gives five minutes.
unfoldable pub new_replay_filter : ℤ → ReplayFilter
new_replay_filter d =
    let secs = pos_part d / 1_000_000_000 in
    record { seen = []; ttl = if secs == 0 then 300 else secs; last_gc = 0 }

-- The loop over `seen`: entries with `exp <= now` are deleted.
unfoldable pub sweep : ℕ → List (List ℕ × ℕ) → List (List ℕ × ℕ)
sweep now [] = []
sweep now ((k, exp) ∷ m) = if leb exp now then sweep now m else (k, exp) ∷ sweep now m

unfoldable pub collect : ReplayFilter → ℕ → ReplayFilter
collect f now =
    if ltb (f.last_gc + f.ttl) now then record f { seen = sweep now f.seen; last_gc = now } else f

-- `exp, ok := f.seen[key]; ok && exp > now`
abbrev pub is_live : Option ℕ → ℕ → Bool
is_live none now = false
is_live (some exp) now = ltb now exp

unfoldable pub check : ReplayFilter → ℕ → List ℕ → ReplayFilter × Bool
unfolding collect
check f now token =
    let g = collect f now in
    if is_live (find bytes_discrete token g.seen) now
    then (g, false)
    else (record g { seen = assign bytes_discrete token (now + g.ttl) g.seen }, true)

-- A history of calls.
unfoldable pub run : ReplayFilter → List (ℕ × List ℕ) → ReplayFilter
run f [] = f
run f ((now, token) ∷ cs) = run (check f now token).0 cs
