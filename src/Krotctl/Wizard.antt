-- ===== src/Krotctl/Wizard.antt =====
-- cmd/krotctl/wizard.go: the prompts and the question at the end. Answers are ASCII.
pub mod Ends
pub mod Piped
use krot_vpn.Prelude.{
  ℕ, zero, suc, ◌+◌, Bool, true, false, ◌&&◌, ◌||◌, Option, none, some, List, [], ◌∷◌, ◌++◌, leb,
  ◌==◌, if◌then◌else◌, ◌>>=◌,
}
use krot_vpn.Netif.{Text, is_space}
use krot_vpn.Prelude.Bytes.{codes, bytes_eq}

-- A bufio.Reader on standard input: `buffer` is what was read and not used, `chunks` what the next
-- reads of standard input give.
pub record Reader : Type 0 where
  pub buffer : Text
  pub chunks : List Text

-- A reader that is new takes nothing over from another one.
unfoldable pub new_wiz : Reader → Reader
new_wiz w = record { buffer = []; chunks = w.chunks }

-- The first line, without its line break, and what follows.
unfoldable pub split_line : Text → Option (Text × Text)
split_line [] = none
split_line (c ∷ cs) =
    if c == 10 then some ([], cs) else (do (line, rest) ← split_line cs; some (c ∷ line, rest))

-- ReadString: at the end of standard input, what is left.
unfoldable pub read_line : Text → List Text → Text × Reader
unfolding split_line
read_line buffer [] = elim (split_line buffer) [
  | some (line, rest) ↦ (line, record { buffer = rest; chunks = [] })
  | none ↦ (buffer, record { buffer = []; chunks = [] })
]
read_line buffer (c ∷ cs) =
    let more = read_line (buffer ++ c) cs in
    elim (split_line buffer) [
      | some (line, rest) ↦ (line, record { buffer = rest; chunks = c ∷ cs })
      | none ↦ more
    ]

unfoldable pub trim_left : Text → Text
trim_left [] = []
trim_left (c ∷ cs) = if is_space c then trim_left cs else c ∷ cs

unfoldable pub trim_right : Text → Text
trim_right [] = []
trim_right (c ∷ cs) =
    let rest = trim_right cs in if is_space c && bytes_eq rest [] then [] else c ∷ rest

-- The trimmed line of the next answer.
unfoldable pub answer : Reader → Text × Reader
unfolding read_line trim_left trim_right
answer w = let (line, next) = read_line w.buffer w.chunks in (trim_right (trim_left line), next)

unfoldable pub ask : Reader → Text → Text × Reader
unfolding answer
ask w otherwise =
    let (line, next) = answer w in (if bytes_eq line [] then otherwise else line, next)

-- The loops run on fuel, one unit for a prompt.
unfoldable pub ask_required : ℕ → Reader → Option (Text × Reader)
unfolding ask
ask_required zero w = none
ask_required (suc n) w =
    let (v, next) = ask w [] in
    let again = ask_required n next in if bytes_eq v [] then again else some (v, next)

unfoldable pub lower : Text → Text
lower [] = []
lower (c ∷ cs) = (if leb 65 c && leb c 90 then c + 32 else c) ∷ lower cs

-- What an answer means, `none` if it is none of the six.
unfoldable pub meaning : Text → Bool → Option Bool
meaning line otherwise =
    if bytes_eq line []
    then some otherwise
    else if bytes_eq line (codes "y") || bytes_eq line (codes "yes")
    then some true
    else if bytes_eq line (codes "n") || bytes_eq line (codes "no")
    then some false
    else none

unfoldable pub yes_no : ℕ → Reader → Bool → Option (Bool × Reader)
unfolding answer lower meaning
yes_no zero w otherwise = none
yes_no (suc n) w otherwise =
    let (line, next) = answer w in
    let again = yes_no n next otherwise in
    elim (meaning (lower line) otherwise) [ some b ↦ some (b, next) | none ↦ again ]

unfoldable pub is_option : Text → List Text → Bool
is_option v [] = false
is_option v (o ∷ opts) = bytes_eq v o || is_option v opts

unfoldable pub choice : ℕ → Reader → List Text → Text → Option (Text × Reader)
unfolding ask is_option
choice zero w opts otherwise = none
choice (suc n) w opts otherwise =
    let (v, next) = ask w otherwise in
    let again = choice n next opts otherwise in if is_option v opts then some (v, next) else again

-- wizApply's question, which a reader of its own asks: whether the setup is applied.
unfoldable pub apply_now : ℕ → Reader → Option Bool
unfolding new_wiz yes_no
apply_now n w = do (yes_, next) ← yes_no n (new_wiz w) true; some yes_
