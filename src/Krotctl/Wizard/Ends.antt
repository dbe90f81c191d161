-- ===== src/Krotctl/Wizard/Ends.antt =====
-- Which prompts end, whatever is on standard input.
use krot_vpn.Prelude.{
  ℕ, zero, suc, ◌+◌, ◌≤◌, ◌≡◌, refl, sym, ◌⊎◌, inl, inr, Bool, true, none, some, List, [], ◌∷◌,
  ◌++◌, arith, ◌==◌, if◌then◌else◌, Bool-cases, Option-cases,
}
use mathlib.Core.Path.{subst}
use krot_vpn.Krotctl.Wizard.{
  Reader, split_line, read_line, trim_left, trim_right, answer, ask, ask_required, lower, meaning,
  yes_no, is_option, choice,
}
use krot_vpn.Netif.{Text}

-- The line breaks.
unfoldable pub breaks : Text → ℕ
breaks [] = 0
breaks (c ∷ cs) = (if c == 10 then 1 else 0) + breaks cs

unfoldable pub breaks_all : List Text → ℕ
unfolding breaks
breaks_all [] = 0
breaks_all (c ∷ cs) = breaks c + breaks_all cs

-- The line breaks that are left in the buffer and on standard input.
abbrev pub lines_left : Reader → ℕ
lines_left w = breaks w.buffer + breaks_all w.chunks

abbrev pub ended : Reader
ended = record { buffer = []; chunks = [] }

breaks-append : (a b : Text) → breaks (a ++ b) ≡ breaks a + breaks b
unfolding breaks
breaks-append [] b = omega arith
breaks-append (c ∷ a) b = omega (arith, breaks-append a b)

breaks-split_line :
    (t line rest : Text) → split_line t ≡ some (line, rest) → breaks t ≡ breaks rest + 1
unfolding breaks split_line
breaks-split_line [] line rest e = absurd (ground (arith, e))
breaks-split_line (c ∷ cs) line rest e = elim (Bool-cases (c == 10)) [
  | inl here ↦ ground (arith, here, e)
  | inr other ↦ elim (Option-cases (split_line cs)) [
    | inl none_ ↦ absurd (ground (arith, other, none_, e))
    | inr ((l, r), found) ↦ ground (arith, other, found, e, breaks-split_line cs l r found)
  ]
]

-- A line that is read has a line break, or it is the last one.
read_line_lem :
    (buffer : Text) (chunks : List Text)
    → (lines_left (read_line buffer chunks).1 + 1 ≡ breaks buffer + breaks_all chunks)
      ⊎ ((read_line buffer chunks).1 ≡ ended)
unfolding read_line breaks_all
read_line_lem buffer [] = elim (Option-cases (split_line buffer)) [
  | inl last ↦ rw (read_line, last) (inr refl)
  | inr ((line, rest), found) ↦
      rw (read_line, found) (inl (omega (arith, breaks-split_line buffer line rest found)))
]
read_line_lem buffer (c ∷ cs) = elim (Option-cases (split_line buffer)) [
  | inl whole ↦
      rw (read_line, whole)
        (elim (read_line_lem (buffer ++ c) cs) [
          | inl fewer ↦ inl (omega (arith, breaks-append buffer c, fewer))
          | inr last ↦ inr last
        ])
  | inr ((line, rest), found) ↦
      rw (read_line, found) (inl (omega (arith, breaks-split_line buffer line rest found)))
]

yes_no-ended : (n : ℕ) (otherwise : Bool) → yes_no (suc n) ended otherwise ≡ some (otherwise, ended)
unfolding yes_no answer read_line split_line trim_left trim_right lower meaning
yes_no-ended n otherwise = refl

choice-ended :
    (n : ℕ) (opts : List Text) (otherwise : Text)
    → is_option otherwise opts ≡ true
    → choice (suc n) ended opts otherwise ≡ some (otherwise, ended)
unfolding choice ask answer read_line split_line trim_left trim_right
choice-ended n opts otherwise h = rw h refl

yes_no_returns :
    (n : ℕ) (w : Reader) (otherwise : Bool)
    → lines_left w + 2 ≤ n
    → (r : Bool × Reader) × (yes_no n w otherwise ≡ some r)
unfolding yes_no answer
yes_no_returns zero w otherwise h = absurd (omega arith)
yes_no_returns (suc zero) w otherwise h = absurd (omega arith)
yes_no_returns (suc (suc n)) w otherwise h =
    elim (Option-cases (meaning (lower (answer w).0) otherwise)) [
      | inr (b, clear) ↦ rw (yes_no, clear) ((b, (answer w).1), refl)
      | inl unclear ↦
          rw (yes_no, unclear)
            (elim (read_line_lem w.buffer w.chunks) [
              | inl fewer ↦ yes_no_returns (suc n) (answer w).1 otherwise (omega (arith, fewer))
              | inr last ↦
                  subst (λ v. (r : Bool × Reader) × (yes_no (suc n) v otherwise ≡ some r))
                    (sym last) ((otherwise, ended), yes_no-ended n otherwise)
            ])
    ]

choice_returns :
    (n : ℕ) (w : Reader) (opts : List Text) (otherwise : Text)
    → is_option otherwise opts ≡ true
    → lines_left w + 2 ≤ n
    → (r : Text × Reader) × (choice n w opts otherwise ≡ some r)
unfolding choice ask answer
choice_returns zero w opts otherwise o h = absurd (omega arith)
choice_returns (suc zero) w opts otherwise o h = absurd (omega arith)
choice_returns (suc (suc n)) w opts otherwise o h =
    elim (Bool-cases (is_option (ask w otherwise).0 opts)) [
      | inl offered ↦ rw (choice, offered) (((ask w otherwise).0, (answer w).1), refl)
      | inr other ↦
          rw (choice, other)
            (elim (read_line_lem w.buffer w.chunks) [
              | inl fewer ↦
                  choice_returns (suc n) (answer w).1 opts otherwise o (omega (arith, fewer))
              | inr last ↦ rw last ((otherwise, ended), choice-ended n opts otherwise o)
            ])
    ]

-- A question with a default returns, whatever is on standard input: a `yes_no` with two prompts
-- more than there are line breaks left, and a `choice` as well if its default is one of the
-- options.
pub prompts_return :
    (n : ℕ) (w : Reader) (opts : List Text) (otherwise : Text) (default_answer : Bool)
    → is_option otherwise opts ≡ true
    → lines_left w + 2 ≤ n
    → ((r : Bool × Reader) × (yes_no n w default_answer ≡ some r))
      × ((r : Text × Reader) × (choice n w opts otherwise ≡ some r))
prompts_return n w opts otherwise default_answer offered enough =
    (yes_no_returns n w default_answer enough, choice_returns n w opts otherwise offered enough)

-- A required value is asked for without end once standard input has ended: no number of prompts is
-- enough.
pub ask_required-ended : (n : ℕ) → ask_required n ended ≡ none
unfolding ask_required ask answer read_line split_line trim_left trim_right
ask_required-ended zero = refl
ask_required-ended (suc n) = ask_required-ended n
