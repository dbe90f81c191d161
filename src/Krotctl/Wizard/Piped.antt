-- ===== src/Krotctl/Wizard/Piped.antt =====
-- What becomes of the last answer when the answers are piped.
use krot_vpn.Prelude.{
  ℕ, zero, suc, ◌≡◌, refl, ◌⊎◌, inl, inr, Bool, true, Option, none, some, List, [], ◌∷◌, arith,
  Bool-cases, Option-cases,
}
use mathlib.Core.Path.{subst}
use krot_vpn.Netif.{Text}
use krot_vpn.Prelude.Bytes.{bytes_eq}
use krot_vpn.Krotctl.Wizard.{
  Reader, new_wiz, read_line, answer, ask, ask_required, meaning, yes_no, choice, apply_now,
  split_line, trim_left, trim_right, lower, is_option,
}

-- A prompt of a session.
pub data Prompt : Type 0 where
  asked : Text → Prompt
  required : Prompt
  confirmed : Bool → Prompt
  chosen : List Text → Text → Prompt

abbrev pub after_answer : {A : Type 0} → Option (A × Reader) → Option Reader
after_answer none = none
after_answer (some (a, w)) = some w

unfoldable pub prompt : ℕ → Reader → Prompt → Option Reader
unfolding ask ask_required yes_no choice
prompt n w (asked otherwise) = some (ask w otherwise).1
prompt n w required = after_answer (ask_required n w)
prompt n w (confirmed otherwise) = after_answer (yes_no n w otherwise)
prompt n w (chosen opts otherwise) = after_answer (choice n w opts otherwise)

-- A session: the prompts in order.
unfoldable pub session : ℕ → Reader → List Prompt → Option Reader
unfolding prompt
session n w [] = some w
session n w (p ∷ ps) = elim (prompt n w p) [ none ↦ none | some next ↦ session n next ps ]

-- All of standard input is in one read, which is done or still to do.
abbrev Piped : Reader → Type 0
Piped w = (w.chunks ≡ []) ⊎ ((c : Text) × (w.buffer ≡ []) × (w.chunks ≡ c ∷ []))

-- An answer is read: nothing is left on standard input.
abbrev Drained : Option Reader → Type 0
Drained none = Unit
Drained (some w) = w.chunks ≡ []

read_line-drained : (buffer : Text) → (read_line buffer []).1.chunks ≡ []
unfolding read_line
read_line-drained buffer = ground arith

answer-drained : (w : Reader) → Piped w → (answer w).1.chunks ≡ []
unfolding answer read_line split_line
answer-drained w (inl done) = rw done (read_line-drained w.buffer)
answer-drained w (inr (c, empty, one)) = rw (one, empty) (read_line-drained c)

ask_required-Drained : (n : ℕ) (w : Reader) → Piped w → Drained (after_answer (ask_required n w))
unfolding ask_required ask
ask_required-Drained zero w piped = tt
ask_required-Drained (suc n) w piped =
    let drained = answer-drained w piped in
    elim (Bool-cases (bytes_eq (ask w []).0 [])) [
      | inl blank ↦ rw (ask_required, blank) (ask_required-Drained n (answer w).1 (inl drained))
      | inr given ↦ rw (ask_required, given) drained
    ]

yes_no-Drained :
    (n : ℕ) (w : Reader) (otherwise : Bool)
    → Piped w
    → Drained (after_answer (yes_no n w otherwise))
unfolding yes_no
yes_no-Drained zero w otherwise piped = tt
yes_no-Drained (suc n) w otherwise piped =
    let drained = answer-drained w piped in
    elim (Option-cases (meaning (lower (answer w).0) otherwise)) [
      | inl unclear ↦ rw (yes_no, unclear) (yes_no-Drained n (answer w).1 otherwise (inl drained))
      | inr (b, clear) ↦ rw (yes_no, clear) drained
    ]

choice-Drained :
    (n : ℕ) (w : Reader) (opts : List Text) (otherwise : Text)
    → Piped w
    → Drained (after_answer (choice n w opts otherwise))
unfolding choice ask
choice-Drained zero w opts otherwise piped = tt
choice-Drained (suc n) w opts otherwise piped =
    let drained = answer-drained w piped in
    elim (Bool-cases (is_option (ask w otherwise).0 opts)) [
      | inl offered ↦ rw (choice, offered) drained
      | inr other ↦ rw (choice, other) (choice-Drained n (answer w).1 opts otherwise (inl drained))
    ]

prompt-Drained : (n : ℕ) (w : Reader) (p : Prompt) → Piped w → Drained (prompt n w p)
unfolding prompt ask
prompt-Drained n w (asked otherwise) piped = answer-drained w piped
prompt-Drained n w required piped = ask_required-Drained n w piped
prompt-Drained n w (confirmed otherwise) piped = yes_no-Drained n w otherwise piped
prompt-Drained n w (chosen opts otherwise) piped = choice-Drained n w opts otherwise piped

session-Drained : (n : ℕ) (w : Reader) (ps : List Prompt) → w.chunks ≡ [] → Drained (session n w ps)
unfolding session
session-Drained n w [] drained = drained
session-Drained n w (p ∷ ps) drained = elim (Option-cases (prompt n w p)) [
  | inl never ↦ rw (session, never) tt
  | inr (next, answered) ↦
      let here : Drained (some next) =
        subst Drained answered (prompt-Drained n w p (inl drained)) in
      rw (session, answered) (session-Drained n next ps here)
]

-- The question at the end finds standard input at its end, and takes that for yes.
apply_now-drained : (n : ℕ) (w : Reader) → w.chunks ≡ [] → apply_now (suc n) w ≡ some true
unfolding apply_now new_wiz yes_no answer read_line split_line trim_left trim_right lower meaning
apply_now-drained n w drained = rw drained refl

-- Piped answers lose the last one: if all of them come in one read of standard input, then
-- whatever they say, and whichever prompts a session has, one at least, the question of whether to
-- apply the setup is answered by its default, yes.
pub piped_applied :
    (n m : ℕ) (input : Text) (p : Prompt) (ps : List Prompt) (w : Reader)
    → session n (record { buffer = []; chunks = input ∷ [] }) (p ∷ ps) ≡ some w
    → apply_now (suc m) w ≡ some true
unfolding session
piped_applied n m input p ps w ran =
    let start : Reader = record { buffer = []; chunks = input ∷ [] } in
    elim (Option-cases (prompt n start p)) [
      | inl never ↦ absurd (ground (arith, never, ran))
      | inr (next, answered) ↦
          let first : Drained (some next) =
            subst Drained answered (prompt-Drained n start p (inr (input, refl, refl))) in
          let rest : session n next ps ≡ some w = ground (arith, answered, ran) in
          let end : Drained (some w) = subst Drained rest (session-Drained n next ps first) in
          apply_now-drained m w end
    ]
