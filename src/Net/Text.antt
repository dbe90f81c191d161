-- ===== src/Net/Text.antt =====
-- An address that is printed is parsed back.
use krot_vpn.Prelude.{
  ℕ, ◌+◌, ◌-◌, ◌*◌, ◌/◌, ◌%◌, ◌^◌, ◌≤◌, ◌<◌, ◌≡◌, ap, ◌∙◌, ◌≢◌, ◌⊎◌, inl, inr, some, List, [], ◌∷◌,
  ◌++◌, arith, ltb, ltb→lt, ltb_false→le, Bool-cases,
}
use krot_vpn.Net.{print_dec, print_quad, parse_fields, parse_ipv4}

digit_step :
    (pos acc len val d v : ℕ) (cs : List ℕ)
    → d < 10
    → (len ≢ 1) ⊎ (0 < val)
    → val * 10 + d ≡ v
    → v ≤ 255
    → parse_fields pos acc len val ((b'0' + d) ∷ cs) ≡ parse_fields pos acc (len + 1) v cs
unfolding parse_fields
digit_step pos acc len val d v cs small lead e fits =
    let f : b'0' + d - b'0' ≡ d = omega arith in ground (arith, f)

dot_step :
    (pos acc len val : ℕ) (cs : List ℕ)
    → 0 < len
    → pos < 3
    → parse_fields pos acc len val (b'.' ∷ cs) ≡ parse_fields (pos + 1) (acc * 256 + val) 0 0 cs
unfolding parse_fields
dot_step pos acc len val cs some_digits room = ground arith

two_digits :
    (pos acc b : ℕ) (cs : List ℕ)
    → 10 ≤ b
    → b < 100
    → parse_fields pos acc 0 0 ((b'0' + b / 10) ∷ (b'0' + b % 10) ∷ cs)
      ≡ parse_fields pos acc 2 b cs
two_digits pos acc b cs lo hi =
    digit_step pos acc 0 0 (b / 10) (b / 10) _ (omega arith) (omega arith) (omega arith)
      (omega arith)
    ∙ digit_step pos acc 1 (b / 10) (b % 10) b cs (omega arith) (omega arith) (omega arith)
        (omega arith)

three_digits :
    (pos acc b : ℕ) (cs : List ℕ)
    → 100 ≤ b
    → b < 256
    → parse_fields pos acc 0 0 ((b'0' + b / 100) ∷ (b'0' + b / 10 % 10) ∷ (b'0' + b % 10) ∷ cs)
      ≡ parse_fields pos acc 3 b cs
three_digits pos acc b cs lo hi =
    digit_step pos acc 0 0 (b / 100) (b / 100) _ (omega arith) (omega arith) (omega arith)
      (omega arith)
    ∙ digit_step pos acc 1 (b / 100) (b / 10 % 10) (b / 10) _ (omega arith) (omega arith)
        (omega arith) (omega arith)
    ∙ digit_step pos acc 2 (b / 10) (b % 10) b cs (omega arith) (omega arith) (omega arith)
        (omega arith)

-- One field, with the number of its digits.
field_step :
    (pos acc b : ℕ) (cs : List ℕ)
    → b < 256
    → (len : ℕ) × (0 < len)
      × (parse_fields pos acc 0 0 (print_dec b ++ cs) ≡ parse_fields pos acc len b cs)
unfolding print_dec
field_step pos acc b cs h = elim (Bool-cases (ltb b 10)) [
  | inl one ↦ (
    1,
    omega arith,
    rw one
        (digit_step pos acc 0 0 b b cs (ltb→lt _ _ one) (omega arith) (omega arith) (omega arith)),
  )
  | inr more ↦ elim (Bool-cases (ltb b 100)) [
    | inl two ↦ (
      2,
      omega arith,
      rw (more, two) (two_digits pos acc b cs (ltb_false→le _ _ more) (ltb→lt _ _ two)),
    )
    | inr three ↦
        (3, omega arith, rw (more, three) (three_digits pos acc b cs (ltb_false→le _ _ three) h))
  ]
]

-- A field and the dot behind it.
field_dot :
    (pos acc b : ℕ) (cs : List ℕ)
    → b < 256
    → pos < 3
    → parse_fields pos acc 0 0 (print_dec b ++ b'.' ∷ cs)
      ≡ parse_fields (pos + 1) (acc * 256 + b) 0 0 cs
field_dot pos acc b cs h room =
    let (len, digits, read) = field_step pos acc b (b'.' ∷ cs) h in
    read ∙ dot_step pos acc len b cs digits room

field_end :
    (acc b : ℕ) → b < 256 → parse_fields 3 acc 0 0 (print_dec b ++ []) ≡ some (acc * 256 + b)
unfolding parse_fields
field_end acc b h = let (len, digits, read) = field_step 3 acc b [] h in read ∙ ground arith

-- The dotted form of a 32-bit address parses to the address.
pub parse-print_quad : (ip : ℕ) → ip < 2 ^ 32 → parse_ipv4 (print_quad ip []) ≡ some ip
unfolding parse_ipv4
parse-print_quad ip h =
    field_dot 0 0 (ip / 2 ^ 24 % 256) _ (omega arith) (omega arith)
    ∙ field_dot 1 _ (ip / 2 ^ 16 % 256) _ (omega arith) (omega arith)
    ∙ field_dot 2 _ (ip / 2 ^ 8 % 256) _ (omega arith) (omega arith)
    ∙ field_end _ (ip % 256) (omega arith)
    ∙ ap some (omega arith)
