-- ===== src/Socks/Replies.antt =====
-- What the proxy answers on each path.
use krot_vpn.Prelude.{
  ℕ, ◌+◌, ◌≤◌, ◌<◌, ◌≡◌, refl, ◌∙◌, ◌⊎◌, inl, inr, Bool, true, false, not, ◌&&◌, ◌||◌, none, some,
  List, [], ◌∷◌, arith, length, length-drop, get_or, take, drop, leb, ltb, ltb→lt, ltb_false→le,
  ◌==◌, if◌then◌else◌, Bool-cases, Result, ok, err,
}
use native.Mathlib.Decide.{ℕ_discrete}
use krot_vpn.Net.{print_quad}
use krot_vpn.Prelude.Bytes.{uint}
use krot_vpn.Socks.{
  Texts, Answer, Error, bad_atyp, read_full, read_domain, read_host, read_port, read_request,
  handshake, host_error, reply,
}

abbrev pub is_ok : {A : Type 0} → Result Error A → Bool
is_ok (ok a) = true
is_ok (err e) = false

abbrev pub byte : List ℕ → ℕ → ℕ
byte input i = get_or input i 0

-- The greeting is there in full: version, number of methods, methods.
abbrev pub is_greeting : List ℕ → Bool
is_greeting input =
    leb 2 (length input) && ((byte input 0 == 5) && leb (byte input 1) (length (drop 2 input)))

-- What stands behind the greeting.
abbrev pub behind_greeting : List ℕ → List ℕ
behind_greeting input = drop (byte input 1) (drop 2 input)

-- The four bytes of a request, of version 5.
abbrev pub is_request : List ℕ → Bool
is_request r = leb 4 (length r) && (byte r 0 == 5)

-- CONNECT, to an address of a type that SOCKS5 has: IPv4, a domain name, IPv6.
abbrev pub is_supported : List ℕ → Bool
is_supported r = (byte r 1 == 1) && ((byte r 3 == 1) || ((byte r 3 == 3) || (byte r 3 == 4)))

-- The length of such a request, the address and the port included.
abbrev pub request_length : List ℕ → ℕ
request_length r = if byte r 3 == 1 then 10 else if byte r 3 == 4 then 22 else 7 + byte r 4

abbrev pub is_refused : List ℕ → Bool
is_refused r = is_request r && not (is_supported r)

abbrev pub is_accepted : List ℕ → Bool
is_accepted r = is_request r && (is_supported r && leb (request_length r) (length r))

-- What the request's part sends, and whether it ends well.
abbrev pub Answers : List ℕ → Answer → Type 0
Answers r a = (a.out ≡ (if is_refused r then reply 7 else [])) × (is_ok a.result ≡ is_accepted r)

-- The port is read to the end if two bytes are left.
read_port-answer :
    (texts : Texts) (host input : List ℕ)
    → ((read_port texts host input).out ≡ [])
      × (is_ok (read_port texts host input).result ≡ leb 2 (length input))
unfolding read_port read_full
read_port-answer texts host input = ground arith

read_full-cases :
    (n : ℕ) (input : List ℕ)
    → ((length input < n) × (read_full n input ≡ none))
      ⊎ ((n ≤ length input) × (read_full n input ≡ some (take n input, drop n input)))
unfolding read_full
read_full-cases n input = elim (Bool-cases (ltb (length input) n)) [
  | inl short ↦ inl (ltb→lt _ _ short, rw short refl)
  | inr enough ↦ inr (ltb_false→le _ _ enough, rw enough refl)
]

-- The address and the port, by the type.
tail_answer : Texts → ℕ → List ℕ → Answer
tail_answer texts atyp rest = elim (read_host texts atyp rest) [
  | err e ↦ host_error e
  | ok (host, rest') ↦ read_port texts host rest'
]

-- An address of `n` bytes, with the port behind it.
abbrev Sized : ℕ → List ℕ → Answer → Type 0
Sized n rest a = (a.out ≡ []) × (is_ok a.result ≡ leb (n + 2) (length rest))

tail_answer-ipv4 : (texts : Texts) (rest : List ℕ) → Sized 4 rest (tail_answer texts 1 rest)
unfolding tail_answer read_host
tail_answer-ipv4 texts rest = elim (read_full-cases 4 rest) [
  | inl (short, e) ↦ rw (e, tail_answer, read_host) (ground (arith, short))
  | inr (enough, e) ↦
      let (silent, ends) =
        read_port-answer texts (print_quad (uint (take 4 rest)) []) (drop 4 rest) in
      rw (e, tail_answer, read_host) (silent, ends ∙ ground (arith, length-drop 4 rest))
]

tail_answer-ipv6 : (texts : Texts) (rest : List ℕ) → Sized 16 rest (tail_answer texts 4 rest)
unfolding tail_answer read_host
tail_answer-ipv6 texts rest = elim (read_full-cases 16 rest) [
  | inl (short, e) ↦ rw (e, tail_answer, read_host) (ground (arith, short))
  | inr (enough, e) ↦
      let (silent, ends) = read_port-answer texts (texts.ip6 (take 16 rest)) (drop 16 rest) in
      rw (e, tail_answer, read_host) (silent, ends ∙ ground (arith, length-drop 16 rest))
]

read_domain-cons : (l : ℕ) (rest : List ℕ) → read_domain (l ∷ rest) ≡ read_full l rest
unfolding read_domain read_full
read_domain-cons l rest = ground arith

read_domain-nil : read_domain [] ≡ none
unfolding read_domain read_full
read_domain-nil = refl

tail_answer-domain :
    (texts : Texts) (rest : List ℕ) → Sized (1 + byte rest 0) rest (tail_answer texts 3 rest)
unfolding tail_answer read_host
tail_answer-domain texts [] = rw (read_domain-nil, tail_answer, read_host) (ground arith)
tail_answer-domain texts (l ∷ rest) = elim (read_full-cases l rest) [
  | inl (short, e) ↦ rw (read_domain-cons l rest, e, tail_answer, read_host) (ground (arith, short))
  | inr (enough, e) ↦
      let (silent, ends) = read_port-answer texts (take l rest) (drop l rest) in
      rw (read_domain-cons l rest, e, tail_answer, read_host)
        (silent, ends ∙ ground (arith, length-drop l rest))
]

tail_answer-other :
    (texts : Texts) (atyp : ℕ) (rest : List ℕ)
    → (atyp == 1) ≡ false
    → (atyp == 3) ≡ false
    → (atyp == 4) ≡ false
    → tail_answer texts atyp rest ≡ host_error bad_atyp
unfolding tail_answer read_host
tail_answer-other texts atyp rest h1 h3 h4 = rw (h1, h4, h3, tail_answer, read_host) refl

tail_answer-Answers :
    (texts : Texts) (z atyp : ℕ) (rest : List ℕ)
    → Answers (5 ∷ 1 ∷ z ∷ atyp ∷ rest) (tail_answer texts atyp rest)
tail_answer-Answers texts z atyp rest = elim (ℕ_discrete atyp 1) [
  | yes four ↦ rw four (ground (arith, tail_answer-ipv4 texts rest))
  | no other ↦ elim (ℕ_discrete atyp 4) [
    | yes six ↦ rw six (ground (arith, tail_answer-ipv6 texts rest))
    | no other' ↦ elim (ℕ_discrete atyp 3) [
      | yes name ↦ rw name (ground (arith, tail_answer-domain texts rest))
      | no unknown ↦
          rw (tail_answer-other texts atyp rest (ground arith) (ground arith) (ground arith))
            (ground arith)
    ]
  ]
]

read_full-four :
    (v c z a : ℕ) (rest : List ℕ)
    → read_full 4 (v ∷ c ∷ z ∷ a ∷ rest) ≡ some (v ∷ c ∷ z ∷ a ∷ [], rest)
unfolding read_full
read_full-four v c z a rest =
    let enough : ltb (length (v ∷ c ∷ z ∷ a ∷ rest)) 4 ≡ false = ground arith in rw enough refl

read_request-connect :
    (texts : Texts) (z atyp : ℕ) (rest : List ℕ)
    → read_request texts (5 ∷ 1 ∷ z ∷ atyp ∷ rest) ≡ tail_answer texts atyp rest
unfolding read_request tail_answer
read_request-connect texts z atyp rest =
    rw (read_full-four 5 1 z atyp rest, read_request, tail_answer) refl

read_request-Answers : (texts : Texts) (r : List ℕ) → Answers r (read_request texts r)
unfolding read_request read_full
read_request-Answers texts [] = ground arith
read_request-Answers texts (v ∷ []) = ground arith
read_request-Answers texts (v ∷ c ∷ []) = ground arith
read_request-Answers texts (v ∷ c ∷ z ∷ []) = ground arith
read_request-Answers texts (v ∷ c ∷ z ∷ atyp ∷ rest) = elim (ℕ_discrete v 5) [
  | no other ↦ ground arith
  | yes five ↦ elim (ℕ_discrete c 1) [
    | no other ↦ ground arith
    | yes connect ↦
        rw (five, connect, read_request-connect texts z atyp rest)
          (tail_answer-Answers texts z atyp rest)
  ]
]

-- What the proxy's handshake sends on every input, by the bytes alone: nothing unless the greeting
-- is there in full, of version 5, and its answer can be written; then the no-authentication reply,
-- followed by a "command not supported" reply exactly if the four bytes of a version 5 request
-- stand behind the greeting and it is no CONNECT or its address type is none of the three. It ends
-- with a target exactly if, behind a greeting that was answered, there is a CONNECT of version 5
-- with one of the three address types, with its address and port in full.
pub handshake-answers :
    (texts : Texts) (writable : Bool) (input : List ℕ)
    → let a = handshake texts writable input in
      let r = behind_greeting input in
      let answered = is_greeting input && writable in
      (a.out ≡ (if answered then 5 ∷ 0 ∷ (if is_refused r then reply 7 else []) else []))
      × (is_ok a.result ≡ (answered && is_accepted r))
unfolding handshake read_full
handshake-answers texts writable [] = ground arith
handshake-answers texts writable (v ∷ []) = ground arith
handshake-answers texts writable (v ∷ n ∷ rest) =
    ground (arith, read_request-Answers texts (drop n rest))
