-- ===== src/Krotctl/ClientFlags/Accepted.antt =====
-- What the wizard collects passes the guards of `client up`.
use krot_vpn.Prelude.{
  ℕ, zero, suc, ◌≡◌, ap, inl, inr, Bool, true, false, Option, some, List, [], arith, Bool-cases,
  >>=-eq-some,
}
use mathlib.Core.Path.{subst}
use mathlib.Core.Option.{some-injective}
use krot_vpn.Krotctl.ClientFlags.{
  default_flags, parse_flags, Answers, client_args, modes, ask_target, ask_credentials, ask_tuning,
  ask_socks, ask_overwrite, wizard_client,
}
use krot_vpn.Krotctl.ClientFlags.Written.{flags_of, client_args-parsed}
use krot_vpn.Krotctl.ClientUp.{is_mode, is_missing}
use krot_vpn.Krotctl.Names.{client_cfg_path}
use krot_vpn.Krotctl.Wizard.{Reader, ask, ask_required, is_option, choice}
use krot_vpn.Netif.{Text}
use krot_vpn.Prelude.Bytes.{codes, bytes_eq}
use krot_vpn.Prelude.Int.{ℤ}

pub ask_required-given :
    (n : ℕ) (w : Reader) (v : Text) (next : Reader)
    → ask_required n w ≡ some (v, next)
    → bytes_eq v [] ≡ false
unfolding ask_required
ask_required-given zero w v next h = absurd (ground (arith, h))
ask_required-given (suc n) w v next h = elim (Bool-cases (bytes_eq (ask w []).0 [])) [
  | inl blank ↦ ask_required-given n (ask w []).1 v next (ground (arith, blank, h))
  | inr given ↦ ground (arith, given, h)
]

choice-offered :
    (n : ℕ) (w : Reader) (opts : List Text) (otherwise v : Text) (next : Reader)
    → choice n w opts otherwise ≡ some (v, next)
    → is_option v opts ≡ true
unfolding choice
choice-offered zero w opts otherwise v next h = absurd (ground (arith, h))
choice-offered (suc n) w opts otherwise v next h =
    elim (Bool-cases (is_option (ask w otherwise).0 opts)) [
      | inl offered ↦ ground (arith, offered, h)
      | inr other ↦
          choice-offered n (ask w otherwise).1 opts otherwise v next (ground (arith, other, h))
    ]

modes-is_mode : (v : Text) → is_option v modes ≡ true → is_mode v ≡ true
unfolding is_option is_mode
modes-is_mode v h = ground (arith, h)

-- The six answers that `client up` tests.
record IsComplete (a : Answers) : Type 0 where
  mode_known : is_mode a.mode ≡ true
  server_given : bytes_eq a.server [] ≡ false
  sni_given : bytes_eq a.sni [] ≡ false
  path_given : bytes_eq a.path [] ≡ false
  psk_given : bytes_eq a.psk [] ≡ false
  server_pub_given : bytes_eq a.server_pub [] ≡ false

ask_target-given :
    (n : ℕ) (w : Reader) (server port sni : Text) (next : Reader)
    → ask_target n w ≡ some ((server, port, sni), next)
    → (bytes_eq server [] ≡ false) × (bytes_eq sni [] ≡ false)
unfolding ask_target
ask_target-given n w server port sni next h =
    let ((server', w1), r1, h1) = >>=-eq-some (ask_required n w) _ h in
    let w2 = (ask w1 (codes "443")).1 in
    let ((sni', w3), r2, h2) = >>=-eq-some (ask_required n w2) _ h1 in
    let same = some-injective _ _ h2 in
    (
      subst (λ x. bytes_eq x [] ≡ false) (ap (λ p. p.0.0) same)
          (ask_required-given n w server' w1 r1),
      subst (λ x. bytes_eq x [] ≡ false) (ap (λ p. p.0.2) same)
          (ask_required-given n w2 sni' w3 r2),
    )

ask_credentials-given :
    (n : ℕ) (w : Reader) (path psk server_pub : Text) (next : Reader)
    → ask_credentials n w ≡ some ((path, psk, server_pub), next)
    → (bytes_eq path [] ≡ false) × (bytes_eq psk [] ≡ false) × (bytes_eq server_pub [] ≡ false)
unfolding ask_credentials
ask_credentials-given n w path psk server_pub next h =
    let ((path', w1), r1, h1) = >>=-eq-some (ask_required n w) _ h in
    let ((psk', w2), r2, h2) = >>=-eq-some (ask_required n w1) _ h1 in
    let ((pub', w3), r3, h3) = >>=-eq-some (ask_required n w2) _ h2 in
    let same = some-injective _ _ h3 in
    (
      subst (λ x. bytes_eq x [] ≡ false) (ap (λ p. p.0.0) same)
          (ask_required-given n w path' w1 r1),
      subst (λ x. bytes_eq x [] ≡ false) (ap (λ p. p.0.1) same)
          (ask_required-given n w1 psk' w2 r2),
      subst (λ x. bytes_eq x [] ≡ false) (ap (λ p. p.0.2) same)
          (ask_required-given n w2 pub' w3 r3),
    )

wizard_client-IsComplete :
    (n : ℕ) (is_file : Text → Bool) (w : Reader) (a : Answers) (next : Reader)
    → wizard_client n is_file w ≡ some (a, next)
    → IsComplete a
unfolding wizard_client
wizard_client-IsComplete n is_file w a next h =
    let w1 = (ask w (codes "default")).1 in
    let ((mode, w2), chosen, h1) = >>=-eq-some (choice n w1 modes (codes "full")) _ h in
    let (((server, port, sni), w3), r1, h2) = >>=-eq-some (ask_target n w2) _ h1 in
    let (((path, psk, server_pub), w4), r2, h3) = >>=-eq-some (ask_credentials n w3) _ h2 in
    let (((channels, mtu, insecure), w5), r3, h4) = >>=-eq-some (ask_tuning n w4) _ h3 in
    let there = is_file (client_cfg_path (ask w (codes "default")).0) in
    let ((overwrite, w7), r4, h5) =
      >>=-eq-some (ask_overwrite n (ask_socks w5 mode).1 there) _ h4 in
    let (server_given, sni_given) = ask_target-given n w2 server port sni w3 r1 in
    let (path_given, psk_given, pub_given) = ask_credentials-given n w3 path psk server_pub w4 r2 in
    subst IsComplete (ap (λ p. p.0) (some-injective _ _ h5)) (record {
      mode_known = modes-is_mode mode (choice-offered n w1 modes (codes "full") mode w2 chosen);
      server_given = server_given;
      sni_given = sni_given;
      path_given = path_given;
      psk_given = psk_given;
      server_pub_given = pub_given;
    })

-- What the client's dialogue ends with is a command that `client up` accepts: if its three numbers
-- are numbers, then the flags that the wizard builds are read as the answers that were given, and
-- they pass the tests of the mode and of the required flags.
pub wizard_client-accepted :
    (parse_int : Text → Option ℤ) (n : ℕ) (is_file : Text → Bool) (w : Reader) (a : Answers)
    (next : Reader) (port channels mtu : ℤ)
    → wizard_client n is_file w ≡ some (a, next)
    → parse_int a.port ≡ some port
    → parse_int a.channels ≡ some channels
    → parse_int a.mtu ≡ some mtu
    → let o = flags_of a port channels mtu in
      (parse_flags parse_int default_flags (client_args a) ≡ some o)
      × (is_mode o.mode ≡ true)
      × (is_missing o ≡ false)
unfolding is_missing flags_of default_flags
wizard_client-accepted parse_int n is_file w a next port channels mtu h p c m =
    let complete = wizard_client-IsComplete n is_file w a next h in
    (
      client_args-parsed parse_int a port channels mtu p c m,
      complete.mode_known,
      ground (
        arith, complete.server_given, complete.sni_given, complete.path_given, complete.psk_given,
        complete.server_pub_given,
      ),
    )
