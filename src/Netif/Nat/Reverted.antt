-- ===== src/Netif/Nat/Reverted.antt =====
-- The server's iptables rules are taken away again.
use krot_vpn.Prelude.{
  ℕ, ◌+◌, ◌-◌, ◌≡◌, refl, ap, ◌∙◌, inl, inr, Bool, true, false, ◌&&◌, Option, none, some, List, [],
  ◌∷◌, ◌++◌, map, arith, All, if◌then◌else◌, Bool-cases,
}
use krot_vpn.Prelude.Bytes.{codes, bytes_eq}
use krot_vpn.Netif.{Text, Args, System}
use krot_vpn.Netif.Laws.{is}
use krot_vpn.Netif.Nat.{
  Rule, append_flag, delete_flag, rule_args, iptables, masquerade, forward_out, forward_back,
  server_rules, deletion, nat_through, nat_for, egress_of, delete_rules, install_rules,
  setup_server_nat,
}
use krot_vpn.Netif.SourceRoute.{sysctl_set}

abbrev pub same_rule : Rule → Rule → Bool
same_rule q r = is (rule_args append_flag q) (rule_args append_flag r)

-- `rules`: how often a rule stands in its chain. `-A` adds one, `-D` takes one away if there is
-- one; sysctl does not touch them.
pub record IsIptables (S : System) (rules : S.State → Rule → ℕ) : Type 0 where
  pub appended :
      (s : S.State) (r q : Rule)
      → rules (S.run s (iptables (rule_args append_flag r))).0 q ≡ (
          if (S.run s (iptables (rule_args append_flag r))).1 && same_rule q r
          then rules s q + 1
          else rules s q)
  pub deleted :
      (s : S.State) (r q : Rule)
      → rules (S.run s (iptables (rule_args delete_flag r))).0 q
        ≡ (if same_rule q r then rules s q - 1 else rules s q)
  pub rules-sysctl :
      (s : S.State) (x : Text) (q : Rule) → rules (S.run s (sysctl_set x)).0 q ≡ rules s q

-- What a setup leaves once what it installed is torn down.
abbrev pub settled_nat : (S : System) → S.State × Option (List Args) → S.State
settled_nat S (s, none) = s
settled_nat S (s, some installed) = delete_rules S s installed

-- How often a rule is on a list.
copies : Rule → List Rule → ℕ
copies q [] = 0
copies q (r ∷ rs) = (if same_rule q r then 1 else 0) + copies q rs

copies-append :
    (q r : Rule) (rs : List Rule) → copies q (rs ++ r ∷ []) ≡ copies q rs + copies q (r ∷ [])
unfolding copies
copies-append q r [] = omega arith
copies-append q r (x ∷ rs) = omega (arith, copies-append q r rs)

-- No word of the rule is `-A`.
abbrev Plain : Rule → Type 0
Plain r = deletion (rule_args append_flag r) ≡ rule_args delete_flag r

appends : List Rule → List Args
appends = map (rule_args append_flag)

appends-append :
    (inst : List Rule) (r : Rule)
    → appends inst ++ rule_args append_flag r ∷ [] ≡ appends (inst ++ r ∷ [])
unfolding appends
appends-append [] r = refl
appends-append (x ∷ inst) r = ap (λ l. rule_args append_flag x ∷ l) (appends-append inst r)

Plain-append : (inst : List Rule) (r : Rule) → All Plain inst → Plain r → All Plain (inst ++ r ∷ [])
Plain-append [] r plain p = (p, tt)
Plain-append (x ∷ inst) r (px, plain) p = (px, Plain-append inst r plain p)

copies-nil : (q r : Rule) → copies q (r ∷ []) ≡ (if same_rule q r then 1 else 0)
unfolding copies
copies-nil q r = omega arith

abbrev server_rule_list : Text → Text → Text → List Rule
server_rule_list net tun egress =
    masquerade net egress ∷ forward_out tun egress ∷ forward_back tun egress ∷ []

server_rules-appends :
    (net tun egress : Text)
    → server_rules net tun egress ≡ appends (server_rule_list net tun egress)
unfolding server_rules appends
server_rules-appends net tun egress = refl

server_rules-Plain :
    (net tun egress : Text)
    → bytes_eq net append_flag ≡ false
    → bytes_eq tun append_flag ≡ false
    → bytes_eq egress append_flag ≡ false
    → All Plain (server_rule_list net tun egress)
unfolding deletion rule_args masquerade forward_out forward_back append_flag delete_flag
server_rules-Plain net tun egress n t e = (rw (n, e) refl, (rw (t, e) refl, (rw (t, e) refl, tt)))

module _ (S : System) (rules : S.State → Rule → ℕ) (laws : IsIptables S rules) where
  rules-delete_rules :
      (rs : List Rule) (s : S.State) (q : Rule) (n : ℕ)
      → All Plain rs
      → rules s q ≡ n + copies q rs
      → rules (delete_rules S s (appends rs)) q ≡ n
  unfolding delete_rules appends copies
  rules-delete_rules [] s q n plain h = omega (arith, h)
  rules-delete_rules (r ∷ rs) s q n (p, plain) h =
      rw (delete_rules, p)
        (rules-delete_rules rs (S.run s (iptables (rule_args delete_flag r))).0 q n plain
          (ground (arith, laws.deleted s r q)))

  install_step :
      (s : S.State) (inst rest : List Rule) (r : Rule)
      → (S.run s (iptables (rule_args append_flag r))).1 ≡ true
      → install_rules S s (appends inst) (appends (r ∷ rest))
        ≡ install_rules S
            (S.run s (iptables (rule_args append_flag r))).0
            (appends (inst ++ r ∷ []))
            (appends rest)
  unfolding install_rules appends
  install_step s inst rest r added =
      rw (added, install_rules)
        (ap (λ l. install_rules S (S.run s (iptables (rule_args append_flag r))).0 l (appends rest))
          (appends-append inst r))

  rules-install_rules :
      (rest inst : List Rule) (s : S.State) (q : Rule) (n : ℕ)
      → All Plain inst
      → All Plain rest
      → rules s q ≡ n + copies q inst
      → rules (settled_nat S (install_rules S s (appends inst) (appends rest))) q ≡ n
  unfolding install_rules appends
  rules-install_rules [] inst s q n plain _ h = rules-delete_rules inst s q n plain h
  rules-install_rules (r ∷ rest) inst s q n plain (p, more) h =
      let s1 = (S.run s (iptables (rule_args append_flag r))).0 in
      elim (Bool-cases (S.run s (iptables (rule_args append_flag r))).1) [
        | inr refused ↦
            rw (refused, install_rules)
              (rules-delete_rules inst s1 q n plain (ground (arith, laws.appended s r q)))
        | inl added ↦ rw (install_step s inst rest r added) (
            rules-install_rules rest (inst ++ r ∷ []) s1 q n (Plain-append inst r plain p) more
              (ground (arith, laws.appended s r q, copies-append q r inst, copies-nil q r)))
      ]

  rules-installed :
      (s : S.State) (net tun egress : Text) (q : Rule)
      → All Plain (server_rule_list net tun egress)
      → rules (settled_nat S (install_rules S s [] (server_rules net tun egress))) q ≡ rules s q
  unfolding copies appends
  rules-installed s net tun egress q plain = rw server_rules-appends (
      rules-install_rules (server_rule_list net tun egress) [] s q (rules s q) tt plain
        (omega arith))

  rules-nat_through :
      (s : S.State) (tun net : Text) (egress : Option Text) (q : Rule)
      → bytes_eq net append_flag ≡ false
      → bytes_eq tun append_flag ≡ false
      → ((e : Text) → egress ≡ some e → bytes_eq e append_flag ≡ false)
      → rules (settled_nat S (nat_through S s tun net egress)) q ≡ rules s q
  rules-nat_through s tun net none q n t e = refl
  rules-nat_through s tun net (some egress) q n t e =
      rules-installed s net tun egress q (server_rules-Plain net tun egress n t (e egress refl))

  rules-nat_for :
      (s : S.State) (tun wan : Text) (subnet : Option Text) (q : Rule)
      → bytes_eq tun append_flag ≡ false
      → ((net : Text) → subnet ≡ some net → bytes_eq net append_flag ≡ false)
      → ((e : Text) → egress_of S s wan ≡ some e → bytes_eq e append_flag ≡ false)
      → rules (settled_nat S (nat_for S s tun subnet wan)) q ≡ rules s q
  rules-nat_for s tun wan none q t n e = refl
  rules-nat_for s tun wan (some net) q t n e =
      rules-nat_through s tun net (egress_of S s wan) q (n net refl) t e

  -- The iptables rules are as before once what SetupServerNAT installed is torn down, after a
  -- failure at any of its commands and after a success that Teardown follows: every rule stands as
  -- often as it did, also one that was there before, if iptables does as documented and neither
  -- the device, the subnet nor an interface is called `-A`.
  pub server_nat_reverted :
      (s : S.State) (tun wan : Text) (subnet : Option Text) (q : Rule)
      → bytes_eq tun append_flag ≡ false
      → ((net : Text) → subnet ≡ some net → bytes_eq net append_flag ≡ false)
      → ((t : S.State) (egress : Text)
          → egress_of S t wan ≡ some egress
          → bytes_eq egress append_flag ≡ false)
      → rules (settled_nat S (setup_server_nat S s tun subnet wan)) q ≡ rules s q
  unfolding setup_server_nat
  server_nat_reverted s tun wan subnet q plain_tun plain_net plain_egress =
      let s1 = (S.run s (sysctl_set (codes "net.ipv4.ip_forward=1"))).0 in
      let here : rules s1 q ≡ rules s q = laws.rules-sysctl s (codes "net.ipv4.ip_forward=1") q in
      elim (Bool-cases (S.run s (sysctl_set (codes "net.ipv4.ip_forward=1"))).1) [
        | inr refused ↦ rw (refused, setup_server_nat) here
        | inl forwards ↦
            rw (forwards, setup_server_nat)
              (rules-nat_for s1 tun wan subnet q plain_tun plain_net (plain_egress s1) ∙ here)
      ]
