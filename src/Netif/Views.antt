-- ===== src/Netif/Views.antt =====
-- What a view of the host sees, across the steps of internal/netif/netif_linux.go.
use krot_vpn.Prelude.{
  ◌≡◌, refl, ◌∙◌, inl, inr, Option, none, some, List, [], ◌∷◌, ◌++◌, arith, Bool-cases,
}
use krot_vpn.Prelude.Bytes.{codes}
use krot_vpn.Prelude.Int.{ℤ}
use krot_vpn.Netif.{Text, Args, System, if_up, ip_addr_add, ip_link_set}
use krot_vpn.Netif.Nat.{
  iptables, deletion, server_rules, egress_of, nat_for, nat_through, install_rules,
  setup_server_nat, delete_rules,
}
use krot_vpn.Netif.SourceRoute.{sysctl_set}

-- What a view of the host sees, when it does not see the commands.
module _ (S : System) {A : Type 0} (view : S.State → A) where
  -- The commands of IfUp do not show.
  pub record IsUnseen (cidr name : Text) : Type 0 where
    pub addr : (s : S.State) → view (S.run s (ip_addr_add cidr name)).0 ≡ view s
    pub mtu :
        (s : S.State) (m : Text)
        → view (S.run s (ip_link_set name (codes "mtu" ∷ m ∷ []))).0 ≡ view s
    pub up : (s : S.State) → view (S.run s (ip_link_set name (codes "up" ∷ []))).0 ≡ view s

  pub view-if_up :
      (s : S.State) (name cidr : Text) (m : ℤ)
      → IsUnseen cidr name
      → view (if_up S s name cidr m).0 ≡ view s
  unfolding if_up
  view-if_up s name cidr m unseen =
      let s1 = (S.run s (ip_addr_add cidr name)).0 in
      let s2 = (S.run s1 (ip_link_set name (codes "mtu" ∷ S.itoa m ∷ []))).0 in
      ground (arith, unseen.addr s, unseen.mtu s1 (S.itoa m), unseen.up s2)

  module _ (quiet : (s : S.State) (args : Args) → view (S.run s (iptables args)).0 ≡ view s) where
    pub view-delete_rules :
        (installed : List Args) (s : S.State) → view (delete_rules S s installed) ≡ view s
    unfolding delete_rules
    view-delete_rules [] s = refl
    view-delete_rules (r ∷ rs) s =
        view-delete_rules rs (S.run s (iptables (deletion r))).0 ∙ quiet s (deletion r)

    view-install_rules :
        (rest inst : List Args) (s : S.State) → view (install_rules S s inst rest).0 ≡ view s
    unfolding install_rules
    view-install_rules [] inst s = refl
    view-install_rules (r ∷ rest) inst s = elim (Bool-cases (S.run s (iptables r)).1) [
      | inr failed ↦
          rw (failed, install_rules) (view-delete_rules inst (S.run s (iptables r)).0 ∙ quiet s r)
      | inl added ↦
          rw (added, install_rules)
            (view-install_rules rest (inst ++ r ∷ []) (S.run s (iptables r)).0 ∙ quiet s r)
    ]

    view-nat_through :
        (s : S.State) (dev net : Text) (egress : Option Text)
        → view (nat_through S s dev net egress).0 ≡ view s
    view-nat_through s dev net none = refl
    view-nat_through s dev net (some e) = view-install_rules (server_rules net dev e) [] s

    view-nat_for :
        (s : S.State) (dev wan : Text) (subnet : Option Text)
        → view (nat_for S s dev subnet wan).0 ≡ view s
    view-nat_for s dev wan none = refl
    view-nat_for s dev wan (some net) = view-nat_through s dev net (egress_of S s wan)

    pub view-setup_server_nat :
        ((s : S.State) (x : Text) → view (S.run s (sysctl_set x)).0 ≡ view s)
        → (s : S.State) (dev wan : Text) (subnet : Option Text)
        → view (setup_server_nat S s dev subnet wan).0 ≡ view s
    unfolding setup_server_nat
    view-setup_server_nat sysctl s dev wan subnet =
        let s1 = (S.run s (sysctl_set (codes "net.ipv4.ip_forward=1"))).0 in
        let set = sysctl s (codes "net.ipv4.ip_forward=1") in
        elim (Bool-cases (S.run s (sysctl_set (codes "net.ipv4.ip_forward=1"))).1) [
          | inr failed ↦ rw (failed, setup_server_nat) set
          | inl forwards ↦ rw (forwards, setup_server_nat) (view-nat_for s1 dev wan subnet ∙ set)
        ]
