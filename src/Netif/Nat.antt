-- ===== src/Netif/Nat.antt =====
-- internal/netif/netif_linux.go: NATState, the server's forwarding and its iptables rules.
pub mod Reverted
use krot_vpn.Prelude.{not, Option, none, some, List, [], ◌∷◌, ◌++◌, if◌then◌else◌}
use krot_vpn.Prelude.Bytes.{codes, bytes_eq}
use krot_vpn.Netif.{Text, Args, System, fields}
use krot_vpn.Netif.SourceRoute.{sysctl_set}

unfoldable pub append_flag : Text
append_flag = codes "-A"

unfoldable pub delete_flag : Text
delete_flag = codes "-D"

-- A rule: its table, if it names one, its chain, and the rest.
pub record Rule : Type 0 where
  pub table : Option Text
  pub chain : Text
  pub spec : Args

-- The arguments of a rule behind `-A` or `-D`.
unfoldable pub rule_args : Text → Rule → Args
rule_args flag r = elim r.table [
  | none ↦ flag ∷ r.chain ∷ r.spec
  | some table ↦ codes "-t" ∷ table ∷ flag ∷ r.chain ∷ r.spec
]

unfoldable pub iptables : Args → Args
iptables args = codes "iptables" ∷ args

-- The three rules of a server: `subnet` is the tunnel's network.
unfoldable pub masquerade : Text → Text → Rule
masquerade subnet wan = record {
  table = some (codes "nat");
  chain = codes "POSTROUTING";
  spec = codes "-s" ∷ subnet ∷ codes "-o" ∷ wan ∷ codes "-j" ∷ codes "MASQUERADE" ∷ [];
}

unfoldable pub forward_out : Text → Text → Rule
forward_out tun wan = record {
  table = none;
  chain = codes "FORWARD";
  spec = codes "-i" ∷ tun ∷ codes "-o" ∷ wan ∷ codes "-j" ∷ codes "ACCEPT" ∷ [];
}

unfoldable pub forward_back : Text → Text → Rule
forward_back tun wan = record {
  table = none;
  chain = codes "FORWARD";
  spec =
      codes "-i"
      ∷ wan
      ∷ codes "-o"
      ∷ tun
      ∷ codes "-m"
      ∷ codes "state"
      ∷ codes "--state"
      ∷ codes "RELATED,ESTABLISHED"
      ∷ codes "-j"
      ∷ codes "ACCEPT"
      ∷ [];
}

unfoldable pub server_rules : Text → Text → Text → List Args
server_rules subnet tun wan =
    rule_args append_flag (masquerade subnet wan)
    ∷ rule_args append_flag (forward_out tun wan)
    ∷ rule_args append_flag (forward_back tun wan)
    ∷ []

-- Every argument that is `-A` becomes `-D`.
unfoldable pub deletion : Args → Args
deletion [] = []
deletion (a ∷ args) = (if bytes_eq a append_flag then delete_flag else a) ∷ deletion args

-- The field after the first "dev".
unfoldable pub scan_dev : List Text → Option Text
scan_dev [] = none
scan_dev (f ∷ []) = none
scan_dev (f ∷ g ∷ fs) = if bytes_eq f (codes "dev") then some g else scan_dev (g ∷ fs)

module _ (S : System) where
  unfoldable pub default_wan : S.State → Option Text
  unfolding fields scan_dev
  default_wan s =
      elim (S.output s (codes "ip" ∷ codes "route" ∷ codes "show" ∷ codes "default" ∷ [])) [
        | none ↦ none
        | some out ↦ scan_dev (fields out)
      ]

  -- Teardown's loop; the errors are dropped.
  unfoldable pub delete_rules : S.State → List Args → S.State
  unfolding deletion iptables
  delete_rules s [] = s
  delete_rules s (r ∷ rules) = delete_rules (S.run s (iptables (deletion r))).0 rules

  -- The loop that installs: `installed` are the rules so far. A failure takes them away.
  unfoldable pub install_rules : S.State → List Args → List Args → S.State × Option (List Args)
  unfolding delete_rules
  install_rules s installed [] = (s, some installed)
  install_rules s installed (r ∷ rules) =
      let (s1, added) = S.run s (iptables r) in
      let rest = install_rules s1 (installed ++ r ∷ []) rules in
      if not added then (delete_rules s1 installed, none) else rest

  abbrev pub nat_through : S.State → Text → Text → Option Text → S.State × Option (List Args)
  nat_through s tun net none = (s, none)
  nat_through s tun net (some egress) = install_rules s [] (server_rules net tun egress)

  -- `wanIface`, or the interface of the default route.
  abbrev pub egress_of : S.State → Text → Option Text
  egress_of s wan = if bytes_eq wan [] then default_wan s else some wan

  abbrev pub nat_for : S.State → Text → Option Text → Text → S.State × Option (List Args)
  nat_for s tun none wan = (s, none)
  nat_for s tun (some net) wan = nat_through s tun net (egress_of s wan)

  -- `subnet` is what net.ParseCIDR makes of the tunnel's address, as text. The result is
  -- NATState's list.
  unfoldable pub setup_server_nat :
      S.State → Text → Option Text → Text → S.State × Option (List Args)
  setup_server_nat s tun subnet wan =
      let (s1, forwards) = S.run s (sysctl_set (codes "net.ipv4.ip_forward=1")) in
      if not forwards then (s1, none) else nat_for s1 tun subnet wan
