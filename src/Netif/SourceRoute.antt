-- ===== src/Netif/SourceRoute.antt =====
-- internal/netif/netif_linux.go: SrcRouteState, the policy routing of the SOCKS mode.
pub mod Tables
use krot_vpn.Prelude.{Bool, true, false, not, Option, none, some, [], ◌∷◌, ◌++◌, if◌then◌else◌}
use krot_vpn.Prelude.Bytes.{codes}
use krot_vpn.Netif.{Text, Args, System}

pub record SrcRouteState : Type 0 where
  pub src_ip : Text
  pub tun : Text
  pub table : Text
  pub added : Bool

unfoldable pub sysctl_set : Text → Args
sysctl_set setting = codes "sysctl" ∷ codes "-w" ∷ setting ∷ []

unfoldable pub replace_default : Text → Text → Text → Args
replace_default tun src table =
    codes "ip"
    ∷ codes "route"
    ∷ codes "replace"
    ∷ codes "default"
    ∷ codes "dev"
    ∷ tun
    ∷ codes "src"
    ∷ src
    ∷ codes "table"
    ∷ table
    ∷ []

unfoldable pub flush_table : Text → Args
flush_table table = codes "ip" ∷ codes "route" ∷ codes "flush" ∷ codes "table" ∷ table ∷ []

unfoldable pub rule_add : Text → Text → Args
rule_add src table =
    codes "ip" ∷ codes "rule" ∷ codes "add" ∷ codes "from" ∷ src ∷ codes "lookup" ∷ table ∷ []

unfoldable pub rule_del : Text → Text → Args
rule_del src table =
    codes "ip" ∷ codes "rule" ∷ codes "del" ∷ codes "from" ∷ src ∷ codes "lookup" ∷ table ∷ []

unfoldable pub default_table : Text → Text
default_table [] = codes "100"
default_table (c ∷ cs) = c ∷ cs

module _ (S : System) where
  -- The two settings; their errors are dropped.
  unfoldable pub loosen_filters : S.State → Text → S.State
  loosen_filters s tun =
      let s1 = (S.run s (sysctl_set (codes "net.ipv4.conf.all.rp_filter=2"))).0 in
      (S.run s1 (sysctl_set (codes "net.ipv4.conf." ++ (tun ++ codes ".rp_filter=2")))).0

  -- From the deletion of a stale rule on.
  unfoldable pub install_rule : S.State → SrcRouteState → S.State × Option SrcRouteState
  install_rule s rs =
      let s1 = (S.run s (rule_del rs.src_ip rs.table)).0 in
      let (s2, ruled) = S.run s1 (rule_add rs.src_ip rs.table) in
      if not ruled
      then ((S.run s2 (flush_table rs.table)).0, none)
      else (s2, some (record rs { added = true }))

  unfoldable pub setup_source_route : S.State → Text → Text → Text → S.State × Option SrcRouteState
  unfolding loosen_filters install_rule default_table
  setup_source_route s src_ip tun table =
      let rs : SrcRouteState = record {
        src_ip = src_ip;
        tun = tun;
        table = default_table table;
        added = false;
      } in
      let s1 = loosen_filters s tun in
      let (s2, routed) = S.run s1 (replace_default tun src_ip rs.table) in
      if not routed then (s2, none) else install_rule s2 rs

  unfoldable pub src_teardown : S.State → SrcRouteState → S.State × SrcRouteState
  src_teardown s rs =
      if not rs.added
      then (s, rs)
      else (let s1 = (S.run s (rule_del rs.src_ip rs.table)).0 in
          ((S.run s1 (flush_table rs.table)).0, record rs { added = false }))
