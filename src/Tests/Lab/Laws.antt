-- ===== src/Tests/Lab/Laws.antt =====
-- The toy host does what the laws of a host ask.
use krot_vpn.Prelude.{
  ◌≡◌, refl, ap, ◌≢◌, inl, inr, true, false, not, ◌&&◌, ◌||◌, Option, none, some, arith,
  if◌then◌else◌, Bool-cases, Option-cases,
}
use krot_vpn.Netif.{Text, Args, ip_route_add, ip_route_del, ip_addr_add, ip_link_set}
use krot_vpn.Netif.Laws.{is, is-eq, IsIproute, IsFiles}
use krot_vpn.Netif.Nat.{Rule, append_flag, delete_flag, rule_args, iptables}
use krot_vpn.Netif.Nat.Reverted.{IsIptables}
use krot_vpn.Netif.SourceRoute.{sysctl_set, replace_default, flush_table, rule_add, rule_del}
use krot_vpn.Netif.SourceRoute.Tables.{IsPolicyRouting}
use krot_vpn.Prelude.Bytes.{codes, bytes_eq, bytes_eq_iff}
use krot_vpn.Client.Reverted.{IsTunRoutes, IsApart}
use krot_vpn.Netif.Routes.{low_half, high_half}
use krot_vpn.Server.Start.Reverted.{IsTun}
use krot_vpn.Tests.Lab.{
  Lab, device_of, has_route, word, run_route, run_rule, run_ip, tabled, untabled, parsed,
  run_iptables, run_lab, lab, through,
}

added_lem :
    (s : Lab) (r q : Args)
    → has_route (run_route s (codes "add") r).0 q
      ≡ (if (run_route s (codes "add") r).1 && is q r then true else has_route s q)
unfolding run_route
added_lem s r q = elim (Bool-cases (s.routes r || not (s.devices (device_of r)))) [
  | inl refused ↦ rw refused refl
  | inr free ↦ elim (Bool-cases (is q r)) [
    | inl same ↦ rw (free, same, is-eq q r same) (ground (arith, free))
    | inr other ↦ rw (free, other) refl
  ]
]

pub lab-IsIproute : IsIproute lab has_route
unfolding run_lab run_ip run_route ip_route_add ip_route_del
lab-IsIproute = record {
  added = λ s r q. added_lem s r q;
  fresh = λ s r ran. ground (arith, ran);
  deleted = λ s r q. ground arith;
  has-write = λ s p d q. refl;
  has-remove = λ s p q. refl;
}

eq_self : (p : Text) → bytes_eq p p ≡ true
eq_self p = (bytes_eq_iff p p).1 refl

eq_other : (q p : Text) → q ≢ p → bytes_eq q p ≡ false
eq_other q p other = elim (Bool-cases (bytes_eq q p)) [
  | inl same ↦ absurd (other ((bytes_eq_iff q p).0 same))
  | inr no_ ↦ no_
]

pub lab-IsFiles : IsFiles lab
unfolding run_lab run_ip run_route ip_route_add ip_route_del
lab-IsFiles = record {
  written = λ s p d wrote. rw (eq_self p) refl;
  written_other = λ s p d q other. rw (eq_other q p other) refl;
  removed_other = λ s p q other. rw (eq_other q p other) refl;
  kept_add = λ s r q. ground arith;
  kept_del = λ s r q. refl;
}

pub lab-IsPolicyRouting : IsPolicyRouting lab bytes_eq (λ s. s.lookups) (λ s. s.tables)
unfolding run_lab run_ip run_route run_rule word sysctl_set replace_default flush_table rule_add
    rule_del
lab-IsPolicyRouting = record {
  alike_refl = λ t. (bytes_eq_iff t t).1 refl;
  rule-alike = λ s a b c e. ap (s.lookups a) ((bytes_eq_iff b c).0 e);
  rule_added = λ s src table a b. ground (arith, Bool-cases (s.lookups src table));
  rule_deleted = λ s src table a b. ground arith;
  rule-replace = λ s tun src table a b. refl;
  rule-flush = λ s table a b. refl;
  rule-sysctl = λ s x a b. refl;
  flushed = λ s table t q. ground arith;
  replaced_other = λ s tun src table t q other. rw other refl;
  entry-rule_add = λ s src table t q. ground arith;
  entry-rule_del = λ s src table t q. refl;
  entry-sysctl = λ s x t q. refl;
}

parsed-rule_args-append : (r : Rule) → parsed (rule_args append_flag r) ≡ some (append_flag, r)
unfolding parsed tabled untabled rule_args append_flag
parsed-rule_args-append r = elim (Option-cases r.table) [
  | inl plain ↦ rw (plain, rule_args) refl
  | inr (table, there) ↦ rw (there, rule_args) refl
]

parsed-rule_args-delete : (r : Rule) → parsed (rule_args delete_flag r) ≡ some (delete_flag, r)
unfolding parsed tabled untabled rule_args delete_flag
parsed-rule_args-delete r = elim (Option-cases r.table) [
  | inl plain ↦ rw (plain, rule_args) refl
  | inr (table, there) ↦ rw (there, rule_args) refl
]

pub lab-IsIptables : IsIptables lab (λ s. s.filters)
unfolding run_lab iptables run_iptables sysctl_set append_flag delete_flag
lab-IsIptables = record {
  appended = λ s r q. rw parsed-rule_args-append (ground arith);
  deleted = λ s r q. rw parsed-rule_args-delete refl;
  rules-sysctl = λ s x q. refl;
}

kept-run_iptables :
    (s : Lab) (r : Option (Text × Rule)) (q : Text) → (run_iptables s r).0.devices q ≡ s.devices q
unfolding run_iptables
kept-run_iptables s none q = refl
kept-run_iptables s (some (flag, r)) q = ground arith

pub opened_lem :
    (s : Lab) (name dev : Text)
    → (lab.open_tun s name).1 ≡ some dev
    → (name ≡ dev) × (s.devices name ≡ false)
opened_lem s name dev got = elim (Bool-cases (s.devices name)) [
  | inl taken ↦ absurd (ground (arith, taken))
  | inr free ↦ (ground (arith, free), free)
]

pub lab-IsTun : IsTun lab (λ s. s.filters) (λ s. s.devices)
unfolding run_lab run_ip iptables sysctl_set ip_addr_add ip_link_set
lab-IsTun = record {
  rules-open = λ s name q. ground arith;
  rules-close = λ s name q. refl;
  rules-if_up = λ q cidr name. record { addr = λ s. refl; mtu = λ s m. refl; up = λ s. refl };
  opened =
      λ s name dev q got. let (same, free) = opened_lem s name dev got in rw (← same, free) refl;
  fresh = λ s name dev got. let (same, free) = opened_lem s name dev got in rw (← same) free;
  refused = λ s name q no_. ground arith;
  closed = λ s dev q. refl;
  exists-if_up = λ q cidr name. record { addr = λ s. refl; mtu = λ s m. refl; up = λ s. refl };
  exists-iptables = λ s args q. kept-run_iptables s (parsed args) q;
  exists-sysctl = λ s x q. refl;
}

has-open_lem :
    (s : Lab) (name : Text) (q : Args) → has_route (lab.open_tun s name).0 q ≡ has_route s q
has-open_lem s name q = elim (Bool-cases (s.devices name)) [
  | inl taken ↦ rw taken refl
  | inr free ↦ elim (Bool-cases (bytes_eq (device_of q) name)) [
    | inl same ↦ rw (free, same, (bytes_eq_iff (device_of q) name).0 same, free) (ground arith)
    | inr other ↦ rw (free, other) refl
  ]
]

-- A new device has no routes, closing it ends those it has, and the other commands add none.
pub lab-IsTunRoutes : IsTunRoutes lab has_route through
unfolding run_lab run_ip ip_addr_add ip_link_set low_half high_half device_of
lab-IsTunRoutes = record {
  has-open = λ s name q. has-open_lem s name q;
  fresh = λ s name dev q got inside.
      let (same, free) = opened_lem s name dev got in
      let down : s.devices (device_of q) ≡ false =
        rw ((bytes_eq_iff (device_of q) dev).0 inside, ← same) free in
      ground (arith, down);
  closed = λ s dev q. ground arith;
  outside = λ q cidr dev out. record { addr = λ s. refl; mtu = λ s m. refl; up = λ s. refl };
  through_low = λ dev. eq_self dev;
  through_high = λ dev. eq_self dev;
  read-open = λ s name p. ground arith;
  read-close = λ s dev p. refl;
  read-if_up = λ p cidr dev. record { addr = λ s. refl; mtu = λ s m. refl; up = λ s. refl };
}

pub lab-IsApart : (cidr : Text) → IsApart lab has_route cidr
unfolding run_lab run_ip ip_addr_add ip_link_set
lab-IsApart cidr = record {
  low = λ dev. record { addr = λ s. refl; mtu = λ s m. refl; up = λ s. refl };
  high = λ dev. record { addr = λ s. refl; mtu = λ s m. refl; up = λ s. refl };
}
