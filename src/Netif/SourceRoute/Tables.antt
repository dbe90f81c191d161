-- ===== src/Netif/SourceRoute/Tables.antt =====
-- What the SOCKS mode leaves of the routing rules and tables.
use krot_vpn.Prelude.{
  ◌≡◌, refl, sym, ap, ◌∙◌, inl, inr, Bool, true, false, ◌&&◌, Option, none, some, arith,
  if◌then◌else◌, Bool-cases,
}
use krot_vpn.Prelude.Bytes.{bytes_eq, bytes_eq_iff}
use krot_vpn.Netif.{Text, Args, System}
use krot_vpn.Netif.SourceRoute.{
  SrcRouteState, sysctl_set, replace_default, flush_table, rule_add, rule_del, default_table,
  loosen_filters, install_rule, setup_source_route, src_teardown,
}

-- The rule with source `a` and table `b` is the one of `src` and `table`. `alike`: two names are of
-- one table, as 254 and main are.
abbrev pub same_lookup : (Text → Text → Bool) → Text → Text → Text → Text → Bool
same_lookup alike a b src table = bytes_eq a src && alike b table

-- `rule`: there is a rule that looks up a source in a table; `entry`: a table has a route.
pub record IsPolicyRouting (S : System) (alike : Text → Text → Bool)
    (rule : S.State → Text → Text → Bool) (entry : S.State → Text → Args → Bool) : Type 0 where
  pub alike_refl : (t : Text) → alike t t ≡ true
  pub rule-alike : (s : S.State) (a b c : Text) → alike b c ≡ true → rule s a b ≡ rule s a c
  pub rule_added :
      (s : S.State) (src table a b : Text)
      → rule (S.run s (rule_add src table)).0 a b ≡ (
          if (S.run s (rule_add src table)).1 && same_lookup alike a b src table
          then true
          else rule s a b)
  pub rule_deleted :
      (s : S.State) (src table a b : Text)
      → rule (S.run s (rule_del src table)).0 a b
        ≡ (if same_lookup alike a b src table then false else rule s a b)
  pub rule-replace :
      (s : S.State) (tun src table a b : Text)
      → rule (S.run s (replace_default tun src table)).0 a b ≡ rule s a b
  pub rule-flush :
      (s : S.State) (table a b : Text) → rule (S.run s (flush_table table)).0 a b ≡ rule s a b
  pub rule-sysctl : (s : S.State) (x a b : Text) → rule (S.run s (sysctl_set x)).0 a b ≡ rule s a b
  pub flushed :
      (s : S.State) (table t : Text) (q : Args)
      → entry (S.run s (flush_table table)).0 t q ≡ (if alike t table then false else entry s t q)
  pub replaced_other :
      (s : S.State) (tun src table t : Text) (q : Args)
      → alike t table ≡ false
      → entry (S.run s (replace_default tun src table)).0 t q ≡ entry s t q
  pub entry-rule_add :
      (s : S.State) (src table t : Text) (q : Args)
      → entry (S.run s (rule_add src table)).0 t q ≡ entry s t q
  pub entry-rule_del :
      (s : S.State) (src table t : Text) (q : Args)
      → entry (S.run s (rule_del src table)).0 t q ≡ entry s t q
  pub entry-sysctl :
      (s : S.State) (x t : Text) (q : Args) → entry (S.run s (sysctl_set x)).0 t q ≡ entry s t q

-- What a setup leaves once what it made is torn down.
abbrev pub settled_source : (S : System) → S.State × Option SrcRouteState → S.State
settled_source S (s, none) = s
settled_source S (s, some rs) = (src_teardown S s rs).0

module _ (S : System) (alike : Text → Text → Bool) (rule : S.State → Text → Text → Bool)
    (entry : S.State → Text → Args → Bool) (laws : IsPolicyRouting S alike rule entry) where
  rule-loosen_filters :
      (s : S.State) (tun a b : Text) → rule (loosen_filters S s tun) a b ≡ rule s a b
  unfolding loosen_filters
  rule-loosen_filters s tun a b = laws.rule-sysctl _ _ a b ∙ laws.rule-sysctl s _ a b

  entry-loosen_filters :
      (s : S.State) (tun t : Text) (q : Args) → entry (loosen_filters S s tun) t q ≡ entry s t q
  unfolding loosen_filters
  entry-loosen_filters s tun t q = laws.entry-sysctl _ _ t q ∙ laws.entry-sysctl s _ t q

  -- The rule of the state is gone, its table is empty, and the rest is as it was.
  abbrev Undone : S.State → S.State → SrcRouteState → Type 0
  Undone s0 s rs =
      ((a b : Text)
        → rule s a b ≡ (if same_lookup alike a b rs.src_ip rs.table then false else rule s0 a b))
      × ((t : Text) (q : Args) → entry s t q ≡ (if alike t rs.table then false else entry s0 t q))

  install_rule-Undone :
      (s : S.State) (rs : SrcRouteState) → Undone s (settled_source S (install_rule S s rs)) rs
  unfolding install_rule src_teardown
  install_rule-Undone s rs =
      let s1 = (S.run s (rule_del rs.src_ip rs.table)).0 in
      let s2 = (S.run s1 (rule_add rs.src_ip rs.table)).0 in
      let s3 = (S.run s2 (rule_del rs.src_ip rs.table)).0 in
      elim (Bool-cases (S.run s1 (rule_add rs.src_ip rs.table)).1) [
        | inr refused ↦
            rw (refused, install_rule)
              (
                (λ a b. ground (
                  arith,
                  laws.rule-flush s2 rs.table a b,
                  laws.rule_added s1 rs.src_ip rs.table a b,
                  laws.rule_deleted s rs.src_ip rs.table a b,
                )),
                (λ t q. ground (
                  arith,
                  laws.flushed s2 rs.table t q,
                  laws.entry-rule_add s1 rs.src_ip rs.table t q,
                  laws.entry-rule_del s rs.src_ip rs.table t q,
                )),
              )
        | inl ruled ↦
            rw (ruled, install_rule)
              (
                (λ a b. ground (
                  arith,
                  laws.rule-flush s3 rs.table a b,
                  laws.rule_deleted s2 rs.src_ip rs.table a b,
                  laws.rule_added s1 rs.src_ip rs.table a b,
                  laws.rule_deleted s rs.src_ip rs.table a b,
                )),
                (λ t q. ground (
                  arith,
                  laws.flushed s3 rs.table t q,
                  laws.entry-rule_del s2 rs.src_ip rs.table t q,
                  laws.entry-rule_add s1 rs.src_ip rs.table t q,
                  laws.entry-rule_del s rs.src_ip rs.table t q,
                )),
              )
      ]

  same-absent :
      (s : S.State) (src table a b : Text)
      → rule s src table ≡ false
      → same_lookup alike a b src table ≡ true
      → rule s a b ≡ false
  same-absent s src table a b unruled same =
      let e1 : a ≡ src = (bytes_eq_iff a src).0 (ground (arith, same)) in
      rw e1 (laws.rule-alike s src b table (ground (arith, same)) ∙ unruled)

  -- What SetupSourceRoute does to the rules and to the tables other than its own is undone: with
  -- a rule that was not there before, every rule is as it was once what SetupSourceRoute made is
  -- torn down, after a failure and after a success that Teardown follows, and so is every table
  -- that is not, under this or another name, the one that was given. Nothing is said of the
  -- rp_filter settings, which no Teardown sets back, nor of the given table.
  pub source_route_undone :
      (s : S.State) (src tun table a b t : Text) (q : Args)
      → rule s src (default_table table) ≡ false
      → alike t (default_table table) ≡ false
      → let end = settled_source S (setup_source_route S s src tun table) in
        (rule end a b ≡ rule s a b) × (entry end t q ≡ entry s t q)
  unfolding setup_source_route
  source_route_undone s src tun table a b t q unruled other =
      let rs : SrcRouteState = record {
        src_ip = src;
        tun = tun;
        table = default_table table;
        added = false;
      } in
      let s1 = loosen_filters S s tun in
      let s2 = (S.run s1 (replace_default tun src (default_table table))).0 in
      let ruled : rule s2 a b ≡ rule s a b =
        laws.rule-replace s1 tun src (default_table table) a b ∙ rule-loosen_filters s tun a b in
      let routed : entry s2 t q ≡ entry s t q =
        laws.replaced_other s1 tun src (default_table table) t q other
        ∙ entry-loosen_filters s tun t q in
      elim (Bool-cases (S.run s1 (replace_default tun src (default_table table))).1) [
        | inr refused ↦ rw (refused, setup_source_route) (ruled, routed)
        | inl done ↦
            let (rules_back, tables_back) = install_rule-Undone s2 rs in
            rw (done, setup_source_route)
              (
                ground (
                  arith,
                  rules_back a b,
                  ruled,
                  same-absent s src (default_table table) a b unruled,
                ),
                ground (arith, tables_back t q, routed),
              )
      ]

  -- After a SetupSourceRoute that succeeded, its Teardown leaves the table without a route,
  -- whichever it is.
  pub source_table_emptied :
      (s : S.State) (src tun table : Text) (q : Args) {s' : S.State} {rs : SrcRouteState}
      → setup_source_route S s src tun table ≡ (s', some rs)
      → entry (src_teardown S s' rs).0 (default_table table) q ≡ false
  unfolding setup_source_route
  source_table_emptied s src tun table q {s' = s'} {rs = rs} made =
      let rs0 : SrcRouteState = record {
        src_ip = src;
        tun = tun;
        table = default_table table;
        added = false;
      } in
      let s1 = loosen_filters S s tun in
      let s2 = (S.run s1 (replace_default tun src (default_table table))).0 in
      let self = laws.alike_refl (default_table table) in
      elim (Bool-cases (S.run s1 (replace_default tun src (default_table table))).1) [
        | inr refused ↦ absurd (ground arith)
        | inl done ↦
            let same : install_rule S s2 rs0 ≡ (s', some rs) = ground arith in
            ap (λ x. entry (settled_source S x) (default_table table) q) (sym same)
            ∙ (install_rule-Undone s2 rs0).1 (default_table table) q
            ∙ rw self refl
      ]
