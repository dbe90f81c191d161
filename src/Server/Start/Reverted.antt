-- ===== src/Server/Start/Reverted.antt =====
-- A server that failed to start, or that was closed, leaves the host as it was.
use krot_vpn.Prelude.{
  ℕ, ◌≡◌, refl, sym, ap, ◌∙◌, inl, inr, Bool, false, not, ◌&&◌, ◌||◌, Option, none, some, List,
  Bool-cases, Option-cases, Result, ok, err, Result-cases,
}
use krot_vpn.Prelude.Bytes.{bytes_eq, bytes_eq_iff}
use krot_vpn.Config
use mathlib.Core.Path.{subst}
use krot_vpn.Prelude.Int.{ℤ}
use krot_vpn.Config.{decode_psk, decode_key32}
use krot_vpn.Crypto.Keys.{public_from_private}
use krot_vpn.Crypto.{Primitives}
use krot_vpn.Netif.{Text, Args, System, if_up}
use krot_vpn.Netif.Nat.{Rule, append_flag, iptables, egress_of, setup_server_nat, delete_rules}
use krot_vpn.Netif.Nat.Reverted.{IsIptables, settled_nat, server_nat_reverted}
use krot_vpn.Netif.SourceRoute.{sysctl_set}
use krot_vpn.Netif.Views.{IsUnseen, view-if_up, view-delete_rules, view-setup_server_nat}
use krot_vpn.Server.Pool.{IpPool, new_ip_pool}
use krot_vpn.Server.Start.{
  Error, Parsed, Running, cidr_of, network_of, open_server, new_server, close_server,
}

-- The TUN device and the commands, as far as they go: `exists` says which devices there are. A
-- device that was opened is new, and closing it removes it; the commands neither make nor remove
-- one. Opening and closing it, `ip addr add` and `ip link set` leave the iptables rules alone.
pub record IsTun (S : System) (rules : S.State → Rule → ℕ) (exists : S.State → Text → Bool)
    : Type 0 where
  pub rules-open :
      (s : S.State) (name : Text) (q : Rule) → rules (S.open_tun s name).0 q ≡ rules s q
  pub rules-close :
      (s : S.State) (name : Text) (q : Rule) → rules (S.close_tun s name) q ≡ rules s q
  pub rules-if_up : (q : Rule) (cidr name : Text) → IsUnseen S (λ s. rules s q) cidr name
  pub opened :
      (s : S.State) (name dev q : Text)
      → (S.open_tun s name).1 ≡ some dev
      → exists (S.open_tun s name).0 q ≡ (bytes_eq q dev || exists s q)
  pub fresh :
      (s : S.State) (name dev : Text) → (S.open_tun s name).1 ≡ some dev → exists s dev ≡ false
  pub refused :
      (s : S.State) (name q : Text)
      → (S.open_tun s name).1 ≡ none
      → exists (S.open_tun s name).0 q ≡ exists s q
  pub closed :
      (s : S.State) (dev q : Text)
      → exists (S.close_tun s dev) q ≡ (not (bytes_eq q dev) && exists s q)
  pub exists-if_up : (q cidr name : Text) → IsUnseen S (λ s. exists s q) cidr name
  pub exists-iptables :
      (s : S.State) (args : Args) (q : Text) → exists (S.run s (iptables args)).0 q ≡ exists s q
  pub exists-sysctl : (s : S.State) (x q : Text) → exists (S.run s (sysctl_set x)).0 q ≡ exists s q

-- What a start leaves, once it is closed.
abbrev pub settled : (S : System) → S.State × Result Error Running → S.State
settled S (s, err e) = s
settled S (s, ok running) = close_server S s running

-- A device that was opened and closed: `before` is whether there is one of this name without it.
reopened :
    (dev q : Text) (before : Bool)
    → (q ≡ dev → before ≡ false)
    → (not (bytes_eq q dev) && (bytes_eq q dev || before)) ≡ before
reopened dev q before fresh = elim (Bool-cases (bytes_eq q dev)) [
  | inl same ↦ rw same (sym (fresh ((bytes_eq_iff q dev).0 same)))
  | inr other ↦ rw other refl
]

-- The rules and the devices: `rules` and `exists` are as before.
abbrev pub Restored :
    (S : System) → (S.State → Rule → ℕ) → (S.State → Text → Bool) → S.State → S.State → Type 0
Restored S rules exists before after =
    ((r : Rule) → rules after r ≡ rules before r) × ((q : Text) → exists after q ≡ exists before q)

module _ (S : System) (rules : S.State → Rule → ℕ) (exists : S.State → Text → Bool)
    (laws : IsIptables S rules) (tun : IsTun S rules exists) where
  -- The device is closed again, behind states in which neither its rules nor the devices have
  -- changed.
  closed-Restored :
      (s t : S.State) (name dev : Text)
      → (S.open_tun s name).1 ≡ some dev
      → ((r : Rule) → rules t r ≡ rules s r)
      → ((q : Text) → exists t q ≡ exists (S.open_tun s name).0 q)
      → Restored S rules exists s (S.close_tun t dev)
  closed-Restored s t name dev got ruled there = (
    λ r. tun.rules-close t dev r ∙ ruled r,
    λ q.
        tun.closed t dev q
        ∙ ap (λ b. not (bytes_eq q dev) && b) (there q ∙ tun.opened s name dev q got)
        ∙ reopened dev q (exists s q) (λ same. rw same (tun.fresh s name dev got)),
  )

  settled_nat-none :
      (made : S.State × Option (List Args)) → made.1 ≡ none → settled_nat S made ≡ made.0
  settled_nat-none made failed = rw failed refl

  settled_nat-some :
      (made : S.State × Option (List Args)) (nat : List Args)
      → made.1 ≡ some nat
      → settled_nat S made ≡ delete_rules S made.0 nat
  settled_nat-some made nat installed = rw installed refl

  exists-settled_nat :
      (s : S.State) (dev wan : Text) (subnet : Option Text) (q : Text)
      → exists (settled_nat S (setup_server_nat S s dev subnet wan)) q ≡ exists s q
  exists-settled_nat s dev wan subnet q =
      let view : S.State → Bool = λ t. exists t q in
      let quiet : (t : S.State) (args : Args) → view (S.run t (iptables args)).0 ≡ view t =
        λ t args. tun.exists-iptables t args q in
      let made = setup_server_nat S s dev subnet wan in
      let same =
        view-setup_server_nat S view quiet (λ t x. tun.exists-sysctl t x q) s dev wan subnet in
      elim (Option-cases made.1) [
        | inl failed ↦ rw failed same
        | inr (nat, installed) ↦ rw installed (view-delete_rules S view quiet nat made.0 ∙ same)
      ]

  -- The state with the device configured.
  abbrev ready : S.State → Text → Text → Text → ℤ → S.State
  ready s name dev cidr mtu = (if_up S (S.open_tun s name).0 dev cidr mtu).0

  rules-ready :
      (s : S.State) (name dev cidr : Text) (mtu : ℤ) (r : Rule)
      → rules (ready s name dev cidr mtu) r ≡ rules s r
  rules-ready s name dev cidr mtu r =
      view-if_up S (λ t. rules t r) (S.open_tun s name).0 dev cidr mtu (tun.rules-if_up r cidr dev)
      ∙ tun.rules-open s name r

  exists-ready :
      (s : S.State) (name dev cidr : Text) (mtu : ℤ) (q : Text)
      → exists (ready s name dev cidr mtu) q ≡ exists (S.open_tun s name).0 q
  exists-ready s name dev cidr mtu q =
      view-if_up S (λ t. exists t q) (S.open_tun s name).0 dev cidr mtu
        (tun.exists-if_up q cidr dev)

  module _ (files : Config.System) (prims : Primitives) (parse_cidr : Text → Option Parsed)
      (cfg : Config.Server)
      (plain_dev : (s : S.State) (dev : Text)
        → (S.open_tun s cfg.tun_name).1 ≡ some dev
        → bytes_eq dev append_flag ≡ false)
      (plain_net : (net : Text)
        → network_of (parse_cidr cfg.tun_cidr) ≡ some net
        → bytes_eq net append_flag ≡ false)
      (plain_egress : (s : S.State) (egress : Text)
        → egress_of S s cfg.wan_iface ≡ some egress
        → bytes_eq egress append_flag ≡ false) where
    nat-Restored :
        (s : S.State) (dev : Text)
        → (S.open_tun s cfg.tun_name).1 ≡ some dev
        → let t = ready s cfg.tun_name dev cfg.tun_cidr cfg.mtu in
          let subnet = network_of (parse_cidr cfg.tun_cidr) in
          Restored S rules exists s
            (S.close_tun (settled_nat S (setup_server_nat S t dev subnet cfg.wan_iface)) dev)
    nat-Restored s dev got =
        let t = ready s cfg.tun_name dev cfg.tun_cidr cfg.mtu in
        let subnet = network_of (parse_cidr cfg.tun_cidr) in
        closed-Restored s (settled_nat S (setup_server_nat S t dev subnet cfg.wan_iface))
          cfg.tun_name dev got
          (λ r.
            server_nat_reverted S rules laws t dev cfg.wan_iface subnet r (plain_dev s dev got)
              plain_net plain_egress
            ∙ rules-ready s cfg.tun_name dev cfg.tun_cidr cfg.mtu r)
          (λ q.
            exists-settled_nat t dev cfg.wan_iface subnet q
            ∙ exists-ready s cfg.tun_name dev cfg.tun_cidr cfg.mtu q)

    open_server-Restored :
        (s : S.State) (psk private public : List ℕ) (pool : IpPool)
        → Restored S rules exists s
            (settled S (open_server S files prims parse_cidr s cfg psk private public pool))
    unfolding open_server close_server
    open_server-Restored s psk private public pool =
        elim (Option-cases (S.open_tun s cfg.tun_name).1) [
          | inl none_ ↦
              rw (open_server, none_)
                (λ r. tun.rules-open s cfg.tun_name r, λ q. tun.refused s cfg.tun_name q none_)
          | inr (dev, got) ↦
              elim (Bool-cases (if_up S (S.open_tun s cfg.tun_name).0 dev cfg.tun_cidr cfg.mtu).1) [
                | inr down ↦
                    rw (open_server, got, down)
                      (closed-Restored s (ready s cfg.tun_name dev cfg.tun_cidr cfg.mtu)
                        cfg.tun_name dev got (rules-ready s cfg.tun_name dev cfg.tun_cidr cfg.mtu)
                        (exists-ready s cfg.tun_name dev cfg.tun_cidr cfg.mtu))
                | inl up ↦
                    let t = ready s cfg.tun_name dev cfg.tun_cidr cfg.mtu in
                    let made =
                      setup_server_nat S t dev (network_of (parse_cidr cfg.tun_cidr))
                        cfg.wan_iface in
                    elim (Option-cases made.1) [
                      | inl failed ↦
                          let back : Restored S rules exists s (S.close_tun made.0 dev) =
                            subst (λ x. Restored S rules exists s (S.close_tun x dev))
                              (settled_nat-none made failed) (nat-Restored s dev got) in
                          rw (open_server, got, up, failed) back
                      | inr (nat, installed) ↦
                          let back : Restored S rules exists s
                              (S.close_tun (delete_rules S made.0 nat) dev) =
                            subst (λ x. Restored S rules exists s (S.close_tun x dev))
                              (settled_nat-some made nat installed) (nat-Restored s dev got) in
                          rw (open_server, got, up, installed) back
                    ]
              ]
        ]

    -- A server that fails to start, at whichever step, leaves the iptables rules and the network
    -- devices as they were, and so does one that started and is closed: every rule stands as often
    -- as it did. The device, iptables and the commands do as documented, and neither the device,
    -- the network nor an interface is called `-A`.
    pub server_start_reverted :
        (s : S.State)
        → Restored S rules exists s (settled S (new_server S files prims parse_cidr s cfg))
    unfolding new_server
    server_start_reverted s = elim (Result-cases (decode_psk files cfg.psk)) [
      | inl (e, bad) ↦ rw (bad, new_server) (λ r. refl, λ q. refl)
      | inr (psk, good) ↦ elim (Result-cases (decode_key32 files cfg.server_priv)) [
        | inl (e, bad) ↦ rw (good, new_server, bad) (λ r. refl, λ q. refl)
        | inr (key, sound) ↦ elim (Option-cases (public_from_private prims key)) [
          | inl failed ↦ rw (good, new_server, sound, failed) (λ r. refl, λ q. refl)
          | inr (public, derived) ↦
              elim (Result-cases (new_ip_pool (cidr_of (parse_cidr cfg.tun_cidr)))) [
                | inl (e, bad) ↦ rw (good, new_server, sound, derived, bad) (λ r. refl, λ q. refl)
                | inr (pool, built) ↦
                    rw (good, new_server, sound, derived, built)
                      (open_server-Restored s psk key public pool)
              ]
        ]
      ]
    ]
