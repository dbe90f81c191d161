-- ===== src/Krotctl/ServerRun.antt =====
-- cmd/krotctl/server.go: serverRun. What runs between New and Close leaves the host's
-- configuration alone.
use krot_vpn.Prelude.{
  ℕ, ◌≡◌, refl, inl, inr, Bool, false, Option, some, Result, ok, err, Result-cases,
}
use mathlib.Core.Path.{subst}
use krot_vpn.Prelude.Bytes.{bytes_eq}
use krot_vpn.Config
use krot_vpn.Config.{load_server}
use krot_vpn.Crypto.{Primitives}
use krot_vpn.Netif.{Text, System}
use krot_vpn.Netif.Nat.{Rule, append_flag, egress_of}
use krot_vpn.Netif.Nat.Reverted.{IsIptables}
use krot_vpn.Server.Start
use krot_vpn.Server.Start.{Parsed, Running, network_of, new_server, close_server}
use krot_vpn.Server.Start.Reverted.{IsTun, Restored, settled, server_start_reverted}

pub data RunError : Type 0 where
  bad_config : Config.Error → RunError
  bad_startup : Start.Error → RunError

-- `ends` is how Run ends, or that a signal ended it.
-- From New on, with the deferred Close.
unfoldable pub started :
    (S : System)
    → Config.System
    → Primitives
    → (Text → Option Parsed)
    → S.State
    → Config.Server
    → Result RunError Unit
    → S.State × Result RunError Unit
unfolding new_server close_server
started S files prims parse_cidr s cfg ends =
    let (s1, made) = new_server S files prims parse_cidr s cfg in
    elim made [ err e ↦ (s1, err (bad_startup e)) | ok running ↦ (close_server S s1 running, ends) ]

unfoldable pub server_run :
    (S : System)
    → Config.System
    → Primitives
    → (Text → Option Parsed)
    → S.State
    → Text
    → Result RunError Unit
    → S.State × Result RunError Unit
unfolding started
server_run S files prims parse_cidr s path ends = elim (load_server files path) [
  | err e ↦ (s, err (bad_config e))
  | ok cfg ↦ started S files prims parse_cidr s cfg ends
]

settled_failed :
    (S : System) (new : S.State × Result Start.Error Running) (e : Start.Error)
    → new.1 ≡ err e
    → settled S new ≡ new.0
settled_failed S new e failed = rw failed refl

settled_made :
    (S : System) (new : S.State × Result Start.Error Running) (running : Running)
    → new.1 ≡ ok running
    → settled S new ≡ close_server S new.0 running
settled_made S new running made = rw made refl

module _ (S : System) (rules : S.State → Rule → ℕ) (exists : S.State → Text → Bool)
    (laws : IsIptables S rules) (tun : IsTun S rules exists) (files : Config.System)
    (prims : Primitives) (parse_cidr : Text → Option Parsed) where
  started_run :
      (s : S.State) (cfg : Config.Server) (ends : Result RunError Unit)
      → settled S (new_server S files prims parse_cidr s cfg)
        ≡ (started S files prims parse_cidr s cfg ends).0
  unfolding started
  started_run s cfg ends =
      let new = new_server S files prims parse_cidr s cfg in
      elim (Result-cases new.1) [
        | inl (e, failed) ↦ rw (settled_failed S new e failed, started, failed) refl
        | inr (running, made) ↦ rw (settled_made S new running made, started, made) refl
      ]

  -- However a run of the server ends, the iptables rules and the network devices are as they were
  -- before it: with a config that is not accepted, a start that fails at any step, a listener that
  -- fails, or a signal. The device, iptables and the commands do as documented, and neither a
  -- device, a network nor an interface is called `-A`.
  pub server_run_reverted :
      (s : S.State) (path : Text) (ends : Result RunError Unit)
      → ((cfg : Config.Server) (t : S.State) (dev : Text)
          → load_server files path ≡ ok cfg
          → (S.open_tun t cfg.tun_name).1 ≡ some dev
          → bytes_eq dev append_flag ≡ false)
      → ((cfg : Config.Server) (net : Text)
          → load_server files path ≡ ok cfg
          → network_of (parse_cidr cfg.tun_cidr) ≡ some net
          → bytes_eq net append_flag ≡ false)
      → ((cfg : Config.Server) (t : S.State) (egress : Text)
          → load_server files path ≡ ok cfg
          → egress_of S t cfg.wan_iface ≡ some egress
          → bytes_eq egress append_flag ≡ false)
      → Restored S rules exists s (server_run S files prims parse_cidr s path ends).0
  unfolding server_run
  server_run_reverted s path ends plain_dev plain_net plain_egress =
      elim (Result-cases (load_server files path)) [
        | inl (e, bad) ↦ rw (server_run, bad) (λ r. refl, λ q. refl)
        | inr (cfg, good) ↦
            let back =
              server_start_reverted S rules exists laws tun files prims parse_cidr cfg
                (λ t dev. plain_dev cfg t dev good) (λ net. plain_net cfg net good)
                (λ t egress. plain_egress cfg t egress good) s in
            rw (server_run, good) (subst (Restored S rules exists s) (started_run s cfg ends) back)
      ]
