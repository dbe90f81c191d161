-- ===== src/Netif/Laws.antt =====
-- What iproute2 and the file system do, as far as the code relies on it.
use krot_vpn.Prelude.{◌≡◌, ◌≢◌, Bool, true, false, ◌&&◌, some, if◌then◌else◌}
use krot_vpn.Netif.{Text, Args, System, args_discrete, ip_route_add, ip_route_del}

-- A test for equal arguments.
unfoldable pub is : Args → Args → Bool
is q r = elim (args_discrete q r) [ yes _ ↦ true | no _ ↦ false ]

pub is-eq : (q r : Args) → is q r ≡ true → q ≡ r
unfolding is
is-eq q r h =
    elim (args_discrete q r) as (λ d. (elim d [ yes _ ↦ true | no _ ↦ false ]) ≡ true → q ≡ r) [
      | yes e ↦ λ _. e
      | no _ ↦ λ k. cc
    ]
      h

-- `has`: the main routing table has the route that the arguments name. `ip route add` fails on a
-- route that is there; `ip route del` removes it.
pub record IsIproute (S : System) (has : S.State → Args → Bool) : Type 0 where
  pub added :
      (s : S.State) (r q : Args)
      → has (S.run s (ip_route_add r)).0 q
        ≡ (if (S.run s (ip_route_add r)).1 && is q r then true else has s q)
  pub fresh : (s : S.State) (r : Args) → (S.run s (ip_route_add r)).1 ≡ true → has s r ≡ false
  pub deleted :
      (s : S.State) (r q : Args)
      → has (S.run s (ip_route_del r)).0 q ≡ (if is q r then false else has s q)
  pub has-write : (s : S.State) (p d : Text) (q : Args) → has (S.write_file s p d).0 q ≡ has s q
  pub has-remove : (s : S.State) (p : Text) (q : Args) → has (S.remove s p) q ≡ has s q

-- os.ReadFile, os.WriteFile and os.Remove; `ip route` leaves the files alone.
pub record IsFiles (S : System) : Type 0 where
  pub written :
      (s : S.State) (p d : Text)
      → (S.write_file s p d).1 ≡ true
      → S.read_file (S.write_file s p d).0 p ≡ some d
  pub written_other :
      (s : S.State) (p d q : Text) → q ≢ p → S.read_file (S.write_file s p d).0 q ≡ S.read_file s q
  pub removed_other :
      (s : S.State) (p q : Text) → q ≢ p → S.read_file (S.remove s p) q ≡ S.read_file s q
  pub kept_add :
      (s : S.State) (r : Args) (q : Text)
      → S.read_file (S.run s (ip_route_add r)).0 q ≡ S.read_file s q
  pub kept_del :
      (s : S.State) (r : Args) (q : Text)
      → S.read_file (S.run s (ip_route_del r)).0 q ≡ S.read_file s q
