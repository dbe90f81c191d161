-- ===== src/Netif.antt =====
-- internal/netif/netif_linux.go: the commands that it runs (ip, iptables, sysctl) and the files
-- that it writes. What they do is the system's, which is a parameter.
pub mod Laws
pub mod Nat
pub mod Routes
pub mod SourceRoute
pub mod Views
use krot_vpn.Prelude.{
  ℕ, Bool, false, not, ◌&&◌, ◌||◌, Option, none, some, List, [], ◌∷◌, ◌++◌, set, leb, ◌==◌,
  if◌then◌else◌,
}
use mathlib.Core.List.{List-discrete}
use krot_vpn.Prelude.Bytes.{codes, bytes_eq, bytes_discrete}
use krot_vpn.Prelude.Int.{ℤ}

abbrev pub Text : Type 0
Text = List ℕ

abbrev pub Args : Type 0
Args = List Text

unfoldable pub args_discrete : Discrete Args
args_discrete = List-discrete bytes_discrete

-- os/exec, os and the TUN device: `run` is a command's Run, with whether it exits with status 0;
-- `output` is its Output; `itoa` is `%d`.
pub record System : Type 1 where
  pub State : Type 0
  pub run : State → Args → State × Bool
  pub output : State → Args → Option Text
  pub read_file : State → Text → Option Text
  pub write_file : State → Text → Text → State × Bool
  pub remove : State → Text → State
  pub open_tun : State → Text → State × Option Text
  pub close_tun : State → Text → State
  pub itoa : ℤ → Text

unfoldable pub ip_route_add : Args → Args
ip_route_add r = codes "ip" ∷ codes "route" ∷ codes "add" ∷ r

unfoldable pub ip_route_del : Args → Args
ip_route_del r = codes "ip" ∷ codes "route" ∷ codes "del" ∷ r

unfoldable pub ip_addr_add : Text → Text → Args
ip_addr_add cidr name = codes "ip" ∷ codes "addr" ∷ codes "add" ∷ cidr ∷ codes "dev" ∷ name ∷ []

unfoldable pub ip_link_set : Text → Args → Args
ip_link_set name rest = codes "ip" ∷ codes "link" ∷ codes "set" ∷ codes "dev" ∷ name ∷ rest

-- strings.Fields of an ASCII text: `word` is the word that is being read.
abbrev pub is_space : ℕ → Bool
is_space c = (c == 32) || (leb 9 c && leb c 13)

unfoldable pub fields_from : Text → Text → List Text
fields_from word [] = if bytes_eq word [] then [] else word ∷ []
fields_from word (c ∷ cs) =
    let next = fields_from [] cs in
    let longer = fields_from (word ++ c ∷ []) cs in
    if is_space c then (if bytes_eq word [] then next else word ∷ next) else longer

unfoldable pub fields : Text → List Text
fields text = fields_from [] text

-- The loop of `routeTo`: a field after "via" is the gateway, one after "dev" the interface, the
-- last one wins.
unfoldable pub scan_route : List Text → Text → Text → Text × Text
scan_route [] gw dev = (gw, dev)
scan_route (f ∷ []) gw dev = (gw, dev)
scan_route (f ∷ g ∷ fs) gw dev =
    if bytes_eq f (codes "via")
    then scan_route (g ∷ fs) g dev
    else if bytes_eq f (codes "dev")
    then scan_route (g ∷ fs) gw g
    else scan_route (g ∷ fs) gw dev

module _ (S : System) where
  unfoldable pub if_up : S.State → Text → Text → ℤ → S.State × Bool
  if_up s name cidr mtu =
      let (s1, added) = S.run s (ip_addr_add cidr name) in
      if not added
      then (s1, false)
      else (let (s2, sized) = S.run s1 (ip_link_set name (codes "mtu" ∷ S.itoa mtu ∷ [])) in
          if not sized then (s2, false) else S.run s2 (ip_link_set name (codes "up" ∷ [])))

  unfoldable pub route_to : S.State → Text → Option (Text × Text)
  unfolding fields scan_route
  route_to s ip = elim (S.output s (codes "ip" ∷ codes "route" ∷ codes "get" ∷ ip ∷ [])) [
    | none ↦ none
    | some out ↦
        let (gw, dev) = scan_route (fields out) [] [] in
        if bytes_eq dev [] then none else some (gw, dev)
  ]
