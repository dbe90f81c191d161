-- ===== src/Server/Router.antt =====
-- internal/server/server.go: the table of live tunnels, and the dispatch of packets from the TUN
-- device. A tunnel is a number.
pub mod Assigned
pub mod Ownership
use krot_vpn.Prelude.{
  ℕ, ◌/◌, Bool, false, not, ◌||◌, Option, none, some, List, [], ◌∷◌, length, get_or, take, drop,
  ltb, ◌==◌, if◌then◌else◌,
}
use native.Mathlib.Decide.{ℕ_discrete}
use krot_vpn.Prelude.Bytes.{uint}
use krot_vpn.Prelude.Counts.{contains}
use krot_vpn.Prelude.Maps.{find, delete, assign}
use krot_vpn.Net.{parse_ipv4}

-- `sessions`: address to tunnel.
abbrev pub Table : Type 0
Table = List (ℕ × ℕ)

unfoldable pub register : ℕ → ℕ → Table → Table
register ip tun sessions = assign ℕ_discrete ip tun sessions

-- `s.sessions[ip] == tun`
abbrev pub owns : Option ℕ → ℕ → Bool
owns none tun = false
owns (some t) tun = t == tun

unfoldable pub unregister : ℕ → ℕ → Table → Table
unregister ip tun sessions =
    if owns (find ℕ_discrete ip sessions) tun then delete ℕ_discrete ip sessions else sessions

unfoldable pub ipv4_dst : List ℕ → Option ℕ
ipv4_dst p =
    if ltb (length p) 20 || not (get_or p 0 0 / 16 == 4)
    then none
    else some (uint (take 4 (drop 16 p)))

-- What `dispatch` does with a packet read from the device.
pub data Dispatch : Type 0 where
  drops : Dispatch
  writes : ℕ → List ℕ → Dispatch

-- The write goes to the tunnel that owns the destination; the packet is copied whole.
unfoldable pub dispatch : Table → List ℕ → Dispatch
dispatch sessions p = elim (ipv4_dst p) [
  | none ↦ drops
  | some dst ↦ elim (find ℕ_discrete dst sessions) [ none ↦ drops | some tun ↦ writes tun p ]
]

-- Up to the first '/'; the loop of `parseHostIP`, and of `hostIP` in internal/client/client.go.
unfoldable pub host_ip : List ℕ → List ℕ
host_ip [] = []
host_ip (c ∷ cs) = if c == b'/' then [] else c ∷ host_ip cs

-- net.ParseIP and To4. The form with colons is Go's: `ip6` gives the IPv4 address that such a text
-- stands for, if any.
unfoldable pub parse_ip : (List ℕ → Option ℕ) → List ℕ → Option ℕ
parse_ip ip6 host = if contains b':' host then ip6 host else parse_ipv4 host

unfoldable pub parse_host_ip : (List ℕ → Option ℕ) → List ℕ → Option ℕ
unfolding parse_ip
parse_host_ip ip6 cidr = parse_ip ip6 (host_ip cidr)

-- `handleConn`: it registers the tunnel under the assigned address, and unregisters it at its end;
-- an address that does not parse ends it at once.
unfoldable pub handle_start : (List ℕ → Option ℕ) → ℕ → List ℕ → Table → Table
unfolding parse_host_ip register
handle_start ip6 tun addr sessions = elim (parse_host_ip ip6 addr) [
  | none ↦ sessions
  | some ip ↦ register ip tun sessions
]

unfoldable pub handle_end : (List ℕ → Option ℕ) → ℕ → List ℕ → Table → Table
unfolding parse_host_ip unregister
handle_end ip6 tun addr sessions = elim (parse_host_ip ip6 addr) [
  | none ↦ sessions
  | some ip ↦ unregister ip tun sessions
]
