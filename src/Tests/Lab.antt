-- ===== src/Tests/Lab.antt =====
-- A toy host: a kernel, its files and its iptables, that does what the laws ask of a host.
pub mod Laws
use krot_vpn.Prelude.{
  ℕ, zero, suc, ◌+◌, ◌-◌, Bool, true, false, not, ◌&&◌, ◌||◌, Option, none, some, [], ◌∷◌, take,
  if◌then◌else◌,
}
use krot_vpn.Net.{print_dec}
use krot_vpn.Netif.{Text, Args, System}
use krot_vpn.Netif.Laws.{is}
use krot_vpn.Netif.Nat.{Rule, append_flag, iptables}
use krot_vpn.Netif.Nat.Reverted.{same_rule}
use krot_vpn.Netif.SourceRoute.Tables.{same_lookup}
use krot_vpn.Prelude.Bytes.{codes, bytes_eq}
use krot_vpn.Prelude.Int.{ℤ, pos, negsuc}

-- The main table, the other tables, the rules of both kinds, the files and the devices.
pub record Lab : Type 0 where
  pub routes : Args → Bool
  pub tables : Text → Args → Bool
  pub lookups : Text → Text → Bool
  pub files : Text → Option Text
  pub filters : Rule → ℕ
  pub devices : Text → Bool

-- The n-th word.
unfoldable pub word : ℕ → Args → Text
word n [] = []
word zero (a ∷ args) = a
word (suc n) (a ∷ args) = word n args

-- A route's device is its last word; the routes of a device that is not there do not count.
unfoldable pub device_of : Args → Text
device_of [] = []
device_of (a ∷ args) = let later = device_of args in elim args [ [] ↦ a | _ ∷ _ ↦ later ]

abbrev pub has_route : Lab → Args → Bool
has_route s q = s.routes q && s.devices (device_of q)

unfoldable pub run_route : Lab → Text → Args → Lab × Bool
unfolding word device_of
run_route s cmd args =
    if bytes_eq cmd (codes "add")
    then (if s.routes args || not (s.devices (device_of args))
        then (s, false)
        else (record s { routes = λ q. is q args || s.routes q }, true))
    else if bytes_eq cmd (codes "del")
    then (record s { routes = λ q. not (is q args) && s.routes q }, true)
    else if bytes_eq cmd (codes "flush")
    then (record s { tables = λ t q. not (bytes_eq t (word 1 args)) && s.tables t q }, true)
    else (
      record s { tables = λ t q. (bytes_eq t (word 6 args) && is q (take 3 args)) || s.tables t q },
      true,
    )

unfoldable pub run_rule : Lab → Text → Args → Lab × Bool
unfolding word
run_rule s cmd args =
    let here : Text → Text → Bool = λ a b. same_lookup bytes_eq a b (word 1 args) (word 3 args) in
    if bytes_eq cmd (codes "add")
    then (if s.lookups (word 1 args) (word 3 args)
        then (s, false)
        else (record s { lookups = λ a b. here a b || s.lookups a b }, true))
    else (record s { lookups = λ a b. not (here a b) && s.lookups a b }, true)

unfoldable pub run_ip : Lab → Args → Lab × Bool
unfolding run_route run_rule
run_ip s [] = (s, false)
run_ip s (object ∷ []) = (s, false)
run_ip s (object ∷ cmd ∷ args) =
    if bytes_eq object (codes "route")
    then run_route s cmd args
    else if bytes_eq object (codes "rule")
    then run_rule s cmd args
    else (s, true)

-- The flag and the rule of an iptables command.
unfoldable pub tabled : Args → Option (Text × Rule)
tabled [] = none
tabled (t ∷ []) = none
tabled (t ∷ f ∷ []) = none
tabled (t ∷ f ∷ c ∷ spec) = some (f, record { table = some t; chain = c; spec = spec })

unfoldable pub untabled : Args → Option (Text × Rule)
untabled [] = none
untabled (f ∷ []) = none
untabled (f ∷ c ∷ spec) = some (f, record { table = none; chain = c; spec = spec })

unfoldable pub parsed : Args → Option (Text × Rule)
unfolding tabled untabled
parsed [] = none
parsed (a ∷ args) = if bytes_eq a (codes "-t") then tabled args else untabled (a ∷ args)

unfoldable pub run_iptables : Lab → Option (Text × Rule) → Lab × Bool
run_iptables s none = (s, false)
run_iptables s (some (flag, r)) =
    if bytes_eq flag append_flag
    then (record s { filters = λ q. if same_rule q r then s.filters q + 1 else s.filters q }, true)
    else (record s { filters = λ q. if same_rule q r then s.filters q - 1 else s.filters q }, true)

unfoldable pub run_lab : Lab → Args → Lab × Bool
unfolding run_ip run_iptables parsed
run_lab s [] = (s, false)
run_lab s (program ∷ args) =
    if bytes_eq program (codes "ip")
    then run_ip s args
    else if bytes_eq program (codes "iptables")
    then run_iptables s (parsed args)
    else (s, true)

abbrev pub digits : ℤ → Text
digits (pos n) = print_dec n
digits (negsuc n) = 45 ∷ print_dec (n + 1)

-- `ip route` answers with the default route, by eth0.
abbrev pub lab : System
lab = record {
  State = Lab;
  run = run_lab;
  output = λ s args. some (codes "default via 192.0.2.1 dev eth0");
  read_file = λ s p. s.files p;
  write_file =
      λ s p d. (record s { files = λ q. if bytes_eq q p then some d else s.files q }, true);
  remove = λ s p. record s { files = λ q. if bytes_eq q p then none else s.files q };
  open_tun = λ s name. if s.devices name then (s, none) else (
    record s {
      devices = λ q. bytes_eq q name || s.devices q;
      routes = λ q. not (bytes_eq (device_of q) name) && s.routes q;
    },
    some name,
  );
  close_tun = λ s name. record s { devices = λ q. not (bytes_eq q name) && s.devices q };
  itoa = digits;
}

-- The route goes out this device.
abbrev pub through : Text → Args → Bool
through dev q = bytes_eq (device_of q) dev
