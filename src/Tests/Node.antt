-- ===== src/Tests/Node.antt =====
-- A toy host for the control tool: its files, its units, and a codec in place of JSON.
use krot_vpn.Prelude.{
  ℕ, zero, suc, ◌≡◌, refl, ap, ◌≢◌, inl, inr, Bool, true, false, not, ◌&&◌, Option, none, some,
  List, [], ◌∷◌, ◌++◌, arith, length, get_or, take, drop, take-length-append, drop-append_of_length,
  ◌==◌, if◌then◌else◌, Bool-cases,
}
use mathlib.Core.List.{append_assoc}
use mathlib.Core.Option.{some-injective}
use krot_vpn.Config
use krot_vpn.Krotctl.{Tools, IsHost, systemctl}
use krot_vpn.Netif.{Text, Args}
use krot_vpn.Prelude.Bytes.{codes, bytes_eq, bytes_eq_iff}
use krot_vpn.Prelude.Int.{ℤ, pos, negsuc}

-- The files, and which units run.
pub record Node : Type 0 where
  pub files : Text → Option Text
  pub active : Text → Bool

-- The n-th word.
unfoldable pub word : ℕ → Args → Text
word n [] = []
word zero (a ∷ args) = a
word (suc n) (a ∷ args) = word n args

-- `systemctl stop UNIT`; what else runs changes nothing here.
unfoldable pub run_node : Node → Args → Node × Bool
unfolding word
run_node s args =
    if bytes_eq (word 1 args) (codes "stop")
    then (record s { active = λ u. not (bytes_eq u (word 2 args)) && s.active u }, true)
    else (s, true)

differ : (q p : Text) → q ≢ p → bytes_eq q p ≡ false
differ q p other = elim (Bool-cases (bytes_eq q p)) [
  | inl same ↦ absurd (other ((bytes_eq_iff q p).0 same))
  | inr no_ ↦ no_
]

abbrev pub write_node : Node → Text → Text → Node
write_node s p d = record s { files = λ q. if bytes_eq q p then some d else s.files q }

abbrev pub remove_node : Node → Text → Node
remove_node s p = record s { files = λ q. if bytes_eq q p then none else s.files q }

-- Texts in a row, each behind its length.
unfoldable pub pack : List Text → Text
pack [] = []
pack (t ∷ ts) = length t ∷ (t ++ pack ts)

unfoldable pub unpack : ℕ → Text → List Text
unpack zero text = []
unpack (suc k) [] = []
unpack (suc k) (n ∷ text) = take n text ∷ unpack k (drop n text)

unpack-pack : (ts : List Text) (rest : Text) → unpack (length ts) (pack ts ++ rest) ≡ ts
unfolding unpack pack
unpack-pack [] rest = refl
unpack-pack (t ∷ ts) rest =
    rw
      (
        append_assoc t (pack ts) rest,
        take-length-append t (pack ts ++ rest),
        drop-append_of_length (length t) t (pack ts ++ rest) refl,
      )
      (ap (◌∷◌ t) (unpack-pack ts rest))

abbrev pub number : ℤ → Text
number (pos n) = 0 ∷ n ∷ []
number (negsuc n) = 1 ∷ n ∷ []

abbrev pub to_number : Text → ℤ
to_number t = if get_or t 0 0 == 0 then pos (get_or t 1 0) else negsuc (get_or t 1 0)

to_number-number : (z : ℤ) → to_number (number z) ≡ z
to_number-number (pos n) = refl
to_number-number (negsuc n) = refl

abbrev pub flag : Bool → Text
flag true = 1 ∷ []
flag false = []

to_flag-flag : (b : Bool) → not (bytes_eq (flag b) []) ≡ b
to_flag-flag true = refl
to_flag-flag false = refl

abbrev pub client_fields : Config.Client → List Text
client_fields c =
    c.server_ip
    ∷ number c.server_port
    ∷ c.sni
    ∷ c.path
    ∷ c.psk
    ∷ c.server_pub
    ∷ flag c.insecure
    ∷ c.pin_sha256
    ∷ c.tun_name
    ∷ number c.mtu
    ∷ c.dns
    ∷ number c.channels
    ∷ c.route_mode
    ∷ c.socks_listen
    ∷ c.socks_table
    ∷ []

abbrev pub to_client : List Text → Config.Client
to_client f = record {
  server_ip = word 0 f;
  server_port = to_number (word 1 f);
  sni = word 2 f;
  path = word 3 f;
  psk = word 4 f;
  server_pub = word 5 f;
  insecure = not (bytes_eq (word 6 f) []);
  pin_sha256 = word 7 f;
  tun_name = word 8 f;
  mtu = to_number (word 9 f);
  dns = word 10 f;
  channels = to_number (word 11 f);
  route_mode = word 12 f;
  socks_listen = word 13 f;
  socks_table = word 14 f;
}

to_client-client_fields : (c : Config.Client) → to_client (client_fields c) ≡ c
unfolding word
to_client-client_fields c =
    rw
      (
        to_number-number c.server_port,
        to_flag-flag c.insecure,
        to_number-number c.mtu,
        to_number-number c.channels,
      )
      refl

abbrev pub server_fields : Config.Server → List Text
server_fields c =
    c.listen
    ∷ c.sni
    ∷ c.path
    ∷ c.psk
    ∷ c.server_priv
    ∷ c.cert_file
    ∷ c.key_file
    ∷ flag c.self_signed
    ∷ c.decoy
    ∷ c.tun_name
    ∷ c.tun_cidr
    ∷ c.dns
    ∷ c.wan_iface
    ∷ number c.mtu
    ∷ []

abbrev pub to_server : List Text → Config.Server
to_server f = record {
  listen = word 0 f;
  sni = word 1 f;
  path = word 2 f;
  psk = word 3 f;
  server_priv = word 4 f;
  cert_file = word 5 f;
  key_file = word 6 f;
  self_signed = not (bytes_eq (word 7 f) []);
  decoy = word 8 f;
  tun_name = word 9 f;
  tun_cidr = word 10 f;
  dns = word 11 f;
  wan_iface = word 12 f;
  mtu = to_number (word 13 f);
}

to_server-server_fields : (c : Config.Server) → to_server (server_fields c) ≡ c
unfolding word
to_server-server_fields c = rw (to_flag-flag c.self_signed, to_number-number c.mtu) refl

-- Base64 that changes nothing.
abbrev pub node : Tools
node = record {
  State = Node;
  root = true;
  is_file = λ s p. elim (s.files p) [ none ↦ false | some d ↦ true ];
  read_file = λ s p. s.files p;
  mkdir = λ s p. (s, true);
  dir_of = λ p. p;
  write_file = λ s p d. (write_node s p d, true);
  remove = remove_node;
  run = run_node;
  self = some (codes "/usr/local/bin/krotctl");
  print_client = λ c. some (pack (client_fields c));
  print_server = λ c. some (pack (server_fields c));
  parse_client = λ t. some (to_client (unpack 15 t));
  parse_server = λ t. some (to_server (unpack 14 t));
  b64 = λ b. b;
  unb64 = λ t. some t;
}

pub node-IsHost : IsHost node
unfolding run_node systemctl
node-IsHost = record {
  written = λ s p d wrote. rw ((bytes_eq_iff p p).1 refl) refl;
  written_other = λ s p d q other. rw (differ q p other) refl;
  removed = λ s p. rw ((bytes_eq_iff p p).1 refl) refl;
  ran = λ s args name. ground arith;
  parse-print_client = λ c text printed.
      rw
        (
          ← some-injective (pack (client_fields c)) text printed,
          unpack-pack (client_fields c) (10 ∷ []),
        )
        (ap some (to_client-client_fields c));
  parse-print_server = λ c text printed.
      rw
        (
          ← some-injective (pack (server_fields c)) text printed,
          unpack-pack (server_fields c) (10 ∷ []),
        )
        (ap some (to_server-server_fields c));
}
