-- ===== src/Config.antt =====
-- internal/config/config.go: the configuration files of the server and the client, their defaults
-- and their validation.
pub mod Loaded
use krot_vpn.Prelude.{
  ℕ, zero, suc, Bool, true, false, not, ◌||◌, Option, none, some, List, [], ◌∷◌, length, ◌==◌,
  if◌then◌else◌, Result, ok, err,
}
use krot_vpn.Prelude.{check, ◌then◌}
use krot_vpn.Prelude.Bytes.{codes}
use krot_vpn.Prelude.Int.{ℤ, pos, negsuc}
use krot_vpn.Crypto.Keys.{key_size}

pub record Server : Type 0 where
  pub listen : List ℕ
  pub sni : List ℕ
  pub path : List ℕ
  pub psk : List ℕ
  pub server_priv : List ℕ
  pub cert_file : List ℕ
  pub key_file : List ℕ
  pub self_signed : Bool
  pub decoy : List ℕ
  pub tun_name : List ℕ
  pub tun_cidr : List ℕ
  pub dns : List ℕ
  pub wan_iface : List ℕ
  pub mtu : ℤ

pub record Client : Type 0 where
  pub server_ip : List ℕ
  pub server_port : ℤ
  pub sni : List ℕ
  pub path : List ℕ
  pub psk : List ℕ
  pub server_pub : List ℕ
  pub insecure : Bool
  pub pin_sha256 : List ℕ
  pub tun_name : List ℕ
  pub mtu : ℤ
  pub dns : List ℕ
  pub channels : ℤ
  pub route_mode : List ℕ
  pub socks_listen : List ℕ
  pub socks_table : List ℕ

pub data Error : Type 0 where
  unreadable unparsable psk_not_base64 psk_length key_not_base64 key_length : Error
  no_certificate no_server_ip no_sni : Error

-- What is outside this package: os.ReadFile, json.Unmarshal into either record (a field that the
-- file leaves out is zero), and base64.StdEncoding.
pub record System : Type 0 where
  pub read_file : List ℕ → Option (List ℕ)
  pub parse_server : List ℕ → Option Server
  pub parse_client : List ℕ → Option Client
  pub unb64 : List ℕ → Option (List ℕ)

abbrev pub is_empty : List ℕ → Bool
is_empty [] = true
is_empty (x ∷ xs) = false

abbrev pub default_text : List ℕ → List ℕ → List ℕ
default_text value other = if is_empty value then other else value

abbrev pub default_int : ℤ → ℤ → ℤ
default_int (pos zero) other = other
default_int (pos (suc n)) other = pos (suc n)
default_int (negsuc n) other = negsuc n

unfoldable pub apply_server_defaults : Server → Server
apply_server_defaults c = record c {
  listen = default_text c.listen (codes ":443");
  path = default_text c.path (codes "/api/v2/stream");
  tun_name = default_text c.tun_name (codes "krot0");
  tun_cidr = default_text c.tun_cidr (codes "10.8.0.1/24");
  mtu = default_int c.mtu (pos 1320);
}

unfoldable pub apply_client_defaults : Client → Client
apply_client_defaults c = record c {
  server_port = default_int c.server_port (pos 443);
  path = default_text c.path (codes "/api/v2/stream");
  tun_name = default_text c.tun_name (codes "krot0");
  mtu = default_int c.mtu (pos 1320);
  channels = default_int c.channels (pos 4);
}

unfoldable pub decode_psk : System → List ℕ → Result Error (List ℕ)
decode_psk sys s = elim (sys.unb64 s) [
  | none ↦ err psk_not_base64
  | some b ↦ if length b == key_size then ok b else err psk_length
]

unfoldable pub decode_key32 : System → List ℕ → Result Error (List ℕ)
decode_key32 sys s = elim (sys.unb64 s) [
  | none ↦ err key_not_base64
  | some b ↦ if length b == 32 then ok b else err key_length
]

unfoldable pub load_json : {A : Type 0} → System → (List ℕ → Option A) → List ℕ → Result Error A
load_json sys parse path = elim (sys.read_file path) [
  | none ↦ err unreadable
  | some data_read ↦ elim (parse data_read) [ none ↦ err unparsable | some c ↦ ok c ]
]

unfoldable pub load_server : System → List ℕ → Result Error Server
unfolding load_json apply_server_defaults decode_psk decode_key32
load_server sys path = load_json sys sys.parse_server path then λ parsed.
    let c = apply_server_defaults parsed in
    decode_psk sys c.psk then λ _. decode_key32 sys c.server_priv then λ _.
    check (c.self_signed || not (is_empty c.cert_file || is_empty c.key_file)) no_certificate
    then λ _. ok c

unfoldable pub load_client : System → List ℕ → Result Error Client
unfolding load_json apply_client_defaults decode_psk decode_key32
load_client sys path = load_json sys sys.parse_client path then λ parsed.
    let c = apply_client_defaults parsed in
    decode_psk sys c.psk then λ _. decode_key32 sys c.server_pub then λ _.
    check (not (is_empty c.server_ip)) no_server_ip then λ _.
    check (not (is_empty c.sni)) no_sni then λ _. ok c
