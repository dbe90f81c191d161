-- ===== src/Config/Loaded.antt =====
-- What holds of a configuration that was loaded.
use krot_vpn.Prelude.{
  ℕ, suc, ◌≡◌, refl, ◌≢◌, ◌⊎◌, Bool, true, false, not, ◌||◌, some, List, arith, length, ok,
}
use krot_vpn.Prelude.{check, then-eq-ok, check-eq-ok}
use krot_vpn.Prelude.Int.{ℤ, pos}
use krot_vpn.Config.{
  Server, Client, System, apply_server_defaults, apply_client_defaults, default_text, default_int,
  is_empty, no_certificate, no_server_ip, no_sni, load_json, decode_psk, decode_key32, load_server,
  load_client,
}
use krot_vpn.Crypto.Keys.{key_size}

decode_psk-ok :
    (sys : System) (s : List ℕ) {b : List ℕ}
    → decode_psk sys s ≡ ok b
    → (d : List ℕ) × (sys.unb64 s ≡ some d) × (length d ≡ key_size)
unfolding decode_psk
decode_psk-ok sys s {b = b} h = (b, ground arith, ground arith)

decode_key32-ok :
    (sys : System) (s : List ℕ) {b : List ℕ}
    → decode_key32 sys s ≡ ok b
    → (d : List ℕ) × (sys.unb64 s ≡ some d) × (length d ≡ 32)
unfolding decode_key32
decode_key32-ok sys s {b = b} h = (b, ground arith, ground arith)

default_text-set :
    (value other : List ℕ) → is_empty other ≡ false → is_empty (default_text value other) ≡ false
default_text-set value other h = ground arith

default_text_twice :
    (value other : List ℕ)
    → default_text (default_text value other) other ≡ default_text value other
default_text_twice value other = ground arith

default_int_twice :
    (value other : ℤ) → default_int (default_int value other) other ≡ default_int value other
default_int_twice value other = ground arith

default_int-set : (value : ℤ) (n : ℕ) → default_int value (pos (suc n)) ≢ pos 0
default_int-set value n = ground arith

files-given :
    (own cert key : Bool)
    → (own || not (cert || key)) ≡ true
    → (own ≡ true) ⊎ ((cert ≡ false) × (key ≡ false))
files-given own cert key h = ground arith

server_defaults_twice :
    (c : Server) → apply_server_defaults (apply_server_defaults c) ≡ apply_server_defaults c
unfolding apply_server_defaults
server_defaults_twice c =
    rw
      (
        default_text_twice c.listen,
        default_text_twice c.path,
        default_text_twice c.tun_name,
        default_text_twice c.tun_cidr,
        default_int_twice c.mtu,
      )
      refl

client_defaults_twice :
    (c : Client) → apply_client_defaults (apply_client_defaults c) ≡ apply_client_defaults c
unfolding apply_client_defaults
client_defaults_twice c =
    rw
      (
        default_int_twice c.server_port,
        default_text_twice c.path,
        default_text_twice c.tun_name,
        default_int_twice c.mtu,
        default_int_twice c.channels,
      )
      refl

-- A server configuration that was loaded: its pre-shared key and its private key are base64 of 32
-- bytes, it has a certificate and a key file unless it signs its own, no field with a default is
-- empty or zero, and applying the defaults again changes nothing.
pub load_server_usable :
    (sys : System) (path : List ℕ) {c : Server}
    → load_server sys path ≡ ok c
    → ((b : List ℕ) × (sys.unb64 c.psk ≡ some b) × (length b ≡ key_size))
      × ((b : List ℕ) × (sys.unb64 c.server_priv ≡ some b) × (length b ≡ 32))
      × ((c.self_signed ≡ true) ⊎ ((is_empty c.cert_file ≡ false) × (is_empty c.key_file ≡ false)))
      × (is_empty c.listen ≡ false)
      × (is_empty c.path ≡ false)
      × (is_empty c.tun_name ≡ false)
      × (is_empty c.tun_cidr ≡ false)
      × (c.mtu ≢ pos 0)
      × (apply_server_defaults c ≡ c)
unfolding load_server apply_server_defaults
load_server_usable sys path {c = c} loaded =
    let (parsed, _, h1) = then-eq-ok (load_json sys sys.parse_server path) _ loaded in
    let d = apply_server_defaults parsed in
    let (psk, psk_ok, h2) = then-eq-ok (decode_psk sys d.psk) _ h1 in
    let (key, key_ok, h3) = then-eq-ok (decode_key32 sys d.server_priv) _ h2 in
    let (_, files_ok, h4) =
      then-eq-ok
        (check (d.self_signed || not (is_empty d.cert_file || is_empty d.key_file)) no_certificate)
        _ h3 in
    let same : c ≡ d = ground arith in
    rw same (
      decode_psk-ok sys d.psk psk_ok,
      decode_key32-ok sys d.server_priv key_ok,
      files-given d.self_signed (is_empty d.cert_file) (is_empty d.key_file)
          (check-eq-ok _ _ files_ok),
      default_text-set parsed.listen _ refl,
      default_text-set parsed.path _ refl,
      default_text-set parsed.tun_name _ refl,
      default_text-set parsed.tun_cidr _ refl,
      default_int-set parsed.mtu 1319,
      server_defaults_twice parsed,
    )

-- A client configuration that was loaded: its pre-shared key and the server's public key are
-- base64 of 32 bytes, the server's address and its TLS name are given, no field with a default is
-- empty or zero, and applying the defaults again changes nothing.
pub load_client_usable :
    (sys : System) (path : List ℕ) {c : Client}
    → load_client sys path ≡ ok c
    → ((b : List ℕ) × (sys.unb64 c.psk ≡ some b) × (length b ≡ key_size))
      × ((b : List ℕ) × (sys.unb64 c.server_pub ≡ some b) × (length b ≡ 32))
      × (is_empty c.server_ip ≡ false)
      × (is_empty c.sni ≡ false)
      × (is_empty c.path ≡ false)
      × (is_empty c.tun_name ≡ false)
      × (c.server_port ≢ pos 0)
      × (c.mtu ≢ pos 0)
      × (c.channels ≢ pos 0)
      × (apply_client_defaults c ≡ c)
unfolding load_client apply_client_defaults
load_client_usable sys path {c = c} loaded =
    let (parsed, _, h1) = then-eq-ok (load_json sys sys.parse_client path) _ loaded in
    let d = apply_client_defaults parsed in
    let (psk, psk_ok, h2) = then-eq-ok (decode_psk sys d.psk) _ h1 in
    let (key, key_ok, h3) = then-eq-ok (decode_key32 sys d.server_pub) _ h2 in
    let (_, ip_ok, h4) = then-eq-ok (check (not (is_empty d.server_ip)) no_server_ip) _ h3 in
    let (_, sni_ok, h5) = then-eq-ok (check (not (is_empty d.sni)) no_sni) _ h4 in
    let same : c ≡ d = ground arith in
    rw same (
      decode_psk-ok sys d.psk psk_ok,
      decode_key32-ok sys d.server_pub key_ok,
      ground (arith, check-eq-ok _ _ ip_ok),
      ground (arith, check-eq-ok _ _ sni_ok),
      default_text-set parsed.path _ refl,
      default_text-set parsed.tun_name _ refl,
      default_int-set parsed.server_port 442,
      default_int-set parsed.mtu 1319,
      default_int-set parsed.channels 3,
      client_defaults_twice parsed,
    )
