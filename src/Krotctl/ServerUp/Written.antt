-- ===== src/Krotctl/ServerUp/Written.antt =====
-- The config that a server is left with.
use krot_vpn.Prelude.{◌≡◌, ◌⊎◌, Bool, true, false, not, ◌&&◌, ◌||◌, [], Result, ok, err}
use krot_vpn.Config
use krot_vpn.Config.{
  is_empty, default_text, default_int, no_certificate, apply_server_defaults, decode_psk,
}
use krot_vpn.Krotctl.ServerUp.{Flags, Secrets, with_files}
use krot_vpn.Prelude.Bytes.{codes, bytes_eq}
use krot_vpn.Prelude.Int.{pos}
use krot_vpn.Prelude.{check, ◌then◌}

-- The config that the flags and the generated secrets describe: each field has the flag of its
-- meaning, and where it is empty or zero, what was generated or the loader's default; a certificate
-- turns the self-signing off.
pub record IsGiven (o : Flags) (gen : Secrets) (c : Config.Server) : Type 0 where
  pub listen : c.listen ≡ default_text o.listen (codes ":443")
  pub sni : c.sni ≡ o.sni
  pub path : c.path ≡ default_text gen.path (codes "/api/v2/stream")
  pub psk : c.psk ≡ default_text o.psk gen.psk
  pub server_priv : c.server_priv ≡ default_text o.priv gen.priv
  pub cert_file : c.cert_file ≡ o.cert_file
  pub key_file : c.key_file ≡ o.key_file
  pub self_signed : c.self_signed ≡ (o.self_signed && is_empty o.cert_file)
  pub decoy : c.decoy ≡ o.decoy
  pub tun_name : c.tun_name ≡ default_text o.tun_name (codes "krot0")
  pub tun_cidr : c.tun_cidr ≡ default_text o.tun_cidr (codes "10.8.0.1/24")
  pub dns : c.dns ≡ o.dns
  pub wan_iface : c.wan_iface ≡ o.wan
  pub mtu : c.mtu ≡ default_int o.mtu (pos 1320)

-- What the loader makes of such a config: the PSK does not decode to 32 bytes, or there is no
-- certificate and no self-signing, or it is accepted.
abbrev pub Loads : Config.System → Flags → Secrets → Result Config.Error Config.Server → Type 0
Loads sys o gen result =
    ((e : Config.Error) × (decode_psk sys (default_text o.psk gen.psk) ≡ err e) × (result ≡ err e))
    ⊎ ((o.self_signed ≡ false) × (is_empty o.cert_file ≡ true) × (result ≡ err no_certificate))
    ⊎ ((c : Config.Server) × (result ≡ ok c) × IsGiven o gen c)

-- The certificate and the key are given together.
abbrev is_half : Flags → Bool
is_half o = with_files o && (bytes_eq o.cert_file [] || bytes_eq o.key_file [])

-- What the loader has left to look at, once the private key is known to be good.
abbrev pub remaining : Config.System → Config.Server → Result Config.Error Config.Server
remaining sys c = decode_psk sys c.psk then λ _.
    check (c.self_signed || not (is_empty c.cert_file || is_empty c.key_file)) no_certificate
    then λ _. ok (apply_server_defaults c)
