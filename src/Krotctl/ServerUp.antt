-- ===== src/Krotctl/ServerUp.antt =====
-- cmd/krotctl/server.go: serverUp, behind the parsing of its flags, with keygen.go's genSecrets,
-- and serverDown.
pub mod Written
use krot_vpn.Prelude.{
  ℕ, Bool, false, not, ◌&&◌, ◌||◌, Option, none, some, List, [], ◌∷◌, ◌++◌, if◌then◌else◌, Result,
  ok, err, ◌>>=◌,
}
use krot_vpn.Config
use krot_vpn.Config.{decode_key32}
use krot_vpn.Crypto.{Primitives}
use krot_vpn.Crypto.Keys.{generate_keypair, public_from_private}
use krot_vpn.Krotctl.{
  not_root, already_exists, half_certificate, no_secrets, bad_private, bad_public, not_written,
  Tools, Error, system_of, systemctl, write_config, bring_up,
}
use krot_vpn.Krotctl.ClientUp.{lines}
use krot_vpn.Netif.{Text}
use krot_vpn.Prelude.Bytes.{codes, bytes_eq}
use krot_vpn.Prelude.Int.{ℤ}

pub record Flags : Type 0 where
  pub sni : Text
  pub listen : Text
  pub decoy : Text
  pub tun_cidr : Text
  pub tun_name : Text
  pub dns : Text
  pub wan : Text
  pub mtu : ℤ
  pub self_signed : Bool
  pub cert_file : Text
  pub key_file : Text
  pub psk : Text
  pub priv : Text
  pub force : Bool
  pub no_start : Bool

pub record Secrets : Type 0 where
  pub psk : Text
  pub priv : Text
  pub public : Text
  pub path : Text

unfoldable pub server_cfg_path : Text
server_cfg_path = codes "/etc/krot/server.json"

unfoldable pub server_unit : Text
server_unit = codes "krot-server"

unfoldable pub unit_path : Text
unit_path = codes "/etc/systemd/system/krot-server.service"

unfoldable pub unit_text : Text → Text
unfolding lines server_cfg_path
unit_text self = lines (
    codes "[Unit]"
    ∷ codes "Description=Krot VPN server"
    ∷ codes "After=network-online.target"
    ∷ codes "Wants=network-online.target"
    ∷ []
    ∷ codes "[Service]"
    ∷ (codes "ExecStart=" ++ (self ++ (codes " server run -config " ++ server_cfg_path)))
    ∷ codes "Restart=on-failure"
    ∷ codes "RestartSec=3"
    ∷ codes "LimitNOFILE=1048576"
    ∷ []
    ∷ codes "[Install]"
    ∷ codes "WantedBy=multi-user.target"
    ∷ [])

-- A flag, or what was generated.
abbrev pub given : Text → Text → Text
given flag generated = if bytes_eq flag [] then generated else flag

-- The flags of a certificate turn `-self-signed` off.
abbrev pub with_files : Flags → Bool
with_files o = not (bytes_eq o.cert_file []) || not (bytes_eq o.key_file [])

unfoldable pub server_config : Flags → Secrets → Config.Server
server_config o gen = record {
  listen = o.listen;
  sni = o.sni;
  path = gen.path;
  psk = given o.psk gen.psk;
  server_priv = given o.priv gen.priv;
  cert_file = o.cert_file;
  key_file = o.key_file;
  self_signed = if with_files o then false else o.self_signed;
  decoy = o.decoy;
  tun_name = o.tun_name;
  tun_cidr = o.tun_cidr;
  dns = o.dns;
  wan_iface = o.wan;
  mtu = o.mtu;
}

module _ (T : Tools) (prims : Primitives) where
  -- The random bytes of the PSK, of the key pair and of the path; `b64url` is
  -- base64.RawURLEncoding.
  unfoldable pub gen_secrets : (List ℕ → Text) → List ℕ → Option (List ℕ) → List ℕ → Option Secrets
  unfolding generate_keypair
  gen_secrets b64url psk seed pr = do
    kp ← generate_keypair prims seed
    some (record {
      psk = T.b64 psk;
      priv = T.b64 kp.private;
      public = T.b64 kp.public;
      path = codes "/api/v2/" ++ b64url pr;
    })

  -- From the private key on.
  unfoldable pub write_server : T.State → Flags → Secrets → T.State × Result Error Unit
  unfolding server_config public_from_private write_config bring_up server_cfg_path server_unit
      unit_path unit_text system_of
  write_server s o gen = elim (decode_key32 (system_of T s) (given o.priv gen.priv)) [
    | err e ↦ (s, err (bad_private e))
    | ok private ↦ elim (public_from_private prims private) [
      | none ↦ (s, err bad_public)
      | some public ↦
          (let (s1, wrote) =
              write_config T s server_cfg_path (T.print_server (server_config o gen)) in
            if not wrote
            then (s1, err not_written)
            else bring_up T s1 unit_path unit_text server_unit o.no_start)
    ]
  ]

  -- `generated` is what gen_secrets gives.
  unfoldable pub server_up : T.State → Flags → Option Secrets → T.State × Result Error Unit
  unfolding write_server server_cfg_path
  server_up s o generated =
      if not T.root
      then (s, err not_root)
      else if T.is_file s server_cfg_path && not o.force
      then (s, err already_exists)
      else if with_files o && (bytes_eq o.cert_file [] || bytes_eq o.key_file [])
      then (s, err half_certificate)
      else elim generated [ none ↦ (s, err no_secrets) | some gen ↦ write_server s o gen ]

  -- `stop`'s error is printed alone.
  unfoldable pub server_down : T.State → T.State × Result Error Unit
  unfolding systemctl server_unit
  server_down s =
      if not T.root
      then (s, err not_root)
      else ((T.run s (systemctl (codes "stop" ∷ server_unit ∷ []))).0, ok tt)
