-- ===== src/Krotctl.antt =====
-- cmd/krotctl: the control tool. What it asks of the host, and what it writes there.
pub mod ClientFlags
pub mod ClientUp
pub mod Files
pub mod Names
pub mod ServerDialogue
pub mod ServerRun
pub mod ServerUp
pub mod Uninstall
pub mod Wizard
use krot_vpn.Prelude.{
  ℕ, ◌≡◌, ◌≢◌, Bool, true, false, not, Option, none, some, List, [], ◌∷◌, ◌++◌, if◌then◌else◌,
  Result, ok, err,
}
use krot_vpn.Config
use krot_vpn.Prelude.Bytes.{codes}
use krot_vpn.Netif.{Text, Args}

-- os, os/exec, encoding/json and encoding/base64: `is_file` is an os.Stat without an error, `run`
-- is the helper `sh`, and `self` is os.Executable, `dir_of` filepath.Dir.
pub record Tools : Type 1 where
  pub State : Type 0
  pub root : Bool
  pub is_file : State → Text → Bool
  pub read_file : State → Text → Option Text
  pub mkdir : State → Text → State × Bool
  pub dir_of : Text → Text
  pub write_file : State → Text → Text → State × Bool
  pub remove : State → Text → State
  pub run : State → Args → State × Bool
  pub self : Option Text
  pub print_client : Config.Client → Option Text
  pub print_server : Config.Server → Option Text
  pub parse_client : Text → Option Config.Client
  pub parse_server : Text → Option Config.Server
  pub b64 : List ℕ → Text
  pub unb64 : Text → Option (List ℕ)

pub data Error : Type 0 where
  not_root bad_mode missing already_exists not_written unit_failed reload_failed start_failed :
      Error
  half_certificate no_secrets bad_public : Error
  rejected : Config.Error → Error
  bad_private : Config.Error → Error

unfoldable pub config_dir : Text
config_dir = codes "/etc/krot"

-- What the loader sees of a state.
unfoldable pub system_of : (T : Tools) → T.State → Config.System
system_of T s = record {
  read_file = T.read_file s;
  parse_server = T.parse_server;
  parse_client = T.parse_client;
  unb64 = T.unb64;
}

unfoldable pub systemctl : Args → Args
systemctl args = codes "systemctl" ∷ args

module _ (T : Tools) where
  -- A marshalled config with a line break behind it.
  unfoldable pub write_config : T.State → Text → Option Text → T.State × Bool
  write_config s path json =
      let (s1, made) = T.mkdir s (T.dir_of path) in
      if not made
      then (s1, false)
      else elim json [ none ↦ (s1, false) | some text ↦ T.write_file s1 path (text ++ 10 ∷ []) ]

  -- Both installers: the text of the unit is made of the path of this program.
  unfoldable pub install_unit : T.State → Text → (Text → Text) → T.State × Bool
  install_unit s path unit = elim T.self [
    | none ↦ (s, false)
    | some self ↦ T.write_file s path (unit self)
  ]

  -- From daemon-reload on: the error of `enable` is dropped.
  unfoldable pub start_unit : T.State → Text → T.State × Result Error Unit
  unfolding systemctl
  start_unit s unit =
      let (s1, reloaded) = T.run s (systemctl (codes "daemon-reload" ∷ [])) in
      if not reloaded
      then (s1, err reload_failed)
      else (let s2 = (T.run s1 (systemctl (codes "enable" ∷ unit ∷ []))).0 in
          let (s3, started) = T.run s2 (systemctl (codes "restart" ∷ unit ∷ [])) in
          if started then (s3, ok tt) else (s3, err start_failed))

  -- From the unit on, with the config accepted.
  unfoldable pub bring_up :
      T.State → Text → (Text → Text) → Text → Bool → T.State × Result Error Unit
  unfolding install_unit start_unit
  bring_up s path text unit no_start =
      let (s1, installed) = install_unit s path text in
      if not installed
      then (s1, err unit_failed)
      else if no_start
      then (s1, ok tt)
      else start_unit s1 unit

-- A file of the configuration's directory.
abbrev pub config_file : Text → Text
config_file name = codes "/etc/krot/" ++ name

-- The host as far as the tool relies on it: a write that succeeds is read back, and no write
-- touches another file; a removed file cannot be read; systemctl, with the daemon that it starts,
-- leaves the configuration's files as they are; JSON that was printed parses, also with a line
-- break behind it.
pub record IsHost (T : Tools) : Type 0 where
  pub written :
      (s : T.State) (p d : Text)
      → (T.write_file s p d).1 ≡ true
      → T.read_file (T.write_file s p d).0 p ≡ some d
  pub written_other :
      (s : T.State) (p d q : Text) → q ≢ p → T.read_file (T.write_file s p d).0 q ≡ T.read_file s q
  pub removed : (s : T.State) (p : Text) → T.read_file (T.remove s p) p ≡ none
  pub ran :
      (s : T.State) (args : Args) (name : Text)
      → T.read_file (T.run s (systemctl args)).0 (config_file name)
        ≡ T.read_file s (config_file name)
  pub parse-print_client :
      (c : Config.Client) (text : Text)
      → T.print_client c ≡ some text
      → T.parse_client (text ++ 10 ∷ []) ≡ some c
  pub parse-print_server :
      (c : Config.Server) (text : Text)
      → T.print_server c ≡ some text
      → T.parse_server (text ++ 10 ∷ []) ≡ some c
