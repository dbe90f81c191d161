-- ===== src/Krotctl/ClientFlags.antt =====
-- cmd/krotctl: the flags of `client up`, as Go's flag package reads them, and the client's
-- dialogue of the wizard, which writes them.
pub mod Accepted
pub mod Written
use krot_vpn.Prelude.{
  ℕ, Bool, true, false, not, ◌&&◌, ◌||◌, Option, none, some, List, [], ◌∷◌, ◌++◌, ◌==◌,
  if◌then◌else◌, ◌>>=◌,
}
use krot_vpn.Krotctl.ClientUp.{Flags}
use krot_vpn.Krotctl.Names.{client_cfg_path}
use krot_vpn.Krotctl.Wizard.{Reader, ask, ask_required, yes_no, choice}
use krot_vpn.Netif.{Text, Args}
use krot_vpn.Prelude.Bytes.{codes, bytes_eq}
use krot_vpn.Prelude.Int.{ℤ, pos}

-- The flags that are not given.
unfoldable pub default_flags : Flags
default_flags = record {
  name = codes "default";
  mode = codes "full";
  server = [];
  port = pos 443;
  sni = [];
  path = [];
  psk = [];
  server_pub = [];
  insecure = true;
  pin = [];
  tun_name = [];
  mtu = pos 1320;
  channels = pos 4;
  dns = [];
  socks_addr = codes "127.0.0.1:1080";
  socks_table = [];
  force = false;
  no_start = false;
}

-- A name with the value behind its first `=`, if it has one.
unfoldable pub split_value : Text → Text × Option Text
split_value [] = ([], none)
split_value (c ∷ cs) =
    let (name, value) = split_value cs in if c == 61 then ([], some cs) else (c ∷ name, value)

-- A flag's name and value: one dash or two, and then neither a dash nor a `=`.
unfoldable pub flag_name : Text → Option (Text × Option Text)
unfolding split_value
flag_name [] = none
flag_name (c ∷ cs) = if (c == 45) || (c == 61) then none else some (split_value (c ∷ cs))

unfoldable pub read_flag : Text → Option (Text × Option Text)
unfolding flag_name
read_flag [] = none
read_flag (d ∷ []) = none
read_flag (d ∷ e ∷ cs) =
    if not (d == 45) then none else if e == 45 then flag_name cs else flag_name (e ∷ cs)

unfoldable pub is_end : Text → Bool
is_end [] = true
is_end (d ∷ []) = true
is_end (d ∷ e ∷ cs) = not (d == 45) || (e == 45 && bytes_eq cs [])

-- strconv.ParseBool.
unfoldable pub parse_bool : Text → Option Bool
parse_bool v =
    if bytes_eq v (codes "1")
      || (bytes_eq v (codes "t")
          || (bytes_eq v (codes "T")
              || (bytes_eq v (codes "true")
                  || (bytes_eq v (codes "TRUE") || bytes_eq v (codes "True")))))
    then some true
    else if bytes_eq v (codes "0")
        || (bytes_eq v (codes "f")
            || (bytes_eq v (codes "F")
                || (bytes_eq v (codes "false")
                    || (bytes_eq v (codes "FALSE") || bytes_eq v (codes "False")))))
    then some false
    else none

unfoldable pub is_switch : Text → Bool
is_switch name =
    bytes_eq name (codes "insecure")
    || (bytes_eq name (codes "force") || bytes_eq name (codes "no-start"))

unfoldable pub set_switch : Flags → Text → Bool → Flags
set_switch o name b =
    if bytes_eq name (codes "insecure")
    then record o { insecure = b }
    else if bytes_eq name (codes "force")
    then record o { force = b }
    else record o { no_start = b }

-- `parse_int` reads the three numbers.
module _ (parse_int : Text → Option ℤ) where
  unfoldable pub set_number : Flags → Text → Text → Option Flags
  set_number o name v = elim (parse_int v) [
    | none ↦ none
    | some n ↦
        if bytes_eq name (codes "port")
        then some (record o { port = n })
        else if bytes_eq name (codes "mtu")
        then some (record o { mtu = n })
        else if bytes_eq name (codes "channels")
        then some (record o { channels = n })
        else none
  ]

  unfoldable pub set_value : Flags → Text → Text → Option Flags
  unfolding set_number
  set_value o name v =
      if bytes_eq name (codes "name")
      then some (record o { name = v })
      else if bytes_eq name (codes "mode")
      then some (record o { mode = v })
      else if bytes_eq name (codes "server")
      then some (record o { server = v })
      else if bytes_eq name (codes "sni")
      then some (record o { sni = v })
      else if bytes_eq name (codes "path")
      then some (record o { path = v })
      else if bytes_eq name (codes "psk")
      then some (record o { psk = v })
      else if bytes_eq name (codes "server-pub")
      then some (record o { server_pub = v })
      else if bytes_eq name (codes "pin-sha256")
      then some (record o { pin = v })
      else if bytes_eq name (codes "tun-name")
      then some (record o { tun_name = v })
      else if bytes_eq name (codes "dns")
      then some (record o { dns = v })
      else if bytes_eq name (codes "socks")
      then some (record o { socks_addr = v })
      else if bytes_eq name (codes "socks-table")
      then some (record o { socks_table = v })
      else set_number o name v

  -- One flag and what it takes of the following arguments; `none` is an error, which ends the
  -- program.
  unfoldable pub take_flag : Flags → Text → Option Text → Args → Option (Flags × Bool)
  unfolding is_switch set_switch parse_bool set_value
  take_flag o name value rest =
      if is_switch name
      then elim value [
        | none ↦ some (set_switch o name true, false)
        | some v ↦ elim (parse_bool v) [ none ↦ none | some b ↦ some (set_switch o name b, false) ]
      ]
      else elim value [
        | some v ↦ elim (set_value o name v) [ none ↦ none | some next ↦ some (next, false) ]
        | none ↦ elim rest [
          | [] ↦ none
          | v ∷ _ ↦ elim (set_value o name v) [ none ↦ none | some next ↦ some (next, true) ]
        ]
      ]

  -- An argument without a dash at its front, `-` and `--` end the flags. The Bool of take_flag
  -- says that the next argument is taken as well.
  unfoldable pub parse_flags : Flags → Args → Option Flags
  unfolding is_end read_flag take_flag
  parse_flags o [] = some o
  parse_flags o (f ∷ []) = if is_end f then some o else elim (read_flag f) [
    | none ↦ none
    | some (name, value) ↦ elim (take_flag o name value []) [
      | none ↦ none
      | some (next, taken) ↦ some next
    ]
  ]
  parse_flags o (f ∷ v ∷ args) = if is_end f then some o else elim (read_flag f) [
    | none ↦ none
    | some (name, value) ↦ elim (take_flag o name value (v ∷ args)) [
      | none ↦ none
      | some (next, taken) ↦ elim taken [
        | true ↦ parse_flags next args
        | false ↦ parse_flags next (v ∷ args)
      ]
    ]
  ]

-- The answers to the client's dialogue, in its order.
pub record Answers : Type 0 where
  pub name : Text
  pub mode : Text
  pub server : Text
  pub port : Text
  pub sni : Text
  pub path : Text
  pub psk : Text
  pub server_pub : Text
  pub channels : Text
  pub mtu : Text
  pub insecure : Bool
  pub socks_addr : Option Text
  pub overwrite : Bool

-- The list of flags that wizardClient builds of its answers.
unfoldable pub client_args : Answers → Args
client_args a =
    codes "-name"
    ∷ a.name
    ∷ codes "-mode"
    ∷ a.mode
    ∷ codes "-server"
    ∷ a.server
    ∷ codes "-port"
    ∷ a.port
    ∷ codes "-sni"
    ∷ a.sni
    ∷ codes "-path"
    ∷ a.path
    ∷ codes "-psk"
    ∷ a.psk
    ∷ codes "-server-pub"
    ∷ a.server_pub
    ∷ codes "-channels"
    ∷ a.channels
    ∷ codes "-mtu"
    ∷ a.mtu
    ∷ (if a.insecure then codes "-insecure" else codes "-insecure=false")
    ∷ ((elim a.socks_addr [ none ↦ [] | some addr ↦ codes "-socks" ∷ addr ∷ [] ])
        ++ (if a.overwrite then codes "-force" ∷ [] else []))

-- The two last questions: the proxy's address in SOCKS mode, and whether to overwrite a config
-- that is there.
unfoldable pub ask_socks : Reader → Text → Option Text × Reader
unfolding ask
ask_socks w mode =
    if bytes_eq mode (codes "socks")
    then (let (addr, next) = ask w (codes "127.0.0.1:1080") in (some addr, next))
    else (none, w)

unfoldable pub ask_overwrite : ℕ → Reader → Bool → Option (Bool × Reader)
unfolding yes_no
ask_overwrite n w there = if there then yes_no n w false else some (false, w)

abbrev modes : List Text
modes = codes "full" ∷ codes "socks" ∷ codes "manual" ∷ []

-- The questions for the server, in their order: its address, its port and its name.
unfoldable pub ask_target : ℕ → Reader → Option ((Text × Text × Text) × Reader)
unfolding ask ask_required
ask_target n w = do
  (server, w1) ← ask_required n w
  let (port, w2) = ask w1 (codes "443")
  (sni, w3) ← ask_required n w2
  some ((server, port, sni), w3)

-- Those for what it has given out: the path, the PSK and its public key.
unfoldable pub ask_credentials : ℕ → Reader → Option ((Text × Text × Text) × Reader)
unfolding ask_required
ask_credentials n w = do
  (path, w1) ← ask_required n w
  (psk, w2) ← ask_required n w1
  (server_pub, w3) ← ask_required n w2
  some ((path, psk, server_pub), w3)

-- The channels, the MTU and the verification of the certificate.
unfoldable pub ask_tuning : ℕ → Reader → Option ((Text × Text × Bool) × Reader)
unfolding ask yes_no
ask_tuning n w =
    let (channels, w1) = ask w (codes "4") in
    let (mtu, w2) = ask w1 (codes "1320") in
    do (insecure, w3) ← yes_no n w2 true; some ((channels, mtu, insecure), w3)

-- `is_file`: os.Stat of a path is no error.
unfoldable pub wizard_client : ℕ → (Text → Bool) → Reader → Option (Answers × Reader)
unfolding ask choice ask_target ask_credentials ask_tuning ask_socks ask_overwrite client_cfg_path
wizard_client n is_file w =
    let (name, w1) = ask w (codes "default") in
    do
      (mode, w2) ← choice n w1 modes (codes "full")
      ((server, port, sni), w3) ← ask_target n w2
      ((path, psk, server_pub), w4) ← ask_credentials n w3
      ((channels, mtu, insecure), w5) ← ask_tuning n w4
      let (socks_addr, w6) = ask_socks w5 mode
      (overwrite, w7) ← ask_overwrite n w6 (is_file (client_cfg_path name))
      some (
        record {
          name = name;
          mode = mode;
          server = server;
          port = port;
          sni = sni;
          path = path;
          psk = psk;
          server_pub = server_pub;
          channels = channels;
          mtu = mtu;
          insecure = insecure;
          socks_addr = socks_addr;
          overwrite = overwrite;
        },
        w7,
      )
