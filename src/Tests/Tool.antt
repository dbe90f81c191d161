-- ===== src/Tests/Tool.antt =====
-- Runs of the control tool on a toy host.
use krot_vpn.Krotctl.ClientFlags.{
  default_flags, parse_flags, Answers, client_args, ask_target, ask_credentials, ask_tuning,
  ask_socks, ask_overwrite, wizard_client,
}
use krot_vpn.Krotctl.ClientFlags.Written.{flags_of}
use krot_vpn.Krotctl.ClientFlags.Accepted.{wizard_client-accepted}
use krot_vpn.Krotctl.Wizard.{lower, meaning}
use krot_vpn.Prelude.{ℕ, ◌==◌, ◌*◌, ◌-◌, ◌+◌, if◌then◌else◌}
use krot_vpn.Prelude.{
  ◌≡◌, refl, Bool, true, false, not, ◌&&◌, ◌||◌, none, some, List, [], ◌∷◌, ◌++◌, map, arith,
  replicate,
}
use krot_vpn.Config
use krot_vpn.Krotctl.{systemctl}
use krot_vpn.Krotctl.ClientUp
use krot_vpn.Krotctl.ClientUp.{is_mode, is_missing}
use krot_vpn.Krotctl.Names.{client_cfg_path, table_for}
use krot_vpn.Krotctl.ServerUp
use krot_vpn.Krotctl.ServerUp.{Secrets, server_unit}
use krot_vpn.Krotctl.Uninstall.{Choices, uninstall}
use krot_vpn.Krotctl.Uninstall.Stopped.{IsSystemd, is_client, uninstall_stops}
use krot_vpn.Krotctl.Wizard.{
  Reader, read_line, split_line, trim_left, trim_right, answer, ask, ask_required, apply_now,
  yes_no, choice, is_option,
}
use krot_vpn.Krotctl.Wizard.Ends.{breaks, breaks_all, prompts_return}
use krot_vpn.Krotctl.Wizard.Piped.{prompt, session, asked, required, piped_applied}
use krot_vpn.Netif.{Text}
use krot_vpn.Prelude.Bytes.{codes, bytes_eq}
use krot_vpn.Prelude.Int.{pos}
use krot_vpn.Net.{print_dec}
use krot_vpn.Transport.Flow.{mix, mix_all}
use krot_vpn.Tests.Node.{Node, word, run_node, node}

-- The server runs, and two clients of three.
abbrev busy : Node
busy = record {
  files = λ p. none;
  active = λ u.
      bytes_eq u (codes "krot-server")
      || (bytes_eq u (codes "krot-client@home") || bytes_eq u (codes "krot-client@work"));
}

abbrev home : ClientUp.Flags
home = record {
  name = codes "home";
  mode = codes "full";
  server = codes "198.51.100.7";
  port = pos 443;
  sni = codes "example.org";
  path = codes "/";
  psk = replicate 32 5;
  server_pub = replicate 32 1;
  insecure = true;
  pin = [];
  tun_name = codes "krot0";
  mtu = pos 1320;
  channels = pos 4;
  dns = [];
  socks_addr = codes "127.0.0.1:1080";
  socks_table = [];
  force = false;
  no_start = false;
}

abbrev exit_node : ServerUp.Flags
exit_node = record {
  sni = codes "example.org";
  listen = codes ":443";
  decoy = [];
  tun_cidr = codes "10.8.0.1/24";
  tun_name = codes "krot0";
  dns = codes "1.1.1.1";
  wan = [];
  mtu = pos 1320;
  self_signed = true;
  cert_file = [];
  key_file = [];
  psk = codes "too short";
  priv = [];
  force = false;
  no_start = false;
}

abbrev secrets : Secrets
secrets = record {
  psk = replicate 32 5;
  priv = replicate 32 1;
  public = replicate 32 2;
  path = codes "/api/v2/x";
}

node-IsSystemd : IsSystemd node (λ s p. s) (λ s. s.active)
unfolding run_node word systemctl
node-IsSystemd = record {
  stopped = λ s unit u. refl;
  active-disable = λ s unit u. refl;
  active-reload = λ s u. refl;
  active-reset = λ s u. refl;
  active-remove = λ s p u. refl;
  active-remove_all = λ s p u. refl;
}

abbrev instances : List Text
instances = codes "home" ∷ codes "away" ∷ []

abbrev sure : Choices
sure = record { yes_given = true; confirmed = false; keep_binaries = false; keep_config = false }

-- The client without a config goes on.
uninstall_stops_example :
    (uninstall node
        (λ s. map client_cfg_path instances)
        (λ s p. s)
        (codes "/usr/local/bin")
        busy
        sure).0.active
      (codes "krot-client@work")
    ≡ (not (bytes_eq (codes "krot-client@work") server_unit)
        && (not (is_client (codes "krot-client@work") instances) && true))
uninstall_stops_example =
    uninstall_stops node (λ s. map client_cfg_path instances) (λ s p. s) (codes "/usr/local/bin")
      (λ s. s.active) node-IsSystemd busy sure instances (codes "krot-client@work") refl refl refl
      ((refl, (refl, (refl, (refl, (refl, tt))))), ((refl, (refl, (refl, (refl, (refl, tt))))), tt))

-- Two answers and a refusal, in one read.
abbrev piped : Text
piped = codes "example.org" ++ 10 ∷ (codes "secret" ++ 10 ∷ (codes "n" ++ 10 ∷ []))

answered :
    session 3 (record { buffer = []; chunks = piped ∷ [] }) (asked [] ∷ required ∷ [])
    ≡ some (record { buffer = codes "n" ++ 10 ∷ []; chunks = [] })
unfolding session prompt ask ask_required answer read_line split_line trim_left trim_right
answered = refl

piped_applied_example :
    apply_now 1 (record { buffer = codes "n" ++ 10 ∷ []; chunks = [] }) ≡ some true
piped_applied_example =
    piped_applied 3 0 piped (asked []) (required ∷ [])
      (record { buffer = codes "n" ++ 10 ∷ []; chunks = [] }) answered

abbrev unclear : Reader
unclear = record { buffer = codes "perhaps" ++ 10 ∷ []; chunks = [] }

prompts_return_example :
    ((r : Bool × Reader) × (yes_no 3 unclear true ≡ some r))
    × ((r : Text × Reader) × (choice 3 unclear (codes "full" ∷ []) (codes "full") ≡ some r))
unfolding breaks breaks_all is_option
prompts_return_example =
    prompts_return 3 unclear (codes "full" ∷ []) (codes "full") true refl (omega arith)

-- An instance whose source routing is in the main table.
table_for_cl : table_for (codes "cl") ≡ codes "254"
unfolding table_for mix_all mix print_dec
table_for_cl = refl

-- Two instances with one table.
table_for_shared : table_for (codes "vpn") ≡ table_for (codes "nl2")
unfolding table_for mix_all mix print_dec
table_for_shared = refl

-- The number that a text of digits stands for.
unfoldable digits : ℕ → Text → ℕ
digits n [] = n
digits n (c ∷ cs) = digits (n * 10 + (c - 48)) cs

-- The answers are separated by commas here.
unfoldable typed : Text → Text
typed [] = []
typed (c ∷ cs) = (if c == 44 then 10 else c) ∷ typed cs

abbrev answers : Answers
answers = record {
  name = codes "default";
  mode = codes "full";
  server = codes "198.51.100.7";
  port = codes "443";
  sni = codes "example.org";
  path = codes "/p";
  psk = codes "k";
  server_pub = codes "b";
  channels = codes "4";
  mtu = codes "1320";
  insecure = true;
  socks_addr = none;
  overwrite = true;
}

abbrev keyboard : Reader
keyboard = record {
  buffer = [];
  chunks = typed (codes ",,198.51.100.7,,example.org,/p,k,b,,,y,y,") ∷ [];
}

completed :
    wizard_client 1 (λ p. true) keyboard ≡ some (answers, record { buffer = []; chunks = [] })
unfolding typed wizard_client ask_target ask_credentials ask_tuning ask_socks ask_overwrite ask
    ask_required yes_no choice is_option answer read_line split_line trim_left trim_right lower
    meaning
completed = refl

wizard_client-accepted_example :
    let o = flags_of answers (pos 443) (pos 4) (pos 1320) in
    (parse_flags (λ t. some (pos (digits 0 t))) default_flags (client_args answers) ≡ some o)
    × (is_mode o.mode ≡ true)
    × (is_missing o ≡ false)
unfolding digits
wizard_client-accepted_example =
    wizard_client-accepted (λ t. some (pos (digits 0 t))) 1 (λ p. true) keyboard answers
      (record { buffer = []; chunks = [] }) (pos 443) (pos 4) (pos 1320) completed refl refl refl
