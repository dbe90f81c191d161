-- ===== src/Krotctl/ClientFlags/Written.antt =====
-- The flags that the wizard writes are those that `client up` reads.
use krot_vpn.Prelude.{
  ◌≡◌, refl, ◌∙◌, Bool, true, false, Option, none, some, [], ◌∷◌, ◌++◌, if◌then◌else◌,
}
use krot_vpn.Krotctl.ClientFlags.{
  default_flags, split_value, flag_name, read_flag, is_end, parse_bool, is_switch, set_switch,
  set_number, set_value, take_flag, parse_flags, Answers, client_args,
}
use krot_vpn.Krotctl.ClientUp.{Flags}
use krot_vpn.Netif.{Text, Args}
use krot_vpn.Prelude.Bytes.{codes}
use krot_vpn.Prelude.Int.{ℤ}

-- The answers as flags, with their numbers.
unfoldable pub flags_of : Answers → ℤ → ℤ → ℤ → Flags
unfolding default_flags
flags_of a port channels mtu = record default_flags {
  name = a.name;
  mode = a.mode;
  server = a.server;
  port = port;
  sni = a.sni;
  path = a.path;
  psk = a.psk;
  server_pub = a.server_pub;
  insecure = a.insecure;
  mtu = mtu;
  channels = channels;
  socks_addr = elim a.socks_addr [ none ↦ codes "127.0.0.1:1080" | some addr ↦ addr ];
  force = a.overwrite;
}

module _ (parse_int : Text → Option ℤ) where
  -- A flag with its value in the next argument.
  value_step :
      (o next : Flags) (f name v : Text) (args : Args)
      → is_end f ≡ false
      → read_flag f ≡ some (name, none)
      → is_switch name ≡ false
      → set_value parse_int o name v ≡ some next
      → parse_flags parse_int o (f ∷ v ∷ args) ≡ parse_flags parse_int next args
  unfolding parse_flags take_flag
  value_step o next f name v args more reads takes sets =
      rw (parse_flags, more, reads, take_flag, takes, sets) refl

  -- A switch.
  switch_step :
      (o : Flags) (f name : Text) (value : Option Text) (b : Bool) (args : Args)
      → is_end f ≡ false
      → read_flag f ≡ some (name, value)
      → ((rest : Args) → take_flag parse_int o name value rest ≡ some (set_switch o name b, false))
      → parse_flags parse_int o (f ∷ args) ≡ parse_flags parse_int (set_switch o name b) args
  unfolding parse_flags
  switch_step o f name value b [] more reads takes = rw (parse_flags, more, reads, takes []) refl
  switch_step o f name value b (v ∷ args) more reads takes =
      rw (parse_flags, more, reads, takes (v ∷ args)) refl

  name_step :
      (o : Flags) (v : Text) (args : Args)
      → parse_flags parse_int o (codes "-name" ∷ v ∷ args)
        ≡ parse_flags parse_int (record o { name = v }) args
  unfolding read_flag flag_name split_value is_end is_switch set_value set_number
  name_step o v args =
      value_step o (record o { name = v }) (codes "-name") (codes "name") v args refl refl refl refl

  mode_step :
      (o : Flags) (v : Text) (args : Args)
      → parse_flags parse_int o (codes "-mode" ∷ v ∷ args)
        ≡ parse_flags parse_int (record o { mode = v }) args
  unfolding read_flag flag_name split_value is_end is_switch set_value set_number
  mode_step o v args =
      value_step o (record o { mode = v }) (codes "-mode") (codes "mode") v args refl refl refl refl

  server_step :
      (o : Flags) (v : Text) (args : Args)
      → parse_flags parse_int o (codes "-server" ∷ v ∷ args)
        ≡ parse_flags parse_int (record o { server = v }) args
  unfolding read_flag flag_name split_value is_end is_switch set_value set_number
  server_step o v args =
      value_step o (record o { server = v }) (codes "-server") (codes "server") v args refl refl
        refl refl

  sni_step :
      (o : Flags) (v : Text) (args : Args)
      → parse_flags parse_int o (codes "-sni" ∷ v ∷ args)
        ≡ parse_flags parse_int (record o { sni = v }) args
  unfolding read_flag flag_name split_value is_end is_switch set_value set_number
  sni_step o v args =
      value_step o (record o { sni = v }) (codes "-sni") (codes "sni") v args refl refl refl refl

  path_step :
      (o : Flags) (v : Text) (args : Args)
      → parse_flags parse_int o (codes "-path" ∷ v ∷ args)
        ≡ parse_flags parse_int (record o { path = v }) args
  unfolding read_flag flag_name split_value is_end is_switch set_value set_number
  path_step o v args =
      value_step o (record o { path = v }) (codes "-path") (codes "path") v args refl refl refl refl

  psk_step :
      (o : Flags) (v : Text) (args : Args)
      → parse_flags parse_int o (codes "-psk" ∷ v ∷ args)
        ≡ parse_flags parse_int (record o { psk = v }) args
  unfolding read_flag flag_name split_value is_end is_switch set_value set_number
  psk_step o v args =
      value_step o (record o { psk = v }) (codes "-psk") (codes "psk") v args refl refl refl refl

  server_pub_step :
      (o : Flags) (v : Text) (args : Args)
      → parse_flags parse_int o (codes "-server-pub" ∷ v ∷ args)
        ≡ parse_flags parse_int (record o { server_pub = v }) args
  unfolding read_flag flag_name split_value is_end is_switch set_value set_number
  server_pub_step o v args =
      value_step o (record o { server_pub = v }) (codes "-server-pub") (codes "server-pub") v args
        refl refl refl refl

  socks_addr_step :
      (o : Flags) (v : Text) (args : Args)
      → parse_flags parse_int o (codes "-socks" ∷ v ∷ args)
        ≡ parse_flags parse_int (record o { socks_addr = v }) args
  unfolding read_flag flag_name split_value is_end is_switch set_value set_number
  socks_addr_step o v args =
      value_step o (record o { socks_addr = v }) (codes "-socks") (codes "socks") v args refl refl
        refl refl

  port_step :
      (o : Flags) (v : Text) (n : ℤ) (args : Args)
      → parse_int v ≡ some n
      → parse_flags parse_int o (codes "-port" ∷ v ∷ args)
        ≡ parse_flags parse_int (record o { port = n }) args
  unfolding read_flag flag_name split_value is_end is_switch set_value set_number
  port_step o v n args reads =
      value_step o (record o { port = n }) (codes "-port") (codes "port") v args refl refl refl
        (rw (set_value, set_number, reads) refl)

  channels_step :
      (o : Flags) (v : Text) (n : ℤ) (args : Args)
      → parse_int v ≡ some n
      → parse_flags parse_int o (codes "-channels" ∷ v ∷ args)
        ≡ parse_flags parse_int (record o { channels = n }) args
  unfolding read_flag flag_name split_value is_end is_switch set_value set_number
  channels_step o v n args reads =
      value_step o (record o { channels = n }) (codes "-channels") (codes "channels") v args refl
        refl refl (rw (set_value, set_number, reads) refl)

  mtu_step :
      (o : Flags) (v : Text) (n : ℤ) (args : Args)
      → parse_int v ≡ some n
      → parse_flags parse_int o (codes "-mtu" ∷ v ∷ args)
        ≡ parse_flags parse_int (record o { mtu = n }) args
  unfolding read_flag flag_name split_value is_end is_switch set_value set_number
  mtu_step o v n args reads =
      value_step o (record o { mtu = n }) (codes "-mtu") (codes "mtu") v args refl refl refl
        (rw (set_value, set_number, reads) refl)

  insecure_step :
      (o : Flags) (b : Bool) (args : Args)
      → parse_flags parse_int o ((if b then codes "-insecure" else codes "-insecure=false") ∷ args)
        ≡ parse_flags parse_int (record o { insecure = b }) args
  unfolding read_flag flag_name split_value is_end is_switch take_flag parse_bool set_switch
  insecure_step o true args =
      switch_step o (codes "-insecure") (codes "insecure") none true args refl refl (λ rest. refl)
  insecure_step o false args =
      switch_step o (codes "-insecure=false") (codes "insecure") (some (codes "false")) false args
        refl refl (λ rest. refl)

  force_step :
      (o : Flags) (b : Bool)
      → o.force ≡ false
      → parse_flags parse_int o (if b then codes "-force" ∷ [] else [])
        ≡ some (record o { force = b })
  unfolding read_flag flag_name split_value is_end is_switch take_flag parse_bool set_switch
      parse_flags
  force_step o true h =
      switch_step o (codes "-force") (codes "force") none true [] refl refl (λ rest. refl)
  force_step o false h = rw h refl

  -- The proxy's address and the overwriting.
  last_steps :
      (o : Flags) (addr : Option Text) (b : Bool)
      → o.force ≡ false
      → parse_flags parse_int o (
          (elim addr [ none ↦ [] | some a ↦ codes "-socks" ∷ a ∷ [] ])
          ++ (if b then codes "-force" ∷ [] else []))
        ≡ some (record o { socks_addr = elim addr [ none ↦ o.socks_addr | some a ↦ a ]; force = b })
  last_steps o none b h = force_step o b h
  last_steps o (some a) b h =
      socks_addr_step o a (if b then codes "-force" ∷ [] else [])
      ∙ force_step (record o { socks_addr = a }) b h

  -- What the wizard writes is read as its answers.
  pub client_args-parsed :
      (a : Answers) (port channels mtu : ℤ)
      → parse_int a.port ≡ some port
      → parse_int a.channels ≡ some channels
      → parse_int a.mtu ≡ some mtu
      → parse_flags parse_int default_flags (client_args a) ≡ some (flags_of a port channels mtu)
  unfolding client_args flags_of default_flags
  client_args-parsed a port channels mtu p c m =
      name_step _ a.name _
      ∙ mode_step _ a.mode _
      ∙ server_step _ a.server _
      ∙ port_step _ a.port port _ p
      ∙ sni_step _ a.sni _
      ∙ path_step _ a.path _
      ∙ psk_step _ a.psk _
      ∙ server_pub_step _ a.server_pub _
      ∙ channels_step _ a.channels channels _ c
      ∙ mtu_step _ a.mtu mtu _ m
      ∙ insecure_step _ a.insecure _
      ∙ last_steps _ a.socks_addr a.overwrite refl
