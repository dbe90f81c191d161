-- ===== src/Krotctl/Files.antt =====
-- Which files the tool's steps leave alone.
use krot_vpn.Prelude.{
  ◌≡◌, refl, ◌≢◌, inl, inr, Bool, true, Option, none, some, [], ◌∷◌, ◌++◌, arith, Bool-cases,
  Option-cases,
}
use krot_vpn.Config.{is_empty, load_json, load_client, load_server, decode_psk, decode_key32}
use krot_vpn.Krotctl.{
  Tools, IsHost, system_of, systemctl, config_file, write_config, install_unit, start_unit,
  bring_up,
}
use krot_vpn.Netif.{Text}
use krot_vpn.Prelude.Bytes.{codes, bytes_eq}

pub bytes_eq-empty : (v : Text) → bytes_eq v [] ≡ is_empty v
bytes_eq-empty [] = refl
bytes_eq-empty (x ∷ xs) = refl

-- The loaders look at the one file alone.
pub load_client-same :
    (T : Tools) (s t : T.State) (path : Text)
    → T.read_file s path ≡ T.read_file t path
    → load_client (system_of T s) path ≡ load_client (system_of T t) path
unfolding load_client load_json system_of decode_psk decode_key32
load_client-same T s t path same = rw same refl

pub load_server-same :
    (T : Tools) (s t : T.State) (path : Text)
    → T.read_file s path ≡ T.read_file t path
    → load_server (system_of T s) path ≡ load_server (system_of T t) path
unfolding load_server load_json system_of decode_psk decode_key32
load_server-same T s t path same = rw same refl

module _ (T : Tools) (host : IsHost T) where
  pub read-write_config :
      (s : T.State) (path : Text) (json : Option Text)
      → (write_config T s path json).1 ≡ true
      → (text : Text) × (json ≡ some text)
        × (T.read_file (write_config T s path json).0 path ≡ some (text ++ 10 ∷ []))
  unfolding write_config
  read-write_config s path none wrote = absurd (ground (arith, wrote))
  read-write_config s path (some text) wrote = elim (Bool-cases (T.mkdir s (T.dir_of path)).1) [
    | inl made ↦ (
      text,
      refl,
      rw (made, write_config)
          (host.written (T.mkdir s (T.dir_of path)).0 path (text ++ 10 ∷ [])
            (ground (arith, wrote))),
    )
    | inr none_ ↦ absurd (ground (arith, wrote))
  ]

  read-start_unit :
      (s : T.State) (unit path name : Text)
      → path ≡ config_file name
      → T.read_file (start_unit T s unit).0 path ≡ T.read_file s path
  unfolding start_unit
  read-start_unit s unit path name e =
      let s1 = (T.run s (systemctl (codes "daemon-reload" ∷ []))).0 in
      let s2 = (T.run s1 (systemctl (codes "enable" ∷ unit ∷ []))).0 in
      rw e (
        ground (
          arith,
          host.ran s (codes "daemon-reload" ∷ []) name,
          host.ran s1 (codes "enable" ∷ unit ∷ []) name,
          host.ran s2 (codes "restart" ∷ unit ∷ []) name,
        ))

  read-install_unit :
      (s : T.State) (unit path : Text) (text : Text → Text)
      → path ≢ unit
      → T.read_file (install_unit T s unit text).0 path ≡ T.read_file s path
  unfolding install_unit
  read-install_unit s unit path text other = elim (Option-cases T.self) [
    | inl unknown ↦ rw (unknown, install_unit) refl
    | inr (self, known) ↦
        rw (known, install_unit) (host.written_other s unit (text self) path other)
  ]

  pub read-bring_up :
      (s : T.State) (unit_path : Text) (text : Text → Text) (unit : Text) (no_start : Bool)
      (path name : Text)
      → path ≢ unit_path
      → path ≡ config_file name
      → T.read_file (bring_up T s unit_path text unit no_start).0 path ≡ T.read_file s path
  unfolding bring_up
  read-bring_up s unit_path text unit no_start path name other e =
      let s1 = (install_unit T s unit_path text).0 in
      ground
        (arith, read-install_unit s unit_path path text other, read-start_unit s1 unit path name e)
