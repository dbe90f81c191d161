-- ===== src/Krotctl/ServerDialogue.antt =====
-- cmd/krotctl/wizard.go: wizardServer, the dialogue for a server.
use krot_vpn.Prelude.{
  ℕ, ◌≡◌, ap, Bool, true, false, Option, none, some, [], ◌∷◌, ◌++◌, if◌then◌else◌, >>=-eq-some,
  ◌>>=◌,
}
use mathlib.Core.Path.{subst}
use mathlib.Core.Option.{some-injective}
use krot_vpn.Krotctl.ClientFlags.Accepted.{ask_required-given}
use krot_vpn.Krotctl.Wizard.{Reader, ask, ask_required, yes_no}
use krot_vpn.Netif.{Text, Args}
use krot_vpn.Prelude.Bytes.{codes, bytes_eq}

-- The answers: `files` are a certificate and its key, `credentials` a PSK and a private key.
pub record Answers : Type 0 where
  pub sni : Text
  pub listen : Text
  pub decoy : Text
  pub tun_cidr : Text
  pub dns : Text
  pub mtu : Text
  pub files : Option (Text × Text)
  pub credentials : Option (Text × Text)
  pub overwrite : Bool

-- The list of flags that is built of the answers.
unfoldable pub server_args : Answers → Args
server_args a =
    codes "-sni"
    ∷ a.sni
    ∷ codes "-listen"
    ∷ a.listen
    ∷ codes "-decoy"
    ∷ a.decoy
    ∷ codes "-tun-cidr"
    ∷ a.tun_cidr
    ∷ codes "-dns"
    ∷ a.dns
    ∷ codes "-mtu"
    ∷ a.mtu
    ∷ ((elim a.files [
      | none ↦ codes "-self-signed" ∷ []
      | some (cert, key) ↦ codes "-cert" ∷ cert ∷ codes "-key" ∷ key ∷ []
    ])
        ++ ((elim a.credentials [
          | none ↦ []
          | some (psk, priv) ↦ codes "-psk" ∷ psk ∷ codes "-priv" ∷ priv ∷ []
        ])
            ++ (if a.overwrite then codes "-force" ∷ [] else [])))

-- Two required values.
unfoldable pub ask_pair : ℕ → Reader → Option (Option (Text × Text) × Reader)
unfolding ask_required
ask_pair n w = do (a, w1) ← ask_required n w; (b, w2) ← ask_required n w1; some (some (a, b), w2)

-- A real certificate, if it is wanted.
unfoldable pub ask_files : ℕ → Reader → Option (Option (Text × Text) × Reader)
unfolding yes_no ask_pair
ask_files n w = do (real, w1) ← yes_no n w false; if real then ask_pair n w1 else some (none, w1)

-- Credentials that are there already, unless fresh ones are wanted.
unfoldable pub ask_existing : ℕ → Reader → Option (Option (Text × Text) × Reader)
unfolding yes_no ask_pair
ask_existing n w = do
  (fresh, w1) ← yes_no n w true
  if fresh then some (none, w1) else ask_pair n w1

-- `there`: there is a config of the server.
unfoldable pub wizard_server : ℕ → Bool → Reader → Option (Answers × Reader)
unfolding ask yes_no ask_files ask_existing
wizard_server n there w =
    let (sni, w1) = ask w (codes "en.wikipedia.org") in
    let (listen, w2) = ask w1 (codes ":443") in
    let (decoy, w3) = ask w2 (codes "https://en.wikipedia.org") in
    let (tun_cidr, w4) = ask w3 (codes "10.8.0.1/24") in
    let (dns, w5) = ask w4 (codes "1.1.1.1") in
    let (mtu, w6) = ask w5 (codes "1320") in
    do
      (files, w7) ← ask_files n w6
      (credentials, w8) ← ask_existing n w7
      (overwrite, w9) ← (if there then yes_no n w8 false else some (false, w8))
      some (
        record {
          sni = sni;
          listen = listen;
          decoy = decoy;
          tun_cidr = tun_cidr;
          dns = dns;
          mtu = mtu;
          files = files;
          credentials = credentials;
          overwrite = overwrite;
        },
        w9,
      )

-- Two values, or none of them.
abbrev pub Whole : Option (Text × Text) → Type 0
Whole none = Unit
Whole (some (a, b)) = (bytes_eq a [] ≡ false) × (bytes_eq b [] ≡ false)

ask_pair-Whole :
    (n : ℕ) (w : Reader) (p : Option (Text × Text)) (next : Reader)
    → ask_pair n w ≡ some (p, next)
    → Whole p
unfolding ask_pair
ask_pair-Whole n w p next h =
    let ((a, w1), r1, h1) = >>=-eq-some (ask_required n w) _ h in
    let ((b, w2), r2, h2) = >>=-eq-some (ask_required n w1) _ h1 in
    subst Whole (ap (λ x. x.0) (some-injective _ _ h2))
      (ask_required-given n w a w1 r1, ask_required-given n w1 b w2 r2)

files_lem :
    (n : ℕ) (w : Reader) (p : Option (Text × Text)) (next : Reader) (real : Bool)
    → (if real then ask_pair n w else some (none, w)) ≡ some (p, next)
    → Whole p
files_lem n w p next true h = ask_pair-Whole n w p next h
files_lem n w p next false h = subst Whole (ap (λ x. x.0) (some-injective _ _ h)) tt

-- A certificate is asked for with its key, both of them given, or not at all: the wizard does not
-- build what `server up` rejects as half a certificate.
ask_files-Whole :
    (n : ℕ) (w : Reader) (p : Option (Text × Text)) (next : Reader)
    → ask_files n w ≡ some (p, next)
    → Whole p
unfolding ask_files
ask_files-Whole n w p next h =
    let ((real, w1), r1, h1) = >>=-eq-some (yes_no n w false) _ h in files_lem n w1 p next real h1
