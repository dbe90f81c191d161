-- ===== src/Tests/Fixtures.antt =====
-- Concrete primitives and codecs for the runs. The cipher appends a tag of zeros, the key exchange
-- adds the first bytes of its arguments, and the codecs are plain.
use krot_vpn.Prelude.{
  ℕ, ◌+◌, ◌-◌, ◌%◌, ◌≡◌, refl, ap, true, Option, none, some, List, [], ◌∷◌, ◌++◌, arith, length,
  length-append, get_or, take, replicate, length-replicate, take-length-append, ◌==◌, if◌then◌else◌,
}
use krot_vpn.Prelude.Int.{ℤ, pos, negsuc}
use krot_vpn.Crypto.{Primitives, IsSound}
use krot_vpn.Crypto.Keys.{Keypair}
use krot_vpn.Crypto.Replay.{ReplayFilter}
use krot_vpn.Frame.{default_pad, Random}
use krot_vpn.Transport.Auth.{Codec, IsFaithful, HandlerConfig, Auth}
use krot_vpn.Transport.Dial.{ClientConfig, Assignment}

abbrev pub toy : Primitives
toy = record {
  seal = λ k n t. t ++ replicate 16 0;
  unseal = λ k n c. some (take (length c - 16) c);
  x25519 = λ a b. some ((get_or a 0 0 + get_or b 0 0) % 256 ∷ replicate 31 7);
  basepoint = 9 ∷ [];
  hkdf = λ s t i n. replicate n (get_or i 10 0);
  hmac = λ k t. replicate 32 (get_or t 39 0);
}

take-length-append_tag : (t : List ℕ) → take (length t + 16 - 16) (t ++ replicate 16 0) ≡ t
take-length-append_tag t =
    let e : length t + 16 - 16 ≡ length t = omega arith in
    rw e (take-length-append t (replicate 16 0))

take-append_tag : (t : List ℕ) → take (length (t ++ replicate 16 0) - 16) (t ++ replicate 16 0) ≡ t
take-append_tag t = rw (length-append t (replicate 16 0)) (take-length-append_tag t)

pub toy-IsSound : IsSound toy
toy-IsSound = record {
  unseal-seal = λ k n t. ap some (take-append_tag t);
  length-seal = λ k n t. length-append t (replicate 16 0);
  x25519_comm = λ a b pa pb ha hb. ground arith;
  length-x25519 = λ a b s h. ground arith;
  length-hkdf = λ s t i n. length-replicate n (get_or i 10 0);
  length-hmac = λ k t. length-replicate 32 (get_or t 39 0);
}

abbrev print_plain : ℤ → List ℕ
print_plain (pos n) = 0 ∷ n ∷ []
print_plain (negsuc n) = 1 ∷ n ∷ []

abbrev parse_plain : List ℕ → Option ℤ
parse_plain [] = none
parse_plain (s ∷ []) = none
parse_plain (s ∷ n ∷ rest) = some (if s == 0 then pos n else negsuc n)

parse_plain-print_plain : (z : ℤ) → parse_plain (print_plain z) ≡ some z
parse_plain-print_plain (pos n) = refl
parse_plain-print_plain (negsuc n) = refl

abbrev pub plain : Codec
plain = record {
  b64 = λ b. b;
  unb64 = λ b. some b;
  print_int = print_plain;
  parse_int = parse_plain;
}

pub plain-IsFaithful : IsFaithful plain
plain-IsFaithful = record { unb64-b64 = λ b. refl; parse-print = parse_plain-print_plain }

-- A source of randomness that gives zeros.
abbrev pub still : Random
still = record {
  int_n = λ n. 0;
  int_n-lt = λ n h. h;
  bytes = λ n. replicate n 0;
  length-bytes = λ n. length-replicate n 0;
}

-- A key pair of `toy`, from the first byte of the private key.
abbrev pub pair : ℕ → Keypair
pair a = record { private = a ∷ replicate 31 0; public = (a + 9) % 256 ∷ replicate 31 7 }

abbrev pub server_config : HandlerConfig
server_config = record {
  psk = replicate 32 5;
  static = pair 1;
  path = 47 ∷ [];
  gw = [];
  dns = [];
  pad = default_pad;
  replay = none;
}

abbrev pub client_config : ClientConfig
client_config = record {
  server_addr = [];
  sni = [];
  path = 47 ∷ [];
  psk = replicate 32 5;
  server_static = (pair 1).public;
  insecure = true;
  pin_sha256 = [];
  channels = pos 2;
  pad = default_pad;
}

abbrev pub session_id : List ℕ
session_id = replicate 16 3

abbrev pub new_filter : ReplayFilter
new_filter = record { seen = []; ttl = 240; last_gc = 0 }

abbrev pub auth : Auth
auth = record { cfg = server_config; replay = new_filter }

abbrev pub address : Assignment
address = record { addr = 10 ∷ []; gw = []; dns = [] }
