-- ===== src/Socks/Requests.antt =====
-- What a client sends, and the target that the handshake reads from it.
use krot_vpn.Prelude.{
  ℕ, ◌+◌, ◌*◌, ◌/◌, ◌%◌, ◌^◌, ◌<◌, ◌≡◌, refl, true, some, List, [], ◌∷◌, ◌++◌, arith, length,
  length-append, take-length-append, drop-append_of_length, ok,
}
use krot_vpn.Prelude.Bytes.{put_uint, uint-put_uint_four}
use krot_vpn.Net.{print_quad}
use krot_vpn.Socks.{
  Texts, read_full, read_domain, read_host, read_port, read_request, handshake, join_host_port,
  ver5, cmd_connect, atyp_ipv4, atyp_domain, atyp_ipv6,
}

-- A destination as RFC 1928 has it.
pub data Host : Type 0 where
  ipv4 : ℕ → Host
  ipv6 : List ℕ → Host
  domain : List ℕ → Host

abbrev pub IsHost : Host → Type 0
IsHost (ipv4 ip) = ip < 2 ^ 32
IsHost (ipv6 b) = length b ≡ 16
IsHost (domain name) = length name < 256

abbrev pub atyp : Host → ℕ
atyp (ipv4 ip) = atyp_ipv4
atyp (ipv6 b) = atyp_ipv6
atyp (domain name) = atyp_domain

abbrev pub encode_host : Host → List ℕ
encode_host (ipv4 ip) = put_uint 4 ip
encode_host (ipv6 b) = b
encode_host (domain name) = length name ∷ name

abbrev pub host_text : Texts → Host → List ℕ
host_text texts (ipv4 ip) = print_quad ip []
host_text texts (ipv6 b) = texts.ip6 b
host_text texts (domain name) = name

-- The greeting with its methods, and a CONNECT request.
abbrev pub greeting : List ℕ → List ℕ → List ℕ
greeting methods rest = ver5 ∷ length methods ∷ (methods ++ rest)

abbrev pub request : Host → ℕ → List ℕ → List ℕ
request host port rest =
    ver5 ∷ cmd_connect ∷ 0 ∷ atyp host ∷ (encode_host host ++ (put_uint 2 port ++ rest))

read_full-append : (n : ℕ) (xs ys : List ℕ) → length xs ≡ n → read_full n (xs ++ ys) ≡ some (xs, ys)
unfolding read_full
read_full-append n xs ys h =
    ground (arith, length-append xs ys, take-length-append xs ys, drop-append_of_length n xs ys h)

read_host-encode :
    (texts : Texts) (host : Host) (rest : List ℕ)
    → IsHost host
    → read_host texts (atyp host) (encode_host host ++ rest) ≡ ok (host_text texts host, rest)
unfolding read_host read_domain
read_host-encode texts (ipv4 ip) rest h =
    rw (read_full-append 4 (put_uint 4 ip) rest refl, uint-put_uint_four ip h) refl
read_host-encode texts (ipv6 b) rest h = rw (read_full-append 16 b rest h) refl
read_host-encode texts (domain name) rest h =
    rw
      (
        read_full-append 1 (length name ∷ []) (name ++ rest) refl,
        read_full-append (length name) name rest refl,
      )
      refl

read_port-encode :
    (texts : Texts) (host : List ℕ) (port : ℕ) (rest : List ℕ)
    → port < 65536
    → read_port texts host (put_uint 2 port ++ rest)
      ≡ record { out = []; result = ok (join_host_port host (texts.itoa port)) }
unfolding read_port
read_port-encode texts host port rest h =
    let e : port / 256 % 256 * 256 + port / 1 % 256 ≡ port = omega arith in
    rw (read_full-append 2 (put_uint 2 port) rest refl, read_port, e) refl

read_request-encode :
    (texts : Texts) (host : Host) (port : ℕ) (rest : List ℕ)
    → IsHost host
    → port < 65536
    → read_request texts (request host port rest)
      ≡ record { out = []; result = ok (join_host_port (host_text texts host) (texts.itoa port)) }
unfolding read_request
read_request-encode texts host port rest hh hp =
    let tail = encode_host host ++ (put_uint 2 port ++ rest) in
    rw
      (
        read_full-append 4 (ver5 ∷ cmd_connect ∷ 0 ∷ atyp host ∷ []) tail refl,
        read_request,
        read_host-encode texts host (put_uint 2 port ++ rest) hh,
        read_port-encode texts (host_text texts host) port rest hp,
      )
      refl

-- A CONNECT with any list of up to 255 methods, any destination (an IPv4 or IPv6 address or a name
-- of up to 255 bytes) and any port gets the no-authentication reply and nothing else, and the
-- target that is dialed is the destination's host and port; what the client sends after the
-- request does not change it.
pub handshake-request :
    (texts : Texts) (methods : List ℕ) (host : Host) (port : ℕ) (rest : List ℕ)
    → IsHost host
    → port < 65536
    → handshake texts true (greeting methods (request host port rest)) ≡ record {
      out = ver5 ∷ 0 ∷ [];
      result = ok (join_host_port (host_text texts host) (texts.itoa port));
    }
unfolding handshake read_request
handshake-request texts methods host port rest hh hp =
    rw
      (
        read_full-append 2 (ver5 ∷ length methods ∷ []) (methods ++ request host port rest) refl,
        handshake,
        read_full-append (length methods) methods (request host port rest) refl,
        read_request-encode texts host port rest hh hp,
      )
      refl
