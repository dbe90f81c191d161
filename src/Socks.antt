-- ===== src/Socks.antt =====
-- internal/socks/socks.go: the SOCKS5 handshake and the answer to it. A connection is the bytes
-- that come in; the functions return the bytes that go out. The text of an IPv6 address and the
-- decimal text of a port are Go's.
pub mod Replies
pub mod Requests
use krot_vpn.Prelude.{
  ℕ, ◌+◌, ◌*◌, Bool, false, not, Option, none, some, List, [], ◌∷◌, ◌++◌, length, get_or, take,
  drop, ltb, ◌==◌, if◌then◌else◌, Result, ok, err,
}
use krot_vpn.Prelude.Counts.{contains}
use krot_vpn.Net.{print_quad}
use krot_vpn.Prelude.Bytes.{uint}

abbrev pub ver5 : ℕ
ver5 = 5

abbrev pub cmd_connect : ℕ
cmd_connect = 1

abbrev pub atyp_ipv4 : ℕ
atyp_ipv4 = 1

abbrev pub atyp_domain : ℕ
atyp_domain = 3

abbrev pub atyp_ipv6 : ℕ
atyp_ipv6 = 4

abbrev pub rep_succeeded : ℕ
rep_succeeded = 0

abbrev pub rep_gen_fail : ℕ
rep_gen_fail = 1

abbrev pub rep_host_unrch : ℕ
rep_host_unrch = 4

abbrev pub rep_cmd_not_sup : ℕ
rep_cmd_not_sup = 7

pub data Error : Type 0 where
  eof not_v5 write_failed bad_version not_connect bad_atyp : Error

pub record Texts : Type 0 where
  pub ip6 : List ℕ → List ℕ
  pub itoa : ℕ → List ℕ

-- io.ReadFull of `n` bytes: the bytes and what is left.
unfoldable pub read_full : ℕ → List ℕ → Option (List ℕ × List ℕ)
read_full n input = if ltb (length input) n then none else some (take n input, drop n input)

-- `sendReply`
abbrev pub reply : ℕ → List ℕ
reply code = ver5 ∷ code ∷ 0 ∷ atyp_ipv4 ∷ 0 ∷ 0 ∷ 0 ∷ 0 ∷ 0 ∷ 0 ∷ []

-- net.JoinHostPort
unfoldable pub join_host_port : List ℕ → List ℕ → List ℕ
join_host_port host port =
    if contains b':' host then b'[' ∷ (host ++ (b']' ∷ b':' ∷ port)) else host ++ (b':' ∷ port)

-- Bytes out, and the result.
pub record Answer : Type 0 where
  pub out : List ℕ
  pub result : Result Error (List ℕ)

abbrev pub fail : Error → Answer
fail e = record { out = []; result = err e }

-- The destination's host, by its address type, and what is left of the input.
unfoldable pub read_domain : List ℕ → Option (List ℕ × List ℕ)
read_domain input = elim (read_full 1 input) [
  | none ↦ none
  | some (l, rest) ↦ read_full (get_or l 0 0) rest
]

unfoldable pub read_host : Texts → ℕ → List ℕ → Result Error (List ℕ × List ℕ)
unfolding read_domain
read_host texts atyp input =
    if atyp == atyp_ipv4
    then elim (read_full 4 input) [
      | none ↦ err eof
      | some (b, rest) ↦ ok (print_quad (uint b) [], rest)
    ]
    else if atyp == atyp_ipv6
    then elim (read_full 16 input) [ none ↦ err eof | some (b, rest) ↦ ok (texts.ip6 b, rest) ]
    else if atyp == atyp_domain
    then elim (read_domain input) [ none ↦ err eof | some r ↦ ok r ]
    else err bad_atyp

-- A bad address type is answered before it fails.
abbrev pub host_error : Error → Answer
host_error bad_atyp = record { out = reply rep_cmd_not_sup; result = err bad_atyp }
host_error e = fail e

-- `int(pb[0])<<8 | int(pb[1])`
unfoldable pub read_port : Texts → List ℕ → List ℕ → Answer
read_port texts host input = elim (read_full 2 input) [
  | none ↦ fail eof
  | some (pb, rest) ↦ record {
    out = [];
    result = ok (join_host_port host (texts.itoa (get_or pb 0 0 * 256 + get_or pb 1 0)));
  }
]

-- The request, behind the greeting.
unfoldable pub read_request : Texts → List ℕ → Answer
unfolding read_host read_port
read_request texts input = elim (read_full 4 input) [
  | none ↦ fail eof
  | some (req, rest) ↦
      if not (get_or req 0 0 == ver5)
      then fail bad_version
      else if not (get_or req 1 0 == cmd_connect)
      then record { out = reply rep_cmd_not_sup; result = err not_connect }
      else elim (read_host texts (get_or req 3 0) rest) [
        | err e ↦ host_error e
        | ok (host, rest') ↦ read_port texts host rest'
      ]
]

abbrev pub behind : List ℕ → Answer → Answer
behind out a = record a { out = out ++ a.out }

-- `writable`: whether the reply to the greeting goes out.
unfoldable pub handshake : Texts → Bool → List ℕ → Answer
unfolding read_request
handshake texts writable input = elim (read_full 2 input) [
  | none ↦ fail eof
  | some (hdr, rest) ↦
      if not (get_or hdr 0 0 == ver5) then fail not_v5 else elim (read_full (get_or hdr 1 0) rest) [
        | none ↦ fail eof
        | some (methods, rest') ↦
            if writable
            then behind (ver5 ∷ 0 ∷ []) (read_request texts rest')
            else fail write_failed
      ]
]

-- What dialing the target gives.
pub data Dial : Type 0 where
  connected timed_out failed : Dial

unfoldable pub reply_code_for : Dial → ℕ
reply_code_for timed_out = rep_host_unrch
reply_code_for _ = rep_gen_fail

-- `handle`: the bytes sent up to the relay, and whether the relay starts. `dial` is asked for the
-- target; `writable` says whether the reply to the greeting goes out, `answerable` whether the one
-- to a success does.
unfoldable pub handle : Texts → Bool → Bool → (List ℕ → Dial) → List ℕ → List ℕ × Bool
unfolding handshake reply_code_for
handle texts writable answerable dial input =
    let a = handshake texts writable input in
    elim a.result [
      | err e ↦ (a.out, false)
      | ok target ↦ elim (dial target) [
        | connected ↦ (a.out ++ reply rep_succeeded, answerable)
        | timed_out ↦ (a.out ++ reply (reply_code_for timed_out), false)
        | failed ↦ (a.out ++ reply (reply_code_for failed), false)
      ]
    ]
