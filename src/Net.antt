-- ===== src/Net.antt =====
-- What the program uses of Go's `fmt` and `net`: dotted IPv4 addresses as text, in code points.
pub mod Text
use krot_vpn.Prelude.{
  ℕ, ◌+◌, ◌-◌, ◌*◌, ◌/◌, ◌%◌, ◌^◌, Bool, ◌&&◌, ◌||◌, Option, none, some, List, [], ◌∷◌, ◌++◌, ltb,
  leb, ◌==◌, if◌then◌else◌,
}

-- `%d` of a number below 1000.
unfoldable pub print_dec : ℕ → List ℕ
print_dec n =
    if ltb n 10
    then (b'0' + n) ∷ []
    else if ltb n 100
    then (b'0' + n / 10) ∷ (b'0' + n % 10) ∷ []
    else (b'0' + n / 100) ∷ (b'0' + n / 10 % 10) ∷ (b'0' + n % 10) ∷ []

-- The four bytes of an address.
abbrev pub print_quad : ℕ → List ℕ → List ℕ
print_quad ip rest =
    print_dec (ip / 2 ^ 24 % 256)
    ++ (b'.'
        ∷ (print_dec (ip / 2 ^ 16 % 256)
            ++ (b'.' ∷ (print_dec (ip / 2 ^ 8 % 256) ++ (b'.' ∷ (print_dec (ip % 256) ++ rest))))))

abbrev is_digit : ℕ → Bool
is_digit c = leb b'0' c && leb c b'9'

-- net.ParseIP on a text without a colon, as the number of its four bytes: `pos` fields are done
-- and make up `acc`; the next one has `len` digits so far, of value `val`.
unfoldable pub parse_fields : ℕ → ℕ → ℕ → ℕ → List ℕ → Option ℕ
parse_fields pos acc len val [] = if pos == 3 && ltb 0 len then some (acc * 256 + val) else none
parse_fields pos acc len val (c ∷ cs) =
    let digit = parse_fields pos acc (len + 1) (val * 10 + (c - b'0')) cs in
    let dot = parse_fields (pos + 1) (acc * 256 + val) 0 0 cs in
    if is_digit c
    then (if (len == 1 && val == 0) || ltb 255 (val * 10 + (c - b'0')) then none else digit)
    else if c == b'.' && ltb 0 len && ltb pos 3
    then dot
    else none

unfoldable pub parse_ipv4 : List ℕ → Option ℕ
parse_ipv4 cs = parse_fields 0 0 0 0 cs
