-- ===== src/Portmap/Gateway.antt =====
-- `default_gateway_ipv4` of p2p/wireguard-p2p/linux/portmap.py, on the lines of /proc/net/route.
use wireguard_p2p.Base.{
  ℕ, ◌+◌, ◌-◌, ◌*◌, ◌/◌, ◌%◌, Bool, true, false, not, ◌&&◌, ◌||◌, List, [], ◌∷◌, Option, none, some,
  leb, ltb, ◌==◌, if◌then◌else◌,
}
use wireguard_p2p.Base.Int.{ℤ, pos, negsuc, neg, ltb_ℤ, leb_ℤ}
use wireguard_p2p.Base.Text.{Text, text, text_eq, text_leb, is_empty}
use wireguard_p2p.Base.Text.Decimal.{read_int, is_blank, strip}
use wireguard_p2p.Result.{Result, ok, err, value_error, struct_error, bind, or_raise}
use wireguard_p2p.Ip.Print.{show_v4}

abbrev push_front : ℕ → List Text → List Text
push_front c [] = (c ∷ []) ∷ []
push_front c (w ∷ ws) = (c ∷ w) ∷ ws

-- The words of a line, the first one empty where the line begins with a blank or is empty.
words_from : Text → List Text
unfolding is_blank
words_from [] = [] ∷ []
words_from (c ∷ s) = let rest = words_from s in if is_blank c then [] ∷ rest else push_front c rest

nonempty : List Text → List Text
nonempty [] = []
nonempty (w ∷ ws) = let rest = nonempty ws in if is_empty w then rest else w ∷ rest

-- `line.split()`
abbrev fields_of : Text → List Text
unfolding words_from nonempty
fields_of line = nonempty (words_from line)

hex_value : ℕ → Option ℕ
hex_value c =
    if leb b'0' c && leb c b'9'
    then some (c - 48)
    else if leb b'a' c && leb c b'f'
    then some (c - 87)
    else if leb b'A' c && leb c b'F'
    then some (c - 55)
    else none

-- An underscore may stand after a digit or the prefix; a numeral ends with a digit.
hex_digits : Bool → Bool → ℕ → Text → Option ℕ
unfolding hex_value
hex_digits joins ends acc [] = if ends then some acc else none
hex_digits joins ends acc (c ∷ s) = elim (hex_value c) [
  | some d ↦ hex_digits true true (acc * 16 + d) s
  | none ↦ let rest = hex_digits false false acc s in if joins && c == b'_' then rest else none
]

hex_prefixed : Text → Option ℕ
unfolding hex_digits
hex_prefixed (z ∷ x ∷ s) =
    if z == b'0' && (x == b'x' || x == b'X')
    then hex_digits true false 0 s
    else hex_digits false false 0 (z ∷ x ∷ s)
hex_prefixed s = hex_digits false false 0 s

abbrev with_sign : (ℕ → ℤ) → Option ℕ → Option ℤ
with_sign f none = none
with_sign f (some n) = some (f n)

hex_signed : Text → Option ℤ
unfolding hex_prefixed
hex_signed [] = none
hex_signed (c ∷ s) =
    if c == b'-'
    then with_sign neg (hex_prefixed s)
    else if c == b'+'
    then with_sign pos (hex_prefixed s)
    else with_sign pos (hex_prefixed (c ∷ s))

-- `int(s, 16)`; `none` is its ValueError.
unfoldable pub read_hex : Text → Option ℤ
unfolding hex_signed strip
read_hex s = hex_signed (strip s)

-- `flags & 0x2`, in two's complement
abbrev has_gateway_flag : ℤ → Bool
has_gateway_flag (pos n) = n / 2 % 2 == 1
has_gateway_flag (negsuc n) = n / 2 % 2 == 0

-- `inet_ntoa(pack("<I", raw))`: the lowest byte comes first.
unfoldable pub little_endian : ℤ → Result Text
unfolding show_v4
little_endian (pos n) =
    if ltb n 4294967296
    then ok
        (show_v4 (((n % 256 * 256 + n / 256 % 256) * 256 + n / 65536 % 256) * 256 + n / 16777216))
    else err struct_error
little_endian (negsuc n) = err struct_error

abbrev pub Route : Type 0
Route = ℤ × Text

-- `candidate < best` on (metric, gateway)
unfoldable pub route_before : Route → Route → Bool
unfolding text_leb text_eq
route_before a b =
    ltb_ℤ a.0 b.0 || leb_ℤ a.0 b.0 && leb_ℤ b.0 a.0 && text_leb a.1 b.1 && not (text_eq a.1 b.1)

unfoldable pub better : Route → Option Route → Option Route
unfolding route_before
better route none = some route
better route (some best) = if route_before route best then some route else some best

-- The fields that a line must have: destination, gateway, flags and metric of eight or more.
gateway_line : List Text → Result (Option Route)
unfolding text_eq read_hex read_int bind
gateway_line (iface ∷ destination ∷ gateway ∷ flags ∷ f4 ∷ f5 ∷ metric ∷ f7 ∷ more) =
    if not (text_eq destination (text "00000000"))
    then ok none
    else bind (or_raise (read_hex flags) value_error) λ bits.
      if not (has_gateway_flag bits)
      then ok none
      else bind (or_raise (read_hex gateway) value_error) λ raw.
        bind (little_endian raw)
          λ address. bind (or_raise (read_int metric) value_error) λ cost. ok (some (cost, address))
gateway_line _ = ok none

abbrev keep_best : Option Route → Option Route → Option Route
keep_best none best = best
keep_best (some route) best = better route best

unfoldable pub gateway_lines : Option Route → List Text → Result (Option Route)
unfolding gateway_line words_from nonempty bind
gateway_lines best [] = ok best
gateway_lines best (line ∷ lines) =
    bind (gateway_line (fields_of line)) λ route. gateway_lines (keep_best route best) lines

abbrev gateway_text : Option Route → Text
gateway_text none = []
gateway_text (some route) = route.1

-- OSError and ValueError end the search with no gateway; an address that does not fit is not caught.
abbrev caught : Result (Option Route) → Result Text
caught (ok best) = ok (gateway_text best)
caught (err struct_error) = err struct_error
caught (err other) = ok []

abbrev behind_first : List Text → List Text
behind_first [] = []
behind_first (header ∷ lines) = lines

-- The lines of the table, the heading first; `none` where the file cannot be read.
unfoldable pub default_gateway_ipv4 : Option (List Text) → Result Text
unfolding gateway_lines
default_gateway_ipv4 none = ok []
default_gateway_ipv4 (some lines) = caught (gateway_lines none (behind_first lines))
