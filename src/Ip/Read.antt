-- ===== src/Ip/Read.antt =====
-- `ipaddress.ip_address` on a text.
use wireguard_p2p.Base.{
  ℕ, ◌+◌, ◌-◌, ◌*◌, ◌/◌, ◌%◌, ◌^◌, Bool, true, false, not, ◌&&◌, ◌||◌, List, [], ◌∷◌, Option, none,
  some, ◌==◌, leb, ltb, if◌then◌else◌,
}
use wireguard_p2p.Base.Lists.{length}
use wireguard_p2p.Base.Text.{Text, split_on, has_char, is_empty}
use wireguard_p2p.Base.Text.Decimal.{all_digits, is_digit}
use wireguard_p2p.Ip.{Address, v4, v6}

digits_value : ℕ → Text → ℕ
digits_value acc [] = acc
digits_value acc (c ∷ s) = digits_value (acc * 10 + (c - 48)) s

leading_zero : Text → Bool
leading_zero (c ∷ d ∷ s) = c == b'0'
leading_zero _ = false

-- One octet: one to three ASCII digits, no leading zero, at most 255.
unfoldable pub octet : Text → Option ℕ
unfolding digits_value leading_zero all_digits is_digit
octet t =
    let n = digits_value 0 t in
    if not (is_empty t) && all_digits t && leb (length t) 3 && not (leading_zero t) && leb n 255
    then some n
    else none

unfoldable pub four_octets : List Text → Option ℕ
unfolding octet
four_octets (a ∷ b ∷ c ∷ d ∷ []) = elim (octet a) [
  | none ↦ none
  | some i ↦ elim (octet b) [
    | none ↦ none
    | some j ↦ elim (octet c) [
      | none ↦ none
      | some k ↦ elim (octet d) [
        | none ↦ none
        | some l ↦ some (((i * 256 + j) * 256 + k) * 256 + l)
      ]
    ]
  ]
]
four_octets _ = none

unfoldable pub read_v4 : Text → Option ℕ
unfolding four_octets split_on
read_v4 t = four_octets (split_on b'.' t)

hex_digit : ℕ → Option ℕ
hex_digit c =
    if leb b'0' c && leb c b'9'
    then some (c - 48)
    else if leb b'a' c && leb c b'f'
    then some (c - 87)
    else if leb b'A' c && leb c b'F'
    then some (c - 55)
    else none

hex_from : ℕ → Text → Option ℕ
unfolding hex_digit
hex_from acc [] = some acc
hex_from acc (c ∷ s) = elim (hex_digit c) [ none ↦ none | some d ↦ hex_from (acc * 16 + d) s ]

-- One to four hexadecimal digits.
hextet : Text → Option ℕ
unfolding hex_from
hextet t = if is_empty t || ltb 4 (length t) then none else hex_from 0 t

hextets_value : ℕ → List Text → Option ℕ
unfolding hextet
hextets_value acc [] = some acc
hextets_value acc (w ∷ ws) = elim (hextet w) [
  | none ↦ none
  | some h ↦ hextets_value (acc * 65536 + h) ws
]

-- The parts round the first empty part that is not the last.
cut : List Text → Option (List Text × List Text)
cut (w ∷ v ∷ ws) =
    if is_empty w
    then some ([], v ∷ ws)
    else elim (cut (v ∷ ws)) [ none ↦ none | some (l, r) ↦ some (w ∷ l, r) ]
cut _ = none

abbrev has_some : Option (List Text × List Text) → Bool
has_some none = false
has_some (some p) = true

-- A leading empty part is allowed only as part of `::`; likewise a trailing one.
upper_parts : Text → List Text → Option (List Text)
upper_parts p0 mid =
    if is_empty p0 then (elim mid [ [] ↦ some [] | _ ∷ _ ↦ none ]) else some (p0 ∷ mid)

ends_empty : List Text → Bool
ends_empty [] = false
ends_empty (w ∷ []) = is_empty w
ends_empty (w ∷ v ∷ ws) = ends_empty (v ∷ ws)

lower_parts : List Text → Option (List Text)
unfolding ends_empty
lower_parts lo = if ends_empty lo then (if length lo == 1 then some [] else none) else some lo

join_halves : Option (List Text) → Option (List Text) → Option ℕ
unfolding hextets_value
join_halves (some hi) (some lo) =
    if ltb (length hi + length lo) 8
    then elim (hextets_value 0 hi) [
      | none ↦ none
      | some h ↦ elim (hextets_value 0 lo) [
        | none ↦ none
        | some l ↦ some (h * 2 ^ (16 * (8 - length hi)) + l)
      ]
    ]
    else none
join_halves _ _ = none

-- The parts between colons, a dotted tail already replaced by two hextets.
parts_value : List Text → Option ℕ
unfolding cut upper_parts lower_parts join_halves hextets_value
parts_value [] = none
parts_value (p0 ∷ ps) = if ltb 9 (length (p0 ∷ ps)) then none else elim (cut ps) [
  | none ↦ if length (p0 ∷ ps) == 8 then hextets_value 0 (p0 ∷ ps) else none
  | some (mid, lo) ↦
      if has_some (cut lo) then none else join_halves (upper_parts p0 mid) (lower_parts lo)
]

hex_char : ℕ → ℕ
hex_char d = if ltb d 10 then 48 + d else 87 + d

-- `'%x'` of a number below 65536
unfoldable pub show_hex : ℕ → Text
unfolding hex_char
show_hex n =
    if ltb n 16
    then hex_char n ∷ []
    else if ltb n 256
    then hex_char (n / 16) ∷ hex_char (n % 16) ∷ []
    else if ltb n 4096
    then hex_char (n / 256) ∷ hex_char (n / 16 % 16) ∷ hex_char (n % 16) ∷ []
    else hex_char (n / 4096)
      ∷ hex_char (n / 256 % 16)
      ∷ hex_char (n / 16 % 16)
      ∷ hex_char (n % 16)
      ∷ []

-- A last part with dots is an IPv4 address.
dotted_tail : List Text → Option (List Text)
unfolding has_char read_v4 show_hex
dotted_tail [] = some []
dotted_tail (w ∷ []) =
    if has_char b'.' w
    then (elim (read_v4 w) [
      | none ↦ none
      | some a ↦ some (show_hex (a / 65536) ∷ show_hex (a % 65536) ∷ [])
    ])
    else some (w ∷ [])
dotted_tail (w ∷ v ∷ ws) = elim (dotted_tail (v ∷ ws)) [ none ↦ none | some r ↦ some (w ∷ r) ]

unfoldable pub read_v6 : Text → Option ℕ
unfolding dotted_tail parts_value split_on
read_v6 t =
    let parts = split_on b':' t in
    if ltb (length parts) 3
    then none
    else elim (dotted_tail parts) [ none ↦ none | some ps ↦ parts_value ps ]

-- `ipaddress.ip_address(t)`; `none` is its ValueError.
unfoldable pub ip_address : Text → Option Address
unfolding read_v4 read_v6
ip_address t = elim (read_v4 t) [
  | some a ↦ some (v4 a)
  | none ↦ elim (read_v6 t) [ some a ↦ some (v6 a) | none ↦ none ]
]
