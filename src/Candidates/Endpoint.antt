-- ===== src/Candidates/Endpoint.antt =====
-- Endpoint texts of p2p/wireguard-p2p/linux/candidates.py: printing, parsing and the subnet test.
pub mod Roundtrip
use wireguard_p2p.Base.{
  ℕ, ◌-◌, ◌/◌, ◌^◌, ◌≡◌, refl, Bool, true, false, not, ◌&&◌, ◌||◌, List, [], ◌∷◌, ◌++◌, Option,
  none, some, ◌==◌, leb, if◌then◌else◌,
}
use wireguard_p2p.Base.Int.{ℤ, pos, negsuc}
use wireguard_p2p.Base.Text.{Text, text, has_char, is_empty, break_at, rbreak_at}
use wireguard_p2p.Base.Text.Decimal.{show, read_int}
use wireguard_p2p.Json.{Json, null, bool, int, str, arr, obj}
use wireguard_p2p.Ip.{Address, v4, v6, is_v4, is_private, is_multicast, is_unspecified}
use wireguard_p2p.Ip.Read.{ip_address}
use wireguard_p2p.Ip.Print.{compressed}

unfoldable pub format_endpoint : Address → ℕ → Text
format_endpoint (v6 a) port = b'[' ∷ (compressed (v6 a) ++ text "]:" ++ show port)
format_endpoint (v4 a) port = compressed (v4 a) ++ b':' ∷ show port

-- What stands between the brackets, and the text behind `]:`.
unfoldable pub split_bracket : Option (Text × Text) → Option (Text × Text)
split_bracket none = none
split_bracket (some ([], rest)) = none
split_bracket (some (c ∷ host, [])) = none
split_bracket (some (c ∷ host, d ∷ port_text)) =
    if d == b':' then some (c ∷ host, port_text) else none

unfoldable pub split_plain : Option (Text × Text) → Option (Text × Text)
split_plain none = none
split_plain (some (host, port_text)) = if has_char b':' host then none else some (host, port_text)

-- Host and port text of an endpoint; `none` is ValueError.
unfoldable pub split_endpoint : Text → Option (Text × Text)
unfolding split_bracket split_plain break_at rbreak_at has_char
split_endpoint [] = none
split_endpoint (c ∷ value) =
    if not (has_char b':' (c ∷ value))
    then none
    else if c == b'['
    then split_bracket (break_at b']' value)
    else split_plain (rbreak_at b':' (c ∷ value))

-- The ports that an endpoint may have.
abbrev pub port_in_range : ℤ → Option ℕ
port_in_range (pos n) = if leb 1 n && leb n 65535 then some n else none
port_in_range (negsuc n) = none

-- `int(port_text)` within 1 .. 65535
unfoldable pub read_port : Text → Option ℕ
unfolding read_int
read_port t = elim (read_int t) [ none ↦ none | some n ↦ port_in_range n ]

pub record Parsed : Type 0 where
  pub endpoint : Text
  pub address : Address
  pub port : ℕ

abbrev pub check_endpoint : Option Address → Option ℕ → Option Parsed
check_endpoint (some ip) (some port) =
    if is_unspecified ip || is_multicast ip
    then none
    else some (record { endpoint = format_endpoint ip port; address = ip; port = port })
check_endpoint _ _ = none

-- `parse_endpoint` on a text; `none` is its ValueError.
unfoldable pub parse_text : Text → Option Parsed
unfolding split_endpoint ip_address read_port is_unspecified is_multicast format_endpoint
parse_text value = elim (split_endpoint value) [
  | none ↦ none
  | some (host, port_text) ↦ check_endpoint (ip_address host) (read_port port_text)
]

unfoldable pub parse_endpoint : Json → Option Parsed
parse_endpoint (str value) = parse_text value
parse_endpoint null = none
parse_endpoint (bool b) = none
parse_endpoint (int n) = none
parse_endpoint (arr vs) = none
parse_endpoint (obj fs) = none

abbrev pub is_private_v4 : Address → Bool
is_private_v4 ip = is_v4 ip && is_private ip

-- The two addresses agree in the first `prefix_len` bits.
same_prefix : ℕ → Address → Address → Bool
same_prefix prefix_len (v4 a) (v4 b) = a / 2 ^ (32 - prefix_len) == b / 2 ^ (32 - prefix_len)
same_prefix prefix_len _ _ = false

subnet_test : ℕ → Option Address → Option Parsed → Bool
unfolding same_prefix is_private
subnet_test prefix_len (some ours) (some peer) =
    is_private_v4 ours && is_private_v4 peer.address && same_prefix prefix_len ours peer.address
subnet_test prefix_len _ _ = false

-- `same_private_subnet(our_lan_ip, peer_lan_endpoint, prefix_len=24)`
unfoldable pub same_private_subnet : Text → Json → ℕ → Bool
unfolding subnet_test ip_address parse_endpoint
same_private_subnet our_lan_ip peer_lan_endpoint prefix_len =
    subnet_test prefix_len (ip_address our_lan_ip) (parse_endpoint peer_lan_endpoint)
