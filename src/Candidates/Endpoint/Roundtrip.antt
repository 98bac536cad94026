-- ===== src/Candidates/Endpoint/Roundtrip.antt =====
-- Reading a formatted IPv4 endpoint with `parse_endpoint` of p2p/wireguard-p2p/linux/candidates.py.
use wireguard_p2p.Base.{ℕ, ◌≡◌, ◌<◌, ◌≤◌, refl, true, false, ◌||◌, [], ◌∷◌, ◌++◌, some, arith, ◌==◌}
use wireguard_p2p.Base.Text.{Text, has_char, has_char-append, rbreak_at-append}
use wireguard_p2p.Base.Text.Decimal.{is_digit, show, show-no_char, read_int-show}
use wireguard_p2p.Ip.{Address, v4, is_multicast, is_unspecified}
use wireguard_p2p.Ip.Read.{ip_address}
use wireguard_p2p.Ip.Print.{show_v4, compressed}
use wireguard_p2p.Ip.Print.Roundtrip.{show_v4-no_char, ip_address-show_v4}
use wireguard_p2p.Candidates.Endpoint.{
  format_endpoint, split_endpoint, split_plain, read_port, parse_text,
}

split_endpoint-plain :
    (h p : Text)
    → has_char b':' h ≡ false
    → has_char b'[' h ≡ false
    → has_char b':' p ≡ false
    → split_endpoint (h ++ b':' ∷ p) ≡ some (h, p)
unfolding split_endpoint split_plain has_char
split_endpoint-plain [] p a b c = rw (rbreak_at-append b':' [] p c) refl
split_endpoint-plain (x ∷ h) p a b c =
    let plain : (x == b'[') ≡ false = ground arith in
    let colon : has_char b':' (x ∷ h ++ b':' ∷ p) ≡ true =
      rw (has_char-append b':' (x ∷ h) (b':' ∷ p)) (ground arith) in
    rw (colon, plain, rbreak_at-append b':' (x ∷ h) p c, a) refl

read_port-show : (port : ℕ) → 1 ≤ port → port ≤ 65535 → read_port (show port) ≡ some port
unfolding read_port
read_port-show port low high = rw (read_port, read_int-show port) (ground arith)

not_digit : (is_digit b':' ≡ false) × (is_digit b'[' ≡ false)
unfolding is_digit
not_digit = (refl, refl)

parse_text_lem :
    (t host p : Text) {ip : Address} {port : ℕ}
    → split_endpoint t ≡ some (host, p)
    → ip_address host ≡ some ip
    → read_port p ≡ some port
    → (is_unspecified ip || is_multicast ip) ≡ false
    → parse_text t ≡ some (record { endpoint = format_endpoint ip port; address = ip; port = port })
unfolding parse_text
parse_text_lem t host p a b c u = rw (parse_text, a, b, c, u) refl

-- A formatted IPv4 endpoint reads back as the same address and port, and keeps its text, where the
-- address is neither unspecified nor multicast.
pub parse_text-format_endpoint :
    (a port : ℕ)
    → a < 4294967296
    → 1 ≤ port
    → port ≤ 65535
    → (is_unspecified (v4 a) || is_multicast (v4 a)) ≡ false
    → parse_text (format_endpoint (v4 a) port)
      ≡ some (record { endpoint = format_endpoint (v4 a) port; address = v4 a; port = port })
unfolding format_endpoint compressed
parse_text-format_endpoint a port lt low high usable =
    parse_text_lem (show_v4 a ++ b':' ∷ show port) (show_v4 a) (show port)
      (split_endpoint-plain (show_v4 a) (show port) (show_v4-no_char b':' a not_digit.0 refl)
        (show_v4-no_char b'[' a not_digit.1 refl) (show-no_char b':' port not_digit.0))
      (ip_address-show_v4 a lt) (read_port-show port low high) usable
