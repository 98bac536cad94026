-- ===== src/Portmap/Natpmp/Answered.antt =====
-- The NAT-PMP exchange of p2p/wireguard-p2p/linux/portmap.py with a router of RFC 6886.
use wireguard_p2p.Base.{
  ℕ, ◌≡◌, ◌<◌, ◌≤◌, refl, true, false, ◌∷◌, ◌++◌, arith, ◌==◌, ltb, if◌then◌else◌,
}
use wireguard_p2p.Base.Text.{Text, text_eq, text_eq_refl}
use wireguard_p2p.Result.{ok, bind}
use wireguard_p2p.Ip.{v4, is_global}
use wireguard_p2p.Ip.Print.{show_v4}
use wireguard_p2p.Portmap.{public_ipv4}
use wireguard_p2p.Portmap.Bytes.{Packet, slice, byte_at, be16, be32}
use wireguard_p2p.Portmap.Bytes.Fixed.{be16-exact, be32-exact}
use wireguard_p2p.Portmap.Pcp.{Exchange}
use wireguard_p2p.Portmap.Pcp.Answered.{Grant, public_ipv4-show_v4}
use wireguard_p2p.Portmap.Natpmp.{
  build_natpmp_map_request, parse_natpmp_public_response, parse_natpmp_map_response, try_natpmp,
  ask_gateway,
}

-- Section 3.2, with result code 0.
abbrev pub public_response : Grant → Packet
public_response g = 0 ∷ 128 ∷ 0 ∷ 0 ∷ (be32 g.epoch ++ be32 g.address)

-- Section 3.3, with result code 0: the internal port is copied from the request.
abbrev pub map_response : Grant → Packet → Packet
map_response g request =
    0 ∷ 129 ∷ 0 ∷ 0 ∷ (be32 g.epoch ++ (slice 4 2 request ++ (be16 g.port ++ be32 g.lifetime)))

-- The second byte of a request is its opcode.
abbrev pub natpmp_router : Grant → Exchange
natpmp_router g to request =
    ok (to, if byte_at 1 request == 0 then public_response g else map_response g request)

request_lem :
    (port lifetime : ℕ)
    → lifetime < 4294967296
    → port < 65536
    → build_natpmp_map_request port lifetime
      ≡ ok (0 ∷ 1 ∷ 0 ∷ 0 ∷ (be16 port ++ (be16 port ++ be32 lifetime)))
unfolding build_natpmp_map_request bind
request_lem port lifetime a b =
    let small : ltb lifetime 4294967296 ≡ true = ground arith in
    let fits : ltb port 65536 ≡ true = ground arith in rw (fits, bind, small) refl

public_lem :
    (g : Grant)
    → g.address < 4294967296
    → is_global (v4 g.address) ≡ true
    → parse_natpmp_public_response (public_response g) ≡ ok (show_v4 g.address)
unfolding parse_natpmp_public_response bind
public_lem g a glob =
    let public : public_ipv4 (show_v4 g.address) ≡ true =
      rw (public_ipv4-show_v4 g.address a) glob in
    rw (be32-exact g.address, public) refl

map_lem :
    (g : Grant) (port lifetime : ℕ)
    → 1 ≤ g.port
    → parse_natpmp_map_response
        (map_response g (0 ∷ 1 ∷ 0 ∷ 0 ∷ (be16 port ++ (be16 port ++ be32 lifetime))))
        port
      ≡ ok (g.port, g.lifetime)
unfolding parse_natpmp_map_response bind
map_lem g port lifetime p =
    let same : (port == port) ≡ true = ground arith in
    let used : (g.port == 0) ≡ false = ground arith in
    rw (be16-exact port, same, be16-exact g.port, be32-exact g.lifetime, used) refl

-- A router that answers in the layouts of RFC 6886 with result code 0 is taken at its word:
-- `try_natpmp` returns the address, port and lifetime of its two responses. Conditions: the address
-- is public, its port is not 0, and the port and the lifetime asked for fit their fields.
pub try_natpmp-answered :
    (port lifetime : ℕ) (g : Grant) (gateway : Text)
    → lifetime < 4294967296
    → port < 65536
    → g.address < 4294967296
    → is_global (v4 g.address) ≡ true
    → 1 ≤ g.port
    → try_natpmp (natpmp_router g) gateway port lifetime
      ≡ ok (record {
        external_ip = show_v4 g.address;
        external_port = g.port;
        lifetime = g.lifetime;
      })
unfolding try_natpmp bind
try_natpmp-answered port lifetime g gateway small fits a glob used =
    let same : text_eq gateway gateway ≡ true = text_eq_refl gateway in
    rw
      (
        ask_gateway,
        bind,
        same,
        public_lem g a glob,
        request_lem port lifetime small fits,
        map_lem g port lifetime used,
      )
      refl
