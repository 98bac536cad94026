-- ===== src/Portmap/Pcp/Answered.antt =====
-- The PCP exchange of p2p/wireguard-p2p/linux/portmap.py with a router of RFC 6887.
use wireguard_p2p.Base.{ℕ, ◌≡◌, ◌<◌, ◌≤◌, refl, true, false, ◌∷◌, ◌++◌, some, arith, ◌==◌, ltb, ◌∙◌}
use wireguard_p2p.Base.Lists.{length}
use wireguard_p2p.Base.Text.{Text, text_eq, text_eq_refl}
use wireguard_p2p.Result.{ok, bind}
use wireguard_p2p.Ip.{v4, is_global}
use wireguard_p2p.Ip.Read.{ip_address}
use wireguard_p2p.Ip.Print.{show_v4}
use wireguard_p2p.Ip.Print.Roundtrip.{ip_address-show_v4}
use wireguard_p2p.Portmap.{public_ipv4}
use wireguard_p2p.Portmap.Bytes.{Packet, zeros, slice, be16, be32}
use wireguard_p2p.Portmap.Bytes.Fixed.{Bytes, packet_of, packet_of-onto, be16-exact, be32-exact}
use wireguard_p2p.Portmap.Pcp.{
  ipv4_mapped, mapped_prefix, build_pcp_map_request, parse_pcp_map_response, Exchange, try_pcp,
  pcp_fields,
}

-- What a router grants: an address and a port outside, the seconds, and its clock.
pub record Grant : Type 0 where
  pub address : ℕ
  pub port : ℕ
  pub lifetime : ℕ
  pub epoch : ℕ

-- The layout of a MAP response, section 11.1: the result code is the fourth byte, and nonce,
-- protocol and internal port are copied from the request.
abbrev pub pcp_response : ℕ → Grant → Packet → Packet
pcp_response result g request =
    2
    ∷ 0x81
    ∷ 0
    ∷ result
    ∷ (be32 g.lifetime
        ++ (be32 g.epoch
            ++ (zeros 12
                ++ (slice 24 18 request ++ (be16 g.port ++ (mapped_prefix ++ be32 g.address))))))

-- A router that answers from the address it was asked at.
abbrev pub pcp_router : ℕ → Grant → Exchange
pcp_router result g to request = ok (to, pcp_response result g request)

pub public_ipv4-show_v4 : (a : ℕ) → a < 4294967296 → public_ipv4 (show_v4 a) ≡ is_global (v4 a)
unfolding public_ipv4
public_ipv4-show_v4 a lt = rw (public_ipv4, ip_address-show_v4 a lt) refl

request_lem :
    (local_ip : Text) (l port lifetime : ℕ) (v : Bytes 12)
    → ip_address local_ip ≡ some (v4 l)
    → lifetime < 4294967296
    → port < 65536
    → build_pcp_map_request local_ip port lifetime (packet_of 12 v)
      ≡ ok (pcp_fields (be32 lifetime) (mapped_prefix ++ be32 l) (packet_of 12 v) (be16 port))
unfolding build_pcp_map_request bind
request_lem local_ip l port lifetime v e a b =
    let small : ltb lifetime 4294967296 ≡ true = ground arith in
    let fits : ltb port 65536 ≡ true = ground arith in rw (small, bind, ipv4_mapped, e, fits) refl

response_lem :
    (local_ip : Text) (l port lifetime result : ℕ) (v : Bytes 12) (g : Grant)
    → g.address < 4294967296
    → is_global (v4 g.address) ≡ true
    → 1 ≤ g.port
    → parse_pcp_map_response
        (pcp_response result g
          (pcp_fields (be32 lifetime) (mapped_prefix ++ be32 l) (packet_of 12 v) (be16 port)))
        (packet_of 12 v)
        port
      ≡ ok (record {
        external_ip = show_v4 g.address;
        external_port = g.port;
        lifetime = g.lifetime;
      })
unfolding parse_pcp_map_response bind
response_lem local_ip l port lifetime result v g a glob p =
    let nonce : text_eq (packet_of 12 v) (packet_of 12 v) ≡ true = text_eq_refl (packet_of 12 v) in
    let same : (port == port) ≡ true = ground arith in
    let used : (g.port == 0) ≡ false = ground arith in
    let public : public_ipv4 (show_v4 g.address) ≡ true =
      rw (public_ipv4-show_v4 g.address a) glob in
    rw
      (
        nonce,
        be16-exact port,
        same,
        be16-exact g.port,
        be32-exact g.address,
        be32-exact g.lifetime,
        public,
        used,
      )
      refl

try_pcp_lem :
    (exchange : Exchange) (nonce request answer : Packet) (gateway local_ip : Text)
    (port lifetime : ℕ)
    → build_pcp_map_request local_ip port lifetime nonce ≡ ok request
    → exchange gateway request ≡ ok (gateway, answer)
    → try_pcp exchange nonce gateway local_ip port lifetime
      ≡ parse_pcp_map_response answer nonce port
unfolding try_pcp bind
try_pcp_lem exchange nonce request answer gateway local_ip port lifetime built answered =
    rw (built, bind, answered, text_eq_refl gateway) refl

-- A router that answers in the layout of RFC 6887, whatever result code it gives, is taken at its
-- word: `try_pcp` returns the address, port and lifetime of the response. Conditions: the address is
-- public, its port is not 0, the nonce has twelve bytes, the local address is IPv4, and the port and
-- the lifetime asked for fit their fields.
pub try_pcp-answered :
    (result l port lifetime : ℕ) (g : Grant) (nonce : Packet) (gateway local_ip : Text)
    → length nonce ≡ 12
    → ip_address local_ip ≡ some (v4 l)
    → lifetime < 4294967296
    → port < 65536
    → g.address < 4294967296
    → is_global (v4 g.address) ≡ true
    → 1 ≤ g.port
    → try_pcp (pcp_router result g) nonce gateway local_ip port lifetime
      ≡ ok (record {
        external_ip = show_v4 g.address;
        external_port = g.port;
        lifetime = g.lifetime;
      })
try_pcp-answered result l port lifetime g nonce gateway local_ip twelve local fits small a glob
      used =
    let (v, e) = packet_of-onto 12 nonce twelve in
    let request =
      pcp_fields (be32 lifetime) (mapped_prefix ++ be32 l) (packet_of 12 v) (be16 port) in
    rw e (
      try_pcp_lem (pcp_router result g) (packet_of 12 v) request (pcp_response result g request)
        gateway local_ip port lifetime (request_lem local_ip l port lifetime v local fits small)
        refl
      ∙ response_lem local_ip l port lifetime result v g a glob used)
