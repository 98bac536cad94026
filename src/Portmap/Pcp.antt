-- ===== src/Portmap/Pcp.antt =====
-- The PCP MAP exchange of p2p/wireguard-p2p/linux/portmap.py: `build_pcp_map_request`,
-- `parse_pcp_map_response` and `try_pcp`.
pub mod Answered
use wireguard_p2p.Base.{
  ℕ, ◌+◌, ◌*◌, ◌/◌, ◌%◌, ◌≡◌, refl, Bool, true, false, not, ◌&&◌, ◌||◌, List, [], ◌∷◌, ◌++◌, Option,
  none, some, leb, ◌==◌, if◌then◌else◌,
}
use wireguard_p2p.Base.Lists.{length}
use wireguard_p2p.Base.Text.{Text, text_eq}
use wireguard_p2p.Result.{Result, ok, err, value_error, runtime_error, bind, guard}
use wireguard_p2p.Ip.{Address, v4, v6}
use wireguard_p2p.Ip.Read.{ip_address}
use wireguard_p2p.Ip.Print.{show_v4}
use wireguard_p2p.Portmap.{Mapping, public_ipv4}
use wireguard_p2p.Portmap.Bytes.{
  Packet, zeros, slice, splice, byte_at, be32, be128, be16_at, be32_at, pack16, pack32,
}

-- `socket.IPPROTO_UDP`
abbrev pub ipproto_udp : ℕ
ipproto_udp = 17

-- The first twelve bytes of an IPv4 address that is mapped into IPv6.
abbrev pub mapped_prefix : Packet
mapped_prefix = zeros 10 ++ 255 ∷ 255 ∷ []

-- `address.packed`
abbrev packed : Address → Packet
packed (v4 a) = be32 a
packed (v6 a) = be128 a

-- `_ipv4_mapped(address)`
abbrev pub ipv4_mapped : Text → Result Packet
unfolding ip_address
ipv4_mapped address = elim (ip_address address) [
  | none ↦ err value_error
  | some ip ↦ ok (mapped_prefix ++ packed ip)
]

-- The writes into `bytearray(60)`, in their order.
abbrev pub pcp_fields : Packet → Packet → Packet → Packet → Packet
pcp_fields seconds_bytes client nonce port =
    let header = splice 1 1 (1 ∷ []) (splice 0 1 (2 ∷ []) (zeros 60)) in
    let addressed = splice 8 16 client (splice 4 4 seconds_bytes header) in
    let tagged = splice 36 1 (ipproto_udp ∷ []) (splice 24 12 nonce addressed) in
    splice 42 2 port (splice 40 2 port tagged)

unfoldable pub build_pcp_map_request : Text → ℕ → ℕ → Packet → Result Packet
unfolding bind ip_address
build_pcp_map_request local_ip internal_port lifetime nonce =
    bind (guard (length nonce == 12) value_error) λ _. bind (pack32 lifetime) λ seconds_bytes.
      bind (ipv4_mapped local_ip) λ client.
        bind (pack16 internal_port) λ port. ok (pcp_fields seconds_bytes client nonce port)

-- The address of the response; sixteen bytes without the prefix are an IPv6 address.
abbrev external_address : Packet → Result Text
unfolding text_eq show_v4
external_address packet =
    if text_eq (slice 44 12 packet) mapped_prefix
    then ok (show_v4 (be32_at 56 packet))
    else err value_error

unfoldable pub parse_pcp_map_response : Packet → Packet → ℕ → Result Mapping
unfolding bind text_eq show_v4 public_ipv4
parse_pcp_map_response packet nonce internal_port =
    bind
      (guard (leb 60 (length packet) && byte_at 0 packet == 2 && byte_at 1 packet == 0x81)
        value_error)
      λ _. bind (guard (byte_at 2 packet == 0) runtime_error) λ _.
        bind
          (guard (text_eq (slice 24 12 packet) nonce && byte_at 36 packet == ipproto_udp)
            value_error)
          λ _. bind (guard (be16_at 40 packet == internal_port) value_error) λ _.
            bind (external_address packet) λ external_ip.
              bind (guard (public_ipv4 external_ip && not (be16_at 42 packet == 0)) value_error)
                λ _. ok (record {
                  external_ip = external_ip;
                  external_port = be16_at 42 packet;
                  lifetime = be32_at 4 packet;
                })

-- What comes back for a packet sent to an address: a sender and a packet, or an error of the socket.
abbrev pub Exchange : Type 0
Exchange = Text → Packet → Result (Text × Packet)

unfoldable pub try_pcp : Exchange → Packet → Text → Text → ℕ → ℕ → Result Mapping
unfolding bind build_pcp_map_request parse_pcp_map_response text_eq
try_pcp exchange nonce gateway local_ip internal_port lifetime =
    bind (build_pcp_map_request local_ip internal_port lifetime nonce) λ request.
      bind (exchange gateway request) λ answer.
        bind (guard (text_eq answer.0 gateway) value_error)
          λ _. parse_pcp_map_response answer.1 nonce internal_port
