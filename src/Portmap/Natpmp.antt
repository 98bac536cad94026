-- ===== src/Portmap/Natpmp.antt =====
-- The NAT-PMP exchange of p2p/wireguard-p2p/linux/portmap.py: `build_natpmp_map_request`,
-- `parse_natpmp_public_response`, `parse_natpmp_map_response` and `try_natpmp`.
pub mod Answered
use wireguard_p2p.Base.{
  ℕ, ◌+◌, ◌*◌, ◌/◌, ◌%◌, Bool, true, false, not, ◌&&◌, ◌||◌, List, [], ◌∷◌, ◌++◌, leb, ◌==◌,
  if◌then◌else◌,
}
use wireguard_p2p.Base.Lists.{length}
use wireguard_p2p.Base.Text.{Text, text_eq}
use wireguard_p2p.Result.{Result, ok, err, value_error, runtime_error, bind, guard}
use wireguard_p2p.Ip.Print.{show_v4}
use wireguard_p2p.Portmap.{Mapping, public_ipv4}
use wireguard_p2p.Portmap.Bytes.{Packet, byte_at, be16_at, be32_at, pack16, pack32}
use wireguard_p2p.Portmap.Pcp.{Exchange}

unfoldable pub build_natpmp_map_request : ℕ → ℕ → Result Packet
unfolding bind
build_natpmp_map_request internal_port lifetime = bind (pack16 internal_port) λ port.
    bind (pack32 lifetime) λ seconds_bytes. ok (0 ∷ 1 ∷ 0 ∷ 0 ∷ (port ++ (port ++ seconds_bytes)))

unfoldable pub parse_natpmp_public_response : Packet → Result Text
unfolding bind show_v4 public_ipv4
parse_natpmp_public_response packet =
    bind
      (guard (leb 12 (length packet) && byte_at 0 packet == 0 && byte_at 1 packet == 128)
        value_error)
      λ _. bind (guard (be16_at 2 packet == 0) runtime_error) λ _.
        bind (guard (public_ipv4 (show_v4 (be32_at 8 packet))) value_error)
          λ _. ok (show_v4 (be32_at 8 packet))

-- The external port and the seconds.
unfoldable pub parse_natpmp_map_response : Packet → ℕ → Result (ℕ × ℕ)
unfolding bind
parse_natpmp_map_response packet internal_port =
    bind
      (guard (leb 16 (length packet) && byte_at 0 packet == 0 && byte_at 1 packet == 129)
        value_error)
      λ _. bind (guard (be16_at 2 packet == 0) runtime_error) λ _.
        bind (guard (be16_at 8 packet == internal_port && not (be16_at 10 packet == 0)) value_error)
          λ _. ok (be16_at 10 packet, be32_at 12 packet)

-- One packet out and one back, which must come from the gateway.
abbrev pub ask_gateway : Exchange → Text → Packet → Result Packet
unfolding bind text_eq
ask_gateway exchange gateway request =
    bind (exchange gateway request)
      λ answer. bind (guard (text_eq answer.0 gateway) value_error) λ _. ok answer.1

unfoldable pub try_natpmp : Exchange → Text → ℕ → ℕ → Result Mapping
unfolding bind text_eq build_natpmp_map_request parse_natpmp_public_response
    parse_natpmp_map_response
try_natpmp exchange gateway internal_port lifetime =
    bind (ask_gateway exchange gateway (0 ∷ 0 ∷ [])) λ public_packet.
      bind (parse_natpmp_public_response public_packet) λ external_ip.
        bind (build_natpmp_map_request internal_port lifetime) λ request.
          bind (ask_gateway exchange gateway request) λ map_packet.
            bind (parse_natpmp_map_response map_packet internal_port) λ granted. ok (record {
              external_ip = external_ip;
              external_port = granted.0;
              lifetime = granted.1;
            })
