-- ===== src/Portmap.antt =====
-- p2p/wireguard-p2p/linux/portmap.py and portmap_daemon.py: a public IPv4 mapping of the WireGuard
-- port, asked from the router. A packet is a list of bytes.
pub mod Bytes
pub mod Gateway
pub mod Pcp
pub mod Natpmp
pub mod Upnp
pub mod Mapper
pub mod Daemon
use wireguard_p2p.Base.{ℕ, Bool, true, false, Option, none, some}
use wireguard_p2p.Base.Text.{Text}
use wireguard_p2p.Ip.{Address, v4, v6, is_global}
use wireguard_p2p.Ip.Read.{ip_address}

abbrev pub default_lifetime : ℕ
default_lifetime = 3600

abbrev pub failure_retry : ℕ
failure_retry = 60

-- What a router granted: the address as text, the port and the seconds that it keeps the mapping.
pub record Mapping : Type 0 where
  pub external_ip : Text
  pub external_port : ℕ
  pub lifetime : ℕ

abbrev global_v4 : Option Address → Bool
unfolding is_global
global_v4 none = false
global_v4 (some (v4 a)) = is_global (v4 a)
global_v4 (some (v6 a)) = false

-- `_public_ipv4(value)`
unfoldable pub public_ipv4 : Text → Bool
unfolding ip_address is_global
public_ipv4 value = global_v4 (ip_address value)
