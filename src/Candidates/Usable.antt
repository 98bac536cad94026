-- ===== src/Candidates/Usable.antt =====
-- Which IPv6 addresses p2p/wireguard-p2p/linux/candidates.py advertises and probes.
use wireguard_p2p.Base.{
  ℕ, ◌*◌, ◌^◌, Bool, false, not, ◌&&◌, ◌||◌, List, [], ◌∷◌, ◌++◌, Option, none, some, if◌then◌else◌,
  ◌==◌,
}
use wireguard_p2p.Base.Int.{pos}
use wireguard_p2p.Base.Lists.{any}
use wireguard_p2p.Base.Text.{Text, text, text_eq, lower}
use wireguard_p2p.Base.Text.Decimal.{strip}
use wireguard_p2p.Json.{Json, bool, int, str}
use wireguard_p2p.Ip.{
  Address, v4, v6, is_v6, is_private, is_global, is_link_local, is_loopback, is_multicast, in_net6,
}
use wireguard_p2p.Ip.Read.{ip_address}
use wireguard_p2p.Ip.Print.{compressed}

-- NON_HOST_IPV6_NETWORKS
unfoldable pub non_host_ipv6_networks : List (ℕ × ℕ)
non_host_ipv6_networks =
    (0x64ff9b * 2 ^ 96, 96)
    ∷ (0x64ff9b0001 * 2 ^ 80, 48)
    ∷ (0x100 * 2 ^ 112, 64)
    ∷ (0x20010000 * 2 ^ 96, 32)
    ∷ (0x20010002 * 2 ^ 96, 48)
    ∷ (0x20010003 * 2 ^ 96, 32)
    ∷ (0x200100040112 * 2 ^ 80, 48)
    ∷ (0x20010010 * 2 ^ 96, 28)
    ∷ (0x20010020 * 2 ^ 96, 28)
    ∷ (0x20010db8 * 2 ^ 96, 32)
    ∷ (0x2002 * 2 ^ 112, 16)
    ∷ (0x3fff * 2 ^ 112, 20)
    ∷ []

non_host : Address → Bool
unfolding any non_host_ipv6_networks in_net6
non_host (v4 a) = false
non_host (v6 a) = any (in_net6 a) non_host_ipv6_networks

unfoldable pub usable_global_ipv6 : Address → Bool
unfolding non_host is_global is_private is_link_local is_loopback is_multicast
usable_global_ipv6 ip =
    is_v6 ip
    && is_global ip
    && not (is_private ip)
    && not (is_link_local ip)
    && not (is_loopback ip)
    && not (is_multicast ip)
    && not (non_host ip)

-- One entry of `addr_info`, as `ip -6 -j addr show` prints it.
pub record AddressInfo : Type 0 where
  pub family : Text
  pub scope : Text
  pub local : Text
  pub flags : List Text
  pub preferred_life_time : Option Json
  pub preferred_lft : Option Json

pub record Interface : Type 0 where
  pub ifname : Text
  pub operstate : Text
  pub addr_info : List AddressInfo

-- `value == 0 or str(value).strip().lower() in ("0", "0sec")`
lifetime_over : Option Json → Bool
unfolding strip text_eq
lifetime_over none = false
lifetime_over (some (int (pos n))) = n == 0
lifetime_over (some (bool b)) = not b
lifetime_over (some (str t)) =
    let s = lower (strip t) in text_eq s (text "0") || text_eq s (text "0sec")
lifetime_over (some _) = false

unfoldable pub ipv6_address_info_unusable : AddressInfo → Bool
unfolding any lifetime_over text_eq
ipv6_address_info_unusable info =
    any (text_eq (text "tentative")) info.flags
    || any (text_eq (text "deprecated")) info.flags
    || lifetime_over info.preferred_life_time
    || lifetime_over info.preferred_lft

-- The compressed text of a usable address.
abbrev usable_text : Option Address → Option Text
usable_text none = none
usable_text (some ip) = if usable_global_ipv6 ip then some (compressed ip) else none

-- The first source address that is usable, over the results of the `connect` calls.
unfoldable pub preferred_source_ipv6 : List (Option Text) → Text
unfolding ip_address usable_global_ipv6 compressed
preferred_source_ipv6 [] = []
preferred_source_ipv6 (none ∷ rest) = preferred_source_ipv6 rest
preferred_source_ipv6 (some address ∷ rest) = elim (usable_text (ip_address address)) [
  | some t ↦ t
  | none ↦ preferred_source_ipv6 rest
]

unfoldable pub info_address : AddressInfo → Option Text
unfolding ipv6_address_info_unusable text_eq ip_address usable_global_ipv6 compressed
info_address info =
    if not (text_eq info.family (text "inet6")) || not (text_eq info.scope (text "global"))
    then none
    else if ipv6_address_info_unusable info
    then none
    else usable_text (ip_address info.local)

-- `if address not in seen`, over the list that is built
abbrev add_new : Option Text → List Text → List Text
add_new none found = found
add_new (some t) found = if any (text_eq t) found then found else found ++ t ∷ []

unfoldable pub add_infos : List Text → List AddressInfo → List Text
unfolding info_address any text_eq
add_infos found [] = found
add_infos found (info ∷ rest) = add_infos (add_new (info_address info) found) rest

unfoldable pub add_interfaces : List Text → List Interface → List Text
unfolding add_infos text_eq
add_interfaces found [] = found
add_interfaces found (i ∷ rest) =
    add_interfaces
      (if text_eq i.ifname (text "lo") || text_eq i.operstate (text "DOWN")
        then found
        else add_infos found i.addr_info)
      rest

-- `global_ipv6_addresses()`, over what the command printed; `none` where it failed.
unfoldable pub global_ipv6_addresses : Option (List Interface) → List Text
unfolding add_interfaces
global_ipv6_addresses none = []
global_ipv6_addresses (some interfaces) = add_interfaces [] interfaces
