-- ===== src/Coordinator/Registry.antt =====
-- Roles and push results in p2p/wireguard-p2p/vps/peers_api.py.
use wireguard_p2p.Base.{
  ℕ, ◌+◌, ◌/◌, Bool, true, false, not, ◌&&◌, ◌||◌, List, [], ◌∷◌, Option, none, some, leb, ◌==◌,
  if◌then◌else◌,
}
use wireguard_p2p.Base.Clock.{seconds}
use wireguard_p2p.Base.Dict
use wireguard_p2p.Base.Dict.{Dict}
use wireguard_p2p.Base.Lists.{any}
use wireguard_p2p.Base.Text.{Text, text, text_eq, break_at, is_empty}
use wireguard_p2p.Base.Text.Decimal.{strip}
use wireguard_p2p.Ip.{Address, v4, v6, in_net4, octets}
use wireguard_p2p.Ip.Read.{ip_address}
use wireguard_p2p.Ip.Print.{compressed}
use wireguard_p2p.Peers.{Role, relay_only, server, client}
use wireguard_p2p.Coordinator.{PushStatus, Coordinator}

-- LISTEN_ADDRESS
abbrev pub listen_address : Text
listen_address = text "10.0.0.1"

-- `line.split("#", 1)[0].strip()`
without_comment : Text → Text
unfolding break_at strip
without_comment line = elim (break_at b'#' line) [ none ↦ strip line | some (l, r) ↦ strip l ]

-- A host address of 10.0.0.0/24 other than the coordinator's.
unfoldable pub overlay_host : Address → Bool
unfolding in_net4 compressed text_eq
overlay_host (v4 a) =
    in_net4 a (octets 10 0 0 0, 24)
    && not (a == octets 10 0 0 0)
    && not (a == octets 10 0 0 255)
    && not (text_eq (compressed (v4 a)) listen_address)
overlay_host (v6 a) = false

abbrev role_ip : Option Address → Option Text
role_ip none = none
role_ip (some a) = if overlay_host a then some (compressed a) else none

abbrev line_ip : Text → Option Text
line_ip value = if is_empty value then none else role_ip (ip_address value)

abbrev add_ip : Option Text → List Text → List Text
add_ip none ips = ips
add_ip (some t) ips = if any (text_eq t) ips then ips else t ∷ ips

-- `load_role_registry(filename)`, over the lines of the file; `none` where it cannot be read.
unfoldable pub registry_lines : List Text → List Text
unfolding without_comment ip_address overlay_host compressed any text_eq
registry_lines [] = []
registry_lines (line ∷ lines) = add_ip (line_ip (without_comment line)) (registry_lines lines)

unfoldable pub load_role_registry : Option (List Text) → List Text
unfolding registry_lines
load_role_registry none = []
load_role_registry (some lines) = registry_lines lines

-- `overlay_ip in ips`
unfoldable pub member : Text → List Text → Bool
unfolding any text_eq
member t ts = any (text_eq t) ts

-- `peer_role(overlay_ip)`
unfoldable pub peer_role : List Text → List Text → Text → Role
unfolding member
peer_role relay_ips server_ips overlay_ip =
    if member overlay_ip relay_ips
    then relay_only
    else if member overlay_ip server_ips
    then server
    else client

abbrev pub new_push_status : PushStatus
new_push_status = record {
  good = none;
  last_success = 0;
  last_error = 0;
  consecutive_failures = 0;
  last_error_log = 0;
}

abbrev status_or_new : Option PushStatus → PushStatus
status_or_new none = new_push_status
status_or_new (some s) = s

-- One push result, on the status of a server. Times in the table are whole seconds but for the last.
unfoldable pub push_result : ℕ → Bool → PushStatus → PushStatus
push_result now true s = record s {
  good = some true;
  last_success = now / 1000000;
  consecutive_failures = 0;
}
push_result now false s = record s {
  good = some false;
  last_error = now / 1000000;
  consecutive_failures = s.consecutive_failures + 1;
  last_error_log =
      if s.consecutive_failures == 0 || leb (s.last_error_log + seconds 300) now
      then now
      else s.last_error_log;
}

-- `record_push_result(server_ip, ok, error)`
unfoldable pub record_push_result : Text → Bool → ℕ → Coordinator → Coordinator
unfolding push_result Dict.get Dict.put
record_push_result server_ip good now c = record c {
  push_status =
      Dict.put server_ip (push_result now good (status_or_new (Dict.get server_ip c.push_status)))
        c.push_status;
}
