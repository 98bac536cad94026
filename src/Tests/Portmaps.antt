-- ===== src/Tests/Portmaps.antt =====
-- The theorems on the port mapping, at one host behind one router.
use wireguard_p2p.Base.{ℕ, ◌+◌, ◌≡◌, ◌≤◌, ◌<◌, refl, true, List, [], ◌∷◌, none, some, arith, map}
use wireguard_p2p.Base.Clock.{seconds}
use wireguard_p2p.Base.Lists.{first, any}
use wireguard_p2p.Base.Text.{Text, text}
use wireguard_p2p.Result.{ok, err, os_error, to_option, bind}
use wireguard_p2p.Ip.{v4, octets, is_global, is_private, in_net4, is_multicast}
use wireguard_p2p.Ip.Print.{show_v4, compressed}
use wireguard_p2p.Ip.Print.Roundtrip.{ip_address-show_v4}
use wireguard_p2p.Candidates.{Candidate, to_json}
use wireguard_p2p.Portmap.{Mapping}
use wireguard_p2p.Portmap.Bytes.{Packet}
use wireguard_p2p.Portmap.Pcp.{try_pcp}
use wireguard_p2p.Portmap.Pcp.Answered.{Grant, pcp_router, try_pcp-answered}
use wireguard_p2p.Portmap.Natpmp.{try_natpmp}
use wireguard_p2p.Portmap.Natpmp.Answered.{natpmp_router, try_natpmp-answered}
use wireguard_p2p.Portmap.Upnp.{Igd}
use wireguard_p2p.Portmap.Mapper.{
  Key, Network, current_candidate, should_refresh, succeeded, mapped_candidate, refresh_after,
}
use wireguard_p2p.Portmap.Mapper.History.{Call, effect, holder, after_calls}
use wireguard_p2p.Portmap.Mapper.History.Holder.{current_candidate-holder}
use wireguard_p2p.Portmap.Mapper.Renewal.{refresh_after-bounds, should_refresh-in_time}
use wireguard_p2p.Candidates.Gather.{only_mapped, or_none, mapped_candidate_from_state}
use wireguard_p2p.Portmap.Daemon.{Poll, listen_port, poll_once, start, rounds}
use wireguard_p2p.Portmap.Daemon.Reader.{mapped_file, mapped_candidate_from_state-current}
use wireguard_p2p.Portmap.Daemon.Rounds.{IsSteady}
use wireguard_p2p.Portmap.Daemon.Steady.{then_rounds_lem, poll_once-IsDone}
use wireguard_p2p.Portmap.Gateway.{default_gateway_ipv4, little_endian, better, route_before}
use wireguard_p2p.Base.Text.Decimal.{show}
use wireguard_p2p.Candidates.Normalize.{normalize_probe_candidate}
use wireguard_p2p.Portmap.Daemon.Published.{
  IsAnswered, IsPublicGrant, mapping_of, poll_once-published,
}

abbrev local_address : ℕ
local_address = octets 192 168 1 10

abbrev nonce12 : Packet
nonce12 = 0 ∷ 1 ∷ 2 ∷ 3 ∷ 4 ∷ 5 ∷ 6 ∷ 7 ∷ 8 ∷ 9 ∷ 10 ∷ 11 ∷ []

abbrev grant : Grant
grant = record { address = octets 8 8 8 8; port = 62000; lifetime = 3600; epoch = 17 }

abbrev gateway_text : Text
gateway_text = text "192.168.1.1"

-- No router speaks UPnP.
abbrev no_igd : Igd
no_igd = record {
  bound = err os_error;
  deadline = 0;
  rounds = [];
  describe = λ location. err os_error;
  urljoin = λ base link. link;
  post = λ request. err os_error;
  fromstring = λ payload. err os_error;
}

abbrev route_lines : List Text
route_lines =
    text "Iface Destination Gateway  Flags"
    ∷ text "eth0 00000000 0101A8C0 0003 0 0 100 00000000 0 0 0"
    ∷ []

-- The routers answer at second 10.
abbrev network : Network
network = record {
  routes = some route_lines;
  nonce = nonce12;
  pcp = pcp_router 0 grant;
  natpmp = natpmp_router grant;
  igd = no_igd;
  recorded = seconds 10;
}

public_address : is_global (v4 (octets 8 8 8 8)) ≡ true
unfolding is_global is_private in_net4
public_address = refl

try_pcp-answered_example :
    try_pcp (pcp_router 0 grant) nonce12 gateway_text (show_v4 local_address) 51820 3600
    ≡ ok (record { external_ip = show_v4 (octets 8 8 8 8); external_port = 62000; lifetime = 3600 })
try_pcp-answered_example =
    try_pcp-answered 0 local_address 51820 3600 grant nonce12 gateway_text (show_v4 local_address)
      refl (ip_address-show_v4 local_address (omega arith)) (omega arith) (omega arith)
      (omega arith) public_address (omega arith)

try_natpmp-answered_example :
    try_natpmp (natpmp_router grant) gateway_text 51820 3600
    ≡ ok (record { external_ip = show_v4 (octets 8 8 8 8); external_port = 62000; lifetime = 3600 })
try_natpmp-answered_example =
    try_natpmp-answered 51820 3600 grant gateway_text (omega arith) (omega arith) (omega arith)
      public_address (omega arith)

refresh_after-bounds_example :
    (seconds 1 ≤ refresh_after 20)
    × (refresh_after 20 ≤ seconds 20)
    × (refresh_after 20 ≤ seconds 5)
refresh_after-bounds_example = refresh_after-bounds 20 (omega arith)

abbrev host_key : Key
host_key = (show_v4 local_address, 51820)

-- Two calls: one for a port that WireGuard used before, and the newest.
abbrev calls : List Call
calls =
    record { network = network; internal_port = 51820; local_ip = show_v4 local_address }
    ∷ record { network = network; internal_port = 40000; local_ip = show_v4 local_address }
    ∷ []

current_candidate-holder_example :
    current_candidate (after_calls calls) host_key (seconds 20)
    ≡ holder (map effect calls) host_key (seconds 20)
current_candidate-holder_example = current_candidate-holder calls host_key (seconds 20)

-- A mapping of four minutes, granted at second 10, and a round each minute.
abbrev short_mapping : Mapping
short_mapping = record (mapping_of grant) { lifetime = 240 }

abbrev minutes : List ℕ
minutes = seconds 60 ∷ seconds 120 ∷ seconds 180 ∷ []

should_refresh-in_time_example :
    (t : ℕ) × (first
        (should_refresh (succeeded host_key (text "pcp") short_mapping (seconds 10)) host_key)
        minutes
      ≡ some t)
    × (t + seconds 15 < (succeeded host_key (text "pcp") short_mapping (seconds 10)).expires_at)
    × (current_candidate (succeeded host_key (text "pcp") short_mapping (seconds 10)) host_key t
        ≡ some (mapped_candidate short_mapping))
unfolding should_refresh succeeded any show_v4
should_refresh-in_time_example =
    should_refresh-in_time host_key (text "pcp") short_mapping (seconds 10) minutes (omega arith)
      (omega arith, (omega arith, (omega arith, tt))) refl

abbrev poll : Poll
poll = record {
  local = some (v4 local_address);
  port_text = some (text "51820\n");
  asked = seconds 9;
  tested = seconds 9;
  network = network;
  reported = seconds 11;
  written = seconds 11;
  writes = true;
  unlinks = true;
}

routes_example : default_gateway_ipv4 network.routes ≡ ok gateway_text
unfolding default_gateway_ipv4 better route_before little_endian bind show_v4 show
routes_example = refl

port_example : listen_port poll.port_text ≡ 51820
unfolding listen_port
port_example = refl

private_example : is_private (v4 local_address) ≡ true
unfolding is_private in_net4
private_example = refl

poll-IsAnswered : IsAnswered poll local_address 51820 grant
poll-IsAnswered = record {
  local = refl;
  small = omega arith;
  private = private_example;
  listens = port_example;
  low = omega arith;
  high = omega arith;
  gateway = gateway_text;
  known = refl;
  routes = routes_example;
  result = 0;
  router = refl;
  nonce = refl;
  writes = refl;
  recorded = omega arith;
  reported = omega arith;
}

public_grant : IsPublicGrant grant
unfolding is_multicast in_net4
public_grant = record {
  small = omega arith;
  global = public_address;
  single = refl;
  low = omega arith;
  high = omega arith;
  lasts = omega arith;
}

poll_once-published_example :
    mapped_candidate_from_state 51820
      (show_v4 local_address)
      (mapped_file (poll_once poll (start none)).1)
      (seconds 3500)
    ≡ some (mapped_candidate (mapping_of grant))
poll_once-published_example =
    poll_once-published poll local_address 51820 (seconds 3500) grant none poll-IsAnswered
      public_grant (omega arith)

poll-IsSteady : IsSteady (seconds 15) poll
poll-IsSteady = record {
  writes = refl;
  unlinks = refl;
  host = omega arith;
  gateway = gateway_text;
  routes = routes_example;
  asked = omega arith;
  recorded = omega arith;
  reported = omega arith;
  quick = omega arith;
}

-- The one round of this daemon.
read_example :
    mapped_candidate_from_state 51820
      (show_v4 local_address)
      (mapped_file (rounds (poll ∷ []) (start none)).1)
      (seconds 3500)
    ≡ some (mapped_candidate (mapping_of grant))
unfolding rounds start
read_example =
    rw
      (then_rounds_lem (poll_once poll (start none)) (rounds [])
        (poll_once-IsDone (seconds 15) poll (start none) poll.local poll-IsSteady refl tt).0)
      poll_once-published_example

mapped_candidate_from_state-current_example :
    ((rounds (poll ∷ []) (start none)).0 ≡ ok tt)
    × (c : Candidate) × (current_candidate
          (rounds (poll ∷ []) (start none)).1.mapper
          (compressed (v4 local_address), 51820)
          (seconds 3500)
        ≡ some c)
    × (only_mapped (or_none (to_option (normalize_probe_candidate (to_json c))))
        ≡ some (mapped_candidate (mapping_of grant)))
mapped_candidate_from_state-current_example =
    mapped_candidate_from_state-current (seconds 15) 51820 (seconds 3500) (show_v4 local_address)
      (v4 local_address) none poll [] (mapped_candidate (mapping_of grant)) (omega arith)
      (poll-IsSteady, tt) (ip_address-show_v4 local_address (omega arith)) read_example
