-- ===== src/Coordinator/Payload.antt =====
-- The peers of the coordinator's WireGuard interface and what it tells of them: `wg_peers` and
-- `peer_payload` of p2p/wireguard-p2p/vps/peers_api.py.
use wireguard_p2p.Base.{
  ℕ, Bool, false, not, ◌||◌, List, [], ◌∷◌, ◌++◌, Option, none, some, leb, if◌then◌else◌,
}
use wireguard_p2p.Base.Clock.{seconds, within, older}
use wireguard_p2p.Base.Dict
use wireguard_p2p.Base.Dict.{Dict}
use wireguard_p2p.Base.Int.{ℤ, pos, negsuc}
use wireguard_p2p.Base.Lists.{any}
use wireguard_p2p.Base.Text.{Text, text, text_eq, split_on, break_at}
use wireguard_p2p.Base.Text.Decimal.{strip, show, read_int}
use wireguard_p2p.Result.{Result, ok, err, value_error, ◌>>=◌}
use wireguard_p2p.Ip.{Address, is_v4}
use wireguard_p2p.Ip.Read.{ip_address}
use wireguard_p2p.Ip.Print.{compressed}
use wireguard_p2p.Candidates.{mapped4, Candidate, type_eq}
use wireguard_p2p.Peers.{PeerInfo, Role}
use wireguard_p2p.Coordinator.{Coordinator, LanEntry, NodeEntry, Session, announce_ttl, session_ttl}
use wireguard_p2p.Coordinator.Endpoint.{
  lan_candidate, observed_candidate, predicted_candidates, merge_candidates,
}

-- `ipaddress.ip_interface(t).ip`: an address, or one with a prefix length.
abbrev prefix_ok : Address → Option ℤ → Option Address
prefix_ok a (some (pos n)) = if leb n (if is_v4 a then 32 else 128) then some a else none
prefix_ok a _ = none

abbrev checked_prefix : Option Address → Text → Option Address
checked_prefix none r = none
checked_prefix (some a) r = prefix_ok a (read_int r)

interface_ip : Text → Option Address
unfolding break_at ip_address read_int
interface_ip t = elim (break_at b'/' t) [
  | none ↦ ip_address t
  | some (l, r) ↦ checked_prefix (ip_address l) r
]

counter : Text → Result ℕ
unfolding read_int
counter [] = ok 0
counter (c ∷ t) = elim (read_int (c ∷ t)) [
  | none ↦ err value_error
  | some n ↦ elim n [ pos k ↦ ok k | negsuc k ↦ ok 0 ]
]

abbrev first_word : List Text → Text
first_word [] = []
first_word (w ∷ ws) = w

abbrev peer_info : (Text → Role) → Text → Text → ℕ → Address → PeerInfo
peer_info role key endpoint handshake a = record {
  key = key;
  ip = compressed a;
  role = role (compressed a);
  endpoint = if text_eq endpoint (text "(none)") then [] else endpoint;
  latest_handshake = handshake;
  lan_endpoint = [];
  instance_id = [];
  candidates = [];
}

abbrev add_peer :
    (Text → Role) → Text → Text → Text → Option Address → List PeerInfo → Result (List PeerInfo)
add_peer role key endpoint handshake none rest = ok rest
add_peer role key endpoint handshake (some a) rest =
    counter handshake >>= λ h. ok (peer_info role key endpoint h a ∷ rest)

-- A line with fewer than eight fields, or with no address, is skipped.
dump_line : (Text → Role) → List Text → List PeerInfo → Result (List PeerInfo)
unfolding counter interface_ip split_on strip compressed text_eq
dump_line role (key ∷ psk ∷ endpoint ∷ allowed_ips ∷ handshake ∷ rx ∷ tx ∷ keepalive ∷ more) rest =
    add_peer role key endpoint handshake
      (interface_ip (strip (first_word (split_on b',' allowed_ips)))) rest
dump_line role _ rest = ok rest

dump_lines : (Text → Role) → List Text → Result (List PeerInfo)
unfolding dump_line split_on
dump_lines role [] = ok []
dump_lines role (line ∷ lines) = do
  rest ← dump_lines role lines
  dump_line role (split_on b'\t' line) rest

abbrev behind_first : List Text → List Text
behind_first [] = []
behind_first (l ∷ ls) = ls

-- `wg_peers()`, over the output of `wg show wg0 dump`
unfoldable pub wg_peers : (Text → Role) → Text → Result (List PeerInfo)
unfolding dump_lines split_on
wg_peers role output = dump_lines role (behind_first (split_on b'\n' output))

unfoldable pub is_active : Text → List PeerInfo → Bool
unfolding text_eq
is_active ip [] = false
is_active ip (p ∷ ps) = text_eq p.ip ip || is_active ip ps

-- An announcement is dropped when its peer is gone or it is too old.
unfoldable pub prune_lan : ℕ → List PeerInfo → Dict LanEntry → Dict LanEntry
unfolding is_active
prune_lan now peers [] = []
prune_lan now peers ((ip, e) ∷ d) =
    let rest = prune_lan now peers d in
    if not (is_active ip peers) || older now e.seen (seconds announce_ttl)
    then rest
    else (ip, e) ∷ rest

unfoldable pub prune_nodes : ℕ → List PeerInfo → Dict NodeEntry → Dict NodeEntry
unfolding is_active
prune_nodes now peers [] = []
prune_nodes now peers ((ip, e) ∷ d) =
    let rest = prune_nodes now peers d in
    if not (is_active ip peers) || older now e.seen (seconds announce_ttl)
    then rest
    else (ip, e) ∷ rest

abbrev pub lan_text : Text → ℕ → Text
lan_text lan_ip port = lan_ip ++ b':' ∷ show port

abbrev pub to_group : Option Candidate → List Candidate
to_group none = []
to_group (some c) = c ∷ []

abbrev pub lan_of : Option Address → ℕ → List Candidate
lan_of none port = []
lan_of (some a) port = to_group (lan_candidate a port)

abbrev lan_group : Option LanEntry → List Candidate
lan_group none = []
lan_group (some e) = lan_of (ip_address e.lan_ip) e.listen_port

abbrev lan_endpoint_of : Option LanEntry → Text
lan_endpoint_of none = []
lan_endpoint_of (some e) = lan_text e.lan_ip e.listen_port

abbrev pub has_mapped4 : Candidate → Bool
has_mapped4 c = type_eq c.type mapped4

-- The candidates of a node: its LAN address, what it advertised, and what the coordinator sees.
unfoldable pub candidates_of : List Candidate → List Candidate → Text → List Candidate
unfolding any observed_candidate predicted_candidates merge_candidates
candidates_of legacy_lan stored endpoint = merge_candidates (
    legacy_lan
    ++ (stored
        ++ (to_group (observed_candidate endpoint)
            ++ (if any has_mapped4 stored then [] else predicted_candidates endpoint))))

abbrev stored_of : Option NodeEntry → List Candidate
stored_of none = []
stored_of (some e) = e.candidates

abbrev instance_of : ℕ → Option Session → Text
instance_of now none = []
instance_of now (some s) =
    if within now s.last_seen (seconds session_ttl) then s.instance_id else []

unfoldable pub describe : ℕ → Coordinator → PeerInfo → PeerInfo
unfolding candidates_of Dict.get lan_candidate ip_address show
describe now c p =
    let lan = Dict.get p.ip c.lan in
    record p {
      lan_endpoint = lan_endpoint_of lan;
      instance_id = instance_of now (Dict.get p.ip c.sessions);
      candidates = candidates_of (lan_group lan) (stored_of (Dict.get p.ip c.nodes)) p.endpoint;
    }

unfoldable pub describe_all : ℕ → Coordinator → List PeerInfo → List PeerInfo
unfolding describe
describe_all now c [] = []
describe_all now c (p ∷ ps) = describe now c p ∷ describe_all now c ps

unfoldable pub prune_all : ℕ → List PeerInfo → Coordinator → Coordinator
unfolding prune_lan prune_nodes
prune_all now peers c = record c {
  lan = prune_lan now peers c.lan;
  nodes = prune_nodes now peers c.nodes;
}

-- `peer_payload(peers)`
unfoldable pub peer_payload : ℕ → List PeerInfo → Coordinator → List PeerInfo × Coordinator
unfolding describe_all prune_all
peer_payload now peers c = let c' = prune_all now peers c in (describe_all now c' peers, c')
