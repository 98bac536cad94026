-- ===== src/Tests/Initiators.antt =====
-- The theorem on rounds of the initiator, at a server with one other server.
use wireguard_p2p.Base.{◌≡◌, refl, true, not, ◌&&◌, [], ◌∷◌, none}
use wireguard_p2p.Base.Dict
use wireguard_p2p.Base.Lists.{any}
use wireguard_p2p.Base.Text.{Text, text, is_empty}
use wireguard_p2p.Result.{ok}
use wireguard_p2p.Candidates.Endpoint.{parse_text}
use wireguard_p2p.Candidates.Normalize.{normalize_probe_candidate}
use wireguard_p2p.Candidates.Select.{legacy_type}
use wireguard_p2p.Peers.{PeerInfo, server}
use wireguard_p2p.Agent.{Agent, initiator}
use wireguard_p2p.Agent.Initiator.{Round, Sync, server_initiator_once}
use wireguard_p2p.Agent.Initiator.Expected.{is_expected, server_initiator_once-expected}
use wireguard_p2p.Tests.Data.{agent, other_key, peer_state, seen4}

abbrev server_key : Text
server_key = text "AAAAAAAAAAAAAAAAAAAAAAAAAAAAAAAAAAAAAAAAAAA="

abbrev server_at : Text → Text → PeerInfo
server_at key ip = record {
  key = key;
  instance_id = [];
  ip = ip;
  endpoint = text "8.8.8.8:51820";
  role = server;
  latest_handshake = 990;
  lan_endpoint = [];
  candidates = seen4 ∷ [];
}

abbrev round : Round
round = record {
  listen_address = text "10.0.0.2";
  now = 1000000000;
  lan_ip = ok (text "192.168.1.2");
  dump = λ k. ok [];
  last_dump = ok [];
}

abbrev sync : Sync
sync = record {
  peers = server_at (text "own") (text "10.0.0.2") ∷ server_at server_key (text "10.0.0.7") ∷ [];
  session_id = text "01234567-89ab-4def-8123-456789abcdef";
  session_started_ns = 60;
}

-- An agent with a state that an earlier round opened for a server that is gone.
abbrev earlier : Agent
earlier = record agent { states = (other_key, record peer_state { controller = initiator }) ∷ [] }

-- The round removes that state and opens one for the other server.
round_replaces : Dict.get other_key (server_initiator_once round (ok sync) earlier).1.states ≡ none
unfolding server_initiator_once Dict.get normalize_probe_candidate parse_text legacy_type
round_replaces = refl

server_initiator_once-expected_example :
    (any (is_expected round server_key) sync.peers && not (is_empty sync.session_id)) ≡ true
unfolding server_initiator_once Dict.get normalize_probe_candidate parse_text legacy_type
server_initiator_once-expected_example =
    server_initiator_once-expected round sync earlier server_key refl refl
