-- ===== src/Tests/Data.antt =====
-- A small network: two peers of one agent, a coordinator, and one signed request.
use wireguard_p2p.Base.{ℕ, ◌++◌, Bool, true, false, [], ◌∷◌, none}
use wireguard_p2p.Base.Int.{pos}
use wireguard_p2p.Base.Text.{Text, text}
use wireguard_p2p.Json.{Json, null}
use wireguard_p2p.Result.{Result, ok}
use wireguard_p2p.Candidates.{Candidate, observed4, udp4}
use wireguard_p2p.Agent.{Agent, PeerState, LocalPeer, responder, probe}
use wireguard_p2p.Agent.Offer.Request.{Offer}
use wireguard_p2p.Agent.Remove.{Removal, Reason}
use wireguard_p2p.Peers.{PeerInfo, client}
use wireguard_p2p.Coordinator.{Coordinator}

abbrev pub peer_key : Text
peer_key = text "peer"

abbrev pub other_key : Text
other_key = text "other"

abbrev pub seen4 : Candidate
seen4 = record {
  type = observed4;
  family = udp4;
  endpoint = text "8.8.8.8:51820";
  priority = pos 700;
  verified = true;
}

-- A peer that was being probed by the worker with generation 3.
abbrev pub peer_state : PeerState
peer_state = record {
  controller = responder;
  session_id = text "s1";
  session_started_ns = 50;
  peer_instance_id = [];
  ip = text "10.0.0.7";
  mode = probe;
  endpoint = [];
  endpoint_type = none;
  selected_type = none;
  candidates = seen4 ∷ [];
  candidate_signature = [];
  started = 0;
  baseline_handshake = 0;
  failures = 0;
  retry_after = 0;
  generation = 3;
  worker_running = false;
  control_expired = false;
  lease_expires = 0;
  promoted = 0;
}

abbrev pub agent_with : (ℕ → Bool) → Agent
agent_with works = record {
  states = (peer_key, peer_state) ∷ (other_key, peer_state) ∷ [];
  last_generation = 5;
  issued = [];
  disk = [];
  launched = [];
  calls = 0;
  works = works;
}

abbrev pub agent : Agent
agent = agent_with (λ n. true)

-- `wg` and the disk always fail.
abbrev pub broken_agent : Agent
broken_agent = agent_with (λ n. false)

abbrev pub direct_peer : LocalPeer
direct_peer = record {
  endpoint = text "8.8.8.8:51820";
  allowed_ips = text "10.0.0.7/32" ∷ [];
  latest_handshake = 1000;
  keepalive = 25;
}

abbrev pub offer_of : Text → ℕ → Offer
offer_of session started = record {
  key = peer_key;
  peer_ip = text "10.0.0.7";
  session_id = session;
  session_started_ns = started;
  peer_instance_id = [];
  candidates = seen4 ∷ [];
  candidate_signature = text "observed4|8.8.8.8:51820";
  lease_expires = 1100000000;
}

-- A stand-in for the keyed hash, and one for the JSON decoder.
abbrev pub keyed : Text → Text → Text
keyed key t = key ++ t

abbrev pub decode : Text → Result Json
decode t = ok null

abbrev pub nonce : Text
nonce = text "0123456789ABCDEF0123456789abcdef"

abbrev pub canonical_nonce : Text
canonical_nonce = text "0123456789abcdef0123456789abcdef"

abbrev pub client_info : PeerInfo
client_info = record {
  key = text "client";
  instance_id = [];
  ip = text "10.0.0.9";
  endpoint = text "9.9.9.9:40000";
  role = client;
  latest_handshake = 0;
  lan_endpoint = [];
  candidates = [];
}

abbrev pub empty_coordinator : Coordinator
empty_coordinator = record { lan = []; nodes = []; sessions = []; push_status = []; sent = [] }

abbrev pub removal_of : Reason → Removal
removal_of reason = record {
  key = peer_key;
  peer_ip = text "10.0.0.7";
  session_id = text "s1";
  reason = reason;
}
