-- ===== src/Agent/Session.antt =====
-- The kernel's peers as `wg show` prints them, and the shape of a peer's state: `local_wg_peers`,
-- `direct_peer_healthy` and `new_peer_state` of p2p/wireguard-p2p/linux/p2p_agent.py.
use wireguard_p2p.Base.{
  ℕ, ◌+◌, Bool, false, not, ◌&&◌, List, [], ◌∷◌, ◌++◌, Option, none, some, leb, ◌==◌, if◌then◌else◌,
}
use wireguard_p2p.Base.Clock.{seconds}
use wireguard_p2p.Base.Dict
use wireguard_p2p.Base.Dict.{Dict}
use wireguard_p2p.Base.Int.{pos, negsuc}
use wireguard_p2p.Base.Lists.{any}
use wireguard_p2p.Base.Text.{Text, text, text_eq, split_on, is_empty}
use wireguard_p2p.Base.Text.Decimal.{read_int}
use wireguard_p2p.Result.{Result, ok, err, value_error, ◌>>=◌}
use wireguard_p2p.Agent.{PeerState, LocalPeer, Controller, idle, direct_max_age}

-- `int(field or 0)`; the counters of `wg` are never negative.
counter : Text → Result ℕ
unfolding read_int
counter [] = ok 0
counter (c ∷ t) = elim (read_int (c ∷ t)) [
  | none ↦ err value_error
  | some n ↦ elim n [ pos k ↦ ok k | negsuc k ↦ ok 0 ]
]

abbrev none_text : Text
none_text = text "(none)"

abbrev peer_fields : Text → Text → ℕ → ℕ → LocalPeer
peer_fields endpoint allowed_ips handshake keepalive = record {
  endpoint = if text_eq endpoint none_text then [] else endpoint;
  allowed_ips = if text_eq allowed_ips none_text then [] else split_on b',' allowed_ips;
  latest_handshake = handshake;
  keepalive = keepalive;
}

-- A line with fewer than eight fields is skipped.
dump_line : List Text → Dict LocalPeer → Result (Dict LocalPeer)
unfolding counter Dict.put text_eq split_on
dump_line (key ∷ psk ∷ endpoint ∷ allowed_ips ∷ handshake ∷ rx ∷ tx ∷ keepalive ∷ more) peers = do
  h ← counter handshake
  k ← counter keepalive
  ok (Dict.put key (peer_fields endpoint allowed_ips h k) peers)
dump_line _ peers = ok peers

dump_lines : List Text → Dict LocalPeer → Result (Dict LocalPeer)
unfolding dump_line split_on
dump_lines [] peers = ok peers
dump_lines (line ∷ lines) peers = do
  found ← dump_line (split_on b'\t' line) peers
  dump_lines lines found

abbrev behind_first : List Text → List Text
behind_first [] = []
behind_first (l ∷ ls) = ls

-- `local_wg_peers()`, over the output of `wg show INTERFACE dump`.
unfoldable pub local_wg_peers : Text → Result (Dict LocalPeer)
unfolding dump_lines split_on
local_wg_peers output = dump_lines (behind_first (split_on b'\n' output)) []

-- `latest and now - latest <= DIRECT_MAX_AGE`
abbrev pub fresh_handshake : ℕ → ℕ → Bool
fresh_handshake now latest = not (latest == 0) && leb now (seconds (latest + direct_max_age))

-- `peer_ip + "/32" in local["allowed_ips"]`
unfoldable pub routes_peer : LocalPeer → Text → Bool
unfolding any text_eq
routes_peer local peer_ip = any (text_eq (peer_ip ++ text "/32")) local.allowed_ips

unfoldable pub direct_peer_healthy : Option LocalPeer → Text → ℕ → Bool
unfolding routes_peer
direct_peer_healthy none peer_ip now = false
direct_peer_healthy (some local) peer_ip now =
    not (is_empty peer_ip)
    && routes_peer local peer_ip
    && fresh_handshake now local.latest_handshake

-- `bool(local and peer_ip + "/32" in local.get("allowed_ips", []))`
abbrev pub is_direct : Option LocalPeer → Text → Bool
is_direct none peer_ip = false
is_direct (some local) peer_ip = routes_peer local peer_ip

abbrev pub endpoint_of : Option LocalPeer → Text
endpoint_of none = []
endpoint_of (some local) = local.endpoint

abbrev pub handshake_of : Option LocalPeer → ℕ
handshake_of none = 0
handshake_of (some local) = local.latest_handshake

-- `new_peer_state(...)`; its last argument is the generation.
unfoldable pub new_peer_state : Text → Text → ℕ → Controller → Text → ℕ → PeerState
new_peer_state peer_ip session_id session_started_ns controller peer_instance_id generation =
    record {
      controller = controller;
      session_id = session_id;
      session_started_ns = session_started_ns;
      peer_instance_id = peer_instance_id;
      ip = peer_ip;
      mode = idle;
      endpoint = [];
      endpoint_type = none;
      selected_type = none;
      candidates = [];
      candidate_signature = [];
      started = 0;
      baseline_handshake = 0;
      failures = 0;
      retry_after = 0;
      generation = generation;
      worker_running = false;
      control_expired = false;
      lease_expires = 0;
      promoted = 0;
    }
