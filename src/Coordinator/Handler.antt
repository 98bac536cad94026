-- ===== src/Coordinator/Handler.antt =====
-- The HTTP handler of p2p/wireguard-p2p/vps/peers_api.py: `validate_instance_id`, `find_source_peer`,
-- `read_json`, `do_POST` and `do_GET`, up to the statuses and what the answers carry.
pub mod Bystander
pub mod Named
pub mod Rejected
use wireguard_p2p.Base.{
  ℕ, ◌+◌, Bool, true, false, not, ◌&&◌, ◌||◌, List, [], ◌∷◌, Option, none, some, leb, ltb, ◌==◌,
  if◌then◌else◌,
}
use wireguard_p2p.Base.Lists.{length}
use wireguard_p2p.Base.Dict
use wireguard_p2p.Base.Dict.{Dict}
use wireguard_p2p.Base.Int.{ℤ, pos, negsuc}
use wireguard_p2p.Base.Text.{Text, text, text_eq, is_empty}
use wireguard_p2p.Base.Text.Decimal.{read_int}
use wireguard_p2p.Json
use wireguard_p2p.Json.{Json, Fields, null, bool, int, str, arr, obj, nil}
use wireguard_p2p.Result.{
  Error, Result, ok, err, permission_error, value_error, key_error, type_error, runtime_error,
  os_error, struct_error, ◌>>=◌, ◌>>◌, guard, or_raise,
}
use wireguard_p2p.Ip.Read.{ip_address}
use wireguard_p2p.Candidates.{Candidate}
use wireguard_p2p.Peers.{PeerInfo, Role, relay_only, server, client}
use wireguard_p2p.Agent.Offer.Request.{instance_hex}
use wireguard_p2p.Coordinator.{Coordinator, Session, PushStatus}
use wireguard_p2p.Coordinator.Endpoint.{validate_candidates, lan_candidate}
use wireguard_p2p.Coordinator.Registry.{peer_role}
use wireguard_p2p.Coordinator.Payload.{wg_peers, peer_payload, lan_of, lan_text}
use wireguard_p2p.Coordinator.Sessions.{
  Answers, Fresh, validate_announcement, coordinate_client, with_instance,
}
use wireguard_p2p.Coordinator.Expiry.{record_candidate, record_node_candidates, disconnect_client}

abbrev pub max_request_size : ℕ
max_request_size = 16384

-- `validate_instance_id(value)`
unfoldable pub validate_instance_id : Json → Result Text
unfolding instance_hex
validate_instance_id null = ok []
validate_instance_id (str []) = ok []
validate_instance_id v = or_raise (instance_hex v) value_error

unfoldable pub find_source_peer : Text → List PeerInfo → Option PeerInfo
unfolding text_eq
find_source_peer source_ip [] = none
find_source_peer source_ip (p ∷ ps) =
    let rest = find_source_peer source_ip ps in if text_eq p.ip source_ip then some p else rest

-- The status of an exception that a handler met.
abbrev pub status_of : Error → ℕ
status_of key_error = 400
status_of type_error = 400
status_of value_error = 400
status_of permission_error = 503
status_of runtime_error = 503
status_of os_error = 503
status_of struct_error = 503

pub data PostPath : Type 0 where
  announce sync connect disconnect_path unknown : PostPath

unfoldable pub post_path : Text → PostPath
unfolding text_eq
post_path t =
    if text_eq t (text "/announce")
    then announce
    else if text_eq t (text "/sync")
    then sync
    else if text_eq t (text "/connect")
    then connect
    else if text_eq t (text "/disconnect")
    then disconnect_path
    else unknown

-- A request, and what the host answers while it is handled: the decoded body, the output of
-- `wg show wg0 dump`, the roles, the clock and the servers.
pub record Post : Type 0 where
  pub path : Text
  pub client_address : Text
  pub content_length : Text
  pub payload : Result Json
  pub dump : Result Text
  pub relay_only_ips : List Text
  pub now : ℕ
  pub fresh : Fresh
  pub answers : Answers
  -- what other threads do to the tables between `coordinate_client` and `peer_payload`, and between
  -- that and the last look at the session
  pub after_session : Coordinator → Coordinator
  pub after_peers : Coordinator → Coordinator

pub data Response : Type 0 where
  refused : ℕ → Response
  closed : Response
  -- the session's id, empty for none, and its start
  announced : Text → Option ℕ → Response
  synced : List PeerInfo → Text → Option ℕ → Response

abbrev pub Handled : Type 0
Handled = Response × Coordinator

abbrev size_ok : ℤ → Bool
size_ok (pos n) = leb 1 n && leb n max_request_size
size_ok (negsuc n) = false

-- `read_json()`
unfoldable pub read_json : Post → Result Json
unfolding read_int
read_json r = do
  size ← or_raise (read_int r.content_length) value_error
  guard (size_ok size) value_error
  r.payload

unfoldable pub peers_of : Post → Result (List PeerInfo)
unfolding wg_peers peer_role
peers_of r = r.dump >>= wg_peers (peer_role r.relay_only_ips r.answers.server_ips)

-- `source.get("role") in ("client", "server")`
abbrev pub takes_part : Role → Bool
takes_part relay_only = false
takes_part server = true
takes_part client = true

abbrev fields_of : Json → Result Fields
fields_of (obj fs) = ok fs
fields_of null = err type_error
fields_of (bool b) = err type_error
fields_of (int n) = err type_error
fields_of (str t) = err type_error
fields_of (arr vs) = err type_error

pub record Announcement : Type 0 where
  pub lan_ip : Text
  pub listen_port : ℕ
  pub instance_id : Text
  pub listed : Json

unfoldable pub read_announcement : Json → Result Announcement
unfolding validate_announcement validate_instance_id Json.get
read_announcement payload = do
  fs ← fields_of payload
  (lan_ip, listen_port) ← validate_announcement fs
  instance_id ← validate_instance_id (Json.get (text "instance_id") (str []) fs)
  ok (record {
    lan_ip = lan_ip;
    listen_port = listen_port;
    instance_id = instance_id;
    listed = Json.get (text "candidates") (arr nil) fs;
  })

-- What the node is recorded with where it lists no candidates.
unfoldable pub advertised : Announcement → List Candidate → List Candidate
unfolding ip_address lan_candidate
advertised a [] = lan_of (ip_address a.lan_ip) a.listen_port
advertised a (c ∷ cs) = c ∷ cs

-- The start of the session that the answer names, where it is still the one in the table.
abbrev pub start_of : Text → Option Session → Option ℕ
unfolding text_eq
start_of session_id none = none
start_of session_id (some s) =
    if text_eq s.session_id session_id then some s.session_started_ns else none

abbrev pub session_start : Text → Text → Coordinator → Option ℕ
unfolding text_eq Dict.get
session_start ip session_id c =
    if is_empty session_id then none else start_of session_id (Dict.get ip c.sessions)

abbrev pub then_others : (Coordinator → Coordinator) → Text × Coordinator → Text × Coordinator
then_others others (session_id, c) = (session_id, others c)

-- The session of a client or server, under the empty id for none.
unfoldable pub open_for :
    Post
    → PeerInfo
    → Announcement
    → List PeerInfo
    → List Candidate
    → Coordinator
    → Text × Coordinator
unfolding coordinate_client
open_for r source a peers cs c =
    if takes_part source.role
    then then_others r.after_session (
        coordinate_client r.answers r.fresh (with_instance a.instance_id source)
          (lan_text a.lan_ip a.listen_port) peers cs false a.instance_id c)
    else ([], c)

abbrev pub answer_sync : Post → PeerInfo → List PeerInfo → Text → Coordinator → Handled
unfolding peer_payload session_start
answer_sync r source peers session_id c =
    let (described, pruned) = peer_payload r.now peers c in
    let changed = if is_empty session_id then pruned else r.after_peers pruned in
    (synced described session_id (session_start source.ip session_id changed), changed)

-- `wants_peers`: the path is `/sync` or `/connect`.
abbrev pub answer_session : Post → Bool → PeerInfo → List PeerInfo → Text × Coordinator → Handled
unfolding peer_payload session_start
answer_session r true source peers (session_id, c) = answer_sync r source peers session_id c
answer_session r false source peers (session_id, c) =
    (announced session_id (session_start source.ip session_id c), c)

-- From the candidates on: what is recorded before they are read stays recorded.
unfoldable pub admit_candidates :
    Post → Bool → PeerInfo → List PeerInfo → Announcement → Coordinator → Handled
unfolding validate_candidates advertised record_node_candidates open_for peer_payload session_start
admit_candidates r wants_peers source peers a c = elim (validate_candidates false a.listed) [
  | err e ↦ (refused (status_of e), c)
  | ok cs ↦
      let told = advertised a cs in
      answer_session r wants_peers source peers
        (open_for r source a peers told (record_node_candidates source.ip told r.now c))
]

unfoldable pub handle_announcement :
    Post → Bool → PeerInfo → List PeerInfo → Json → Coordinator → Handled
unfolding read_announcement record_candidate admit_candidates
handle_announcement r wants_peers source peers payload c = elim (read_announcement payload) [
  | err e ↦ (refused (status_of e), c)
  | ok a ↦
      admit_candidates r wants_peers source peers a
        (record_candidate source.ip a.lan_ip a.listen_port r.now c)
]

unfoldable pub handle_disconnect : Post → PeerInfo → Coordinator → Handled
unfolding disconnect_client
handle_disconnect r source c = (
  closed,
  if takes_part source.role
      then disconnect_client r.answers.server_ips r.answers.removes r.now source.ip c
      else c,
)

abbrev pub handle_path : Post → PostPath → PeerInfo → List PeerInfo → Json → Coordinator → Handled
unfolding handle_announcement handle_disconnect
handle_path r disconnect_path source peers payload c = handle_disconnect r source c
handle_path r announce source peers payload c = handle_announcement r false source peers payload c
handle_path r sync source peers payload c = handle_announcement r true source peers payload c
handle_path r connect source peers payload c = handle_announcement r true source peers payload c
handle_path r unknown source peers payload c = (refused 404, c)

abbrev pub known_path : PostPath → Bool
known_path announce = true
known_path sync = true
known_path connect = true
known_path disconnect_path = true
known_path unknown = false

-- Body and peers, in the order in which they are read.
unfoldable pub read_post : Post → Result (Json × List PeerInfo)
unfolding read_json peers_of
read_post r = do payload ← read_json r; peers ← peers_of r; ok (payload, peers)

abbrev pub handle_source :
    Post → PostPath → Option PeerInfo → List PeerInfo → Json → Coordinator → Handled
unfolding handle_path
handle_source r path none peers payload c = (refused 403, c)
handle_source r path (some source) peers payload c = handle_path r path source peers payload c

abbrev pub handle_read : Post → PostPath → Result (Json × List PeerInfo) → Coordinator → Handled
unfolding handle_source find_source_peer
handle_read r path (err e) c = (refused (status_of e), c)
handle_read r path (ok (payload, peers)) c =
    handle_source r path (find_source_peer r.client_address peers) peers payload c

-- `do_POST`
unfoldable pub do_post : Post → Coordinator → Handled
unfolding post_path read_post handle_read
do_post r c =
    if known_path (post_path r.path)
    then handle_read r (post_path r.path) (read_post r) c
    else (refused 404, c)
