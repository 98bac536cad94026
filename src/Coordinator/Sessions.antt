-- ===== src/Coordinator/Sessions.antt =====
-- `coordinate_client` of p2p/wireguard-p2p/vps/peers_api.py: the session of a client, and the
-- offers to its servers.
pub mod Stable
use wireguard_p2p.Base.{
  ℕ, ◌+◌, ◌≡◌, refl, Bool, true, false, not, ◌&&◌, ◌||◌, List, [], ◌∷◌, ◌++◌, Option, none, some,
  leb, ◌==◌, if◌then◌else◌,
}
use wireguard_p2p.Base.Clock.{seconds}
use wireguard_p2p.Base.Dict
use wireguard_p2p.Base.Dict.{Dict}
use wireguard_p2p.Base.Int.{ℤ, pos, negsuc}
use wireguard_p2p.Base.Text.{Text, text, text_eq, or_text, is_empty}
use wireguard_p2p.Json
use wireguard_p2p.Json.{Json, Fields, null, bool, arr, nil, to_int, truthy}
use wireguard_p2p.Result.{Result, ok, err, value_error, ◌>>=◌, ◌>>◌, guard, or_raise, to_option}
use wireguard_p2p.Ip.{Address, is_private}
use wireguard_p2p.Ip.Print.{compressed}
use wireguard_p2p.Candidates.{Candidate}
use wireguard_p2p.Candidates.Endpoint.{is_private_v4, port_in_range}
use wireguard_p2p.Peers.{PeerInfo}
use wireguard_p2p.Agent.Validate.{require, ip_of_json}
use wireguard_p2p.Coordinator.{
  Coordinator, Session, LanEntry, NodeEntry, RemoveReason, superseded, Sent, sent_offer,
  offer_refresh,
}
use wireguard_p2p.Coordinator.Endpoint.{validate_candidates}
use wireguard_p2p.Coordinator.Push.{
  offer_fingerprint, offer_payload, initiator_servers, push_remove,
}
use wireguard_p2p.Coordinator.Registry.{record_push_result}

-- `validate_announcement(data)`
unfoldable pub validate_announcement : Fields → Result (Text × ℕ)
unfolding require ip_of_json to_int compressed is_private
validate_announcement fs = do
  a ← ip_of_json (← require (text "lan_ip") fs)
  n ← to_int (← require (text "listen_port") fs)
  guard (is_private_v4 a) value_error
  port ← or_raise (port_in_range n) value_error
  ok (compressed a, port)

-- The fresh values that a call may use.
pub record Fresh : Type 0 where
  pub now : ℕ
  pub now_ns : ℕ
  pub session_id : Text

-- Does the client need a new session?
unfoldable pub is_new_session : PeerInfo → Text → Option Session → Bool
unfolding text_eq
is_new_session client instance_id none = true
is_new_session client instance_id (some s) =
    not (text_eq s.key client.key)
    || not (is_empty instance_id) && not (text_eq s.instance_id instance_id)

abbrev pub new_session : PeerInfo → Text → List Candidate → Fresh → Session
new_session client instance_id candidates f = record {
  session_id = f.session_id;
  session_started_ns = f.now_ns;
  key = client.key;
  ip = client.ip;
  instance_id = instance_id;
  last_seen = f.now;
  last_push = [];
  fingerprints = [];
  server_info = [];
  candidates = candidates;
}

abbrev pub touched : PeerInfo → Text → List Candidate → Fresh → Session → Session
touched client instance_id candidates f s = record s {
  session_id = or_text s.session_id f.session_id;
  session_started_ns = if s.session_started_ns == 0 then f.now_ns else s.session_started_ns;
  key = client.key;
  instance_id = or_text instance_id s.instance_id;
  last_seen = f.now;
  candidates = candidates;
}

-- The session that the call works on, by what the table holds.
unfoldable pub chosen_session : PeerInfo → Text → List Candidate → Fresh → Option Session → Session
unfolding is_new_session
chosen_session client instance_id candidates f none = new_session client instance_id candidates f
chosen_session client instance_id candidates f (some s) =
    if is_new_session client instance_id (some s)
    then new_session client instance_id candidates f
    else touched client instance_id candidates f s

-- The first block under STATE_LOCK: the chosen session stands in the table.
unfoldable pub open_session :
    PeerInfo → Text → List Candidate → Fresh → Coordinator → Session × Coordinator
unfolding chosen_session Dict.get Dict.put
open_session client instance_id candidates f c =
    let s = chosen_session client instance_id candidates f (Dict.get client.ip c.sessions) in
    (s, record c { sessions = Dict.put client.ip s c.sessions })

-- What the other hosts answer in the course of a call.
pub record Answers : Type 0 where
  pub server_ips : List Text
  pub removes : Text → Bool
  pub offers : Text → Result Fields
  -- what other threads do to the tables during the pushes, when the lock is free
  pub meanwhile : Coordinator → Coordinator

abbrev pub drop_stale : Answers → ℕ → Bool → Option Session → Coordinator → Coordinator
drop_stale h now true (some s) c = push_remove h.server_ips h.removes now s superseded c
drop_stale h now true none c = c
drop_stale h now false s c = c

abbrev last_push_of : Text → Dict ℕ → ℕ
last_push_of ip d = elim (Dict.get ip d) [ none ↦ 0 | some t ↦ t ]

abbrev same_print : Option Text → Text → Bool
same_print none f = false
same_print (some t) f = text_eq t f

-- Must this server be pushed an offer now?
unfoldable pub push_due : Bool → ℕ → Session → Text → Text → Bool
unfolding Dict.get text_eq
push_due force now s server_ip fingerprint =
    force
    || not (same_print (Dict.get server_ip s.fingerprints) fingerprint)
    || leb (last_push_of server_ip s.last_push + seconds offer_refresh) now

-- The servers to be pushed, each with the fingerprint of its offer.
unfoldable pub pending :
    PeerInfo → Text → List Candidate → Bool → ℕ → Session → List PeerInfo → List (PeerInfo × Text)
unfolding push_due offer_fingerprint
pending client lan_endpoint candidates force now s [] = []
pending client lan_endpoint candidates force now s (server ∷ servers) =
    let rest = pending client lan_endpoint candidates force now s servers in
    let fingerprint = offer_fingerprint client lan_endpoint candidates server s.session_id in
    if push_due force now s server.ip fingerprint then (server, fingerprint) ∷ rest else rest

-- A pushed offer's result: the answer of the server, where the payload could be built and the
-- answer is positive.
unfoldable pub push_offer :
    Answers → PeerInfo → Text → List Candidate → Session → ℕ → PeerInfo → Option Fields
unfolding offer_payload truthy Json.get
push_offer h client lan_endpoint candidates s now server =
    elim (offer_payload server client lan_endpoint candidates s.session_id s.session_started_ns now
      >>= λ _. h.offers server.ip) [
        | ok info ↦ if truthy (Json.get (text "ok") null info) then some info else none
        | err e ↦ none
      ]

pub record Pushed : Type 0 where
  pub server_ip : Text
  pub fingerprint : Text
  pub info : Fields

abbrev add_pushed : PeerInfo → Text → Option Fields → List Pushed → List Pushed
add_pushed server fingerprint none rest = rest
add_pushed server fingerprint (some info) rest =
    record { server_ip = server.ip; fingerprint = fingerprint; info = info } ∷ rest

abbrev is_good : Option Fields → Bool
is_good none = false
is_good (some info) = true

-- Nothing is sent where the payload cannot be built.
abbrev pub note_sent : Result Json → PeerInfo → Session → Coordinator → Coordinator
note_sent (err e) server s c = c
note_sent (ok payload) server s c = record c { sent = sent_offer server.ip s.session_id ∷ c.sent }

-- The pushes in the order of `pending`, with their results on the status table.
unfoldable pub push_all :
    Answers
    → PeerInfo
    → Text
    → List Candidate
    → Session
    → ℕ
    → List (PeerInfo × Text)
    → Coordinator
    → List Pushed × Coordinator
unfolding push_offer record_push_result offer_payload
push_all h client lan_endpoint candidates s now [] c = ([], c)
push_all h client lan_endpoint candidates s now ((server, fingerprint) ∷ rest) c =
    let r = push_offer h client lan_endpoint candidates s now server in
    let payload =
      offer_payload server client lan_endpoint candidates s.session_id s.session_started_ns now in
    let (done, c') =
      push_all h client lan_endpoint candidates s now rest
        (record_push_result server.ip (is_good r) now (note_sent payload server s c)) in
    (add_pushed server fingerprint r done, c')

abbrev pub note_push : ℕ → Pushed → Session → Session
note_push now p s = record s {
  last_push = Dict.put p.server_ip now s.last_push;
  fingerprints = Dict.put p.server_ip p.fingerprint s.fingerprints;
  server_info = Dict.put p.server_ip p.info s.server_info;
}

abbrev store_lan : ℕ → Text → Result (Text × ℕ) → Dict LanEntry → Dict LanEntry
store_lan now ip (err e) d = d
store_lan now ip (ok (lan_ip, port)) d =
    Dict.put ip (record { lan_ip = lan_ip; listen_port = port; seen = now }) d

abbrev store_node : ℕ → Text → Result (List Candidate) → Dict NodeEntry → Dict NodeEntry
store_node now ip (err e) d = d
store_node now ip (ok cs) d = Dict.put ip (record { candidates = cs; seen = now }) d

abbrev pub note_tables : ℕ → Pushed → Coordinator → Coordinator
note_tables now p c = record c {
  lan = store_lan now p.server_ip (validate_announcement p.info) c.lan;
  nodes =
      store_node now p.server_ip
        (validate_candidates false (Json.get (text "candidates") (arr nil) p.info)) c.nodes;
}

unfoldable pub note_pushes : ℕ → List Pushed → Session → Session
unfolding Dict.put
note_pushes now [] s = s
note_pushes now (p ∷ ps) s = note_pushes now ps (note_push now p s)

unfoldable pub note_answers : ℕ → List Pushed → Coordinator → Coordinator
unfolding Dict.put validate_announcement validate_candidates Json.get
note_answers now [] c = c
note_answers now (p ∷ ps) c = note_answers now ps (note_tables now p c)

-- The last block: the results are noted, unless the session was replaced meanwhile.
unfoldable pub close_pushes :
    Text → Text → ℕ → List Pushed → Option Session → Coordinator → Coordinator
unfolding note_pushes note_answers Dict.put text_eq
close_pushes ip session_id now pushed none c = c
close_pushes ip session_id now pushed (some s) c =
    if text_eq s.session_id session_id
    then note_answers now pushed (record c {
      sessions = Dict.put ip (note_pushes now pushed (record s { last_seen = now })) c.sessions;
    })
    else c

abbrev pub with_instance : Text → PeerInfo → PeerInfo
with_instance [] client = client
with_instance (i ∷ is_) client = record client { instance_id = i ∷ is_ }

-- From the pushes on: the session `s` stands in the table, and may be gone when they are done.
unfoldable pub push_session :
    Answers
    → Fresh
    → Text
    → PeerInfo
    → Text
    → List PeerInfo
    → List Candidate
    → Bool
    → Session
    → Coordinator
    → Text × Coordinator
unfolding pending push_all close_pushes initiator_servers Dict.get
push_session h f ip who lan_endpoint peers candidates force s c =
    let due = pending who lan_endpoint candidates force f.now s (initiator_servers who peers) in
    let (pushed, told) = push_all h who lan_endpoint candidates s f.now due c in
    let changed = h.meanwhile told in
    (s.session_id, close_pushes ip s.session_id f.now pushed (Dict.get ip changed.sessions) changed)

-- The whole of `coordinate_client(...)`.
unfoldable pub coordinate_client :
    Answers
    → Fresh
    → PeerInfo
    → Text
    → List PeerInfo
    → List Candidate
    → Bool
    → Text
    → Coordinator
    → Text × Coordinator
unfolding open_session is_new_session push_remove push_session Dict.get
coordinate_client h f client lan_endpoint peers candidates force instance_id c =
    let who = with_instance instance_id client in
    let existing = Dict.get client.ip c.sessions in
    let (s, opened) = open_session who instance_id candidates f c in
    push_session h f client.ip who lan_endpoint peers candidates force s
      (drop_stale h f.now (is_new_session who instance_id existing) existing opened)
