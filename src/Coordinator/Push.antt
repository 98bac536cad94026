-- ===== src/Coordinator/Push.antt =====
-- What the coordinator sends to a server: `signed_post`, `offer_fingerprint`, `push_offer`,
-- `initiator_servers` and `push_remove` of p2p/wireguard-p2p/vps/peers_api.py.
pub mod Accepted
use wireguard_p2p.Base.{
  ℕ, ◌+◌, ◌/◌, ◌<◌, ◌≡◌, refl, Bool, true, false, not, ◌&&◌, ◌||◌, List, [], ◌∷◌, ◌++◌, Option,
  none, some, leb, ltb, if◌then◌else◌,
}
use wireguard_p2p.Base.Int.{ℤ, pos, negsuc}
use wireguard_p2p.Base.Text.{Text, text, text_eq, is_empty, join, upper, upper_char}
use wireguard_p2p.Base.Text.Decimal.{show}
use wireguard_p2p.Json.{Json, Fields, int, str, arr, nil, cons, obj, end, field}
use wireguard_p2p.Result.{Result, ok, err, runtime_error}
use wireguard_p2p.Ip.{Address, v4, v6, is_v4, is_private}
use wireguard_p2p.Ip.Read.{ip_address}
use wireguard_p2p.Candidates.{Candidate, type_name, family_name, to_json}
use wireguard_p2p.Candidates.Endpoint.{Parsed, is_private_v4}
use wireguard_p2p.Peers.{PeerInfo, Role, is_server}
use wireguard_p2p.Agent.Initiator.{json_list}
use wireguard_p2p.Agent.Notify.{Notification}
use wireguard_p2p.Coordinator.{
  Coordinator, Session, RemoveReason, disconnect, superseded, expired, Sent, sent_remove,
}
use wireguard_p2p.Coordinator.Endpoint.{parse_text, endpoint_ip, lan_candidate}
use wireguard_p2p.Coordinator.Payload.{candidates_of, to_group}
use wireguard_p2p.Coordinator.Registry.{record_push_result}

unfoldable pub signature_payload : Text → Text → Text → Text → Text → Text
unfolding join upper_char
signature_payload method path timestamp nonce body =
    join (10 ∷ []) (upper method ∷ path ∷ timestamp ∷ nonce ∷ body ∷ [])

-- The request of `signed_post(server_ip, path, payload)`, whose body is the encoded payload.
unfoldable pub signed_post : (Text → Text → Text) → Text → ℕ → Text → Text → Text → Notification
unfolding signature_payload show
signed_post hmac_hex notify_key now nonce path body =
    let timestamp = show (now / 1000000) in
    record {
      method = text "POST";
      path = path;
      timestamp = timestamp;
      nonce = nonce;
      signature = hmac_hex notify_key (signature_payload (text "POST") path timestamp nonce body);
      body = body;
    }

abbrev quoted : Text → Text
quoted t = b'"' ∷ (t ++ b'"' ∷ [])

show_int : ℤ → Text
unfolding show
show_int (pos n) = show n
show_int (negsuc n) = b'-' ∷ show (n + 1)

abbrev show_bool : Bool → Text
show_bool true = text "true"
show_bool false = text "false"

-- One candidate, as `json.dumps(..., separators=(",", ":"), sort_keys=True)` prints it.
dump_candidate : Candidate → Text
unfolding show_int join
dump_candidate c =
    b'{'
    ∷ (join (b',' ∷ []) (
          (quoted (text "endpoint") ++ b':' ∷ quoted c.endpoint)
          ∷ (quoted (text "family") ++ b':' ∷ quoted (family_name c.family))
          ∷ (quoted (text "priority") ++ b':' ∷ show_int c.priority)
          ∷ (quoted (text "type") ++ b':' ∷ quoted (type_name c.type))
          ∷ (quoted (text "verified") ++ b':' ∷ show_bool c.verified)
          ∷ [])
        ++ b'}' ∷ [])

dump_each : List Candidate → List Text
unfolding dump_candidate
dump_each [] = []
dump_each (c ∷ cs) = dump_candidate c ∷ dump_each cs

-- `offer_fingerprint(...)`
unfoldable pub offer_fingerprint : PeerInfo → Text → List Candidate → PeerInfo → Text → Text
unfolding dump_each join
offer_fingerprint client client_lan_endpoint client_candidates server session_id =
    join (b'|' ∷ []) (
      session_id
      ∷ client.key
      ∷ client.instance_id
      ∷ client.endpoint
      ∷ client_lan_endpoint
      ∷ (b'[' ∷ (join (b',' ∷ []) (dump_each client_candidates) ++ b']' ∷ []))
      ∷ server.key
      ∷ server.endpoint
      ∷ [])

abbrev lan_of : Option Parsed → List Candidate
lan_of none = []
lan_of (some p) = if is_private_v4 p.address then to_group (lan_candidate p.address p.port) else []

abbrev pub same_nat : PeerInfo → PeerInfo → Bool
same_nat server client = text_eq (endpoint_ip server.endpoint) (endpoint_ip client.endpoint)

-- The payload of `push_offer(...)`; RuntimeError where the client has no endpoint for this server.
unfoldable pub offer_payload :
    PeerInfo → PeerInfo → Text → List Candidate → Text → ℕ → ℕ → Result Json
unfolding endpoint_ip text_eq parse_text lan_candidate candidates_of to_json is_private
offer_payload server client client_lan_endpoint client_candidates session_id session_started_ns
      now =
    let near = same_nat server client in
    let candidate = if near then client_lan_endpoint else client.endpoint in
    if is_empty candidate
    then err runtime_error
    else ok (
        obj (
          field (text "protocol") (int (pos 7)) (
            field (text "session_id") (str session_id) (
              field (text "session_started_ns") (int (pos session_started_ns)) (
                field (text "peer_key") (str client.key) (
                  field (text "peer_ip") (str client.ip) (
                    field (text "peer_instance_id") (str client.instance_id) (
                      field (text "endpoint") (str candidate) (
                        field (text "endpoint_type") (str (if near then text "LAN" else text "WAN"))
                          (field (text "candidates")
                            (arr (
                              json_list (
                                candidates_of (lan_of (parse_text client_lan_endpoint))
                                  client_candidates client.endpoint)))
                            (field (text "lease_expires") (int (pos (now / 1000000 + 180)))
                              end)))))))))))

abbrev owns : Option Address → Option Address → Bool
owns (some (v4 l)) (some (v4 r)) = ltb l r
owns _ _ = false

unfoldable pub server_initiator_owns_pair : Text → Text → Bool
unfolding ip_address
server_initiator_owns_pair local_ip remote_ip = owns (ip_address local_ip) (ip_address remote_ip)

-- May this peer be offered the initiator?
unfoldable pub offers_to : PeerInfo → PeerInfo → Bool
unfolding text_eq server_initiator_owns_pair
offers_to initiator peer =
    is_server peer.role
    && not (is_empty peer.key || is_empty peer.ip)
    && not (text_eq peer.key initiator.key || text_eq peer.ip initiator.ip)
    && not (is_server initiator.role && not (server_initiator_owns_pair initiator.ip peer.ip))

-- `initiator_servers(initiator, peers)`
unfoldable pub initiator_servers : PeerInfo → List PeerInfo → List PeerInfo
unfolding offers_to
initiator_servers initiator [] = []
initiator_servers initiator (p ∷ ps) =
    let rest = initiator_servers initiator ps in if offers_to initiator p then p ∷ rest else rest

abbrev pub send_remove :
    Session → RemoveReason → (Text → Bool) → ℕ → Text → Coordinator → Coordinator
send_remove s reason answers now ip c =
    record_push_result ip (answers ip) now
      (record c { sent = sent_remove ip s.session_id reason ∷ c.sent })

-- The pushes of `push_remove`. `answers` says which servers answer positively.
unfoldable pub remove_each :
    Session → RemoveReason → (Text → Bool) → ℕ → List Text → Coordinator → Coordinator
unfolding record_push_result text_eq
remove_each s reason answers now [] c = c
remove_each s reason answers now (ip ∷ ips) c =
    remove_each s reason answers now ips
      (if text_eq ip s.ip then c else send_remove s reason answers now ip c)

-- `push_remove(session, reason)`
unfoldable pub push_remove :
    List Text → (Text → Bool) → ℕ → Session → RemoveReason → Coordinator → Coordinator
unfolding remove_each
push_remove server_ips answers now s reason c =
    if is_empty s.session_id then c else remove_each s reason answers now server_ips c
