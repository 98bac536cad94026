-- ===== src/Agent/Initiator.antt =====
-- The server that opens sessions to other servers: `eligible_initiator_server` and
-- `server_initiator_once` of p2p/wireguard-p2p/linux/p2p_agent.py.
pub mod Expected
use wireguard_p2p.Base.{
  ℕ, ◌+◌, ◌/◌, Bool, not, ◌&&◌, ◌||◌, List, [], ◌∷◌, Option, none, some, leb, ◌==◌, if◌then◌else◌,
}
use wireguard_p2p.Base.Clock.{seconds}
use wireguard_p2p.Base.Dict.{Dict}
use wireguard_p2p.Base.Int.{pos}
use wireguard_p2p.Base.Lists.{first}
use wireguard_p2p.Base.Text.{Text, text, text_eq, is_empty}
use wireguard_p2p.Json.{Json, Items, int, str, arr, obj, nil, cons, end, field}
use wireguard_p2p.Result.{Result}
use wireguard_p2p.Candidates.{Candidate, to_json}
use wireguard_p2p.Candidates.Endpoint.{same_private_subnet}
use wireguard_p2p.Peers.{PeerInfo, is_server}
use wireguard_p2p.Agent.{LocalPeer, initiator, initiator_online_max_age}
use wireguard_p2p.Agent.Monad.{Act, pure, lift, catch, ◌>>=◌, ◌>>◌}
use wireguard_p2p.Agent.Offer.{handle_offer}
use wireguard_p2p.Agent.Remove.{cleanup_initiator_states}
use wireguard_p2p.Agent.Validate.{endpoint_address, server_initiator_owns_pair}

unfoldable pub eligible_initiator_server : Text → ℕ → PeerInfo → Bool
unfolding server_initiator_owns_pair
eligible_initiator_server listen_address now peer =
    is_server peer.role
    && not (is_empty peer.key || is_empty peer.ip || is_empty peer.endpoint)
    && server_initiator_owns_pair listen_address peer.ip
    && not (peer.latest_handshake == 0)
    && leb now (seconds (peer.latest_handshake + initiator_online_max_age))

-- The answer of the coordinator to `/sync`.
pub record Sync : Type 0 where
  pub peers : List PeerInfo
  pub session_id : Text
  pub session_started_ns : ℕ

abbrev pub json_list : List Candidate → Items
json_list [] = nil
json_list (c ∷ cs) = cons (to_json c) (json_list cs)

-- Is the peer behind our own address, or in our own subnet?
unfoldable pub lan_ok : Text → Text → PeerInfo → Bool
unfolding endpoint_address same_private_subnet text_eq
lan_ok our_wan our_lan_ip peer =
    let peer_wan = endpoint_address (str peer.endpoint) in
    let same_nat = not (is_empty our_wan) && not (is_empty peer_wan) && text_eq our_wan peer_wan in
    not (is_empty peer.lan_endpoint)
    && (same_nat || same_private_subnet our_lan_ip (str peer.lan_endpoint) 24)

-- The offer that this server makes to itself for a peer.
unfoldable pub own_offer : Text → Text → Sync → ℕ → PeerInfo → Json
unfolding lan_ok to_json
own_offer our_wan our_lan_ip sync now peer =
    let lan = lan_ok our_wan our_lan_ip peer in
    obj (
      field (text "peer_key") (str peer.key) (
        field (text "peer_ip") (str peer.ip) (
          field (text "peer_instance_id") (str peer.instance_id) (
            field (text "session_id") (str sync.session_id) (
              field (text "session_started_ns") (int (pos sync.session_started_ns)) (
                field (text "endpoint") (str (if lan then peer.lan_endpoint else peer.endpoint)) (
                  field (text "endpoint_type") (str (if lan then text "LAN" else text "WAN")) (
                    field (text "candidates") (arr (json_list peer.candidates))
                      (field (text "lease_expires") (int (pos (now / 1000000 + 180))) end)))))))))

-- What the host answers in the course of one round; `dump` is `wg show` while a key is handled.
pub record Round : Type 0 where
  pub listen_address : Text
  pub now : ℕ
  pub lan_ip : Result Text
  pub dump : Text → Result (Dict LocalPeer)
  pub last_dump : Result (Dict LocalPeer)

unfoldable pub offer_to : Round → Text → Text → Sync → PeerInfo → Act Unit
unfolding ◌>>=◌ catch handle_offer own_offer
offer_to r our_wan our_lan_ip sync peer =
    catch
      (handle_offer initiator r.listen_address r.now r.lan_ip (r.dump peer.key)
          (own_offer our_wan our_lan_ip sync r.now peer)
        >>= λ _. pure tt)
      (pure tt)

-- One offer for each eligible peer; an offer that raises is logged. The answer: the keys offered to.
unfoldable pub offer_all : Round → Text → Text → Sync → List PeerInfo → Act (List Text)
unfolding ◌>>=◌ offer_to eligible_initiator_server
offer_all r our_wan our_lan_ip sync [] = pure []
offer_all r our_wan our_lan_ip sync (peer ∷ peers) = do
  let take = eligible_initiator_server r.listen_address r.now peer
  if take then offer_to r our_wan our_lan_ip sync peer else pure tt
  keys ← offer_all r our_wan our_lan_ip sync peers
  pure (if take then peer.key ∷ keys else keys)

unfoldable pub reconcile : Round → Sync → PeerInfo → Act Unit
unfolding ◌>>=◌ offer_all cleanup_initiator_states endpoint_address
reconcile r sync ours = do
  our_lan_ip ← lift r.lan_ip
  active ← offer_all r (endpoint_address (str ours.endpoint)) our_lan_ip sync sync.peers
  cleanup_initiator_states active r.last_dump

abbrev reconcile_as : Round → Sync → Option PeerInfo → Act Unit
reconcile_as r sync none = cleanup_initiator_states [] r.last_dump
reconcile_as r sync (some ours) =
    if not (is_server ours.role) || is_empty sync.session_id || sync.session_started_ns == 0
    then cleanup_initiator_states [] r.last_dump
    else reconcile r sync ours

-- `server_initiator_once()`
unfoldable pub server_initiator_once : Round → Result Sync → Act Unit
unfolding ◌>>=◌ cleanup_initiator_states reconcile first text_eq
server_initiator_once r answer = do
  sync ← lift answer
  reconcile_as r sync (first (λ p. text_eq p.ip r.listen_address) sync.peers)
