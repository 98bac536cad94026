-- ===== src/Coordinator/Handler/Bystander.antt =====
-- Requests to the coordinator (p2p/wireguard-p2p/vps/peers_api.py) that must not change its sessions.
use wireguard_p2p.Base.{
  ◌≡◌, refl, Bool, true, false, List, [], Option, none, some, inl, inr, Bool-cases,
}
use wireguard_p2p.Json.{Json}
use wireguard_p2p.Result.{ok, Result-cases}
use wireguard_p2p.Peers.{PeerInfo}
use wireguard_p2p.Coordinator.{Coordinator}
use wireguard_p2p.Coordinator.Endpoint.{validate_candidates}
use wireguard_p2p.Coordinator.Payload.{peer_payload, prune_all}
use wireguard_p2p.Coordinator.Expiry.{record_candidate, record_node_candidates}
use wireguard_p2p.Coordinator.Handler.{
  Post, PostPath, announce, sync, connect, disconnect_path, unknown, post_path, find_source_peer,
  takes_part, Announcement, read_announcement, advertised, open_for, answer_sync, answer_session,
  admit_candidates, handle_announcement, handle_disconnect, handle_path, known_path, read_post,
  handle_source, handle_read, do_post,
}

-- What the sessions and the pushes leave behind.
pub record IsUntouched (c d : Coordinator) : Type 0 where
  pub sessions : d.sessions ≡ c.sessions
  pub push_status : d.push_status ≡ c.push_status
  pub sent : d.sent ≡ c.sent

untouched : (c : Coordinator) → IsUntouched c c
untouched c = record { sessions = refl; push_status = refl; sent = refl }

abbrev pub has_part : Option PeerInfo → Bool
has_part none = false
has_part (some source) = takes_part source.role

answer_session-IsUntouched :
    (r : Post) (wants_peers : Bool) (source : PeerInfo) (peers : List PeerInfo) (c d : Coordinator)
    → IsUntouched c d
    → IsUntouched c (answer_session r wants_peers source peers ([], d)).1
unfolding answer_session answer_sync peer_payload prune_all
answer_session-IsUntouched r true source peers c d u = record {
  sessions = u.sessions;
  push_status = u.push_status;
  sent = u.sent;
}
answer_session-IsUntouched r false source peers c d u = u

module _ (r : Post) (wants_peers : Bool) (source : PeerInfo) (peers : List PeerInfo)
    (idle : takes_part source.role ≡ false) where
  admit-IsUntouched :
      (a : Announcement) (c d : Coordinator)
      → IsUntouched c d
      → IsUntouched c (admit_candidates r wants_peers source peers a d).1
  unfolding admit_candidates open_for record_node_candidates
  admit-IsUntouched a c d u = elim (Result-cases (validate_candidates false a.listed)) [
    | inr (e, failed) ↦ rw (admit_candidates, failed) u
    | inl (cs, read) ↦
        rw (admit_candidates, read, open_for, idle)
          (answer_session-IsUntouched r wants_peers source peers c
            (record_node_candidates source.ip (advertised a cs) r.now d)
            (record { sessions = u.sessions; push_status = u.push_status; sent = u.sent }))
  ]

  handle-IsUntouched :
      (payload : Json) (c : Coordinator)
      → IsUntouched c (handle_announcement r wants_peers source peers payload c).1
  unfolding handle_announcement record_candidate
  handle-IsUntouched payload c = elim (Result-cases (read_announcement payload)) [
    | inr (e, failed) ↦ rw (handle_announcement, failed) (untouched c)
    | inl (a, read) ↦
        rw (handle_announcement, read)
          (admit-IsUntouched a c _ (record { sessions = refl; push_status = refl; sent = refl }))
  ]

path-IsUntouched :
    (r : Post) (path : PostPath) (source : PeerInfo) (peers : List PeerInfo) (payload : Json)
    (c : Coordinator)
    → takes_part source.role ≡ false
    → IsUntouched c (handle_path r path source peers payload c).1
unfolding handle_path
path-IsUntouched r disconnect_path source peers payload c idle =
    unfold handle_disconnect in rw idle (untouched c)
path-IsUntouched r announce source peers payload c idle =
    handle-IsUntouched r false source peers idle payload c
path-IsUntouched r sync source peers payload c idle =
    handle-IsUntouched r true source peers idle payload c
path-IsUntouched r connect source peers payload c idle =
    handle-IsUntouched r true source peers idle payload c
path-IsUntouched r unknown source peers payload c idle = untouched c

source-IsUntouched :
    (r : Post) (path : PostPath) (found : Option PeerInfo) (peers : List PeerInfo) (payload : Json)
    (c : Coordinator)
    → has_part found ≡ false
    → IsUntouched c (handle_source r path found peers payload c).1
unfolding handle_source
source-IsUntouched r path none peers payload c idle = untouched c
source-IsUntouched r path (some source) peers payload c idle =
    path-IsUntouched r path source peers payload c idle

-- A request leaves the sessions, the push results and what is sent to servers as they were, whatever
-- it asks for, if its sender is not a peer of the interface, or is one whose role is neither client
-- nor server.
pub do_post-bystander :
    (r : Post) (c : Coordinator) (payload : Json) (peers : List PeerInfo)
    → read_post r ≡ ok (payload, peers)
    → has_part (find_source_peer r.client_address peers) ≡ false
    → IsUntouched c (do_post r c).1
unfolding do_post handle_read
do_post-bystander r c payload peers read idle = elim (Bool-cases (known_path (post_path r.path))) [
  | inr e ↦ rw e (untouched c)
  | inl e ↦
      rw (e, read)
        (source-IsUntouched r (post_path r.path) (find_source_peer r.client_address peers) peers
          payload c idle)
]
