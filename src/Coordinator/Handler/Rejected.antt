-- ===== src/Coordinator/Handler/Rejected.antt =====
-- Requests that the coordinator (p2p/wireguard-p2p/vps/peers_api.py) refuses.
use wireguard_p2p.Base.{
  ℕ, ◌≡◌, refl, sym, ap, ◌∙◌, Bool, true, false, List, [], ◌∷◌, Option, none, some, inl, inr,
  Bool-cases, some-injective,
}
use wireguard_p2p.Base.Dict
use wireguard_p2p.Base.Dict.{Dict, get-put}
use wireguard_p2p.Base.Text.{Text, text_eq, text_eq→eq}
use wireguard_p2p.Json.{Json}
use wireguard_p2p.Result.{Result, ok, err, Result-cases}
use wireguard_p2p.Peers.{PeerInfo}
use wireguard_p2p.Coordinator.{Coordinator}
use wireguard_p2p.Coordinator.Endpoint.{validate_candidates}
use wireguard_p2p.Coordinator.Expiry.{record_candidate}
use wireguard_p2p.Coordinator.Handler.{
  Post, PostPath, announce, sync, connect, disconnect_path, unknown, Response, refused, closed,
  announced, synced, post_path, find_source_peer, Announcement, read_announcement, answer_session,
  answer_sync, admit_candidates, handle_announcement, handle_disconnect, handle_path, known_path,
  read_post, handle_source, handle_read, do_post,
}

abbrev pub is_refused : Response → Bool
is_refused (refused status) = true
is_refused closed = false
is_refused (announced session_id start) = false
is_refused (synced peers session_id start) = false

-- All but the LAN entry of one address is the same.
pub record IsSpared (ip : Text) (c d : Coordinator) : Type 0 where
  pub sessions : d.sessions ≡ c.sessions
  pub push_status : d.push_status ≡ c.push_status
  pub sent : d.sent ≡ c.sent
  pub nodes : d.nodes ≡ c.nodes
  pub lan : Dict.get ip d.lan ≡ Dict.get ip c.lan

pub not_both : true ≡ false → ⊥
not_both h = cc

spared : (ip : Text) (c : Coordinator) → IsSpared ip c c
spared ip c = record { sessions = refl; push_status = refl; sent = refl; nodes = refl; lan = refl }

pub found-ip :
    (source_ip : Text) (peers : List PeerInfo) (p : PeerInfo)
    → find_source_peer source_ip peers ≡ some p
    → p.ip ≡ source_ip
unfolding find_source_peer
found-ip source_ip [] p e = cc
found-ip source_ip (q ∷ qs) p e = elim (Bool-cases (text_eq q.ip source_ip)) [
  | inl hit ↦
      let same : q ≡ p = some-injective (rw hit at e) in
      ap (λ u. u.ip) (sym same) ∙ text_eq→eq q.ip source_ip hit
  | inr miss ↦ found-ip source_ip qs p (rw miss at e)
]

answered-false :
    (r : Post) (wants_peers : Bool) (source : PeerInfo) (peers : List PeerInfo) (session_id : Text)
    (c : Coordinator)
    → is_refused (answer_session r wants_peers source peers (session_id, c)).0 ≡ false
unfolding answer_session answer_sync
answered-false r true source peers session_id c = refl
answered-false r false source peers session_id c = refl

recorded :
    (client ip : Text) (source : PeerInfo) (lan_ip : Text) (port now : ℕ) (c : Coordinator)
    → source.ip ≡ client
    → text_eq client ip ≡ false
    → IsSpared ip c (record_candidate source.ip lan_ip port now c)
unfolding record_candidate
recorded client ip source lan_ip port now c own other = record {
  sessions = refl;
  push_status = refl;
  sent = refl;
  nodes = refl;
  lan = get-put ip source.ip _ c.lan ∙ rw (own, other) refl;
}

module _ (r : Post) (ip : Text) (source : PeerInfo) (peers : List PeerInfo)
    (own : source.ip ≡ r.client_address) (other : text_eq r.client_address ip ≡ false) where
  admit-IsSpared :
      (wants_peers : Bool) (a : Announcement) (c d : Coordinator)
      → is_refused (admit_candidates r wants_peers source peers a d).0 ≡ true
      → IsSpared ip c d
      → IsSpared ip c (admit_candidates r wants_peers source peers a d).1
  unfolding admit_candidates
  admit-IsSpared wants_peers a c d h s = elim (Result-cases (validate_candidates false a.listed)) [
    | inr (e, failed) ↦ rw (admit_candidates, failed) s
    | inl (cs, read) ↦
        let no : true ≡ false =
          sym (rw (admit_candidates, read) at h) ∙ answered-false r wants_peers source peers _ _ in
        absurd (not_both no)
  ]

  handle-IsSpared :
      (wants_peers : Bool) (payload : Json) (c : Coordinator)
      → is_refused (handle_announcement r wants_peers source peers payload c).0 ≡ true
      → IsSpared ip c (handle_announcement r wants_peers source peers payload c).1
  unfolding handle_announcement
  handle-IsSpared wants_peers payload c h = elim (Result-cases (read_announcement payload)) [
    | inr (e, failed) ↦ rw (handle_announcement, failed) (spared ip c)
    | inl (a, read) ↦
        rw (handle_announcement, read)
          (admit-IsSpared wants_peers a c _ (rw (handle_announcement, read) at h)
            (recorded r.client_address ip source a.lan_ip a.listen_port r.now c own other))
  ]

  path-IsSpared :
      (path : PostPath) (payload : Json) (c : Coordinator)
      → is_refused (handle_path r path source peers payload c).0 ≡ true
      → IsSpared ip c (handle_path r path source peers payload c).1
  unfolding handle_path
  path-IsSpared disconnect_path payload c h = unfold handle_disconnect in absurd (not_both (sym h))
  path-IsSpared announce payload c h = handle-IsSpared false payload c h
  path-IsSpared sync payload c h = handle-IsSpared true payload c h
  path-IsSpared connect payload c h = handle-IsSpared true payload c h
  path-IsSpared unknown payload c h = spared ip c

source-IsSpared :
    (r : Post) (ip : Text) (path : PostPath) (found : Option PeerInfo) (peers : List PeerInfo)
    (payload : Json) (c : Coordinator)
    → find_source_peer r.client_address peers ≡ found
    → text_eq r.client_address ip ≡ false
    → is_refused (handle_source r path found peers payload c).0 ≡ true
    → IsSpared ip c (handle_source r path found peers payload c).1
unfolding handle_source
source-IsSpared r ip path none peers payload c e other h = spared ip c
source-IsSpared r ip path (some source) peers payload c e other h =
    path-IsSpared r ip source peers (found-ip r.client_address peers source e) other path payload c
      h

read-IsSpared :
    (r : Post) (ip : Text) (path : PostPath) (read : Result (Json × List PeerInfo))
    (c : Coordinator)
    → text_eq r.client_address ip ≡ false
    → is_refused (handle_read r path read c).0 ≡ true
    → IsSpared ip c (handle_read r path read c).1
unfolding handle_read
read-IsSpared r ip path (err e) c other h = spared ip c
read-IsSpared r ip path (ok (payload, peers)) c other h =
    source-IsSpared r ip path (find_source_peer r.client_address peers) peers payload c refl other h

-- A request that is answered with an error, whatever it is and wherever the error arises, leaves the
-- sessions, the push results, what is sent to servers and all advertised candidates as they were; of
-- the LAN addresses it can have changed that of its own sender at most.
pub do_post-rejected :
    (r : Post) (ip : Text) (c : Coordinator)
    → text_eq r.client_address ip ≡ false
    → is_refused (do_post r c).0 ≡ true
    → IsSpared ip c (do_post r c).1
unfolding do_post
do_post-rejected r ip c other h = elim (Bool-cases (known_path (post_path r.path))) [
  | inr e ↦ rw e (spared ip c)
  | inl e ↦ rw e (read-IsSpared r ip (post_path r.path) (read_post r) c other (rw e at h))
]
