-- ===== src/Coordinator/Handler/Named.antt =====
-- The session that an answer of the coordinator (p2p/wireguard-p2p/vps/peers_api.py) names.
use wireguard_p2p.Base.{
  ℕ, ◌≡◌, ◌∙◌, sym, refl, Bool, true, false, List, [], ◌∷◌, Option, none, some, inl, inr,
  Bool-cases, Option-cases, subst,
}
use wireguard_p2p.Base.Dict
use wireguard_p2p.Base.Dict.{Dict}
use wireguard_p2p.Base.Text.{Text, text_eq, text_eq→eq, text_eq_refl, is_empty}
use wireguard_p2p.Json.{Json}
use wireguard_p2p.Result.{Result, ok, err, Result-cases}
use wireguard_p2p.Candidates.{Candidate}
use wireguard_p2p.Peers.{PeerInfo}
use wireguard_p2p.Coordinator.{Coordinator, Session}
use wireguard_p2p.Coordinator.Endpoint.{validate_candidates}
use wireguard_p2p.Coordinator.Payload.{peer_payload, prune_all, lan_text}
use wireguard_p2p.Coordinator.Expiry.{record_node_candidates}
use wireguard_p2p.Coordinator.Sessions.{with_instance, coordinate_client}
use wireguard_p2p.Coordinator.Sessions.Stable.{Undisturbed, coordinate_client-IsOpen}
use wireguard_p2p.Coordinator.Handler.{
  Post, PostPath, announce, sync, connect, disconnect_path, unknown, Response, refused, closed,
  announced, synced, status_of, post_path, find_source_peer, takes_part, Announcement,
  read_announcement, advertised, open_for, session_start, start_of, answer_session, answer_sync,
  admit_candidates, handle_announcement, handle_disconnect, handle_path, known_path, read_post,
  handle_source, handle_read, do_post,
}
use wireguard_p2p.Coordinator.Handler.Rejected.{found-ip, not_both}

-- The id and the start that an answer carries; the id is empty where it names no session.
abbrev pub session_of : Response → Text × Option ℕ
session_of (refused status) = ([], none)
session_of closed = ([], none)
session_of (announced session_id start) = (session_id, start)
session_of (synced peers session_id start) = (session_id, start)

-- The session of an address in the table has this id and began at this time.
pub record IsNamed (ip : Text) (c : Coordinator) (named : Text × Option ℕ) : Type 0 where
  pub session : Session
  pub found : Dict.get ip c.sessions ≡ some session
  pub same_id : session.session_id ≡ named.0
  pub began : named.1 ≡ some session.session_started_ns

abbrev Opened : Text → Coordinator → Text → Type 0
Opened ip c id =
    is_empty id ≡ false → (s : Session) × (Dict.get ip c.sessions ≡ some s) × (s.session_id ≡ id)

with_instance-ip : (i : Text) (p : PeerInfo) → (with_instance i p).ip ≡ p.ip
with_instance-ip [] p = refl
with_instance-ip (c ∷ i) p = refl

-- Other threads leave the session of this address alone while the request is handled.
pub record IsCalm (ip : Text) (r : Post) : Type 0 where
  pub pushing :
      (c : Coordinator) → Dict.get ip (r.answers.meanwhile c).sessions ≡ Dict.get ip c.sessions
  pub opened : (c : Coordinator) → Dict.get ip (r.after_session c).sessions ≡ Dict.get ip c.sessions
  pub told : (c : Coordinator) → Dict.get ip (r.after_peers c).sessions ≡ Dict.get ip c.sessions

-- A start is given only of the session in the table; and a session that no other thread touches is
-- named as it stands there.
abbrev Names : Post → Text → Coordinator → Response → Type 0
Names r ip c answer =
    ((start : ℕ) → (session_of answer).1 ≡ some start → IsNamed ip c (session_of answer))
    × (IsCalm ip r → is_empty (session_of answer).0 ≡ false → IsNamed ip c (session_of answer))

none-started : {start : ℕ} → none ≡ some start → ⊥
none-started h = cc

unnamed :
    (r : Post) (ip : Text) (c : Coordinator) (answer : Response)
    → session_of answer ≡ ([], none)
    → Names r ip c answer
unnamed r ip c answer e = (
  λ start h. absurd (none-started (rw e at h)),
  λ calm n. let none_named : is_empty [] ≡ false = rw e at n in absurd (not_both none_named),
)

-- What the last look at the table finds.
session_start-IsNamed :
    (ip id : Text) (c : Coordinator) (start : ℕ)
    → session_start ip id c ≡ some start
    → IsNamed ip c (id, session_start ip id c)
unfolding session_start start_of
session_start-IsNamed ip id c start h = elim (Bool-cases (is_empty id)) [
  | inl e ↦ absurd (none-started (rw e at h))
  | inr e ↦ elim (Option-cases (Dict.get ip c.sessions)) [
    | inl gone ↦ absurd (none-started (rw (e, gone) at h))
    | inr (s, found) ↦ elim (Bool-cases (text_eq s.session_id id)) [
      | inr other ↦ absurd (none-started (rw (e, found, other) at h))
      | inl same ↦ record {
        session = s;
        found = found;
        same_id = text_eq→eq s.session_id id same;
        began = rw (e, found, same) refl;
      }
    ]
  ]
]

open_for-Opened :
    (r : Post) (source : PeerInfo) (a : Announcement) (peers : List PeerInfo) (cs : List Candidate)
    (c : Coordinator)
    → IsCalm source.ip r
    → Opened source.ip (open_for r source a peers cs c).1 (open_for r source a peers cs c).0
unfolding open_for
open_for-Opened r source a peers cs c calm = elim (Bool-cases (takes_part source.role)) [
  | inr e ↦ rw (open_for, e) (λ n. absurd (not_both n))
  | inl e ↦
      let lan = lan_text a.lan_ip a.listen_port in
      let who = with_instance a.instance_id source in
      let same : who.ip ≡ source.ip = with_instance-ip a.instance_id source in
      let out = coordinate_client r.answers r.fresh who lan peers cs false a.instance_id c in
      let p =
        coordinate_client-IsOpen r.answers r.fresh lan peers cs false who a.instance_id c
          (subst (λ ip. Undisturbed ip r.answers) (sym same) calm.pushing) in
      rw (open_for, e)
        (λ n. (
          p.session,
          calm.opened out.1
              ∙ subst (λ ip. Dict.get ip out.1.sessions ≡ some p.session) same p.found,
          p.same_id,
        ))
]

session_start-began :
    (ip id : Text) (s : Session) (c : Coordinator)
    → is_empty id ≡ false
    → Dict.get ip c.sessions ≡ some s
    → s.session_id ≡ id
    → session_start ip id c ≡ some s.session_started_ns
unfolding session_start start_of
session_start-began ip id s c n found same = rw (n, found, same, text_eq_refl id) refl

answer-Names :
    (r : Post) (wants_peers : Bool) (source : PeerInfo) (peers : List PeerInfo) (id : Text)
    (c : Coordinator)
    → (IsCalm source.ip r → Opened source.ip c id)
    → Names r source.ip
        (answer_session r wants_peers source peers (id, c)).1
        (answer_session r wants_peers source peers (id, c)).0
unfolding answer_session answer_sync peer_payload prune_all
answer-Names r true source peers id c opened = (
  λ start h. session_start-IsNamed source.ip id _ start h,
  λ calm n.
      let (s, found, same) = opened calm n in
      let pruned = (peer_payload r.now peers c).1 in
      let kept : Dict.get source.ip (r.after_peers pruned).sessions ≡ some s =
        calm.told pruned ∙ found in
      let began : session_start source.ip id (r.after_peers pruned) ≡ some s.session_started_ns =
        session_start-began source.ip id s (r.after_peers pruned) n kept same in
      rw n (record { session = s; found = kept; same_id = same; began = rw n at began }),
)
answer-Names r false source peers id c opened = (
  λ start h. session_start-IsNamed source.ip id c start h,
  λ calm n.
      let (s, found, same) = opened calm n in
      record {
        session = s;
        found = found;
        same_id = same;
        began = session_start-began source.ip id s c n found same;
      },
)

module _ (r : Post) (source : PeerInfo) (peers : List PeerInfo) where
  abbrev NamesOwn : Response × Coordinator → Type 0
  NamesOwn out = Names r source.ip out.1 out.0

  admit-Names :
      (wants_peers : Bool) (a : Announcement) (c : Coordinator)
      → NamesOwn (admit_candidates r wants_peers source peers a c)
  unfolding admit_candidates
  admit-Names wants_peers a c = elim (Result-cases (validate_candidates false a.listed)) [
    | inr (e, failed) ↦
        rw (admit_candidates, failed) (unnamed r source.ip c (refused (status_of e)) refl)
    | inl (cs, read) ↦
        let told = advertised a cs in
        let noted = record_node_candidates source.ip told r.now c in
        rw (admit_candidates, read)
          (answer-Names r wants_peers source peers (open_for r source a peers told noted).0
            (open_for r source a peers told noted).1 (open_for-Opened r source a peers told noted))
  ]

  handle-Names :
      (wants_peers : Bool) (payload : Json) (c : Coordinator)
      → NamesOwn (handle_announcement r wants_peers source peers payload c)
  unfolding handle_announcement
  handle-Names wants_peers payload c = elim (Result-cases (read_announcement payload)) [
    | inr (e, failed) ↦
        rw (handle_announcement, failed) (unnamed r source.ip c (refused (status_of e)) refl)
    | inl (a, read) ↦ rw (handle_announcement, read) (admit-Names wants_peers a _)
  ]

  path-Names :
      (path : PostPath) (payload : Json) (c : Coordinator)
      → NamesOwn (handle_path r path source peers payload c)
  unfolding handle_path
  path-Names disconnect_path payload c =
      unfold handle_disconnect in unnamed r source.ip _ closed refl
  path-Names announce payload c = handle-Names false payload c
  path-Names sync payload c = handle-Names true payload c
  path-Names connect payload c = handle-Names true payload c
  path-Names unknown payload c = unnamed r source.ip c (refused 404) refl

source-Names :
    (r : Post) (path : PostPath) (found : Option PeerInfo) (peers : List PeerInfo) (payload : Json)
    (c : Coordinator)
    → find_source_peer r.client_address peers ≡ found
    → Names r r.client_address
        (handle_source r path found peers payload c).1
        (handle_source r path found peers payload c).0
unfolding handle_source
source-Names r path none peers payload c e = unnamed r r.client_address c (refused 403) refl
source-Names r path (some source) peers payload c e =
    subst
      (λ ip.
        Names r ip (handle_path r path source peers payload c).1
          (handle_path r path source peers payload c).0)
      (found-ip r.client_address peers source e) (path-Names r source peers path payload c)

read-Names :
    (r : Post) (path : PostPath) (read : Result (Json × List PeerInfo)) (c : Coordinator)
    → Names r r.client_address (handle_read r path read c).1 (handle_read r path read c).0
unfolding handle_read
read-Names r path (err e) c = unnamed r r.client_address c (refused (status_of e)) refl
read-Names r path (ok (payload, peers)) c =
    source-Names r path (find_source_peer r.client_address peers) peers payload c refl

do_post-Names :
    (r : Post) (c : Coordinator) → Names r r.client_address (do_post r c).1 (do_post r c).0
unfolding do_post
do_post-Names r c = elim (Bool-cases (known_path (post_path r.path))) [
  | inr e ↦ rw e (unnamed r r.client_address c (refused 404) refl)
  | inl e ↦ rw e (read-Names r (post_path r.path) (read_post r) c)
]

-- Whatever other threads do while the request is handled: an answer that gives the start of a session
-- names the session that the table holds for the sender's address by then, and gives its start.
pub do_post-started :
    (r : Post) (c : Coordinator) (start : ℕ)
    → (session_of (do_post r c).0).1 ≡ some start
    → IsNamed r.client_address (do_post r c).1 (session_of (do_post r c).0)
do_post-started r c = (do_post-Names r c).0

-- An answer that names a session names the one that the table holds for the sender's address after
-- the request, and gives its start. Condition: while the request is handled, at the three places
-- where other threads may run, they leave the session of this address alone, whatever else they do.
pub do_post-IsNamed :
    (r : Post) (c : Coordinator)
    → ((d : Coordinator)
        → Dict.get r.client_address (r.answers.meanwhile d).sessions
          ≡ Dict.get r.client_address d.sessions)
    → ((d : Coordinator)
        → Dict.get r.client_address (r.after_session d).sessions
          ≡ Dict.get r.client_address d.sessions)
    → ((d : Coordinator)
        → Dict.get r.client_address (r.after_peers d).sessions
          ≡ Dict.get r.client_address d.sessions)
    → is_empty (session_of (do_post r c).0).0 ≡ false
    → IsNamed r.client_address (do_post r c).1 (session_of (do_post r c).0)
do_post-IsNamed r c pushing opened told =
    (do_post-Names r c).1 (record { pushing = pushing; opened = opened; told = told })
