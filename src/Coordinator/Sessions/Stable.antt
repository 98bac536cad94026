-- ===== src/Coordinator/Sessions/Stable.antt =====
-- The session of a client in `coordinate_client` of p2p/wireguard-p2p/vps/peers_api.py, from one
-- call to the next.
use wireguard_p2p.Base.{
  ℕ, ◌≡◌, ◌∙◌, refl, sym, ap, Bool, true, false, List, [], ◌∷◌, Option, none, some, inl, inr,
  Bool-cases, if◌then◌else◌, some-injective,
}
use wireguard_p2p.Base.Dict
use wireguard_p2p.Base.Dict.{Dict, get-put_self}
use wireguard_p2p.Base.Text.{Text, text_eq, or_text, is_empty}
use wireguard_p2p.Json.{Json}
use wireguard_p2p.Result.{Result, ok, err}
use wireguard_p2p.Candidates.{Candidate}
use wireguard_p2p.Peers.{PeerInfo}
use wireguard_p2p.Coordinator.{Coordinator, Session, RemoveReason}
use wireguard_p2p.Coordinator.Push.{
  remove_each, push_remove, send_remove, initiator_servers, offer_payload,
}
use wireguard_p2p.Coordinator.Registry.{record_push_result}
use wireguard_p2p.Coordinator.Sessions.{
  Fresh, Answers, Pushed, is_new_session, new_session, touched, chosen_session, open_session,
  drop_stale, pending, note_sent, push_all, note_push, note_pushes, note_answers, close_pushes,
  push_session, with_instance, coordinate_client,
}

told-sessions :
    (s : Session) (r : RemoveReason) (answers : Text → Bool) (now : ℕ) (ip : Text) (c : Coordinator)
    (b : Bool)
    → (if b then c else send_remove s r answers now ip c).sessions ≡ c.sessions
unfolding record_push_result
told-sessions s r answers now ip c true = refl
told-sessions s r answers now ip c false = refl

remove_each-sessions :
    (s : Session) (r : RemoveReason) (answers : Text → Bool) (now : ℕ) (ips : List Text)
    (c : Coordinator)
    → (remove_each s r answers now ips c).sessions ≡ c.sessions
unfolding remove_each record_push_result
remove_each-sessions s r answers now [] c = refl
remove_each-sessions s r answers now (ip ∷ ips) c =
    remove_each-sessions s r answers now ips _
    ∙ told-sessions s r answers now ip c (text_eq ip s.ip)

pub push_remove-sessions :
    (ips : List Text) (answers : Text → Bool) (now : ℕ) (s : Session) (r : RemoveReason)
    (c : Coordinator)
    → (push_remove ips answers now s r c).sessions ≡ c.sessions
unfolding push_remove
push_remove-sessions ips answers now s r c = elim (Bool-cases (is_empty s.session_id)) [
  | inl e ↦ rw e refl
  | inr e ↦ rw e (remove_each-sessions s r answers now ips c)
]

drop_stale-sessions :
    (h : Answers) (now : ℕ) (b : Bool) (s : Option Session) (c : Coordinator)
    → (drop_stale h now b s c).sessions ≡ c.sessions
drop_stale-sessions h now true (some s) c = push_remove-sessions h.server_ips h.removes now s _ c
drop_stale-sessions h now true none c = refl
drop_stale-sessions h now false s c = refl

sent-sessions :
    (payload : Result Json) (server : PeerInfo) (s : Session) (c : Coordinator)
    → (note_sent payload server s c).sessions ≡ c.sessions
sent-sessions (err e) server s c = refl
sent-sessions (ok payload) server s c = refl

push_all-sessions :
    (h : Answers) (client : PeerInfo) (lan : Text) (cs : List Candidate) (s : Session) (now : ℕ)
    (due : List (PeerInfo × Text)) (c : Coordinator)
    → (push_all h client lan cs s now due c).1.sessions ≡ c.sessions
unfolding push_all record_push_result
push_all-sessions h client lan cs s now [] c = refl
push_all-sessions h client lan cs s now ((server, f) ∷ due) c =
    push_all-sessions h client lan cs s now due _
    ∙ sent-sessions (offer_payload server client lan cs s.session_id s.session_started_ns now)
        server s c

-- Other threads leave the session of this address alone during the pushes; whatever else they do.
abbrev pub Undisturbed : Text → Answers → Type 0
Undisturbed ip h = (c : Coordinator) → Dict.get ip (h.meanwhile c).sessions ≡ Dict.get ip c.sessions

-- What one call leaves to the next: the session of this client, under this id.
pub record IsOpen (key ip instance_id id : Text) (o : Option Session) : Type 0 where
  pub session : Session
  pub found : o ≡ some session
  pub same_id : session.session_id ≡ id
  pub same_key : session.key ≡ key
  pub same_instance : is_empty instance_id ≡ false → session.instance_id ≡ instance_id

-- Only the id, the key and the instance count.
seen-IsOpen :
    {key ip i id : Text} (s t : Session)
    → IsOpen key ip i id (some s)
    → t.session_id ≡ s.session_id
    → t.key ≡ s.key
    → t.instance_id ≡ s.instance_id
    → IsOpen key ip i id (some t)
seen-IsOpen s t p a b c =
    let same : p.session ≡ s = some-injective (sym p.found) in
    record {
      session = t;
      found = refl;
      same_id = a ∙ (ap (λ u. u.session_id) (sym same) ∙ p.same_id);
      same_key = b ∙ (ap (λ u. u.key) (sym same) ∙ p.same_key);
      same_instance = λ n. c ∙ (ap (λ u. u.instance_id) (sym same) ∙ p.same_instance n);
    }

note_pushes-IsOpen :
    (key ip i id : Text) (now : ℕ) (ps : List Pushed) (s : Session)
    → IsOpen key ip i id (some s)
    → IsOpen key ip i id (some (note_pushes now ps s))
unfolding note_pushes
note_pushes-IsOpen key ip i id now [] s p = p
note_pushes-IsOpen key ip i id now (q ∷ ps) s p =
    note_pushes-IsOpen key ip i id now ps (note_push now q s)
      (seen-IsOpen s (note_push now q s) p refl refl refl)

note_answers-sessions :
    (now : ℕ) (ps : List Pushed) (c : Coordinator) → (note_answers now ps c).sessions ≡ c.sessions
unfolding note_answers
note_answers-sessions now [] c = refl
note_answers-sessions now (p ∷ ps) c = note_answers-sessions now ps _

close_pushes-IsOpen :
    (key ip i id : Text) (now : ℕ) (ps : List Pushed) (s : Session) (c : Coordinator)
    → IsOpen key ip i id (some s)
    → Dict.get ip c.sessions ≡ some s
    → IsOpen key ip i id (Dict.get ip (close_pushes ip id now ps (some s) c).sessions)
unfolding close_pushes
close_pushes-IsOpen key ip i id now ps s c p g = elim (Bool-cases (text_eq s.session_id id)) [
  | inl e ↦
      rw (e, note_answers-sessions, get-put_self)
        (note_pushes-IsOpen key ip i id now ps (record s { last_seen = now })
          (seen-IsOpen s _ p refl refl refl))
  | inr e ↦ rw (e, g) p
]

or_text-left : (t d : Text) → is_empty t ≡ false → or_text t d ≡ t
or_text-left [] d h = cc
or_text-left (x ∷ t) d h = refl

chosen-IsOpen :
    (who : PeerInfo) (ip i : Text) (cs : List Candidate) (f : Fresh) (o : Option Session)
    → IsOpen who.key ip i
        (chosen_session who i cs f o).session_id
        (some (chosen_session who i cs f o))
unfolding chosen_session
chosen-IsOpen who ip i cs f none = record {
  session = _;
  found = refl;
  same_id = refl;
  same_key = refl;
  same_instance = λ n. refl;
}
chosen-IsOpen who ip i cs f (some s) = elim (Bool-cases (is_new_session who i (some s))) [
  | inl e ↦ rw e (record {
    session = new_session who i cs f;
    found = refl;
    same_id = refl;
    same_key = refl;
    same_instance = λ n. refl;
  })
  | inr e ↦ rw e (record {
    session = touched who i cs f s;
    found = refl;
    same_id = refl;
    same_key = refl;
    same_instance = λ n. or_text-left i s.instance_id n;
  })
]

closed-IsOpen :
    (key ip i : Text) (now : ℕ) (ps : List Pushed) (s : Session) (told : Coordinator)
    → Dict.get ip told.sessions ≡ some s
    → IsOpen key ip i s.session_id (some s)
    → IsOpen key ip i s.session_id (
        Dict.get ip (close_pushes ip s.session_id now ps (Dict.get ip told.sessions) told).sessions)
closed-IsOpen key ip i now ps s told g p =
    rw g (close_pushes-IsOpen key ip i s.session_id now ps s told p g)

module _ (h : Answers) (f : Fresh) (lan : Text) (peers : List PeerInfo) (cs : List Candidate)
    (force : Bool) where
  push_session-IsOpen :
      (key ip i : Text) (who : PeerInfo) (s : Session) (c cleaned : Coordinator)
      → cleaned.sessions ≡ Dict.put ip s c.sessions
      → Undisturbed ip h
      → IsOpen key ip i s.session_id (some s)
      → IsOpen key ip i
          (push_session h f ip who lan peers cs force s cleaned).0
          (Dict.get ip (push_session h f ip who lan peers cs force s cleaned).1.sessions)
  unfolding push_session
  push_session-IsOpen key ip i who s c cleaned e quiet p =
      let due = pending who lan cs force f.now s (initiator_servers who peers) in
      let r = push_all h who lan cs s f.now due cleaned in
      closed-IsOpen key ip i f.now r.0 s (h.meanwhile r.1)
        (quiet r.1
          ∙ rw (push_all-sessions h who lan cs s f.now due cleaned ∙ e)
              (get-put_self ip s c.sessions))
        p

  module _ (client : PeerInfo) where
    pub coordinate_client-IsOpen :
        (i : Text) (c : Coordinator)
        → Undisturbed client.ip h
        → IsOpen client.key client.ip i
            (coordinate_client h f client lan peers cs force i c).0
            (Dict.get client.ip (coordinate_client h f client lan peers cs force i c).1.sessions)
    unfolding coordinate_client open_session
    coordinate_client-IsOpen [] c quiet =
        let old = Dict.get client.ip c.sessions in
        let opened = (open_session client [] cs f c).1 in
        let fresh = is_new_session client [] old in
        push_session-IsOpen client.key client.ip [] client (chosen_session client [] cs f old) c
          (drop_stale h f.now fresh old opened) (drop_stale-sessions h f.now fresh old opened) quiet
          (chosen-IsOpen client client.ip [] cs f old)
    coordinate_client-IsOpen (x ∷ i) c quiet =
        let who = with_instance (x ∷ i) client in
        let old = Dict.get client.ip c.sessions in
        let opened = (open_session who (x ∷ i) cs f c).1 in
        let fresh = is_new_session who (x ∷ i) old in
        push_session-IsOpen client.key client.ip (x ∷ i) who (chosen_session who (x ∷ i) cs f old) c
          (drop_stale h f.now fresh old opened) (drop_stale-sessions h f.now fresh old opened) quiet
          (chosen-IsOpen who client.ip (x ∷ i) cs f old)
