-- ===== src/Coordinator/Expiry/Reaped.antt =====
-- What one round of `session_reaper` of p2p/wireguard-p2p/vps/peers_api.py leaves of the sessions.
use wireguard_p2p.Base.{
  ℕ, ◌≡◌, ◌∙◌, refl, subst, Bool, false, List, [], ◌∷◌, none, some, arith, inl, inr, some-injective,
  Bool-cases,
}
use wireguard_p2p.Base.Dict
use wireguard_p2p.Base.Dict.{Dict, get-remove}
use wireguard_p2p.Base.Text.{Text, text_eq}
use wireguard_p2p.Coordinator.{Coordinator, Session}
use wireguard_p2p.Coordinator.Sessions.Stable.{push_remove-sessions}
use wireguard_p2p.Coordinator.Expiry.{
  is_expired, expired_sessions, drop_session, drop_sessions, forget_node, forget_nodes,
  forget_servers, tell_expired, session_reaper,
}

tell_expired-sessions :
    (ips : List Text) (answers : Text → Bool) (now : ℕ) (d : Dict Session) (c : Coordinator)
    → (tell_expired ips answers now d c).sessions ≡ c.sessions
unfolding tell_expired
tell_expired-sessions ips answers now [] c = refl
tell_expired-sessions ips answers now ((ip, s) ∷ d) c =
    tell_expired-sessions ips answers now d _ ∙ push_remove-sessions ips answers now s _ c

forget_nodes-sessions :
    (ips : List Text) (c : Coordinator) → (forget_nodes ips c).sessions ≡ c.sessions
unfolding forget_nodes forget_node
forget_nodes-sessions [] c = refl
forget_nodes-sessions (ip ∷ ips) c = forget_nodes-sessions ips _

forget_servers-sessions :
    (ips : List Text) (c : Coordinator) → (forget_servers ips c).sessions ≡ c.sessions
unfolding forget_servers
forget_servers-sessions ips c =
    elim c.sessions
      as (λ d.
        (elim d as (λ x. Coordinator) [ [] ↦ forget_nodes ips c | e ∷ d' ↦ c ]).sessions
        ≡ c.sessions) [ [] ↦ forget_nodes-sessions ips c | e ∷ d ↦ refl ]

abbrev remove_all : Dict Session → Dict Session → Dict Session
remove_all [] d = d
remove_all ((ip, s) ∷ gone) d = remove_all gone (Dict.remove ip d)

drop_sessions-sessions :
    (gone : Dict Session) (c : Coordinator)
    → (drop_sessions gone c).sessions ≡ remove_all gone c.sessions
unfolding drop_sessions drop_session forget_node
drop_sessions-sessions [] c = refl
drop_sessions-sessions ((ip, s) ∷ gone) c = drop_sessions-sessions gone _

remove_all-get :
    (gone d : Dict Session) (ip : Text) (s : Session)
    → Dict.get ip (remove_all gone d) ≡ some s
    → (Dict.get ip d ≡ some s) × (Dict.get ip gone ≡ none)
unfolding Dict.get
remove_all-get [] d ip s h = (h, refl)
remove_all-get ((j, t) ∷ gone) d ip s h =
    ground (arith, remove_all-get gone (Dict.remove j d) ip s h, get-remove ip j d)

some-none : {A : Type 0} (x : A) → some x ≡ none → ⊥
some-none x h = cc

expired-get :
    (now : ℕ) (d : Dict Session) (ip : Text) (s : Session)
    → Dict.get ip d ≡ some s
    → Dict.get ip (expired_sessions now d) ≡ none
    → is_expired now s ≡ false
unfolding Dict.get expired_sessions
expired-get now [] ip s h k = cc
expired-get now ((j, t) ∷ d) ip s h k = elim (Bool-cases (text_eq j ip)) [
  | inl e ↦ elim (Bool-cases (is_expired now t)) [
    | inl x ↦ absurd (some-none t (rw (x, e) at k))
    | inr x ↦ subst (λ u. is_expired now u ≡ false) (some-injective (rw e at h)) x
  ]
  | inr e ↦ elim (Bool-cases (is_expired now t)) [
    | inl x ↦ expired-get now d ip s (rw e at h) (rw (x, e) at k)
    | inr x ↦ expired-get now d ip s (rw e at h) (rw x at k)
  ]
]

-- A session that is left after a round of the reaper was there before, unchanged, and was seen
-- within the lifetime of sessions: no expired session stays.
pub session_reaper-left :
    (ips : List Text) (answers : Text → Bool) (now : ℕ) (c : Coordinator) (ip : Text) (s : Session)
    → Dict.get ip (session_reaper ips answers now c).sessions ≡ some s
    → (Dict.get ip c.sessions ≡ some s) × (is_expired now s ≡ false)
unfolding session_reaper
session_reaper-left ips answers now c ip s h =
    let (before, alive) =
      remove_all-get (expired_sessions now c.sessions) c.sessions ip s
        (rw (tell_expired-sessions, forget_servers-sessions, drop_sessions-sessions) at h) in
    (before, expired-get now c.sessions ip s before alive)
