-- ===== src/Coordinator/Expiry.antt =====
-- The end of sessions: `disconnect_client` and one round of `session_reaper` of
-- p2p/wireguard-p2p/vps/peers_api.py; `record_candidate` and `record_node_candidates`.
pub mod Reaped
use wireguard_p2p.Base.{
  ℕ, ◌+◌, ◌≡◌, refl, Bool, true, false, not, ◌&&◌, List, [], ◌∷◌, Option, none, some, ltb,
  if◌then◌else◌,
}
use wireguard_p2p.Base.Clock.{seconds, older}
use wireguard_p2p.Base.Dict
use wireguard_p2p.Base.Dict.{Dict}
use wireguard_p2p.Base.Text.{Text}
use wireguard_p2p.Candidates.{Candidate}
use wireguard_p2p.Coordinator.{
  Coordinator, Session, LanEntry, NodeEntry, session_ttl, RemoveReason, disconnect, expired,
}
use wireguard_p2p.Coordinator.Push.{push_remove}

unfoldable pub record_candidate : Text → Text → ℕ → ℕ → Coordinator → Coordinator
unfolding Dict.put
record_candidate overlay_ip lan_ip listen_port now c = record c {
  lan =
      Dict.put overlay_ip (record { lan_ip = lan_ip; listen_port = listen_port; seen = now }) c.lan;
}

unfoldable pub record_node_candidates : Text → List Candidate → ℕ → Coordinator → Coordinator
unfolding Dict.put
record_node_candidates overlay_ip candidates now c = record c {
  nodes = Dict.put overlay_ip (record { candidates = candidates; seen = now }) c.nodes;
}

-- `LAN_CANDIDATES.pop(ip, None); NODE_CANDIDATES.pop(ip, None)`
unfoldable pub forget_node : Text → Coordinator → Coordinator
unfolding Dict.remove
forget_node ip c = record c { lan = Dict.remove ip c.lan; nodes = Dict.remove ip c.nodes }

unfoldable pub forget_nodes : List Text → Coordinator → Coordinator
unfolding forget_node
forget_nodes [] c = c
forget_nodes (ip ∷ ips) c = forget_nodes ips (forget_node ip c)

-- With no session left, what the servers reported is dropped too.
unfoldable pub forget_servers : List Text → Coordinator → Coordinator
unfolding forget_nodes
forget_servers server_ips c = elim c.sessions [ [] ↦ forget_nodes server_ips c | e ∷ d ↦ c ]

unfoldable pub drop_session : Text → Coordinator → Coordinator
unfolding forget_node Dict.remove
drop_session ip c = forget_node ip (record c { sessions = Dict.remove ip c.sessions })

abbrev tell_removed :
    List Text → (Text → Bool) → ℕ → RemoveReason → Option Session → Coordinator → Coordinator
tell_removed server_ips answers now reason none c = c
tell_removed server_ips answers now reason (some s) c =
    push_remove server_ips answers now s reason c

-- `disconnect_client(client)`
unfoldable pub disconnect_client : List Text → (Text → Bool) → ℕ → Text → Coordinator → Coordinator
unfolding drop_session forget_servers push_remove Dict.get
disconnect_client server_ips answers now ip c =
    tell_removed server_ips answers now disconnect (Dict.get ip c.sessions)
      (forget_servers server_ips (drop_session ip c))

-- `now - last_seen > SESSION_TTL`
abbrev pub is_expired : ℕ → Session → Bool
is_expired now s = older now s.last_seen (seconds session_ttl)

-- The expired sessions, in the order of the table.
unfoldable pub expired_sessions : ℕ → Dict Session → Dict Session
expired_sessions now [] = []
expired_sessions now ((ip, s) ∷ d) =
    let rest = expired_sessions now d in if is_expired now s then (ip, s) ∷ rest else rest

unfoldable pub drop_sessions : Dict Session → Coordinator → Coordinator
unfolding drop_session
drop_sessions [] c = c
drop_sessions ((ip, s) ∷ d) c = drop_sessions d (drop_session ip c)

unfoldable pub tell_expired :
    List Text → (Text → Bool) → ℕ → Dict Session → Coordinator → Coordinator
unfolding push_remove
tell_expired server_ips answers now [] c = c
tell_expired server_ips answers now ((ip, s) ∷ d) c =
    tell_expired server_ips answers now d (push_remove server_ips answers now s expired c)

-- One round of `session_reaper()`
unfoldable pub session_reaper : List Text → (Text → Bool) → ℕ → Coordinator → Coordinator
unfolding expired_sessions drop_sessions forget_servers tell_expired
session_reaper server_ips answers now c =
    let gone = expired_sessions now c.sessions in
    tell_expired server_ips answers now gone (forget_servers server_ips (drop_sessions gone c))
