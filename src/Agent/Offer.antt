-- ===== src/Agent/Offer.antt =====
-- `handle_offer` of p2p/wireguard-p2p/linux/p2p_agent.py: the checks of the request, then the part
-- under `STATE_LOCK`, block by block.
pub mod Request
pub mod Quiet
use wireguard_p2p.Base.{
  ℕ, ◌+◌, ◌≡◌, refl, Bool, true, false, not, ◌&&◌, ◌||◌, List, [], ◌∷◌, ◌++◌, Option, none, some,
  leb, ◌==◌, if◌then◌else◌, is_some,
}
use wireguard_p2p.Base.Dict.{Dict}
use wireguard_p2p.Base.Dict
use wireguard_p2p.Base.Text.{Text, text_eq, or_text, is_empty}
use wireguard_p2p.Json.{Json}
use wireguard_p2p.Result.{Result, ok, err, value_error}
use wireguard_p2p.Candidates.{CandidateType, Candidate}
use wireguard_p2p.Candidates.Select.{
  candidate_type_for_endpoint, candidate_endpoint_exists, observed_type_for_endpoint,
}
use wireguard_p2p.Agent.{
  Agent, PeerState, LocalPeer, Controller, Mode, idle, probe, direct, wg_remove, probe_thread,
}
use wireguard_p2p.Agent.Monad.{
  Act, pure, raise, lift, ◌>>=◌, ◌>>◌, when, state_of, update, bump, assign, wg_set, save_state,
  launch,
}
use wireguard_p2p.Agent.Session.{
  direct_peer_healthy, is_direct, endpoint_of, handshake_of, fresh_handshake, new_peer_state,
}
use Request.{Offer, read_offer}

-- A delayed session is ignored before it can replace state; within one session the start is fixed.
unfoldable pub is_stale : Offer → Option PeerState → Result Bool
unfolding text_eq
is_stale o none = ok false
is_stale o (some s) =
    if not (text_eq s.session_id o.session_id)
    then ok (not (s.session_started_ns == 0) && leb o.session_started_ns s.session_started_ns)
    else if not (s.session_started_ns == 0) && not (s.session_started_ns == o.session_started_ns)
    then err value_error
    else ok false

abbrev pub instance_changed : Offer → PeerState → Bool
instance_changed o s =
    not (is_empty o.peer_instance_id) && not (text_eq s.peer_instance_id o.peer_instance_id)

-- `if local: wg_set("peer", key, "remove")`
abbrev pub drop_local : Text → Option LocalPeer → Act Unit
drop_local key local = when (is_some local) (wg_set (wg_remove key))

abbrev pub stop_running : PeerState → PeerState
stop_running s = record s { worker_running = false }

abbrev pub go_direct : Text → PeerState → PeerState
go_direct endpoint s = record s {
  mode = direct;
  endpoint = endpoint;
  failures = 0;
  retry_after = 0;
}

abbrev fresh_state : Controller → Offer → ℕ → PeerState
fresh_state controller o =
    new_peer_state o.peer_ip o.session_id o.session_started_ns controller o.peer_instance_id

-- A restarted peer: its state, worker and kernel peer are dropped.
unfoldable pub restart_instance : Controller → Offer → Option LocalPeer → Act (Option LocalPeer)
unfolding ◌>>=◌ new_peer_state update bump assign wg_set
restart_instance controller o local = do
  bump o.key
  update o.key stop_running
  drop_local o.key local
  assign o.key (fresh_state controller o)
  pure none

unfoldable pub replace_session : Controller → Offer → Option LocalPeer → Act (Option LocalPeer)
unfolding ◌>>=◌ new_peer_state assign wg_set
replace_session controller o local = do
  drop_local o.key local
  assign o.key (fresh_state controller o)
  pure none

unfoldable pub preserve_direct : Offer → Option LocalPeer → Act (Option LocalPeer)
unfolding ◌>>=◌ update
preserve_direct o local = do update o.key (go_direct (endpoint_of local)); pure local

-- A new session of the same instance: a healthy direct path outlives it.
unfoldable pub renew_session : Controller → Offer → ℕ → Option LocalPeer → Act (Option LocalPeer)
unfolding ◌>>=◌ direct_peer_healthy update bump preserve_direct replace_session
renew_session controller o now local = do
  bump o.key
  update o.key stop_running
  if direct_peer_healthy local o.peer_ip now
      then preserve_direct o local
      else replace_session controller o local

-- Make `STATES[key]` a state of the offered session. What is left of the kernel's peer comes back.
unfoldable pub enter_session :
    Controller → Offer → ℕ → Option LocalPeer → Option PeerState → Act (Option LocalPeer)
unfolding ◌>>=◌ new_peer_state assign restart_instance renew_session text_eq
enter_session controller o now local none = do assign o.key (fresh_state controller o); pure local
enter_session controller o now local (some s) =
    if instance_changed o s
    then restart_instance controller o local
    else if not (text_eq s.session_id o.session_id)
    then renew_session controller o now local
    else pure local

abbrev pub adopt : Controller → Offer → PeerState → PeerState
adopt controller o s = record s {
  session_id = o.session_id;
  session_started_ns = o.session_started_ns;
  peer_instance_id = or_text o.peer_instance_id s.peer_instance_id;
  ip = o.peer_ip;
  controller = controller;
  lease_expires = o.lease_expires;
  control_expired = false;
}

abbrev or_type : Option CandidateType → Option CandidateType → Option CandidateType
or_type (some t) d = some t
or_type none d = d

-- The type of the endpoint that the kernel has settled on.
abbrev pub settled_type : List Candidate → Text → Option CandidateType
settled_type candidates endpoint =
    or_type (candidate_type_for_endpoint candidates endpoint) (observed_type_for_endpoint endpoint)

abbrev signature_of : Option PeerState → Text
signature_of none = []
signature_of (some s) = s.candidate_signature

abbrev settle : Offer → Text → PeerState → PeerState
settle o endpoint s = record s {
  mode = direct;
  endpoint = endpoint;
  selected_type = or_type (settled_type o.candidates endpoint) s.selected_type;
}

-- Is the kernel's direct endpoint still among the offered candidates?
abbrev still_listed : Offer → ℕ → Option LocalPeer → Bool
still_listed o now local =
    is_direct local o.peer_ip
    && fresh_handshake now (handshake_of local)
    && candidate_endpoint_exists o.candidates (endpoint_of local)

unfoldable pub settle_direct : Offer → Option LocalPeer → Act (Option LocalPeer)
unfolding ◌>>=◌ update save_state
settle_direct o local = do update o.key (settle o (endpoint_of local)); save_state; pure local

unfoldable pub restart_probing : Offer → Option LocalPeer → Act (Option LocalPeer)
unfolding ◌>>=◌ update wg_set
restart_probing o local = do
  drop_local o.key local
  update o.key (λ t. record t { mode = idle; endpoint = []; selected_type = none; started = 0 })
  pure none

unfoldable pub change_signature : Offer → ℕ → Option LocalPeer → Act (Option LocalPeer)
unfolding ◌>>=◌ update bump settle_direct restart_probing candidate_endpoint_exists
change_signature o now local = do
  update o.key (λ t. record t { candidate_signature = o.candidate_signature })
  bump o.key
  update o.key (λ t. record t { failures = 0; retry_after = 0; worker_running = false })
  if still_listed o now local then settle_direct o local else restart_probing o local

-- A changed candidate list restarts the probing, unless the kernel's endpoint is still on it.
unfoldable pub refresh_candidates : Offer → ℕ → Option LocalPeer → Act (Option LocalPeer)
unfolding ◌>>=◌ state_of update change_signature text_eq
refresh_candidates o now local = do
  s ← state_of o.key
  update o.key (λ t. record t { candidates = o.candidates })
  if text_eq (signature_of s) o.candidate_signature
      then pure local
      else change_signature o now local

abbrev keep_settled : Offer → Text → PeerState → PeerState
keep_settled o endpoint s = record s {
  mode = direct;
  endpoint = endpoint;
  selected_type = or_type s.selected_type (settled_type o.candidates endpoint);
}

unfoldable pub confirm_direct : Offer → Option LocalPeer → Act Bool
unfolding ◌>>=◌ update save_state
confirm_direct o local = do
  update o.key (keep_settled o (endpoint_of local))
  update o.key stop_running
  save_state
  pure true

abbrev pub fall_back : PeerState → PeerState
fall_back s = record s {
  mode = idle;
  endpoint = [];
  selected_type = none;
  retry_after = 0;
  worker_running = false;
}

unfoldable pub give_up_direct : Offer → Act Bool
unfolding ◌>>=◌ update bump wg_set
give_up_direct o = do wg_set (wg_remove o.key); bump o.key; update o.key fall_back; pure false

-- A working direct path is kept; a stale one is given up. The answer: is the peer direct now?
unfoldable pub keep_direct : Offer → ℕ → Option LocalPeer → Act Bool
unfolding confirm_direct give_up_direct pure
keep_direct o now local =
    if not (is_direct local o.peer_ip)
    then pure false
    else if fresh_handshake now (handshake_of local)
    then confirm_direct o local
    else give_up_direct o

-- `now >= retry_after and not worker_running`
abbrev pub may_probe : ℕ → Option PeerState → Bool
may_probe now none = false
may_probe now (some s) = leb s.retry_after now && not s.worker_running

abbrev pub start_running : PeerState → PeerState
start_running s = record s { worker_running = true; mode = probe }

unfoldable pub claim : Text → Act (Option ℕ)
unfolding ◌>>=◌ update bump
claim key = do g ← bump key; update key start_running; pure (some g)

-- Claim a new generation for a probe; `none` where no probe is due.
unfoldable pub claim_probe : Text → Bool → ℕ → Act (Option ℕ)
unfolding ◌>>=◌ state_of claim
claim_probe key is_direct_now now = do
  s ← state_of key
  if not is_direct_now && may_probe now s then claim key else pure none

abbrev pub launch_claimed : Text → Option ℕ → Act Unit
launch_claimed key none = pure tt
launch_claimed key (some g) = launch (probe_thread key g)

pub data Outcome : Type 0 where
  ignored accepted : Outcome

unfoldable pub accept_offer :
    Controller → Offer → ℕ → Option LocalPeer → Option PeerState → Act Outcome
unfolding ◌>>=◌ enter_session refresh_candidates keep_direct claim_probe save_state launch update
accept_offer controller o now local s = do
  entered ← enter_session controller o now local s
  update o.key (adopt controller o)
  kept ← refresh_candidates o now entered
  direct_now ← keep_direct o now kept
  claimed ← claim_probe o.key direct_now now
  save_state
  launch_claimed o.key claimed
  pure accepted

-- The part of `handle_offer` from the lock to the launch of the probe.
unfoldable pub apply_offer : Controller → Offer → ℕ → Result (Dict LocalPeer) → Act Outcome
unfolding ◌>>=◌ accept_offer is_stale state_of Dict.get
apply_offer controller o now peers = do
  current ← lift peers
  s ← state_of o.key
  stale ← lift (is_stale o s)
  if stale then pure ignored else accept_offer controller o now (Dict.get o.key current) s

-- `handle_offer(data, controller)` up to its answer.
unfoldable pub handle_offer :
    Controller → Text → ℕ → Result Text → Result (Dict LocalPeer) → Json → Act Outcome
unfolding ◌>>=◌ apply_offer read_offer
handle_offer controller listen_address now lan_ip peers data_ = do
  o ← lift (read_offer listen_address now lan_ip data_)
  apply_offer controller o now peers
