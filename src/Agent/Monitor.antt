-- ===== src/Agent/Monitor.antt =====
-- `monitor_once` and `monitor_interval` of p2p/wireguard-p2p/linux/p2p_agent.py: the pass over all
-- peers, phase by phase.
pub mod Quiet
use wireguard_p2p.Base.{
  ℕ, ◌+◌, ◌≡◌, refl, Bool, true, false, not, ◌&&◌, ◌||◌, List, [], ◌∷◌, ◌++◌, Option, none, some,
  leb, ◌==◌, if◌then◌else◌, is_some,
}
use wireguard_p2p.Base.Dict
use wireguard_p2p.Base.Dict.{Dict}
use wireguard_p2p.Base.Text.{Text}
use wireguard_p2p.Result.{Result}
use wireguard_p2p.Candidates.{Candidate}
use wireguard_p2p.Agent.{
  Agent, PeerState, LocalPeer, Mode, idle, probe, direct, confirm6, wg_remove, probe_thread,
}
use wireguard_p2p.Agent.Monad.{
  Act, pure, lift, gets, ◌>>=◌, ◌>>◌, when, state_of, update, bump, delete, wg_set, save_state,
  launch,
}
use wireguard_p2p.Agent.Offer.{stop_running, fall_back, claim, may_probe, drop_local}
use wireguard_p2p.Agent.Remove.{keys_of}
use wireguard_p2p.Agent.Session.{
  direct_peer_healthy, is_direct, endpoint_of, handshake_of, fresh_handshake,
}

abbrev pub is_probing : PeerState → Bool
is_probing s = elim s.mode [ probe ↦ true | idle ↦ false | direct ↦ false | confirm6 ↦ false ]

abbrev pub is_confirming : PeerState → Bool
is_confirming s = elim s.mode [ probe ↦ false | idle ↦ false | direct ↦ false | confirm6 ↦ true ]

abbrev pub is_in_direct : PeerState → Bool
is_in_direct s = elim s.mode [ probe ↦ false | idle ↦ false | direct ↦ true | confirm6 ↦ false ]

abbrev pub lease_over : ℕ → PeerState → Bool
lease_over now s = not s.control_expired && not (s.lease_expires == 0) && leb s.lease_expires now

-- What a pass did to one peer: was its state changed, and which generation is to be launched?
pub record Visit : Type 0 where
  pub changed : Bool
  pub claimed : Option ℕ

abbrev visited : Bool → Visit
visited changed = record { changed = changed; claimed = none }

abbrev has_candidates : PeerState → Bool
has_candidates s = elim s.candidates [ [] ↦ false | c ∷ cs ↦ true ]

abbrev pub due : ℕ → Option PeerState → Bool
due now none = false
due now (some s) = may_probe now (some s) && has_candidates s

unfoldable pub claim_visit : Text → Act Visit
unfolding ◌>>=◌ claim
claim_visit key = do g ← claim key; pure (record { changed = true; claimed = g })

-- The last phase: claim a probe where one is due.
unfoldable pub monitor_retry : Text → ℕ → Bool → Act Visit
unfolding ◌>>=◌ state_of claim_visit
monitor_retry key now changed = do
  s ← state_of key
  if due now s then claim_visit key else pure (visited changed)

abbrev set_idle : PeerState → PeerState
set_idle s = record s { mode = idle }

unfoldable pub clear_probe : Text → ℕ → Act Visit
unfolding ◌>>=◌ update monitor_retry
clear_probe key now = do update key set_idle; monitor_retry key now true

unfoldable pub probe_phase : Text → ℕ → Bool → Option PeerState → Act Visit
unfolding clear_probe monitor_retry pure
probe_phase key now changed none = pure (visited changed)
probe_phase key now changed (some s) =
    if is_probing s && s.worker_running
    then pure (visited changed)
    else if is_probing s
    then clear_probe key now
    else monitor_retry key now changed

-- A probe that is under way is left alone; one without a worker is idle again.
unfoldable pub monitor_probe : Text → ℕ → Bool → Act Visit
unfolding ◌>>=◌ state_of probe_phase
monitor_probe key now changed = do s ← state_of key; probe_phase key now changed s

unfoldable pub drop_expired : Text → Act Visit
unfolding ◌>>=◌ update delete
drop_expired key = do update key stop_running; delete key; pure (visited true)

unfoldable pub restart_peer : Text → ℕ → Act Visit
unfolding ◌>>=◌ update monitor_probe
restart_peer key now = do update key fall_back; monitor_probe key now true

-- The direct path went stale.
unfoldable pub lose_direct : Text → ℕ → PeerState → Act Visit
unfolding ◌>>=◌ bump wg_set drop_expired restart_peer
lose_direct key now s = do
  wg_set (wg_remove key)
  bump key
  if s.control_expired then drop_expired key else restart_peer key now

abbrev pub stay_direct : Text → PeerState → PeerState
stay_direct endpoint s = record s { mode = direct; endpoint = endpoint }

unfoldable pub keep_path : Text → Option LocalPeer → Bool → Act Visit
unfolding ◌>>=◌ update
keep_path key local changed = do
  update key (stay_direct (endpoint_of local))
  pure (visited changed)

unfoldable pub direct_phase :
    Text → ℕ → Option LocalPeer → Text → Bool → Option PeerState → Act Visit
unfolding pure keep_path lose_direct monitor_probe
direct_phase key now local ip changed none = pure (visited changed)
direct_phase key now local ip changed (some s) =
    if is_confirming s && s.worker_running
    then pure (visited changed)
    else if not (is_direct local ip)
    then monitor_probe key now changed
    else if fresh_handshake now (handshake_of local)
    then keep_path key local changed
    else lose_direct key now s

unfoldable pub monitor_direct : Text → ℕ → Option LocalPeer → Text → Bool → Act Visit
unfolding ◌>>=◌ state_of direct_phase
monitor_direct key now local ip changed = do
  s ← state_of key
  direct_phase key now local ip changed s

abbrev pub outlive_control : Text → PeerState → PeerState
outlive_control endpoint s = record s {
  control_expired = true;
  lease_expires = 0;
  worker_running = false;
  mode = direct;
  endpoint = endpoint;
}

unfoldable pub keep_expired : Text → ℕ → Option LocalPeer → Text → Act Visit
unfolding ◌>>=◌ update monitor_direct
keep_expired key now local ip = do
  update key (outlive_control (endpoint_of local))
  monitor_direct key now local ip true

unfoldable pub remove_expired : Text → Option LocalPeer → Act Visit
unfolding ◌>>=◌ update bump delete wg_set
remove_expired key local = do
  drop_local key local
  bump key
  update key stop_running
  delete key
  pure (visited true)

unfoldable pub lease_phase : Text → ℕ → Option LocalPeer → Option PeerState → Act Visit
unfolding pure keep_expired remove_expired monitor_direct direct_peer_healthy
lease_phase key now local none = pure (visited false)
lease_phase key now local (some s) =
    if not (lease_over now s)
    then monitor_direct key now local s.ip false
    else if direct_peer_healthy local s.ip now
    then keep_expired key now local s.ip
    else remove_expired key local

-- One round of the loop over `list(STATES.items())`.
unfoldable pub visit : ℕ → Dict LocalPeer → Text → Act Visit
unfolding ◌>>=◌ state_of lease_phase Dict.get
visit now current key = do s ← state_of key; lease_phase key now (Dict.get key current) s

pub record Pass : Type 0 where
  pub changed : Bool
  pub launches : List (Text × ℕ)

abbrev add_visit : Text → Visit → Pass → Pass
add_visit key v p = record {
  changed = v.changed || p.changed;
  launches = elim v.claimed [ none ↦ p.launches | some g ↦ (key, g) ∷ p.launches ];
}

unfoldable pub visit_all : ℕ → Dict LocalPeer → List Text → Act Pass
unfolding ◌>>=◌ visit
visit_all now current [] = pure (record { changed = false; launches = [] })
visit_all now current (key ∷ keys) = do
  v ← visit now current key
  p ← visit_all now current keys
  pure (add_visit key v p)

unfoldable pub launch_all : List (Text × ℕ) → Act Unit
unfolding ◌>>=◌ launch
launch_all [] = pure tt
launch_all ((key, g) ∷ rest) = do launch (probe_thread key g); launch_all rest

unfoldable pub monitor_peers : ℕ → Result (Dict LocalPeer) → List Text → Act Unit
unfolding ◌>>=◌ visit_all save_state launch_all
monitor_peers now peers keys = do
  current ← lift peers
  p ← visit_all now current keys
  when p.changed save_state
  launch_all p.launches

-- With no state there is nothing to do, and the kernel is not asked.
unfoldable pub monitor_keys : ℕ → Result (Dict LocalPeer) → List Text → Act Unit
unfolding pure monitor_peers
monitor_keys now peers [] = pure tt
monitor_keys now peers (k ∷ ks) = monitor_peers now peers (k ∷ ks)

-- `monitor_once()`
unfoldable pub monitor_once : ℕ → Result (Dict LocalPeer) → Act Unit
unfolding ◌>>=◌ monitor_keys
monitor_once now peers = do keys ← gets (λ a. keys_of a.states); monitor_keys now peers keys

unfoldable pub all_direct : Dict PeerState → Bool
all_direct [] = true
all_direct ((k, s) ∷ d) = is_in_direct s && not s.worker_running && all_direct d

-- `monitor_interval()`, in seconds
unfoldable pub monitor_interval : Dict PeerState → ℕ
unfolding all_direct
monitor_interval [] = 60
monitor_interval (e ∷ d) = if all_direct (e ∷ d) then 20 else 5
