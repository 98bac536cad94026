-- ===== src/Agent/Remove.antt =====
-- `handle_remove`, `cleanup_initiator_states` and `cleanup_orphans` of
-- p2p/wireguard-p2p/linux/p2p_agent.py.
pub mod Cleanup
pub mod Outcome
use wireguard_p2p.Base.{
  ℕ, ◌+◌, ◌-◌, ◌≡◌, refl, Bool, true, false, not, ◌&&◌, ◌||◌, List, [], ◌∷◌, ◌++◌, Option, none,
  some, if◌then◌else◌, is_some,
}
use wireguard_p2p.Base.Dict
use wireguard_p2p.Base.Dict.{Dict}
use wireguard_p2p.Base.Lists.{any}
use wireguard_p2p.Base.Text.{Text, text, text_eq}
use wireguard_p2p.Json
use wireguard_p2p.Json.{Json, Fields, null, bool, int, str, arr, obj}
use wireguard_p2p.Result.{Result, ok, err, type_error, value_error, ◌>>=◌ as ◌then_do◌, or_raise}
use wireguard_p2p.Candidates.{CandidateType}
use wireguard_p2p.Candidates.Select.{observed_type_for_endpoint}
use wireguard_p2p.Agent.{
  Agent, PeerState, LocalPeer, Controller, responder, initiator, Mode, direct, wg_remove,
}
use wireguard_p2p.Agent.Monad.{
  Act, pure, lift, gets, catch, ◌>>=◌, ◌>>◌, when, state_of, update, bump, delete, wg_set,
  save_state,
}
use wireguard_p2p.Agent.Offer.{stop_running}
use wireguard_p2p.Agent.Session.{direct_peer_healthy, endpoint_of}
use wireguard_p2p.Agent.Validate.{
  require, validate_public_key, validate_peer_ip, validate_session_id,
}

pub data Reason : Type 0 where
  disconnect superseded expired : Reason

pub record Removal : Type 0 where
  pub key : Text
  pub peer_ip : Text
  pub session_id : Text
  pub reason : Reason

-- `str(data.get("reason", "disconnect"))`: only a text can be a reason.
read_reason : Option Json → Option Reason
unfolding text_eq
read_reason none = some disconnect
read_reason (some (str t)) =
    if text_eq t (text "disconnect")
    then some disconnect
    else if text_eq t (text "superseded")
    then some superseded
    else if text_eq t (text "expired")
    then some expired
    else none
read_reason (some _) = none

unfoldable pub read_removal : Text → Json → Result Removal
unfolding require validate_public_key validate_peer_ip validate_session_id read_reason Json.lookup
read_removal listen_address (obj fs) = require (text "peer_key") fs then_do λ k.
    validate_public_key k then_do λ key. require (text "peer_ip") fs then_do λ i.
    validate_peer_ip listen_address i then_do λ peer_ip. require (text "session_id") fs then_do λ s.
    validate_session_id s then_do λ session_id.
    or_raise (read_reason (Json.lookup (text "reason") fs)) value_error then_do λ reason.
    ok (record { key = key; peer_ip = peer_ip; session_id = session_id; reason = reason })
read_removal listen_address null = err type_error
read_removal listen_address (bool b) = err type_error
read_removal listen_address (int n) = err type_error
read_removal listen_address (str t) = err type_error
read_removal listen_address (arr vs) = err type_error

pub data Removed : Type 0 where
  session_mismatch preserved_direct removed : Removed

abbrev pub matches : Removal → Option PeerState → Bool
matches r none = false
matches r (some s) = text_eq s.session_id r.session_id && text_eq s.ip r.peer_ip

abbrev pub is_expired : Reason → Bool
is_expired expired = true
is_expired _ = false

abbrev or_observed : Option CandidateType → Text → Option CandidateType
or_observed (some t) endpoint = some t
or_observed none endpoint = observed_type_for_endpoint endpoint

-- The coordinator has lost the session, and the direct path still works.
abbrev pub expire_control : Text → PeerState → PeerState
expire_control endpoint s = record s {
  control_expired = true;
  lease_expires = 0;
  worker_running = false;
  mode = direct;
  endpoint = endpoint;
  selected_type = or_observed s.selected_type endpoint;
}

unfoldable pub preserve : Text → Option LocalPeer → Act Removed
unfolding ◌>>=◌ update save_state
preserve key local = do
  update key (expire_control (endpoint_of local))
  save_state
  pure preserved_direct

unfoldable pub forget : Text → Bool → Act Removed
unfolding ◌>>=◌ update bump delete wg_set save_state
forget key in_kernel = do
  when in_kernel (wg_set (wg_remove key))
  bump key
  update key stop_running
  delete key
  save_state
  pure removed

unfoldable pub remove_matching : Removal → ℕ → Result (Dict LocalPeer) → Act Removed
unfolding ◌>>=◌ preserve forget direct_peer_healthy Dict.get
remove_matching r now peers = do
  current ← lift peers
  let local = Dict.get r.key current
  if is_expired r.reason && direct_peer_healthy local r.peer_ip now
      then preserve r.key local
      else forget r.key (is_some local)

-- The part of `handle_remove` under the lock.
unfoldable pub apply_removal : Removal → ℕ → Result (Dict LocalPeer) → Act Removed
unfolding ◌>>=◌ remove_matching state_of text_eq
apply_removal r now peers = do
  s ← state_of r.key
  if matches r s then remove_matching r now peers else pure session_mismatch

-- `handle_remove(data)`
unfoldable pub handle_remove : Text → ℕ → Result (Dict LocalPeer) → Json → Act Removed
unfolding ◌>>=◌ apply_removal read_removal
handle_remove listen_address now peers data_ = do
  r ← lift (read_removal listen_address data_)
  apply_removal r now peers

abbrev pub is_initiated : Option PeerState → Bool
is_initiated none = false
is_initiated (some s) = elim s.controller [ initiator ↦ true | responder ↦ false ]

-- `key in keys`
unfoldable pub has_key : Text → List Text → Bool
unfolding any text_eq
has_key key keys = any (text_eq key) keys

unfoldable pub cleanup_key : Dict LocalPeer → Text → Act Unit
unfolding ◌>>=◌ update bump delete wg_set Dict.get catch
cleanup_key current key = do
  bump key
  update key stop_running
  when (is_some (Dict.get key current)) (catch (wg_set (wg_remove key)) (pure tt))
  delete key

-- One round of the loop: was the state removed?
unfoldable pub cleanup_visit : List Text → Dict LocalPeer → Text → Act Bool
unfolding ◌>>=◌ cleanup_key state_of has_key
cleanup_visit active current key = do
  s ← state_of key
  let gone = is_initiated s && not (has_key key active)
  when gone (cleanup_key current key)
  pure gone

-- The loop over `list(STATES.items())`. The answer: was a state removed?
unfoldable pub cleanup_keys : List Text → Dict LocalPeer → List Text → Act Bool
unfolding ◌>>=◌ cleanup_visit
cleanup_keys active current [] = pure false
cleanup_keys active current (key ∷ keys) = do
  gone ← cleanup_visit active current key
  changed ← cleanup_keys active current keys
  pure (gone || changed)

abbrev pub keys_of : Dict PeerState → List Text
keys_of [] = []
keys_of ((k, s) ∷ d) = k ∷ keys_of d

-- `cleanup_initiator_states(active_keys)`
unfoldable pub cleanup_initiator_states : List Text → Result (Dict LocalPeer) → Act Unit
unfolding ◌>>=◌ cleanup_keys save_state
cleanup_initiator_states active peers = do
  current ← lift peers
  keys ← gets (λ a. keys_of a.states)
  changed ← cleanup_keys active current keys
  when changed save_state

ends_with : Text → Text → Bool
unfolding text_eq
ends_with suffix [] = text_eq suffix []
ends_with suffix (c ∷ t) = text_eq suffix (c ∷ t) || ends_with suffix t

-- A peer that routes a single address and has no state.
unfoldable pub is_orphan : Dict PeerState → Text → LocalPeer → Bool
unfolding any ends_with Dict.get
is_orphan states key peer =
    any (ends_with (text "/32")) peer.allowed_ips && not (is_some (Dict.get key states))

unfoldable pub remove_orphans : Dict LocalPeer → Act Unit
unfolding ◌>>=◌ is_orphan wg_set
remove_orphans [] = pure tt
remove_orphans ((key, peer) ∷ rest) = do
  states ← gets (λ a. a.states)
  when (is_orphan states key peer) (wg_set (wg_remove key))
  remove_orphans rest

-- `cleanup_orphans()`
unfoldable pub cleanup_orphans : Result (Dict LocalPeer) → Act Unit
unfolding ◌>>=◌ remove_orphans
cleanup_orphans peers = do current ← lift peers; remove_orphans current
