-- ===== src/Agent/Worker.antt =====
-- The probe and confirmation threads of p2p/wireguard-p2p/linux/p2p_agent.py. Each block under
-- `STATE_LOCK` is one atomic section; between the sections other threads run.
pub mod Confirm
pub mod Run
pub mod Superseded
use wireguard_p2p.Base.{
  ℕ, suc, ◌+◌, ◌*◌, ◌<◌, ◌≡◌, refl, Bool, true, false, not, ◌&&◌, ◌||◌, List, [], ◌∷◌, ◌++◌, Option,
  none, some, leb, ltb, ◌==◌, if◌then◌else◌, is_some,
}
use wireguard_p2p.Base.Clock.{seconds}
use wireguard_p2p.Base.Dict
use wireguard_p2p.Base.Int.{ℤ, pos, ltb_ℤ}
use wireguard_p2p.Base.Text.{Text, text, is_empty}
use wireguard_p2p.Result.{Result, ok, err}
use wireguard_p2p.Candidates.{CandidateType, host6, observed4, predicted4, Candidate, type_eq}
use wireguard_p2p.Candidates.Select.{candidate_type_for_endpoint, observed_type_for_endpoint}
use wireguard_p2p.Agent.{
  Agent, PeerState, LocalPeer, Mode, idle, probe, direct, confirm6, Command, wg_remove, wg_probe,
  wg_allow, keepalive_direct, keepalive_probe, confirm_thread,
}
use wireguard_p2p.Agent.Monad.{
  Act, pure, catch, ◌>>=◌, ◌>>◌, when, state_of, update, bump, wg_set, save_state, launch,
}
use wireguard_p2p.Agent.Offer.{settled_type}
use wireguard_p2p.Agent.Validate.{retry_delay}

-- Does the worker with this generation still own the state?
abbrev pub owned : ℕ → Option PeerState → Bool
owned generation none = false
owned generation (some s) = s.generation == generation && s.worker_running

-- `probe_generation_current(key, generation)`
unfoldable pub probe_generation_current : Text → ℕ → Agent → Bool
unfolding Dict.get
probe_generation_current key generation a = owned generation (Dict.get key a.states)

abbrev pub same_mode : Mode → Mode → Bool
same_mode idle idle = true
same_mode probe probe = true
same_mode direct direct = true
same_mode confirm6 confirm6 = true
same_mode _ _ = false

abbrev pub owned_in : Mode → ℕ → Option PeerState → Bool
owned_in mode generation none = false
owned_in mode generation (some s) =
    s.generation == generation && same_mode s.mode mode && s.worker_running

-- The fields of a state whose worker has failed at `now`.
abbrev pub back_off : ℕ → PeerState → PeerState
back_off now s = record s {
  mode = idle;
  endpoint = [];
  endpoint_type = none;
  selected_type = none;
  failures = s.failures + 1;
  retry_after = now + seconds (retry_delay (s.failures + 1));
  worker_running = false;
  started = 0;
  baseline_handshake = 0;
}

unfoldable pub release : Text → ℕ → Act Unit
unfolding ◌>>=◌ catch update bump wg_set save_state
release key now = do
  catch (wg_set (wg_remove key)) (pure tt)
  bump key
  update key (back_off now)
  catch save_state (pure tt)

-- The `finally` of `run_peer_worker`: abandoned work is released, and only that.
unfoldable pub run_peer_worker_end : Mode → Text → ℕ → ℕ → Act Unit
unfolding ◌>>=◌ state_of release
run_peer_worker_end mode key generation now = do
  s ← state_of key
  if owned_in mode generation s then release key now else pure tt

-- What a probe works on.
abbrev pub work_of : PeerState → List Candidate × Text
work_of s = (s.candidates, s.ip)

abbrev pub owned_work : ℕ → Option PeerState → Option (List Candidate × Text)
owned_work generation none = none
owned_work generation (some s) =
    if s.generation == generation && s.worker_running then some (work_of s) else none

-- The first section of `_probe_worker`; `none` where the worker is superseded.
unfoldable pub probe_begin : Text → ℕ → Act (Option (List Candidate × Text))
unfolding ◌>>=◌ state_of
probe_begin key generation = do s ← state_of key; pure (owned_work generation s)

abbrev set_not_running : PeerState → PeerState
set_not_running s = record s { worker_running = false; mode = idle }

abbrev pub has_generation : ℕ → Option PeerState → Bool
has_generation generation none = false
has_generation generation (some s) = s.generation == generation

unfoldable pub stop_idle : Text → Act Unit
unfolding ◌>>=◌ update save_state
stop_idle key = do update key set_not_running; save_state

-- There is nothing to probe.
unfoldable pub probe_nothing : Text → ℕ → Act Unit
unfolding ◌>>=◌ state_of stop_idle
probe_nothing key generation = do
  s ← state_of key
  if has_generation generation s then stop_idle key else pure tt

pub data Setup : Type 0 where
  superseded next_candidate probing : Setup

abbrev pub start_probe : Candidate → ℕ → ℕ → PeerState → PeerState
start_probe c baseline now s = record s {
  mode = probe;
  endpoint = c.endpoint;
  endpoint_type = some c.type;
  selected_type = some c.type;
  started = now;
  baseline_handshake = baseline;
}

unfoldable pub begin_candidate : Text → Candidate → ℕ → ℕ → Act Setup
unfolding ◌>>=◌ update save_state
begin_candidate key c baseline now = do
  update key (start_probe c baseline now)
  save_state
  pure probing

abbrev pub after_setup : Text → Candidate → ℕ → ℕ → Bool → Act Setup
after_setup key c baseline now true = begin_candidate key c baseline now
after_setup key c baseline now false = pure next_candidate

unfoldable pub try_candidate : Text → Candidate → ℕ → ℕ → Act Setup
unfolding ◌>>=◌ catch wg_set begin_candidate
try_candidate key c baseline now = do
  set ← catch (wg_set (wg_probe key c.endpoint keepalive_probe) >>= λ _. pure true) (pure false)
  after_setup key c baseline now set

-- The section that points the kernel's peer at a candidate.
unfoldable pub probe_setup : Text → ℕ → Candidate → ℕ → ℕ → Act Setup
unfolding ◌>>=◌ state_of try_candidate
probe_setup key generation c baseline now = do
  s ← state_of key
  if owned generation s then try_candidate key c baseline now else pure superseded

-- `local.get("endpoint") or candidate["endpoint"]`
abbrev pub actual_endpoint : LocalPeer → Text → Text
actual_endpoint local endpoint = if is_empty local.endpoint then endpoint else local.endpoint

abbrev or_type : Option CandidateType → CandidateType → CandidateType
or_type none d = d
or_type (some t) d = t

-- The type that a promoted state records.
unfoldable pub promoted_type : Option PeerState → Candidate → Text → CandidateType
promoted_type none c endpoint = or_type (observed_type_for_endpoint endpoint) c.type
promoted_type (some s) c endpoint = or_type (settled_type s.candidates endpoint) c.type

abbrev pub become_direct : Text → CandidateType → ℕ → PeerState → PeerState
become_direct endpoint t now s = record s {
  mode = direct;
  endpoint = endpoint;
  endpoint_type = some t;
  selected_type = some t;
  promoted = now;
  failures = 0;
  retry_after = 0;
  worker_running = false;
  started = 0;
  baseline_handshake = 0;
}

unfoldable pub promote : Text → Text → Text → CandidateType → ℕ → Act Bool
unfolding ◌>>=◌ update wg_set save_state
promote key peer_ip endpoint t now = do
  wg_set (wg_allow key (peer_ip ++ text "/32") endpoint keepalive_direct)
  update key (become_direct endpoint t now)
  save_state
  pure true

-- The section that gives the peer its direct route; `false` where the worker is superseded.
unfoldable pub probe_promote : Text → ℕ → Text → Candidate → LocalPeer → ℕ → Act Bool
unfolding ◌>>=◌ state_of promote promoted_type
probe_promote key generation peer_ip c local now = do
  s ← state_of key
  let endpoint = actual_endpoint local c.endpoint
  if owned generation s
      then promote key peer_ip endpoint (promoted_type s c endpoint) now
      else pure false

unfoldable pub fail_probe : Text → ℕ → Act Unit
unfolding ◌>>=◌ catch update wg_set save_state
fail_probe key now = do
  catch (wg_set (wg_remove key)) (pure tt)
  update key (back_off now)
  save_state

-- The section after the last candidate.
unfoldable pub probe_failed : Text → ℕ → ℕ → Act Unit
unfolding ◌>>=◌ state_of fail_probe
probe_failed key generation now = do
  s ← state_of key
  if owned generation s then fail_probe key now else pure tt

-- `candidate_probe_window(candidate)`, in microseconds; `native6` says whether this host has a
-- usable IPv6 address of its own.
unfoldable pub candidate_probe_window : Candidate → Bool → ℕ
candidate_probe_window c native6 =
    if type_eq c.type host6 && (ltb_ℤ (pos 900) c.priority || not native6)
    then seconds 8
    else if type_eq c.type observed4
    then seconds 8
    else if type_eq c.type predicted4
    then 1500000
    else seconds 2

-- `should_confirmation_rekey(candidate)`
unfoldable pub should_confirmation_rekey : Candidate → Bool → Bool
should_confirmation_rekey c native6 = type_eq c.type host6 && not native6
