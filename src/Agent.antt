-- ===== src/Agent.antt =====
-- p2p/wireguard-p2p/linux/p2p_agent.py: the state of the server agent, and the records of its peers.
pub mod Monad
pub mod Triple
pub mod Validate
pub mod Offer
pub mod Session
pub mod Remove
pub mod Monitor
pub mod Worker
pub mod Notify
pub mod Reflexive
pub mod Initiator
pub mod Startup
pub mod Handler
pub mod Health
pub mod Generation
pub mod Frame
pub mod Quiet
pub mod Invariant
use wireguard_p2p.Base.{ℕ, Bool, true, false, List, [], ◌∷◌, Option, none, some}
use wireguard_p2p.Base.Dict.{Dict}
use wireguard_p2p.Base.Text.{Text, text}
use wireguard_p2p.Candidates.{CandidateType, Candidate}

abbrev pub vps_address : Text
vps_address = text "10.0.0.1"

abbrev pub initiator_online_max_age : ℕ
initiator_online_max_age = 180

abbrev pub direct_max_age : ℕ
direct_max_age = 180

-- KEEPALIVE
abbrev pub keepalive_direct : ℕ
keepalive_direct = 25

-- PROBE_KEEPALIVE
abbrev pub keepalive_probe : ℕ
keepalive_probe = 1

pub data Mode : Type 0 where
  idle probe direct confirm6 : Mode

pub data Controller : Type 0 where
  responder initiator : Controller

-- One value of `STATES`. `none` stands for an empty type text, 0 for a missing time.
pub record PeerState : Type 0 where
  pub controller : Controller
  pub session_id : Text
  pub session_started_ns : ℕ
  pub peer_instance_id : Text
  pub ip : Text
  pub mode : Mode
  pub endpoint : Text
  pub endpoint_type : Option CandidateType
  pub selected_type : Option CandidateType
  pub candidates : List Candidate
  pub candidate_signature : Text
  pub started : ℕ
  pub baseline_handshake : ℕ
  pub failures : ℕ
  pub retry_after : ℕ
  pub generation : ℕ
  pub worker_running : Bool
  pub control_expired : Bool
  pub lease_expires : ℕ
  pub promoted : ℕ

-- One peer of `wg show INTERFACE dump`. The handshake is in whole seconds.
pub record LocalPeer : Type 0 where
  pub endpoint : Text
  pub allowed_ips : List Text
  pub latest_handshake : ℕ
  pub keepalive : ℕ

-- The arguments of `wg set INTERFACE peer KEY`.
pub data Command : Type 0 where
  wg_remove : Text → Command
  wg_probe : Text → Text → ℕ → Command
  wg_allow : Text → Text → Text → ℕ → Command

-- The worker threads that were started.
pub data Thread : Type 0 where
  probe_thread : Text → ℕ → Thread
  confirm_thread : Text → ℕ → Text → Text → Thread

-- The process: its globals, what it has asked of the kernel, the state file, the threads that it
-- has started. `works n` says whether the n-th call of `wg set` or write of the file succeeds.
pub record Agent : Type 0 where
  pub states : Dict PeerState
  pub last_generation : ℕ
  pub issued : List Command
  pub disk : Dict PeerState
  pub launched : List Thread
  pub calls : ℕ
  pub works : ℕ → Bool
