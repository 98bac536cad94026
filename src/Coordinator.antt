-- ===== src/Coordinator.antt =====
-- p2p/wireguard-p2p/vps/peers_api.py: the state of the coordinator.
pub mod Endpoint
pub mod Registry
pub mod Payload
pub mod Push
pub mod Sessions
pub mod Expiry
pub mod Updates
pub mod Handler
pub mod Get
use wireguard_p2p.Base.{ℕ, Bool, true, false, List, [], Option, none}
use wireguard_p2p.Base.Dict.{Dict}
use wireguard_p2p.Base.Text.{Text, text}
use wireguard_p2p.Candidates.{Candidate}
use wireguard_p2p.Json.{Fields}

abbrev pub announce_ttl : ℕ
announce_ttl = 300

abbrev pub session_ttl : ℕ
session_ttl = 180

abbrev pub offer_refresh : ℕ
offer_refresh = 120

abbrev pub max_candidates : ℕ
max_candidates = 16

-- A value of LAN_CANDIDATES
pub record LanEntry : Type 0 where
  pub lan_ip : Text
  pub listen_port : ℕ
  pub seen : ℕ

-- A value of NODE_CANDIDATES
pub record NodeEntry : Type 0 where
  pub candidates : List Candidate
  pub seen : ℕ

-- A value of SESSIONS
pub record Session : Type 0 where
  pub session_id : Text
  pub session_started_ns : ℕ
  pub key : Text
  pub ip : Text
  pub instance_id : Text
  pub last_seen : ℕ
  pub last_push : Dict ℕ
  pub fingerprints : Dict Text
  pub server_info : Dict Fields
  pub candidates : List Candidate

-- A value of SERVER_PUSH_STATUS; `none` is `None`. The message itself is not modelled.
pub record PushStatus : Type 0 where
  pub good : Option Bool
  pub last_success : ℕ
  pub last_error : ℕ
  pub consecutive_failures : ℕ
  pub last_error_log : ℕ

pub data RemoveReason : Type 0 where
  disconnect superseded expired : RemoveReason

-- What the coordinator has sent: `/remove` and `/offer` pushes, with the server's address.
pub data Sent : Type 0 where
  sent_remove : Text → Text → RemoveReason → Sent
  sent_offer : Text → Text → Sent

pub record Coordinator : Type 0 where
  pub lan : Dict LanEntry
  pub nodes : Dict NodeEntry
  pub sessions : Dict Session
  pub push_status : Dict PushStatus
  pub sent : List Sent
