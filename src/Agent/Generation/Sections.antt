-- ===== src/Agent/Generation/Sections.antt =====
-- Generations in the sections of `handle_remove`, `monitor_once` and the cleanups of
-- p2p/wireguard-p2p/linux/p2p_agent.py.
use wireguard_p2p.Base.{ℕ, Bool, List, [], ◌∷◌, Option, none, some}
use wireguard_p2p.Base.Dict.{Dict}
use wireguard_p2p.Base.Text.{Text}
use wireguard_p2p.Json.{Json}
use wireguard_p2p.Result.{Result}
use wireguard_p2p.Agent.{PeerState, LocalPeer}
use wireguard_p2p.Agent.Monitor.{
  claim_visit, monitor_retry, clear_probe, probe_phase, monitor_probe, drop_expired, restart_peer,
  lose_direct, keep_path, direct_phase, monitor_direct, keep_expired, remove_expired, lease_phase,
  visit, visit_all, launch_all, monitor_peers, monitor_keys, monitor_once,
}
use wireguard_p2p.Agent.Remove.{
  Removal, preserve, forget, remove_matching, apply_removal, handle_remove, cleanup_key,
  cleanup_visit, cleanup_keys, cleanup_initiator_states,
}
use wireguard_p2p.Agent.Generation.{Steady, Steady-pure, Steady-bind, Steady-launch}
use wireguard_p2p.Agent.Generation.Rules.{steady_rules, claim-Steady}

preserve-Steady : (key : Text) (l : Option LocalPeer) → Steady (preserve key l)
unfolding preserve
preserve-Steady key l = search steady_rules depth 9

forget-Steady : (key : Text) (b : Bool) → Steady (forget key b)
unfolding forget
forget-Steady key b = search steady_rules depth 12

module _ (r : Removal) (now : ℕ) (peers : Result (Dict LocalPeer)) where
  remove_matching-Steady : Steady (remove_matching r now peers)
  unfolding remove_matching
  remove_matching-Steady = search (steady_rules, preserve-Steady, forget-Steady) depth 9

  pub apply_removal-Steady : Steady (apply_removal r now peers)
  unfolding apply_removal
  apply_removal-Steady = search (steady_rules, remove_matching-Steady)

pub handle_remove-Steady :
    (listen_address : Text) (now : ℕ) (peers : Result (Dict LocalPeer)) (data_ : Json)
    → Steady (handle_remove listen_address now peers data_)
unfolding handle_remove
handle_remove-Steady listen_address now peers data_ = search (steady_rules, apply_removal-Steady)

cleanup_key-Steady : (current : Dict LocalPeer) (key : Text) → Steady (cleanup_key current key)
unfolding cleanup_key
cleanup_key-Steady current key = search steady_rules depth 12

cleanup_visit-Steady :
    (active : List Text) (current : Dict LocalPeer) (key : Text)
    → Steady (cleanup_visit active current key)
unfolding cleanup_visit
cleanup_visit-Steady active current key = search (steady_rules, cleanup_key-Steady) depth 9

cleanup_keys-Steady :
    (active : List Text) (current : Dict LocalPeer) (keys : List Text)
    → Steady (cleanup_keys active current keys)
unfolding cleanup_keys
cleanup_keys-Steady active current [] = search steady_rules
cleanup_keys-Steady active current (k ∷ keys) =
    Steady-bind _ _ (cleanup_visit-Steady active current k)
      λ v. Steady-bind _ _ (cleanup_keys-Steady active current keys) λ c. Steady-pure _

pub cleanup_initiator_states-Steady :
    (active : List Text) (peers : Result (Dict LocalPeer))
    → Steady (cleanup_initiator_states active peers)
unfolding cleanup_initiator_states
cleanup_initiator_states-Steady active peers = search (steady_rules, cleanup_keys-Steady) depth 9

claim_visit-Steady : (key : Text) → Steady (claim_visit key)
unfolding claim_visit
claim_visit-Steady key = search (steady_rules, claim-Steady)

module _ (key : Text) (now : ℕ) where
  monitor_retry-Steady : (c : Bool) → Steady (monitor_retry key now c)
  unfolding monitor_retry
  monitor_retry-Steady c = search (steady_rules, claim_visit-Steady)

  clear_probe-Steady : Steady (clear_probe key now)
  unfolding clear_probe
  clear_probe-Steady = search (steady_rules, monitor_retry-Steady)

  probe_phase-Steady : (c : Bool) (s : Option PeerState) → Steady (probe_phase key now c s)
  unfolding probe_phase
  probe_phase-Steady c none = search steady_rules
  probe_phase-Steady c (some s) = search (steady_rules, clear_probe-Steady, monitor_retry-Steady)

  monitor_probe-Steady : (c : Bool) → Steady (monitor_probe key now c)
  unfolding monitor_probe
  monitor_probe-Steady c = search (steady_rules, probe_phase-Steady)

  drop_expired-Steady : Steady (drop_expired key)
  unfolding drop_expired
  drop_expired-Steady = search steady_rules depth 9

  restart_peer-Steady : Steady (restart_peer key now)
  unfolding restart_peer
  restart_peer-Steady = search (steady_rules, monitor_probe-Steady)

  lose_direct-Steady : (s : PeerState) → Steady (lose_direct key now s)
  unfolding lose_direct
  lose_direct-Steady s = search (steady_rules, drop_expired-Steady, restart_peer-Steady) depth 9

  module _ (l : Option LocalPeer) where
    keep_path-Steady : (c : Bool) → Steady (keep_path key l c)
    unfolding keep_path
    keep_path-Steady c = search steady_rules

    direct_phase-Steady :
        (ip : Text) (c : Bool) (s : Option PeerState) → Steady (direct_phase key now l ip c s)
    unfolding direct_phase
    direct_phase-Steady ip c none = search steady_rules
    direct_phase-Steady ip c (some s) =
        search (steady_rules, keep_path-Steady, lose_direct-Steady, monitor_probe-Steady) depth 9

    monitor_direct-Steady : (ip : Text) (c : Bool) → Steady (monitor_direct key now l ip c)
    unfolding monitor_direct
    monitor_direct-Steady ip c = search (steady_rules, direct_phase-Steady)

    keep_expired-Steady : (ip : Text) → Steady (keep_expired key now l ip)
    unfolding keep_expired
    keep_expired-Steady ip = search (steady_rules, monitor_direct-Steady)

    remove_expired-Steady : Steady (remove_expired key l)
    unfolding remove_expired
    remove_expired-Steady = search steady_rules depth 12

    lease_phase-Steady : (s : Option PeerState) → Steady (lease_phase key now l s)
    unfolding lease_phase
    lease_phase-Steady none = search steady_rules
    lease_phase-Steady (some s) =
        search (steady_rules, keep_expired-Steady, remove_expired-Steady, monitor_direct-Steady)

visit-Steady : (now : ℕ) (current : Dict LocalPeer) (key : Text) → Steady (visit now current key)
unfolding visit
visit-Steady now current key = search (steady_rules, lease_phase-Steady)

visit_all-Steady :
    (now : ℕ) (current : Dict LocalPeer) (keys : List Text) → Steady (visit_all now current keys)
unfolding visit_all
visit_all-Steady now current [] = search steady_rules
visit_all-Steady now current (k ∷ keys) =
    Steady-bind _ _ (visit-Steady now current k)
      λ v. Steady-bind _ _ (visit_all-Steady now current keys) λ p. Steady-pure _

launch_all-Steady : (l : List (Text × ℕ)) → Steady (launch_all l)
unfolding launch_all
launch_all-Steady [] = search steady_rules
launch_all-Steady ((k, g) ∷ l) = Steady-bind _ _ (Steady-launch _) λ u. launch_all-Steady l

monitor_peers-Steady :
    (now : ℕ) (peers : Result (Dict LocalPeer)) (keys : List Text)
    → Steady (monitor_peers now peers keys)
unfolding monitor_peers
monitor_peers-Steady now peers keys =
    search (steady_rules, visit_all-Steady, launch_all-Steady) depth 9

monitor_keys-Steady :
    (now : ℕ) (peers : Result (Dict LocalPeer)) (keys : List Text)
    → Steady (monitor_keys now peers keys)
unfolding monitor_keys
monitor_keys-Steady now peers [] = search steady_rules
monitor_keys-Steady now peers (k ∷ keys) = monitor_peers-Steady now peers (k ∷ keys)

pub monitor_once-Steady :
    (now : ℕ) (peers : Result (Dict LocalPeer)) → Steady (monitor_once now peers)
unfolding monitor_once
monitor_once-Steady now peers = search (steady_rules, monitor_keys-Steady)
