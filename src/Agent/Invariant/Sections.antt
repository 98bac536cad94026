-- ===== src/Agent/Invariant/Sections.antt =====
-- The invariant and the sections of `handle_remove`, `monitor_once` and the cleanups of
-- p2p/wireguard-p2p/linux/p2p_agent.py.
use wireguard_p2p.Base.{refl, ℕ, Bool, List, [], ◌∷◌, Option, none, some}
use wireguard_p2p.Base.Dict.{Dict}
use wireguard_p2p.Base.Text.{Text}
use wireguard_p2p.Json.{Json}
use wireguard_p2p.Result.{Result}
use wireguard_p2p.Agent.{PeerState, LocalPeer}
use wireguard_p2p.Agent.Monitor.{
  outlive_control, claim_visit, monitor_retry, clear_probe, probe_phase, monitor_probe,
  drop_expired, restart_peer, lose_direct, keep_path, direct_phase, monitor_direct, keep_expired,
  remove_expired, lease_phase, visit, visit_all, launch_all, monitor_peers, monitor_keys,
  monitor_once,
}
use wireguard_p2p.Agent.Remove.{
  expire_control, Removal, preserve, forget, remove_matching, apply_removal, handle_remove,
  cleanup_key, cleanup_visit, cleanup_keys, cleanup_initiator_states,
}
use wireguard_p2p.Agent.Invariant.{Keeps, Sane, Keeps-pure, Keeps-bind, Keeps-launch}
use wireguard_p2p.Agent.Invariant.Offers.{keeps_rules, claim-Keeps}

expire_control-Sane : (endpoint : Text) (s : PeerState) → Sane s → Sane (expire_control endpoint s)
expire_control-Sane endpoint s h = (refl, h.1)

outlive_control-Sane :
    (endpoint : Text) (s : PeerState) → Sane s → Sane (outlive_control endpoint s)
outlive_control-Sane endpoint s h = (refl, h.1)

preserve-Keeps : (key : Text) (l : Option LocalPeer) → Keeps (preserve key l)
unfolding preserve
preserve-Keeps key l = search (keeps_rules, expire_control-Sane) depth 9

forget-Keeps : (key : Text) (b : Bool) → Keeps (forget key b)
unfolding forget
forget-Keeps key b = search keeps_rules depth 12

module _ (r : Removal) (now : ℕ) (peers : Result (Dict LocalPeer)) where
  remove_matching-Keeps : Keeps (remove_matching r now peers)
  unfolding remove_matching
  remove_matching-Keeps = search (keeps_rules, preserve-Keeps, forget-Keeps) depth 9

  pub apply_removal-Keeps : Keeps (apply_removal r now peers)
  unfolding apply_removal
  apply_removal-Keeps = search (keeps_rules, remove_matching-Keeps)

pub handle_remove-Keeps :
    (listen_address : Text) (now : ℕ) (peers : Result (Dict LocalPeer)) (data_ : Json)
    → Keeps (handle_remove listen_address now peers data_)
unfolding handle_remove
handle_remove-Keeps listen_address now peers data_ = search (keeps_rules, apply_removal-Keeps)

cleanup_key-Keeps : (current : Dict LocalPeer) (key : Text) → Keeps (cleanup_key current key)
unfolding cleanup_key
cleanup_key-Keeps current key = search keeps_rules depth 12

cleanup_visit-Keeps :
    (active : List Text) (current : Dict LocalPeer) (key : Text)
    → Keeps (cleanup_visit active current key)
unfolding cleanup_visit
cleanup_visit-Keeps active current key = search (keeps_rules, cleanup_key-Keeps) depth 9

cleanup_keys-Keeps :
    (active : List Text) (current : Dict LocalPeer) (keys : List Text)
    → Keeps (cleanup_keys active current keys)
unfolding cleanup_keys
cleanup_keys-Keeps active current [] = search keeps_rules
cleanup_keys-Keeps active current (k ∷ keys) =
    Keeps-bind _ _ (cleanup_visit-Keeps active current k)
      λ v. Keeps-bind _ _ (cleanup_keys-Keeps active current keys) λ c. Keeps-pure _

pub cleanup_initiator_states-Keeps :
    (active : List Text) (peers : Result (Dict LocalPeer))
    → Keeps (cleanup_initiator_states active peers)
unfolding cleanup_initiator_states
cleanup_initiator_states-Keeps active peers = search (keeps_rules, cleanup_keys-Keeps) depth 9

claim_visit-Keeps : (key : Text) → Keeps (claim_visit key)
unfolding claim_visit
claim_visit-Keeps key = search (keeps_rules, claim-Keeps)

module _ (key : Text) (now : ℕ) where
  monitor_retry-Keeps : (c : Bool) → Keeps (monitor_retry key now c)
  unfolding monitor_retry
  monitor_retry-Keeps c = search (keeps_rules, claim_visit-Keeps)

  clear_probe-Keeps : Keeps (clear_probe key now)
  unfolding clear_probe
  clear_probe-Keeps = search (keeps_rules, monitor_retry-Keeps)

  probe_phase-Keeps : (c : Bool) (s : Option PeerState) → Keeps (probe_phase key now c s)
  unfolding probe_phase
  probe_phase-Keeps c none = search keeps_rules
  probe_phase-Keeps c (some s) = search (keeps_rules, clear_probe-Keeps, monitor_retry-Keeps)

  monitor_probe-Keeps : (c : Bool) → Keeps (monitor_probe key now c)
  unfolding monitor_probe
  monitor_probe-Keeps c = search (keeps_rules, probe_phase-Keeps)

  drop_expired-Keeps : Keeps (drop_expired key)
  unfolding drop_expired
  drop_expired-Keeps = search keeps_rules depth 9

  restart_peer-Keeps : Keeps (restart_peer key now)
  unfolding restart_peer
  restart_peer-Keeps = search (keeps_rules, monitor_probe-Keeps)

  lose_direct-Keeps : (s : PeerState) → Keeps (lose_direct key now s)
  unfolding lose_direct
  lose_direct-Keeps s = search (keeps_rules, drop_expired-Keeps, restart_peer-Keeps) depth 9

  module _ (l : Option LocalPeer) where
    keep_path-Keeps : (c : Bool) → Keeps (keep_path key l c)
    unfolding keep_path
    keep_path-Keeps c = search keeps_rules

    direct_phase-Keeps :
        (ip : Text) (c : Bool) (s : Option PeerState) → Keeps (direct_phase key now l ip c s)
    unfolding direct_phase
    direct_phase-Keeps ip c none = search keeps_rules
    direct_phase-Keeps ip c (some s) =
        search (keeps_rules, keep_path-Keeps, lose_direct-Keeps, monitor_probe-Keeps) depth 9

    monitor_direct-Keeps : (ip : Text) (c : Bool) → Keeps (monitor_direct key now l ip c)
    unfolding monitor_direct
    monitor_direct-Keeps ip c = search (keeps_rules, direct_phase-Keeps)

    keep_expired-Keeps : (ip : Text) → Keeps (keep_expired key now l ip)
    unfolding keep_expired
    keep_expired-Keeps ip = search (keeps_rules, monitor_direct-Keeps, outlive_control-Sane)

    remove_expired-Keeps : Keeps (remove_expired key l)
    unfolding remove_expired
    remove_expired-Keeps = search keeps_rules depth 12

    lease_phase-Keeps : (s : Option PeerState) → Keeps (lease_phase key now l s)
    unfolding lease_phase
    lease_phase-Keeps none = search keeps_rules
    lease_phase-Keeps (some s) =
        search (keeps_rules, keep_expired-Keeps, remove_expired-Keeps, monitor_direct-Keeps)

visit-Keeps : (now : ℕ) (current : Dict LocalPeer) (key : Text) → Keeps (visit now current key)
unfolding visit
visit-Keeps now current key = search (keeps_rules, lease_phase-Keeps)

visit_all-Keeps :
    (now : ℕ) (current : Dict LocalPeer) (keys : List Text) → Keeps (visit_all now current keys)
unfolding visit_all
visit_all-Keeps now current [] = search keeps_rules
visit_all-Keeps now current (k ∷ keys) =
    Keeps-bind _ _ (visit-Keeps now current k)
      λ v. Keeps-bind _ _ (visit_all-Keeps now current keys) λ p. Keeps-pure _

launch_all-Keeps : (l : List (Text × ℕ)) → Keeps (launch_all l)
unfolding launch_all
launch_all-Keeps [] = search keeps_rules
launch_all-Keeps ((k, g) ∷ l) = Keeps-bind _ _ (Keeps-launch _) λ u. launch_all-Keeps l

monitor_peers-Keeps :
    (now : ℕ) (peers : Result (Dict LocalPeer)) (keys : List Text)
    → Keeps (monitor_peers now peers keys)
unfolding monitor_peers
monitor_peers-Keeps now peers keys = search (keeps_rules, visit_all-Keeps, launch_all-Keeps) depth 9

monitor_keys-Keeps :
    (now : ℕ) (peers : Result (Dict LocalPeer)) (keys : List Text)
    → Keeps (monitor_keys now peers keys)
unfolding monitor_keys
monitor_keys-Keeps now peers [] = search keeps_rules
monitor_keys-Keeps now peers (k ∷ keys) = monitor_peers-Keeps now peers (k ∷ keys)

pub monitor_once-Keeps :
    (now : ℕ) (peers : Result (Dict LocalPeer)) → Keeps (monitor_once now peers)
unfolding monitor_once
monitor_once-Keeps now peers = search (keeps_rules, monitor_keys-Keeps)
