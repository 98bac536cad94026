-- ===== src/Agent/Monitor/Quiet.antt =====
-- Threads and failures in a pass of `monitor_once` of p2p/wireguard-p2p/linux/p2p_agent.py.
use wireguard_p2p.Base.{ℕ, ◌≡◌, ◌∙◌, sym, refl, Bool, List, [], ◌∷◌, Option, none, some}
use wireguard_p2p.Base.Dict.{Dict}
use wireguard_p2p.Base.Text.{Text}
use wireguard_p2p.Result.{Error, Result, ok, err, err-ok}
use wireguard_p2p.Agent.{Agent, PeerState, LocalPeer}
use wireguard_p2p.Agent.Monad.{pure, lift, gets, ◌>>=◌, when, save_state, launch}
use wireguard_p2p.Agent.Offer.{claim}
use wireguard_p2p.Agent.Quiet.{
  Quiet, quiet_rules, Quiet-bind, Quiet-pure, Quiet-lift, LaunchesLast, last-bind, last-pure,
}
use wireguard_p2p.Agent.Monitor.{
  claim_visit, monitor_retry, clear_probe, probe_phase, monitor_probe, drop_expired, restart_peer,
  lose_direct, keep_path, direct_phase, monitor_direct, keep_expired, remove_expired, lease_phase,
  visit, visit_all, launch_all, monitor_peers, monitor_keys, monitor_once,
}

claim-Quiet : (key : Text) → Quiet (claim key)
unfolding claim
claim-Quiet key = search quiet_rules depth 9

claim_visit-Quiet : (key : Text) → Quiet (claim_visit key)
unfolding claim_visit
claim_visit-Quiet key = search (quiet_rules, claim-Quiet)

module _ (key : Text) (now : ℕ) where
  monitor_retry-Quiet : (c : Bool) → Quiet (monitor_retry key now c)
  unfolding monitor_retry
  monitor_retry-Quiet c = search (quiet_rules, claim_visit-Quiet)

  clear_probe-Quiet : Quiet (clear_probe key now)
  unfolding clear_probe
  clear_probe-Quiet = search (quiet_rules, monitor_retry-Quiet)

  probe_phase-Quiet : (c : Bool) (s : Option PeerState) → Quiet (probe_phase key now c s)
  unfolding probe_phase
  probe_phase-Quiet c none = search quiet_rules
  probe_phase-Quiet c (some s) = search (quiet_rules, clear_probe-Quiet, monitor_retry-Quiet)

  monitor_probe-Quiet : (c : Bool) → Quiet (monitor_probe key now c)
  unfolding monitor_probe
  monitor_probe-Quiet c = search (quiet_rules, probe_phase-Quiet)

  drop_expired-Quiet : Quiet (drop_expired key)
  unfolding drop_expired
  drop_expired-Quiet = search quiet_rules depth 9

  restart_peer-Quiet : Quiet (restart_peer key now)
  unfolding restart_peer
  restart_peer-Quiet = search (quiet_rules, monitor_probe-Quiet)

  lose_direct-Quiet : (s : PeerState) → Quiet (lose_direct key now s)
  unfolding lose_direct
  lose_direct-Quiet s = search (quiet_rules, drop_expired-Quiet, restart_peer-Quiet) depth 9

  module _ (l : Option LocalPeer) where
    keep_path-Quiet : (c : Bool) → Quiet (keep_path key l c)
    unfolding keep_path
    keep_path-Quiet c = search quiet_rules

    direct_phase-Quiet :
        (ip : Text) (c : Bool) (s : Option PeerState) → Quiet (direct_phase key now l ip c s)
    unfolding direct_phase
    direct_phase-Quiet ip c none = search quiet_rules
    direct_phase-Quiet ip c (some s) =
        search (quiet_rules, keep_path-Quiet, lose_direct-Quiet, monitor_probe-Quiet) depth 9

    monitor_direct-Quiet : (ip : Text) (c : Bool) → Quiet (monitor_direct key now l ip c)
    unfolding monitor_direct
    monitor_direct-Quiet ip c = search (quiet_rules, direct_phase-Quiet)

    keep_expired-Quiet : (ip : Text) → Quiet (keep_expired key now l ip)
    unfolding keep_expired
    keep_expired-Quiet ip = search (quiet_rules, monitor_direct-Quiet)

    remove_expired-Quiet : Quiet (remove_expired key l)
    unfolding remove_expired
    remove_expired-Quiet = search quiet_rules depth 12

    lease_phase-Quiet : (s : Option PeerState) → Quiet (lease_phase key now l s)
    unfolding lease_phase
    lease_phase-Quiet none = search quiet_rules
    lease_phase-Quiet (some s) =
        search (quiet_rules, keep_expired-Quiet, remove_expired-Quiet, monitor_direct-Quiet)

visit-Quiet : (now : ℕ) (current : Dict LocalPeer) (key : Text) → Quiet (visit now current key)
unfolding visit
visit-Quiet now current key = search (quiet_rules, lease_phase-Quiet)

visit_all-Quiet :
    (now : ℕ) (current : Dict LocalPeer) (keys : List Text) → Quiet (visit_all now current keys)
unfolding visit_all
visit_all-Quiet now current [] = search quiet_rules
visit_all-Quiet now current (k ∷ keys) =
    Quiet-bind _ _ (visit-Quiet now current k)
      λ v. Quiet-bind _ _ (visit_all-Quiet now current keys) λ p. Quiet-pure _

launch_all-ok : (l : List (Text × ℕ)) (a : Agent) → (launch_all l a).0 ≡ ok tt
unfolding launch_all ◌>>=◌ pure launch
launch_all-ok [] a = refl
launch_all-ok ((k, g) ∷ l) a = launch_all-ok l _

last-launch_all : (l : List (Text × ℕ)) → LaunchesLast (launch_all l)
last-launch_all l = record { at = λ a e h. absurd (err-ok (sym h ∙ launch_all-ok l a)) }

monitor_peers-last :
    (now : ℕ) (peers : Result (Dict LocalPeer)) (keys : List Text)
    → LaunchesLast (monitor_peers now peers keys)
unfolding monitor_peers
monitor_peers-last now peers keys = last-bind (lift peers) _ (Quiet-lift peers) λ current.
    last-bind (visit_all now current keys) _ (visit_all-Quiet now current keys) λ p.
      last-bind (when p.changed save_state) _ (search quiet_rules) λ u. last-launch_all p.launches

monitor_keys-last :
    (now : ℕ) (peers : Result (Dict LocalPeer)) (keys : List Text)
    → LaunchesLast (monitor_keys now peers keys)
unfolding monitor_keys
monitor_keys-last now peers [] = last-pure tt
monitor_keys-last now peers (k ∷ keys) = monitor_peers-last now peers (k ∷ keys)

monitor_once-last :
    (now : ℕ) (peers : Result (Dict LocalPeer)) → LaunchesLast (monitor_once now peers)
unfolding monitor_once
monitor_once-last now peers =
    last-bind (gets _) _ (record { at = λ a. refl }) λ keys. monitor_keys-last now peers keys

-- A pass that raises, because `wg` or the disk fails, has started no probe: also not for the peers
-- that it had claimed by then.
pub monitor_once-failed :
    (now : ℕ) (peers : Result (Dict LocalPeer)) (a : Agent) (e : Error)
    → (monitor_once now peers a).0 ≡ err e
    → (monitor_once now peers a).1.launched ≡ a.launched
monitor_once-failed now peers = (monitor_once-last now peers).at
