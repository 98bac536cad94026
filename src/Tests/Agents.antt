-- ===== src/Tests/Agents.antt =====
-- The theorems on the agent, at inputs of the small network.
use wireguard_p2p.Base.{◌≡◌, ◌<◌, refl, true, false, [], ◌∷◌, some, arith}
use wireguard_p2p.Base.Dict
use wireguard_p2p.Base.Text.{text, text_eq}
use wireguard_p2p.Result.{ok, os_error}
use wireguard_p2p.Agent.Invariant.{Sane, AllSane, put-AllSane}
use wireguard_p2p.Agent.Invariant.Reach.{Reach-Sane}
use wireguard_p2p.Agent.{Agent, direct, PeerState, responder}
use wireguard_p2p.Agent.Monad
use wireguard_p2p.Agent.Monitor.{monitor_once}
use wireguard_p2p.Agent.Monitor.Quiet.{monitor_once-failed}
use wireguard_p2p.Agent.Worker.{probe_generation_current}
use wireguard_p2p.Agent.Generation.Reach.{here, after, monitor, superseded_forever}
use wireguard_p2p.Agent.Offer.{apply_offer}
use wireguard_p2p.Agent.Frame.Offers.{apply_offer-others, apply_removal-others}
use wireguard_p2p.Agent.Remove.{disconnect, expired, apply_removal}
use wireguard_p2p.Agent.Remove.Outcome.{Gone, IsKept, apply_removal-Gone, apply_removal-IsKept}
use wireguard_p2p.Agent.Validate.{retry_delay, server_initiator_owns_pair}
use wireguard_p2p.Agent.Validate
use wireguard_p2p.Agent.Validate.Order.{server_initiator_owns_pair-one, retry_delay-rises}
use wireguard_p2p.Coordinator.Push
use wireguard_p2p.Ip.Read.{ip_address}
use wireguard_p2p.Agent.Session.{direct_peer_healthy}
use wireguard_p2p.Base.{not}
use wireguard_p2p.Tests.Data.{
  peer_key, other_key, peer_state, agent, broken_agent, direct_peer, offer_of, removal_of,
}

superseded_forever_example :
    probe_generation_current peer_key 2 (monitor_once 7 (ok []) agent).1 ≡ false
unfolding Dict.get text_eq
superseded_forever_example =
    superseded_forever peer_key 2 (after here (monitor 7 (ok []))) (omega arith) refl

apply_offer-others_example :
    Dict.get other_key (apply_offer responder (offer_of (text "s2") 60) 7 (ok []) agent).1.states
    ≡ some peer_state
unfolding Dict.get text_eq
apply_offer-others_example =
    apply_offer-others responder (offer_of (text "s2") 60) 7 (ok []) agent other_key refl

apply_removal-others_example :
    Dict.get other_key (apply_removal (removal_of disconnect) 7 (ok []) agent).1.states
    ≡ some peer_state
unfolding Dict.get text_eq
apply_removal-others_example =
    apply_removal-others (removal_of disconnect) 7 (ok []) agent other_key refl

apply_removal-Gone_example : Gone peer_key (apply_removal (removal_of disconnect) 7 (ok []) agent).1
unfolding apply_removal Monad.state_of
apply_removal-Gone_example = apply_removal-Gone (removal_of disconnect) 7 [] agent refl

apply_removal-IsKept_example :
    ((apply_removal
        (removal_of expired)
        1005000000
        (ok ((peer_key, direct_peer) ∷ []))
        agent).1.issued
      ≡ [])
    × ((apply_removal
          (removal_of expired)
          1005000000
          (ok ((peer_key, direct_peer) ∷ []))
          agent).1.launched
        ≡ [])
    × ((t : PeerState) × (Dict.get peer_key
            (apply_removal
              (removal_of expired)
              1005000000
              (ok ((peer_key, direct_peer) ∷ []))
              agent).1.states
          ≡ some t)
        × IsKept peer_state t)
unfolding Dict.get text_eq direct_peer_healthy
apply_removal-IsKept_example =
    apply_removal-IsKept (removal_of expired) 1005000000 ((peer_key, direct_peer) ∷ []) agent
      peer_state refl refl refl refl

monitor_once-failed_example : (monitor_once 9 (ok []) broken_agent).1.launched ≡ []
unfolding monitor_once
monitor_once-failed_example = monitor_once-failed 9 (ok []) broken_agent os_error refl

-- The probe that the failed offer had claimed is marked as running, and nobody started it.
failed_offer_strands :
    (o : PeerState) × (Dict.get peer_key
        (apply_offer responder (offer_of (text "s2") 60) 7 (ok []) broken_agent).1.states
      ≡ some o)
    × (o.worker_running ≡ true)
unfolding apply_offer Dict.get text_eq
failed_offer_strands = (_, refl, refl)

-- The peer that the failed pass had claimed is left with a running worker that nobody started.
failed_pass_strands :
    (o : PeerState) × (Dict.get peer_key (monitor_once 9 (ok []) broken_agent).1.states ≡ some o)
    × (o.worker_running ≡ true)
unfolding monitor_once Dict.get text_eq
failed_pass_strands = (_, refl, refl)

server_initiator_owns_pair-one_example :
    (Validate.server_initiator_owns_pair (text "10.0.0.2") (text "10.0.0.3")
      ≡ not (Validate.server_initiator_owns_pair (text "10.0.0.3") (text "10.0.0.2")))
    × (Push.server_initiator_owns_pair (text "10.0.0.2") (text "10.0.0.3")
        ≡ Validate.server_initiator_owns_pair (text "10.0.0.2") (text "10.0.0.3"))
unfolding ip_address
server_initiator_owns_pair-one_example =
    server_initiator_owns_pair-one (text "10.0.0.2") (text "10.0.0.3") 167772162 167772163 refl refl
      (λ e. absurd (omega (arith, e)))

retry_delay-rises_example :
    (retry_delay 2 < retry_delay 4) × (retry_delay 1 ≡ 3) × (retry_delay 7 ≡ 300)
retry_delay-rises_example =
    retry_delay-rises 2 4 7 (omega arith) (omega arith) (omega arith) (omega arith)

-- A peer whose lease ended while its direct path works.
abbrev leased_state : PeerState
leased_state = record peer_state { lease_expires = 5 }

abbrev leased_agent : Agent
leased_agent = record agent { states = (peer_key, leased_state) ∷ [] }

abbrev outlived_state : PeerState
outlived_state = record leased_state {
  control_expired = true;
  lease_expires = 0;
  mode = direct;
  endpoint = text "8.8.8.8:51820";
}

no_states : AllSane []
unfolding Dict.get
no_states key s e = cc

leased_sane : AllSane leased_agent.states
unfolding Dict.put
leased_sane =
    put-AllSane peer_key leased_state []
      (refl, record { short = omega arith; ordered = (tt, tt); distinct = (tt, tt) }) no_states

Reach-Sane_example : Sane outlived_state
unfolding monitor_once Dict.get text_eq direct_peer_healthy
Reach-Sane_example =
    Reach-Sane {a = leased_agent} peer_key outlived_state
      (after here (monitor 1005000000 (ok ((peer_key, direct_peer) ∷ [])))) leased_sane refl
