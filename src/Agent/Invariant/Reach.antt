-- ===== src/Agent/Invariant/Reach.antt =====
-- The invariant in every state that the threads of p2p/wireguard-p2p/linux/p2p_agent.py reach.
use wireguard_p2p.Base.{◌≡◌, some}
use wireguard_p2p.Base.Dict
use wireguard_p2p.Base.Text.{Text}
use wireguard_p2p.Agent.{Agent, PeerState}
use wireguard_p2p.Agent.Generation.Reach.{
  Step, offer, remove, monitor, cleanup, probing, confirming, Reach, here, after,
}
use wireguard_p2p.Agent.Invariant.{Sane, AllSane}
use wireguard_p2p.Agent.Invariant.Offers.{handle_offer-Keeps}
use wireguard_p2p.Agent.Invariant.Sections.{
  handle_remove-Keeps, monitor_once-Keeps, cleanup_initiator_states-Keeps,
}
use wireguard_p2p.Agent.Invariant.Workers.{probe_worker-Keeps, confirmation_rekey_worker-Keeps}

Step-AllSane : {a b : Agent} → Step a b → AllSane a.states → AllSane b.states
Step-AllSane {a} (offer c me now lan peers body) = (handle_offer-Keeps c me now lan peers body).at a
Step-AllSane {a} (remove me now peers body) = (handle_remove-Keeps me now peers body).at a
Step-AllSane {a} (monitor now peers) = (monitor_once-Keeps now peers).at a
Step-AllSane {a} (cleanup active peers) = (cleanup_initiator_states-Keeps active peers).at a
Step-AllSane {a} (probing key g pc seen) = (probe_worker-Keeps key g pc seen).at a
Step-AllSane {a} (confirming key g ip endpoint pc seen) =
    (confirmation_rekey_worker-Keeps key g ip endpoint pc seen).at a

Reach-AllSane : {a b : Agent} → Reach a b → AllSane a.states → AllSane b.states
Reach-AllSane here h = h
Reach-AllSane (after r s) h = Step-AllSane s (Reach-AllSane r h)

-- Whatever the threads do, in whatever order and with whatever failures: a peer that outlived its
-- coordinator has no lease, and the candidates of a peer are at most five, best first and with no
-- endpoint twice, if that held of all peers at the start.
pub Reach-Sane :
    {a b : Agent} (key : Text) (s : PeerState)
    → Reach a b
    → AllSane a.states
    → Dict.get key b.states ≡ some s
    → Sane s
Reach-Sane key s r h e = Reach-AllSane r h key s e
