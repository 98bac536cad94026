-- ===== src/Agent/Generation/Reach.antt =====
-- The threads of p2p/wireguard-p2p/linux/p2p_agent.py as interleaved sections.
use wireguard_p2p.Base.{ℕ, ◌≤◌, ◌≡◌, true, false, List, Option, none, some, arith}
use wireguard_p2p.Base.Dict
use wireguard_p2p.Base.Dict.{Dict}
use wireguard_p2p.Base.Text.{Text}
use wireguard_p2p.Json.{Json}
use wireguard_p2p.Result.{Result}
use wireguard_p2p.Agent.{Agent, PeerState, LocalPeer, Controller}
use wireguard_p2p.Agent.Monitor.{monitor_once}
use wireguard_p2p.Agent.Offer.{handle_offer}
use wireguard_p2p.Agent.Remove.{handle_remove, cleanup_initiator_states}
use wireguard_p2p.Agent.Worker.{has_generation, owned, probe_generation_current}
use wireguard_p2p.Agent.Worker.Run.{
  Seen, Counter, probe_worker, Confirming, confirmation_rekey_worker,
}
use wireguard_p2p.Agent.Generation.{Grows, Grows-refl, Grows-trans, holds}
use wireguard_p2p.Agent.Generation.Rules.{handle_offer-Steady}
use wireguard_p2p.Agent.Generation.Sections.{
  handle_remove-Steady, monitor_once-Steady, cleanup_initiator_states-Steady,
}
use wireguard_p2p.Agent.Generation.Workers.{probe_worker-Steady, confirmation_rekey_worker-Steady}

-- One section of one thread: a request, the monitor, the initiator's offers and cleanup, or a step
-- of a worker, with whatever the clock, the kernel and the network answer.
pub data Step (a : Agent) : Agent → Type 0 where
  offer :
      (c : Controller) (me : Text) (now : ℕ) (lan : Result Text) (peers : Result (Dict LocalPeer))
      (body : Json)
      → Step a (handle_offer c me now lan peers body a).1
  remove :
      (me : Text) (now : ℕ) (peers : Result (Dict LocalPeer)) (body : Json)
      → Step a (handle_remove me now peers body a).1
  monitor : (now : ℕ) (peers : Result (Dict LocalPeer)) → Step a (monitor_once now peers a).1
  cleanup :
      (active : List Text) (peers : Result (Dict LocalPeer))
      → Step a (cleanup_initiator_states active peers a).1
  probing :
      (key : Text) (g : ℕ) (pc : Counter) (seen : Seen) → Step a (probe_worker key g pc seen a).1
  confirming :
      (key : Text) (g : ℕ) (ip endpoint : Text) (pc : Confirming) (seen : Seen)
      → Step a (confirmation_rekey_worker key g ip endpoint pc seen a).1

pub data Reach (a : Agent) : Agent → Type 0 where
  here : Reach a a
  after : {b c : Agent} → Reach a b → Step b c → Reach a c

Step-Grows : {a b : Agent} → Step a b → Grows a b
Step-Grows {a} (offer c me now lan peers body) = (handle_offer-Steady c me now lan peers body).at a
Step-Grows {a} (remove me now peers body) = (handle_remove-Steady me now peers body).at a
Step-Grows {a} (monitor now peers) = (monitor_once-Steady now peers).at a
Step-Grows {a} (cleanup active peers) = (cleanup_initiator_states-Steady active peers).at a
Step-Grows {a} (probing key g pc seen) = (probe_worker-Steady key g pc seen).at a
Step-Grows {a} (confirming key g ip endpoint pc seen) =
    (confirmation_rekey_worker-Steady key g ip endpoint pc seen).at a

pub Reach-Grows : {a b : Agent} → Reach a b → Grows a b
Reach-Grows {a} here = Grows-refl a
Reach-Grows (after r s) = Grows-trans (Reach-Grows r) (Step-Grows s)

current_holds : (g : ℕ) (o : Option PeerState) → owned g o ≡ true → has_generation g o ≡ true
current_holds g none h = h
current_holds g (some s) h = ground arith

-- Whatever the threads do, in whatever order: a worker whose generation was handed out before and
-- which a state no longer holds is never current again.
pub superseded_forever :
    {a b : Agent} (key : Text) (g : ℕ)
    → Reach a b
    → g ≤ a.last_generation
    → holds key g a ≡ false
    → probe_generation_current key g b ≡ false
unfolding probe_generation_current
superseded_forever {a} {b} key g r le gone =
    ground (arith, current_holds g (Dict.get key b.states), (Reach-Grows r).kept key g)
