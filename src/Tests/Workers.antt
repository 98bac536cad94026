-- ===== src/Tests/Workers.antt =====
-- The end of a probe worker, at one that polls for a second.
use wireguard_p2p.Base.{ℕ, zero, suc, ◌+◌, ◌≡◌, true, false, List, [], ◌∷◌, none, arith}
use wireguard_p2p.Base.Clock.{seconds}
use wireguard_p2p.Base.Text.{text, text_eq}
use wireguard_p2p.Result.{ok}
use wireguard_p2p.Agent.{Agent}
use wireguard_p2p.Agent.Worker.Run.{Seen, Counter, done, poll, probe_worker}
use wireguard_p2p.Agent.Worker.Run.Ends.{
  worker_run, worker_run-done, probe_poll_interval, IsClocked, after_section,
}
use wireguard_p2p.Tests.Data.{agent, peer_key, peer_state, seen4}

-- The peer is still probed by this worker, and its endpoint does not answer.
abbrev probed_agent : Agent
probed_agent = record agent {
  states = (peer_key, record peer_state { worker_running = true }) ∷ [];
}

abbrev seen_at : ℕ → Seen
seen_at t = record { now = t; monotonic = t; stop = false; local = ok none; native6 = false }

-- Rounds a quarter of a second apart.
abbrev observed : ℕ → ℕ → List (Agent × Seen)
observed zero t = []
observed (suc n) t = (probed_agent, seen_at t) ∷ observed n (t + probe_poll_interval)

abbrev polling : Counter
polling = poll seen4 [] (text "10.0.0.7") 0 (seconds 1)

observed-IsClocked : IsClocked peer_key 3 0 polling (observed 8 0)
unfolding IsClocked after_section probe_worker text_eq
observed-IsClocked = (
  omega arith,
  (
    omega arith,
    (omega arith, (omega arith, (omega arith, (omega arith, (omega arith, (omega arith, tt)))))),
  ),
)

worker_run-done_example : worker_run peer_key 3 polling (observed 8 0) ≡ done
worker_run-done_example =
    worker_run-done peer_key 3 0 polling (observed 8 0) tt observed-IsClocked (omega arith)
