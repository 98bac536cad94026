-- ===== src/Agent/Startup.antt =====
-- `load_state` of p2p/wireguard-p2p/linux/p2p_agent.py: the states of the file, with no worker.
use wireguard_p2p.Base.{ℕ, false, [], ◌∷◌, Option, none, some}
use wireguard_p2p.Base.Dict.{Dict}
use wireguard_p2p.Agent.{Mode, idle, probe, direct, confirm6, PeerState}
use wireguard_p2p.Agent.Monad.{Act, pure, ◌>>=◌, next_generation}

abbrev idle_if_probe : Mode → Mode
idle_if_probe probe = idle
idle_if_probe idle = idle
idle_if_probe direct = direct
idle_if_probe confirm6 = confirm6

abbrev pub revived : ℕ → PeerState → PeerState
revived g s = record s {
  worker_running = false;
  generation = g;
  mode = idle_if_probe s.mode;
  started = 0;
  baseline_handshake = 0;
}

unfoldable pub revive_all : Dict PeerState → Act (Dict PeerState)
unfolding ◌>>=◌ next_generation
revive_all [] = pure []
revive_all ((k, s) ∷ d) = do
  g ← next_generation s.generation
  rest ← revive_all d
  pure ((k, revived g s) ∷ rest)

-- `load_state()`; `none` where the file cannot be read. The result becomes `STATES`.
unfoldable pub load_state : Option (Dict PeerState) → Act (Dict PeerState)
unfolding revive_all pure
load_state none = pure []
load_state (some saved) = revive_all saved
