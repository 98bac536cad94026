-- ===== src/Agent/Worker/Confirm.antt =====
-- `_confirmation_rekey_worker` of p2p/wireguard-p2p/linux/p2p_agent.py, section by section.
use wireguard_p2p.Base.{
  ℕ, ◌+◌, Bool, true, false, not, ◌&&◌, ◌++◌, Option, none, some, leb, ◌==◌, if◌then◌else◌,
}
use wireguard_p2p.Base.Clock.{seconds}
use wireguard_p2p.Base.Text.{Text, text, text_eq}
use wireguard_p2p.Candidates.{host6}
use wireguard_p2p.Agent.{
  PeerState, LocalPeer, direct, confirm6, wg_remove, wg_allow, keepalive_direct, keepalive_probe,
}
use wireguard_p2p.Agent.Monad.{Act, pure, catch, ◌>>=◌, ◌>>◌, state_of, update, wg_set, save_state}
use wireguard_p2p.Agent.Worker.{owned_in, same_mode, fail_probe}

-- Is the state still the direct one that the confirmation was started for?
abbrev pub awaits_confirmation : ℕ → Text → Option PeerState → Bool
awaits_confirmation generation endpoint none = false
awaits_confirmation generation endpoint (some s) =
    s.generation == generation && same_mode s.mode direct && text_eq s.endpoint endpoint

abbrev pub start_confirm : ℕ → PeerState → PeerState
start_confirm now s = record s {
  mode = confirm6;
  worker_running = true;
  started = now;
  baseline_handshake = 0;
}

-- Drop the kernel's peer and set it up anew.
unfoldable pub recreate_peer : Text → Text → Text → Act Bool
unfolding ◌>>=◌ wg_set
recreate_peer key peer_ip endpoint = do
  wg_set (wg_remove key)
  wg_set (wg_allow key (peer_ip ++ text "/32") endpoint keepalive_probe)
  pure true

unfoldable pub saved_true : Act Bool
unfolding ◌>>=◌ save_state
saved_true = do save_state; pure true

unfoldable pub setup_failed : Text → ℕ → Act Bool
unfolding ◌>>=◌ fail_probe
setup_failed key now = do fail_probe key now; pure false

abbrev pub after_recreate : Text → ℕ → Bool → Act Bool
after_recreate key now true = saved_true
after_recreate key now false = setup_failed key now

unfoldable pub rekey : Text → Text → Text → ℕ → Act Bool
unfolding ◌>>=◌ catch update recreate_peer saved_true setup_failed
rekey key peer_ip endpoint now = do
  update key (start_confirm now)
  set ← catch (recreate_peer key peer_ip endpoint) (pure false)
  after_recreate key now set

-- The first section, after the delay. The answer: does the confirmation go on?
unfoldable pub confirm_begin : Text → ℕ → Text → Text → ℕ → Act Bool
unfolding ◌>>=◌ state_of rekey text_eq
confirm_begin key generation peer_ip endpoint now = do
  s ← state_of key
  if awaits_confirmation generation endpoint s then rekey key peer_ip endpoint now else pure false

-- `latest and time.time() - latest <= 5`
abbrev pub just_shook_hands : ℕ → LocalPeer → Bool
just_shook_hands now local =
    not (local.latest_handshake == 0) && leb now (seconds (local.latest_handshake + 5))

abbrev pub confirmed : Text → PeerState → PeerState
confirmed endpoint s = record s {
  mode = direct;
  endpoint = endpoint;
  endpoint_type = some host6;
  selected_type = some host6;
  failures = 0;
  retry_after = 0;
  worker_running = false;
  started = 0;
  baseline_handshake = 0;
}

unfoldable pub finish_confirm : Text → Text → Act Bool
unfolding ◌>>=◌ update save_state
finish_confirm key endpoint = do update key (confirmed endpoint); save_state; pure true

abbrev pub after_allow : Text → Text → Bool → Act Bool
after_allow key endpoint true = finish_confirm key endpoint
after_allow key endpoint false = pure false

unfoldable pub allow_confirmed : Text → Text → Text → Act Bool
unfolding ◌>>=◌ catch wg_set finish_confirm
allow_confirmed key peer_ip endpoint = do
  set ←
      catch
        (wg_set (wg_allow key (peer_ip ++ text "/32") endpoint keepalive_direct) >>= λ _. pure true)
        (pure false)
  after_allow key endpoint set

-- The section after a fresh handshake. The answer: is the path confirmed?
unfoldable pub confirm_finish : Text → ℕ → Text → Text → Act Bool
unfolding ◌>>=◌ state_of allow_confirmed
confirm_finish key generation peer_ip endpoint = do
  s ← state_of key
  if owned_in confirm6 generation s then allow_confirmed key peer_ip endpoint else pure false

-- The section after the window has passed with no handshake.
unfoldable pub confirm_failed : Text → ℕ → ℕ → Act Unit
unfolding ◌>>=◌ state_of fail_probe
confirm_failed key generation now = do
  s ← state_of key
  if owned_in confirm6 generation s then fail_probe key now else pure tt
