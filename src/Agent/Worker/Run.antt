-- ===== src/Agent/Worker/Run.antt =====
-- The two threads of p2p/wireguard-p2p/linux/p2p_agent.py as machines: a program counter, and one
-- atomic section at each step. What the thread sees of the clock and the kernel is an observation.
pub mod Ends
use wireguard_p2p.Base.{
  ℕ, ◌+◌, Bool, true, false, not, ◌&&◌, ◌||◌, List, [], ◌∷◌, Option, none, some, leb, ltb,
  if◌then◌else◌,
}
use wireguard_p2p.Base.Clock.{seconds}
use wireguard_p2p.Base.Text.{Text, is_empty}
use wireguard_p2p.Result.{Result}
use wireguard_p2p.Candidates.{Candidate}
use wireguard_p2p.Agent.{LocalPeer, probe, confirm6, confirm_thread}
use wireguard_p2p.Agent.Monad.{Act, pure, lift, gets, catch, ◌>>=◌, ◌>>◌, when, launch}
use wireguard_p2p.Agent.Session.{handshake_of}
use wireguard_p2p.Agent.Worker.{
  probe_generation_current, probe_begin, probe_nothing, Setup, superseded, next_candidate, probing,
  probe_setup, probe_promote, probe_failed, candidate_probe_window, should_confirmation_rekey,
  actual_endpoint, run_peer_worker_end,
}
use wireguard_p2p.Agent.Worker.Confirm.{
  confirm_begin, confirm_finish, confirm_failed, just_shook_hands,
}

-- What a thread sees at one step: the clocks, the stop event, what `wg show` says of the
-- peer, and whether the host has a usable IPv6 address.
pub record Seen : Type 0 where
  pub now : ℕ
  pub monotonic : ℕ
  pub stop : Bool
  pub local : Result (Option LocalPeer)
  pub native6 : Bool

pub data Counter : Type 0 where
  start nothing ending done : Counter
  next : List Candidate → Text → Counter
  poll : Candidate → List Candidate → Text → ℕ → ℕ → Counter

abbrev pub no_candidates : List Candidate → Bool
no_candidates [] = true
no_candidates (c ∷ cs) = false

abbrev pub after_begin : Option (List Candidate × Text) → Counter
after_begin none = ending
after_begin (some (cs, ip)) = if no_candidates cs || is_empty ip then nothing else next cs ip

abbrev pub after_setup : Candidate → List Candidate → Text → ℕ → ℕ → Setup → Counter
after_setup c cs ip baseline deadline superseded = ending
after_setup c cs ip baseline deadline next_candidate = next cs ip
after_setup c cs ip baseline deadline probing = poll c cs ip baseline deadline

unfoldable pub setup_step : Text → ℕ → Candidate → List Candidate → Text → Seen → Act Counter
unfolding ◌>>=◌ probe_setup candidate_probe_window
setup_step key generation c cs ip seen = do
  local ← lift seen.local
  let baseline = handshake_of local
  r ← probe_setup key generation c baseline seen.now
  pure (after_setup c cs ip baseline (seen.monotonic + candidate_probe_window c seen.native6) r)

unfoldable pub next_step : Text → ℕ → Candidate → List Candidate → Text → Seen → Act Counter
unfolding ◌>>=◌ probe_generation_current setup_step
next_step key generation c cs ip seen = do
  current ← gets (probe_generation_current key generation)
  if current then setup_step key generation c cs ip seen else pure ending

unfoldable pub promote_step : Text → ℕ → Candidate → Text → LocalPeer → Seen → Act Counter
unfolding ◌>>=◌ probe_promote should_confirmation_rekey launch
promote_step key generation c ip local seen = do
  promoted ← probe_promote key generation ip c local seen.now
  when (promoted && should_confirmation_rekey c seen.native6)
      (launch (confirm_thread key generation ip (actual_endpoint local c.endpoint)))
  pure ending

-- `int(local.get("latest_handshake", 0) or 0) <= baseline`, or no peer
abbrev pub no_handshake : ℕ → Option LocalPeer → Bool
no_handshake baseline none = true
no_handshake baseline (some local) = leb local.latest_handshake baseline

abbrev pub seen_peer : Text → ℕ → Candidate → Text → Seen → Option LocalPeer → Act Counter
seen_peer key generation c ip seen none = pure ending
seen_peer key generation c ip seen (some local) = promote_step key generation c ip local seen

unfoldable pub poll_peer : Text → ℕ → Candidate → List Candidate → Text → ℕ → ℕ → Seen → Act Counter
unfolding ◌>>=◌ promote_step
poll_peer key generation c cs ip baseline deadline seen = do
  local ← lift seen.local
  if no_handshake baseline local
      then pure (poll c cs ip baseline deadline)
      else seen_peer key generation c ip seen local

unfoldable pub poll_step : Text → ℕ → Candidate → List Candidate → Text → ℕ → ℕ → Seen → Act Counter
unfolding ◌>>=◌ probe_generation_current poll_peer
poll_step key generation c cs ip baseline deadline seen = do
  current ← gets (probe_generation_current key generation)
  if seen.stop || not current
      then pure ending
      else poll_peer key generation c cs ip baseline deadline seen

-- One section of `_probe_worker`.
unfoldable pub probe_section : Text → ℕ → Counter → Seen → Act Counter
unfolding ◌>>=◌ probe_begin probe_nothing next_step poll_step probe_failed run_peer_worker_end
probe_section key generation start seen = do w ← probe_begin key generation; pure (after_begin w)
probe_section key generation nothing seen = do probe_nothing key generation; pure ending
probe_section key generation (next [] ip) seen = do
  probe_failed key generation seen.now
  pure ending
probe_section key generation (next (c ∷ cs) ip) seen = next_step key generation c cs ip seen
probe_section key generation (poll c cs ip baseline deadline) seen =
    if ltb seen.monotonic deadline
    then poll_step key generation c cs ip baseline deadline seen
    else pure (next cs ip)
probe_section key generation ending seen = do
  run_peer_worker_end probe key generation seen.now
  pure done
probe_section key generation done seen = pure done

-- Where an exception leads: to the `finally` of `run_peer_worker`, or out of it.
abbrev pub after_error : Counter → Counter
after_error start = ending
after_error nothing = ending
after_error (next cs ip) = ending
after_error (poll c cs ip baseline deadline) = ending
after_error ending = done
after_error done = done

-- `probe_worker(key, generation)`: an exception ends the worker.
unfoldable pub probe_worker : Text → ℕ → Counter → Seen → Act Counter
unfolding catch probe_section
probe_worker key generation pc seen =
    catch (probe_section key generation pc seen) (pure (after_error pc))

pub data Confirming : Type 0 where
  delay finalize over : Confirming
  await : ℕ → Confirming

abbrev after_confirm_begin : ℕ → Bool → Confirming
after_confirm_begin deadline true = await deadline
after_confirm_begin deadline false = finalize

unfoldable pub begin_section : Text → ℕ → Text → Text → Seen → Act Confirming
unfolding ◌>>=◌ confirm_begin
begin_section key generation ip endpoint seen = if seen.stop then pure finalize else (do
  on ← confirm_begin key generation ip endpoint seen.now
  pure (after_confirm_begin (seen.monotonic + seconds 8) on))

abbrev handshake_seen : ℕ → Option LocalPeer → Bool
handshake_seen now none = false
handshake_seen now (some local) = just_shook_hands now local

abbrev endpoint_seen : Option LocalPeer → Text → Text
endpoint_seen none endpoint = endpoint
endpoint_seen (some local) endpoint = actual_endpoint local endpoint

unfoldable pub await_peer : Text → ℕ → Text → Text → ℕ → Seen → Act Confirming
unfolding ◌>>=◌ confirm_finish
await_peer key generation ip endpoint deadline seen = do
  local ← lift seen.local
  if not (handshake_seen seen.now local)
      then pure (await deadline)
      else (do confirm_finish key generation ip (endpoint_seen local endpoint); pure finalize)

unfoldable pub await_section : Text → ℕ → Text → Text → ℕ → Seen → Act Confirming
unfolding await_peer
await_section key generation ip endpoint deadline seen =
    if seen.stop then pure finalize else await_peer key generation ip endpoint deadline seen

-- One section of `_confirmation_rekey_worker`.
unfoldable pub confirm_section : Text → ℕ → Text → Text → Confirming → Seen → Act Confirming
unfolding ◌>>=◌ begin_section await_section confirm_failed run_peer_worker_end
confirm_section key generation ip endpoint delay seen =
    begin_section key generation ip endpoint seen
confirm_section key generation ip endpoint (await deadline) seen =
    if ltb seen.monotonic deadline
    then await_section key generation ip endpoint deadline seen
    else (do confirm_failed key generation seen.now; pure finalize)
confirm_section key generation ip endpoint finalize seen = do
  run_peer_worker_end confirm6 key generation seen.now
  pure over
confirm_section key generation ip endpoint over seen = pure over

-- `confirmation_rekey_worker(...)`
unfoldable pub confirmation_rekey_worker :
    Text → ℕ → Text → Text → Confirming → Seen → Act Confirming
unfolding catch confirm_section
confirmation_rekey_worker key generation ip endpoint pc seen =
    catch (confirm_section key generation ip endpoint pc seen) (pure finalize)
