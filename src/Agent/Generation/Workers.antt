-- ===== src/Agent/Generation/Workers.antt =====
-- Generations in the sections of the two worker threads of p2p/wireguard-p2p/linux/p2p_agent.py.
use wireguard_p2p.Base.{ℕ, Bool, true, false, List, [], ◌∷◌, Option, none, some}
use wireguard_p2p.Base.Text.{Text}
use wireguard_p2p.Candidates.{CandidateType, Candidate}
use wireguard_p2p.Agent.{LocalPeer, Mode}
use wireguard_p2p.Agent.Worker.{
  release, run_peer_worker_end, probe_begin, stop_idle, probe_nothing, begin_candidate, after_setup,
  try_candidate, probe_setup, promote, probe_promote, fail_probe, probe_failed,
}
use wireguard_p2p.Agent.Worker.Confirm.{
  recreate_peer, saved_true, setup_failed, after_recreate, rekey, confirm_begin, finish_confirm,
  after_allow, allow_confirmed, confirm_finish, confirm_failed,
}
use wireguard_p2p.Agent.Worker.Run.{
  Seen, Counter, start, nothing, ending, done, next, poll, setup_step, next_step, promote_step,
  seen_peer, poll_peer, poll_step, probe_section, probe_worker, Confirming, delay, finalize, over,
  await, begin_section, await_peer, await_section, confirm_section, confirmation_rekey_worker,
}
use wireguard_p2p.Agent.Generation.{Steady}
use wireguard_p2p.Agent.Generation.Rules.{steady_rules}

release-Steady : (key : Text) (now : ℕ) → Steady (release key now)
unfolding release
release-Steady key now = search steady_rules depth 12

run_peer_worker_end-Steady :
    (mode : Mode) (key : Text) (g now : ℕ) → Steady (run_peer_worker_end mode key g now)
unfolding run_peer_worker_end
run_peer_worker_end-Steady mode key g now = search (steady_rules, release-Steady)

probe_begin-Steady : (key : Text) (g : ℕ) → Steady (probe_begin key g)
unfolding probe_begin
probe_begin-Steady key g = search steady_rules

stop_idle-Steady : (key : Text) → Steady (stop_idle key)
unfolding stop_idle
stop_idle-Steady key = search steady_rules

probe_nothing-Steady : (key : Text) (g : ℕ) → Steady (probe_nothing key g)
unfolding probe_nothing
probe_nothing-Steady key g = search (steady_rules, stop_idle-Steady)

module _ (key : Text) (c : Candidate) (baseline now : ℕ) where
  begin_candidate-Steady : Steady (begin_candidate key c baseline now)
  unfolding begin_candidate
  begin_candidate-Steady = search steady_rules depth 9

  after_setup-Steady : (b : Bool) → Steady (after_setup key c baseline now b)
  after_setup-Steady true = begin_candidate-Steady
  after_setup-Steady false = search steady_rules

  try_candidate-Steady : Steady (try_candidate key c baseline now)
  unfolding try_candidate
  try_candidate-Steady = search (steady_rules, after_setup-Steady) depth 9

  probe_setup-Steady : (g : ℕ) → Steady (probe_setup key g c baseline now)
  unfolding probe_setup
  probe_setup-Steady g = search (steady_rules, try_candidate-Steady)

promote-Steady :
    (key ip endpoint : Text) (t : CandidateType) (now : ℕ) → Steady (promote key ip endpoint t now)
unfolding promote
promote-Steady key ip endpoint t now = search steady_rules depth 9

probe_promote-Steady :
    (key : Text) (g : ℕ) (ip : Text) (c : Candidate) (l : LocalPeer) (now : ℕ)
    → Steady (probe_promote key g ip c l now)
unfolding probe_promote
probe_promote-Steady key g ip c l now = search (steady_rules, promote-Steady)

fail_probe-Steady : (key : Text) (now : ℕ) → Steady (fail_probe key now)
unfolding fail_probe
fail_probe-Steady key now = search steady_rules depth 9

probe_failed-Steady : (key : Text) (g now : ℕ) → Steady (probe_failed key g now)
unfolding probe_failed
probe_failed-Steady key g now = search (steady_rules, fail_probe-Steady)

ruleset worker_rules = (
  steady_rules, run_peer_worker_end-Steady, probe_begin-Steady, probe_nothing-Steady,
  probe_setup-Steady, probe_promote-Steady, fail_probe-Steady, probe_failed-Steady,
)

module _ (key : Text) (g : ℕ) where
  setup_step-Steady :
      (c : Candidate) (cs : List Candidate) (ip : Text) (w : Seen)
      → Steady (setup_step key g c cs ip w)
  unfolding setup_step
  setup_step-Steady c cs ip w = search worker_rules

  next_step-Steady :
      (c : Candidate) (cs : List Candidate) (ip : Text) (w : Seen)
      → Steady (next_step key g c cs ip w)
  unfolding next_step
  next_step-Steady c cs ip w = search (worker_rules, setup_step-Steady)

  promote_step-Steady :
      (c : Candidate) (ip : Text) (l : LocalPeer) (w : Seen) → Steady (promote_step key g c ip l w)
  unfolding promote_step
  promote_step-Steady c ip l w = search worker_rules depth 9

  seen_peer-Steady :
      (c : Candidate) (ip : Text) (w : Seen) (l : Option LocalPeer)
      → Steady (seen_peer key g c ip w l)
  seen_peer-Steady c ip w none = search worker_rules
  seen_peer-Steady c ip w (some l) = promote_step-Steady c ip l w

  poll_peer-Steady :
      (c : Candidate) (cs : List Candidate) (ip : Text) (b d : ℕ) (w : Seen)
      → Steady (poll_peer key g c cs ip b d w)
  unfolding poll_peer
  poll_peer-Steady c cs ip b d w = search (worker_rules, seen_peer-Steady) depth 9

  poll_step-Steady :
      (c : Candidate) (cs : List Candidate) (ip : Text) (b d : ℕ) (w : Seen)
      → Steady (poll_step key g c cs ip b d w)
  unfolding poll_step
  poll_step-Steady c cs ip b d w = search (worker_rules, poll_peer-Steady) depth 9

  probe_section-Steady : (pc : Counter) (w : Seen) → Steady (probe_section key g pc w)
  unfolding probe_section
  probe_section-Steady start w = search worker_rules
  probe_section-Steady nothing w = search worker_rules
  probe_section-Steady ending w = search worker_rules
  probe_section-Steady done w = search worker_rules
  probe_section-Steady (next [] ip) w = search worker_rules
  probe_section-Steady (next (c ∷ cs) ip) w = next_step-Steady c cs ip w
  probe_section-Steady (poll c cs ip b d) w = search (worker_rules, poll_step-Steady)

  pub probe_worker-Steady : (pc : Counter) (w : Seen) → Steady (probe_worker key g pc w)
  unfolding probe_worker
  probe_worker-Steady pc w = search (steady_rules, probe_section-Steady)

module _ (key ip endpoint : Text) where
  recreate_peer-Steady : Steady (recreate_peer key ip endpoint)
  unfolding recreate_peer
  recreate_peer-Steady = search steady_rules depth 9

  saved_true-Steady : Steady saved_true
  unfolding saved_true
  saved_true-Steady = search steady_rules

  finish_confirm-Steady : Steady (finish_confirm key endpoint)
  unfolding finish_confirm
  finish_confirm-Steady = search steady_rules depth 9

  after_allow-Steady : (b : Bool) → Steady (after_allow key endpoint b)
  after_allow-Steady true = finish_confirm-Steady
  after_allow-Steady false = search steady_rules

  allow_confirmed-Steady : Steady (allow_confirmed key ip endpoint)
  unfolding allow_confirmed
  allow_confirmed-Steady = search (steady_rules, after_allow-Steady) depth 9

  module _ (now : ℕ) where
    setup_failed-Steady : Steady (setup_failed key now)
    unfolding setup_failed
    setup_failed-Steady = search worker_rules

    after_recreate-Steady : (b : Bool) → Steady (after_recreate key now b)
    after_recreate-Steady true = saved_true-Steady
    after_recreate-Steady false = setup_failed-Steady

    rekey-Steady : Steady (rekey key ip endpoint now)
    unfolding rekey
    rekey-Steady = search (steady_rules, recreate_peer-Steady, after_recreate-Steady) depth 9

confirm_begin-Steady :
    (key : Text) (g : ℕ) (ip endpoint : Text) (now : ℕ)
    → Steady (confirm_begin key g ip endpoint now)
unfolding confirm_begin
confirm_begin-Steady key g ip endpoint now = search (steady_rules, rekey-Steady)

confirm_finish-Steady :
    (key : Text) (g : ℕ) (ip endpoint : Text) → Steady (confirm_finish key g ip endpoint)
unfolding confirm_finish
confirm_finish-Steady key g ip endpoint = search (steady_rules, allow_confirmed-Steady)

confirm_failed-Steady : (key : Text) (g now : ℕ) → Steady (confirm_failed key g now)
unfolding confirm_failed
confirm_failed-Steady key g now = search worker_rules

module _ (key : Text) (g : ℕ) (ip endpoint : Text) where
  begin_section-Steady : (w : Seen) → Steady (begin_section key g ip endpoint w)
  unfolding begin_section
  begin_section-Steady w = search (steady_rules, confirm_begin-Steady)

  await_peer-Steady : (d : ℕ) (w : Seen) → Steady (await_peer key g ip endpoint d w)
  unfolding await_peer
  await_peer-Steady d w = search (steady_rules, confirm_finish-Steady) depth 9

  await_section-Steady : (d : ℕ) (w : Seen) → Steady (await_section key g ip endpoint d w)
  unfolding await_section
  await_section-Steady d w = search (steady_rules, await_peer-Steady) depth 9

  confirm_section-Steady :
      (pc : Confirming) (w : Seen) → Steady (confirm_section key g ip endpoint pc w)
  unfolding confirm_section
  confirm_section-Steady delay w = begin_section-Steady w
  confirm_section-Steady finalize w = search worker_rules
  confirm_section-Steady over w = search steady_rules
  confirm_section-Steady (await d) w =
      search (worker_rules, await_section-Steady, confirm_failed-Steady)

  pub confirmation_rekey_worker-Steady :
      (pc : Confirming) (w : Seen) → Steady (confirmation_rekey_worker key g ip endpoint pc w)
  unfolding confirmation_rekey_worker
  confirmation_rekey_worker-Steady pc w = search (steady_rules, confirm_section-Steady)
