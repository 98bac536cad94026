-- ===== src/Agent/Invariant/Workers.antt =====
-- The invariant and the sections of the two worker threads of p2p/wireguard-p2p/linux/p2p_agent.py.
use wireguard_p2p.Base.{ℕ, Bool, true, false, List, [], ◌∷◌, Option, none, some}
use wireguard_p2p.Base.Text.{Text}
use wireguard_p2p.Candidates.{CandidateType, Candidate}
use wireguard_p2p.Agent.{LocalPeer, Mode}
use wireguard_p2p.Agent.Worker.{
  release, run_peer_worker_end, probe_begin, stop_idle, probe_nothing, begin_candidate, after_setup,
  try_candidate, probe_setup, promote, probe_promote, fail_probe, probe_failed,
}
use wireguard_p2p.Agent.Worker.Confirm.{
  recreate_peer, saved_true, setup_failed, after_recreate, rekey, confirm_begin, finish_confirm,
  after_allow, allow_confirmed, confirm_finish, confirm_failed,
}
use wireguard_p2p.Agent.Worker.Run.{
  Seen, Counter, start, nothing, ending, done, next, poll, setup_step, next_step, promote_step,
  seen_peer, poll_peer, poll_step, probe_section, probe_worker, Confirming, delay, finalize, over,
  await, begin_section, await_peer, await_section, confirm_section, confirmation_rekey_worker,
}
use wireguard_p2p.Agent.Invariant.{Keeps}
use wireguard_p2p.Agent.Invariant.Offers.{keeps_rules}

release-Keeps : (key : Text) (now : ℕ) → Keeps (release key now)
unfolding release
release-Keeps key now = search keeps_rules depth 12

run_peer_worker_end-Keeps :
    (mode : Mode) (key : Text) (g now : ℕ) → Keeps (run_peer_worker_end mode key g now)
unfolding run_peer_worker_end
run_peer_worker_end-Keeps mode key g now = search (keeps_rules, release-Keeps)

probe_begin-Keeps : (key : Text) (g : ℕ) → Keeps (probe_begin key g)
unfolding probe_begin
probe_begin-Keeps key g = search keeps_rules

stop_idle-Keeps : (key : Text) → Keeps (stop_idle key)
unfolding stop_idle
stop_idle-Keeps key = search keeps_rules

probe_nothing-Keeps : (key : Text) (g : ℕ) → Keeps (probe_nothing key g)
unfolding probe_nothing
probe_nothing-Keeps key g = search (keeps_rules, stop_idle-Keeps)

module _ (key : Text) (c : Candidate) (baseline now : ℕ) where
  begin_candidate-Keeps : Keeps (begin_candidate key c baseline now)
  unfolding begin_candidate
  begin_candidate-Keeps = search keeps_rules depth 9

  after_setup-Keeps : (b : Bool) → Keeps (after_setup key c baseline now b)
  after_setup-Keeps true = begin_candidate-Keeps
  after_setup-Keeps false = search keeps_rules

  try_candidate-Keeps : Keeps (try_candidate key c baseline now)
  unfolding try_candidate
  try_candidate-Keeps = search (keeps_rules, after_setup-Keeps) depth 9

  probe_setup-Keeps : (g : ℕ) → Keeps (probe_setup key g c baseline now)
  unfolding probe_setup
  probe_setup-Keeps g = search (keeps_rules, try_candidate-Keeps)

promote-Keeps :
    (key ip endpoint : Text) (t : CandidateType) (now : ℕ) → Keeps (promote key ip endpoint t now)
unfolding promote
promote-Keeps key ip endpoint t now = search keeps_rules depth 9

probe_promote-Keeps :
    (key : Text) (g : ℕ) (ip : Text) (c : Candidate) (l : LocalPeer) (now : ℕ)
    → Keeps (probe_promote key g ip c l now)
unfolding probe_promote
probe_promote-Keeps key g ip c l now = search (keeps_rules, promote-Keeps)

fail_probe-Keeps : (key : Text) (now : ℕ) → Keeps (fail_probe key now)
unfolding fail_probe
fail_probe-Keeps key now = search keeps_rules depth 9

probe_failed-Keeps : (key : Text) (g now : ℕ) → Keeps (probe_failed key g now)
unfolding probe_failed
probe_failed-Keeps key g now = search (keeps_rules, fail_probe-Keeps)

ruleset worker_rules = (
  keeps_rules, run_peer_worker_end-Keeps, probe_begin-Keeps, probe_nothing-Keeps, probe_setup-Keeps,
  probe_promote-Keeps, fail_probe-Keeps, probe_failed-Keeps,
)

module _ (key : Text) (g : ℕ) where
  setup_step-Keeps :
      (c : Candidate) (cs : List Candidate) (ip : Text) (w : Seen)
      → Keeps (setup_step key g c cs ip w)
  unfolding setup_step
  setup_step-Keeps c cs ip w = search worker_rules

  next_step-Keeps :
      (c : Candidate) (cs : List Candidate) (ip : Text) (w : Seen)
      → Keeps (next_step key g c cs ip w)
  unfolding next_step
  next_step-Keeps c cs ip w = search (worker_rules, setup_step-Keeps)

  promote_step-Keeps :
      (c : Candidate) (ip : Text) (l : LocalPeer) (w : Seen) → Keeps (promote_step key g c ip l w)
  unfolding promote_step
  promote_step-Keeps c ip l w = search worker_rules depth 9

  seen_peer-Keeps :
      (c : Candidate) (ip : Text) (w : Seen) (l : Option LocalPeer)
      → Keeps (seen_peer key g c ip w l)
  seen_peer-Keeps c ip w none = search worker_rules
  seen_peer-Keeps c ip w (some l) = promote_step-Keeps c ip l w

  poll_peer-Keeps :
      (c : Candidate) (cs : List Candidate) (ip : Text) (b d : ℕ) (w : Seen)
      → Keeps (poll_peer key g c cs ip b d w)
  unfolding poll_peer
  poll_peer-Keeps c cs ip b d w = search (worker_rules, seen_peer-Keeps) depth 9

  poll_step-Keeps :
      (c : Candidate) (cs : List Candidate) (ip : Text) (b d : ℕ) (w : Seen)
      → Keeps (poll_step key g c cs ip b d w)
  unfolding poll_step
  poll_step-Keeps c cs ip b d w = search (worker_rules, poll_peer-Keeps) depth 9

  probe_section-Keeps : (pc : Counter) (w : Seen) → Keeps (probe_section key g pc w)
  unfolding probe_section
  probe_section-Keeps start w = search worker_rules
  probe_section-Keeps nothing w = search worker_rules
  probe_section-Keeps ending w = search worker_rules
  probe_section-Keeps done w = search worker_rules
  probe_section-Keeps (next [] ip) w = search worker_rules
  probe_section-Keeps (next (c ∷ cs) ip) w = next_step-Keeps c cs ip w
  probe_section-Keeps (poll c cs ip b d) w = search (worker_rules, poll_step-Keeps)

  pub probe_worker-Keeps : (pc : Counter) (w : Seen) → Keeps (probe_worker key g pc w)
  unfolding probe_worker
  probe_worker-Keeps pc w = search (keeps_rules, probe_section-Keeps)

module _ (key ip endpoint : Text) where
  recreate_peer-Keeps : Keeps (recreate_peer key ip endpoint)
  unfolding recreate_peer
  recreate_peer-Keeps = search keeps_rules depth 9

  saved_true-Keeps : Keeps saved_true
  unfolding saved_true
  saved_true-Keeps = search keeps_rules

  finish_confirm-Keeps : Keeps (finish_confirm key endpoint)
  unfolding finish_confirm
  finish_confirm-Keeps = search keeps_rules depth 9

  after_allow-Keeps : (b : Bool) → Keeps (after_allow key endpoint b)
  after_allow-Keeps true = finish_confirm-Keeps
  after_allow-Keeps false = search keeps_rules

  allow_confirmed-Keeps : Keeps (allow_confirmed key ip endpoint)
  unfolding allow_confirmed
  allow_confirmed-Keeps = search (keeps_rules, after_allow-Keeps) depth 9

  module _ (now : ℕ) where
    setup_failed-Keeps : Keeps (setup_failed key now)
    unfolding setup_failed
    setup_failed-Keeps = search worker_rules

    after_recreate-Keeps : (b : Bool) → Keeps (after_recreate key now b)
    after_recreate-Keeps true = saved_true-Keeps
    after_recreate-Keeps false = setup_failed-Keeps

    rekey-Keeps : Keeps (rekey key ip endpoint now)
    unfolding rekey
    rekey-Keeps = search (keeps_rules, recreate_peer-Keeps, after_recreate-Keeps) depth 9

confirm_begin-Keeps :
    (key : Text) (g : ℕ) (ip endpoint : Text) (now : ℕ)
    → Keeps (confirm_begin key g ip endpoint now)
unfolding confirm_begin
confirm_begin-Keeps key g ip endpoint now = search (keeps_rules, rekey-Keeps)

confirm_finish-Keeps :
    (key : Text) (g : ℕ) (ip endpoint : Text) → Keeps (confirm_finish key g ip endpoint)
unfolding confirm_finish
confirm_finish-Keeps key g ip endpoint = search (keeps_rules, allow_confirmed-Keeps)

confirm_failed-Keeps : (key : Text) (g now : ℕ) → Keeps (confirm_failed key g now)
unfolding confirm_failed
confirm_failed-Keeps key g now = search worker_rules

module _ (key : Text) (g : ℕ) (ip endpoint : Text) where
  begin_section-Keeps : (w : Seen) → Keeps (begin_section key g ip endpoint w)
  unfolding begin_section
  begin_section-Keeps w = search (keeps_rules, confirm_begin-Keeps)

  await_peer-Keeps : (d : ℕ) (w : Seen) → Keeps (await_peer key g ip endpoint d w)
  unfolding await_peer
  await_peer-Keeps d w = search (keeps_rules, confirm_finish-Keeps) depth 9

  await_section-Keeps : (d : ℕ) (w : Seen) → Keeps (await_section key g ip endpoint d w)
  unfolding await_section
  await_section-Keeps d w = search (keeps_rules, await_peer-Keeps) depth 9

  confirm_section-Keeps :
      (pc : Confirming) (w : Seen) → Keeps (confirm_section key g ip endpoint pc w)
  unfolding confirm_section
  confirm_section-Keeps delay w = begin_section-Keeps w
  confirm_section-Keeps finalize w = search worker_rules
  confirm_section-Keeps over w = search keeps_rules
  confirm_section-Keeps (await d) w =
      search (worker_rules, await_section-Keeps, confirm_failed-Keeps)

  pub confirmation_rekey_worker-Keeps :
      (pc : Confirming) (w : Seen) → Keeps (confirmation_rekey_worker key g ip endpoint pc w)
  unfolding confirmation_rekey_worker
  confirmation_rekey_worker-Keeps pc w = search (keeps_rules, confirm_section-Keeps)
