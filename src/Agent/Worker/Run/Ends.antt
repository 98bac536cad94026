-- ===== src/Agent/Worker/Run/Ends.antt =====
-- That the probe thread of p2p/wireguard-p2p/linux/p2p_agent.py ends.
use wireguard_p2p.Base.{
  ℕ, ◌+◌, ◌-◌, ◌*◌, ◌/◌, ◌≡◌, ◌≤◌, ◌<◌, refl, Bool, true, false, not, ◌&&◌, ◌||◌, List, [], ◌∷◌,
  Option, none, some, ltb, ltb→lt, arith, if◌then◌else◌, inl, inr, Bool-cases, subst,
}
use wireguard_p2p.Base.Lists.{length}
use wireguard_p2p.Base.Clock.{seconds}
use wireguard_p2p.Base.Text.{Text}
use wireguard_p2p.Result.{Result, ok, err, ok-injective, err-ok}
use wireguard_p2p.Candidates.{Candidate}
use wireguard_p2p.Agent.{Agent, LocalPeer, probe, confirm_thread}
use wireguard_p2p.Agent.Monad.{Act, continue, recover, pure, lift, gets, catch, ◌>>=◌, when, launch}
use wireguard_p2p.Agent.Session.{handshake_of}
use wireguard_p2p.Agent.Worker.{
  probe_generation_current, probe_nothing, Setup, superseded, next_candidate, probing,
  probe_promote, probe_failed, candidate_probe_window, should_confirmation_rekey,
  run_peer_worker_end, actual_endpoint,
}
use wireguard_p2p.Agent.Worker.Run.{
  Seen, Counter, start, nothing, ending, done, next, poll, after_setup, setup_step, next_step,
  promote_step, seen_peer, poll_peer, poll_step, probe_section, probe_worker, no_handshake,
  after_error,
}

-- A section that ends without raising ends at such a counter.
record Yields {A : Type 0} (P : A → Type 0) (m : Act A) : Type 0 where
  at : (a : Agent) (v : A) → (m a).0 ≡ ok v → P v

module _ {A : Type 0} (P : A → Type 0) where
  Yields-pure : (x : A) → P x → Yields P (pure x)
  unfolding pure
  Yields-pure x p = record { at = λ a v e. subst P (ok-injective e) p }

  Yields-if : (b : Bool) (m n : Act A) → Yields P m → Yields P n → Yields P (if b then m else n)
  Yields-if true m n p q = p
  Yields-if false m n p q = q

module _ {A B : Type 0} (P : B → Type 0) where
  Yields-continue :
      (r : Result A) (f : A → Act B) → ((x : A) → Yields P (f x)) → Yields P (continue r f)
  Yields-continue (ok x) f s = s x
  Yields-continue (err e) f s = record { at = λ a v h. absurd (err-ok h) }

  Yields-bind : (m : Act A) (f : A → Act B) → ((x : A) → Yields P (f x)) → Yields P (m >>= f)
  unfolding ◌>>=◌
  Yields-bind m f s = record { at = λ a v h. let (r, b) = m a in (Yields-continue r f s).at b v h }

-- `PROBE_POLL_INTERVAL`, a quarter of a second
abbrev pub probe_poll_interval : ℕ
probe_poll_interval = 250000

-- The rounds of polling for one candidate, from its setup to the deadline.
abbrev rounds_left : ℕ → ℕ → ℕ
rounds_left m deadline = (deadline + probe_poll_interval - m) / probe_poll_interval

-- Enough sections to end from a counter, where the clock shows `m` at least: 36 for each candidate
-- that is left.
abbrev pub budget : ℕ → Counter → ℕ
budget m done = 0
budget m ending = 1
budget m nothing = 2
budget m (next cs ip) = length cs * 36 + 2
budget m (poll c cs ip baseline deadline) = rounds_left m deadline + 1 + (length cs * 36 + 2)
budget m start = 0

abbrev is_poll : Counter → Bool
is_poll (poll c cs ip baseline deadline) = true
is_poll start = false
is_poll nothing = false
is_poll ending = false
is_poll done = false
is_poll (next cs ip) = false

-- The least time at the next section: between two rounds of polling the thread waits.
abbrev pub waited : ℕ → Counter → Counter → ℕ
waited m pc after = if is_poll pc && is_poll after then m + probe_poll_interval else m

-- Only the first section goes on to a number of candidates that the counter does not show.
abbrev pub IsUnderway : Counter → Type 0
IsUnderway start = ⊥
IsUnderway done = Unit
IsUnderway nothing = Unit
IsUnderway ending = Unit
IsUnderway (next cs ip) = Unit
IsUnderway (poll c cs ip baseline deadline) = Unit

-- One section less is enough afterwards.
abbrev Nearer : ℕ → Counter → Counter → Type 0
Nearer m pc after = (budget (waited m pc after) after ≤ budget m pc - 1) × IsUnderway after

window-le : (c : Candidate) (native6 : Bool) → candidate_probe_window c native6 ≤ seconds 8
unfolding candidate_probe_window
window-le c native6 = ground arith

module _ (key : Text) (generation : ℕ) (seen : Seen) where
  setup-Nearer :
      (c : Candidate) (cs : List Candidate) (ip : Text)
      → Yields (Nearer seen.monotonic (next (c ∷ cs) ip)) (setup_step key generation c cs ip seen)
  unfolding setup_step
  setup-Nearer c cs ip =
      Yields-bind _ (lift seen.local) _
        λ local. Yields-bind _ _ _ (λ r. Yields-pure _ _ (go local r))
    where
      go :
          (local : Option LocalPeer) (r : Setup)
          → Nearer seen.monotonic (next (c ∷ cs) ip) (
              after_setup c cs ip
                (handshake_of local)
                (seen.monotonic + candidate_probe_window c seen.native6)
                r)
      go local superseded = (omega arith, tt)
      go local next_candidate = (omega arith, tt)
      go local probing = (omega (arith, window-le c seen.native6), tt)

  next-Nearer :
      (c : Candidate) (cs : List Candidate) (ip : Text)
      → Yields (Nearer seen.monotonic (next (c ∷ cs) ip)) (next_step key generation c cs ip seen)
  unfolding next_step
  next-Nearer c cs ip =
      let P = Nearer seen.monotonic (next (c ∷ cs) ip) in
      Yields-bind P (gets (probe_generation_current key generation)) _ λ current.
        Yields-if P current _ _ (setup-Nearer c cs ip) (Yields-pure P ending (omega arith, tt))

  promote-ending :
      (c : Candidate) (ip : Text) (local : LocalPeer) (P : Counter → Type 0)
      → P ending
      → Yields P (promote_step key generation c ip local seen)
  unfolding promote_step
  promote-ending c ip local P p =
      Yields-bind P (probe_promote key generation ip c local seen.now) _ λ promoted.
        Yields-bind P
          (when (promoted && should_confirmation_rekey c seen.native6)
            (launch (confirm_thread key generation ip (actual_endpoint local c.endpoint))))
          _ λ launched. Yields-pure P ending p

  seen-ending :
      (c : Candidate) (ip : Text) (local : Option LocalPeer) (P : Counter → Type 0)
      → P ending
      → Yields P (seen_peer key generation c ip seen local)
  seen-ending c ip none P p = Yields-pure P ending p
  seen-ending c ip (some local) P p = promote-ending c ip local P p

  poll-Nearer :
      (c : Candidate) (cs : List Candidate) (ip : Text) (baseline deadline : ℕ)
      → seen.monotonic < deadline
      → Yields
          (Nearer seen.monotonic (poll c cs ip baseline deadline))
          (poll_step key generation c cs ip baseline deadline seen)
  unfolding poll_step poll_peer
  poll-Nearer c cs ip baseline deadline early =
      let here = poll c cs ip baseline deadline in
      let P = Nearer seen.monotonic here in
      let ends : P ending = (omega arith, tt) in
      let stays : P here = (omega (arith, early), tt) in
      Yields-bind P (gets (probe_generation_current key generation)) _ λ current.
        Yields-if P (seen.stop || not current) _ _ (Yields-pure P ending ends) (
          Yields-bind P (lift seen.local) _ λ local.
            Yields-if P (no_handshake baseline local) _ _ (Yields-pure P here stays)
              (seen-ending c ip local P ends))

section-Nearer :
    (key : Text) (generation : ℕ) (pc : Counter) (seen : Seen)
    → IsUnderway pc
    → Yields (Nearer seen.monotonic pc) (probe_section key generation pc seen)
unfolding probe_section
section-Nearer key generation start seen u = absurd u
section-Nearer key generation done seen u =
    Yields-pure (Nearer seen.monotonic done) done (omega arith, tt)
section-Nearer key generation nothing seen u =
    Yields-bind (Nearer seen.monotonic nothing) (probe_nothing key generation) _
      λ v. Yields-pure (Nearer seen.monotonic nothing) ending (omega arith, tt)
section-Nearer key generation ending seen u =
    Yields-bind (Nearer seen.monotonic ending) (run_peer_worker_end probe key generation seen.now) _
      λ v. Yields-pure (Nearer seen.monotonic ending) done (omega arith, tt)
section-Nearer key generation (next [] ip) seen u =
    Yields-bind (Nearer seen.monotonic (next [] ip)) (probe_failed key generation seen.now) _
      λ v. Yields-pure (Nearer seen.monotonic (next [] ip)) ending (omega arith, tt)
section-Nearer key generation (next (c ∷ cs) ip) seen u = next-Nearer key generation seen c cs ip
section-Nearer key generation (poll c cs ip baseline deadline) seen u =
    let P = Nearer seen.monotonic (poll c cs ip baseline deadline) in
    elim (Bool-cases (ltb seen.monotonic deadline)) [
      | inl early ↦
          rw early (poll-Nearer key generation seen c cs ip baseline deadline (ltb→lt _ _ early))
      | inr late ↦ rw late (Yields-pure P (next cs ip) (omega arith, tt))
    ]

-- The counter after a section; an exception ends the worker.
abbrev counter_of : Result Counter × Agent → Counter
counter_of (ok pc, a) = pc
counter_of (err e, a) = ending

unfoldable pub after_section : Text → ℕ → Counter → Agent → Seen → Counter
unfolding probe_worker
after_section key generation pc a seen = counter_of (probe_worker key generation pc seen a)

-- The sections of one worker, each in the state that the other threads left and with what it sees.
unfoldable pub worker_run : Text → ℕ → Counter → List (Agent × Seen) → Counter
unfolding after_section
worker_run key generation pc [] = pc
worker_run key generation pc ((a, seen) ∷ more) =
    worker_run key generation (after_section key generation pc a seen) more

-- The monotonic clock does not run backwards, and a quarter of a second passes between two rounds of
-- polling.
unfoldable pub IsClocked : Text → ℕ → ℕ → Counter → List (Agent × Seen) → Type 0
unfolding after_section
IsClocked key generation m pc [] = Unit
IsClocked key generation m pc ((a, seen) ∷ more) =
    (m ≤ seen.monotonic)
    × IsClocked key generation (waited seen.monotonic pc (after_section key generation pc a seen))
        (after_section key generation pc a seen) more

recovered :
    (P : Counter → Type 0) (r : Result Counter × Agent) (otherwise : Counter)
    → P otherwise
    → ((v : Counter) → r.0 ≡ ok v → P v)
    → P (counter_of (recover r.0 (pure otherwise) r.1))
unfolding pure
recovered P (ok v, a) otherwise p h = h v refl
recovered P (err e, a) otherwise p h = p

error-Nearer : (m : ℕ) (pc : Counter) → IsUnderway pc → Nearer m pc (after_error pc)
error-Nearer m start u = absurd u
error-Nearer m nothing u = (omega arith, tt)
error-Nearer m (next cs ip) u = (omega arith, tt)
error-Nearer m (poll c cs ip baseline deadline) u = (omega arith, tt)
error-Nearer m ending u = (omega arith, tt)
error-Nearer m done u = (omega arith, tt)

after_section-Nearer :
    (key : Text) (generation : ℕ) (pc : Counter) (a : Agent) (seen : Seen)
    → IsUnderway pc
    → Nearer seen.monotonic pc (after_section key generation pc a seen)
unfolding after_section catch probe_worker
after_section-Nearer key generation pc a seen u =
    recovered (Nearer seen.monotonic pc) (probe_section key generation pc seen a) (after_error pc)
      (error-Nearer seen.monotonic pc u) ((section-Nearer key generation pc seen u).at a)

-- Time that has passed can only save sections.
budget_later : (m t : ℕ) (pc : Counter) → m ≤ t → budget t pc ≤ budget m pc
budget_later m t start h = omega arith
budget_later m t nothing h = omega arith
budget_later m t (next cs ip) h = omega arith
budget_later m t (poll c cs ip baseline deadline) h = omega (arith, h)
budget_later m t ending h = omega arith
budget_later m t done h = omega arith

spent : (m : ℕ) (pc : Counter) → IsUnderway pc → budget m pc ≤ 0 → pc ≡ done
spent m start u h = absurd u
spent m nothing u h = absurd (omega (arith, h))
spent m (next cs ip) u h = absurd (omega (arith, h))
spent m (poll c cs ip baseline deadline) u h = absurd (omega (arith, h))
spent m ending u h = absurd (omega (arith, h))
spent m done u h = refl

-- The thread ends: whatever the other threads do to the agent between its sections and whatever it
-- sees, a probe worker that has read its candidates is done after 36 sections for each candidate
-- that is left, and two more; while it polls, after one for each quarter of a second up to the
-- deadline, two more, and those for the candidates behind it. Condition: the monotonic clock does not run
-- backwards, and shows a quarter of a second more from one round of polling to the next.
pub worker_run-done :
    (key : Text) (generation m : ℕ) (pc : Counter) (steps : List (Agent × Seen))
    → IsUnderway pc
    → IsClocked key generation m pc steps
    → budget m pc ≤ length steps
    → worker_run key generation pc steps ≡ done
unfolding worker_run IsClocked
worker_run-done key generation m pc [] u clocked enough = spent m pc u enough
worker_run-done key generation m pc ((a, seen) ∷ more) u clocked enough =
    let near = after_section-Nearer key generation pc a seen u in
    worker_run-done key generation
      (waited seen.monotonic pc (after_section key generation pc a seen))
      (after_section key generation pc a seen) more near.1 clocked.1
      (omega (arith, near.0, budget_later m seen.monotonic pc clocked.0, enough))
