-- ===== src/Agent/Generation.antt =====
-- Worker generations in p2p/wireguard-p2p/linux/p2p_agent.py: how code under `STATE_LOCK` may change
-- them.
pub mod Rules
pub mod Sections
pub mod Workers
pub mod Reach
use wireguard_p2p.Base.{
  ℕ, ◌+◌, ◌≤◌, ◌≡◌, refl, Bool, true, false, Option, none, some, arith, max, if◌then◌else◌,
}
use wireguard_p2p.Base.Dict
use wireguard_p2p.Base.Dict.{Dict, get-put, get-remove}
use wireguard_p2p.Base.Text.{Text, text_eq, text_eq_iff}
use wireguard_p2p.Result.{Error, Result, ok, err}
use wireguard_p2p.Agent.{Agent, PeerState, Command, Thread}
use wireguard_p2p.Agent.Monad.{
  Act, bump_found, pure, raise, lift, gets, catch, ◌>>=◌, state_of, update, update_present,
  next_generation, bump, assign, delete, wg_set, save_state, launch, recover, continue,
}
use wireguard_p2p.Agent.Worker.{has_generation}

-- Does the state of the key have this generation?
abbrev pub holds : Text → ℕ → Agent → Bool
holds key g a = has_generation g (Dict.get key a.states)

-- `b` comes after `a`: the counter has not gone back, and a generation up to the counter of `a` is
-- held in `b` only where it was held in `a`.
pub record Grows (a b : Agent) : Type 0 where
  pub counter : a.last_generation ≤ b.last_generation
  pub kept :
      (key : Text) (g : ℕ) → holds key g b ≡ true → g ≤ a.last_generation → holds key g a ≡ true

pub Grows-refl : (a : Agent) → Grows a a
Grows-refl a = record { counter = omega arith; kept = λ key g h le. h }

pub Grows-trans : {a b c : Agent} → Grows a b → Grows b c → Grows a c
Grows-trans {a} {b} {c} p q = record {
  counter = omega (arith, p.counter, q.counter);
  kept = λ key g h le. p.kept key g (q.kept key g h (omega (arith, p.counter))) le;
}

-- Nothing but the states and the counter matters.
pub Grows-same :
    (a b : Agent) → b.states ≡ a.states → a.last_generation ≤ b.last_generation → Grows a b
Grows-same a b e le = record { counter = le; kept = λ key g h l. rw e at h }

pub record Steady {A : Type 0} (m : Act A) : Type 0 where
  pub at : (a : Agent) → Grows a (m a).1

module _ {A : Type 0} where
  pub Steady-pure : (x : A) → Steady (pure x)
  unfolding pure
  Steady-pure x = record { at = λ a. Grows-refl a }

  pub Steady-raise : (e : Error) → Steady (raise {A = A} e)
  unfolding raise
  Steady-raise e = record { at = λ a. Grows-refl a }

  pub Steady-lift : (r : Result A) → Steady (lift r)
  unfolding lift
  Steady-lift r = record { at = λ a. Grows-refl a }

  pub Steady-gets : (f : Agent → A) → Steady (gets f)
  unfolding gets
  Steady-gets f = record { at = λ a. Grows-refl a }

  pub Steady-if : (b : Bool) (m n : Act A) → Steady m → Steady n → Steady (if b then m else n)
  Steady-if true m n p q = p
  Steady-if false m n p q = q

  Steady-recover : (r : Result A) {h : Act A} → Steady h → Steady (recover r h)
  Steady-recover (ok x) s = record { at = λ a. Grows-refl a }
  Steady-recover (err e) s = s

  pub Steady-catch : (m h : Act A) → Steady m → Steady h → Steady (catch m h)
  unfolding catch
  Steady-catch m h p q = record {
    at = λ a. let (r, b) = m a in Grows-trans (p.at a) ((Steady-recover r q).at b);
  }

module _ {A B : Type 0} where
  Steady-continue :
      (r : Result A) (f : A → Act B) → ((x : A) → Steady (f x)) → Steady (continue r f)
  Steady-continue (ok x) f s = s x
  Steady-continue (err e) f s = record { at = λ a. Grows-refl a }

  pub Steady-bind :
      (m : Act A) (f : A → Act B) → Steady m → ((x : A) → Steady (f x)) → Steady (m >>= f)
  unfolding ◌>>=◌
  Steady-bind m f p q = record {
    at = λ a. let (r, b) = m a in Grows-trans (p.at a) ((Steady-continue r f q).at b);
  }

pub Steady-state_of : (key : Text) → Steady (state_of key)
unfolding state_of
Steady-state_of key = record { at = λ a. Grows-refl a }

update_keeps :
    (key : Text) (f : PeerState → PeerState)
    → ((s : PeerState) → (f s).generation ≡ s.generation)
    → (o : Option PeerState) (d : Dict PeerState) (j : Text) (g : ℕ) → Dict.get key d ≡ o
    → has_generation g (Dict.get j (update_present key f o d)) ≡ true
    → has_generation g (Dict.get j d) ≡ true
update_keeps key f same none d j g e h = h
update_keeps key f same (some s) d j g e h =
    ground (arith, get-put j key (f s) d, text_eq_iff key j, same s)

-- Assignments that leave the generation alone.
pub Steady-update :
    (key : Text) (f : PeerState → PeerState)
    → ((s : PeerState) → (f s).generation ≡ s.generation)
    → Steady (update key f)
unfolding update
Steady-update key f same = record {
  at = λ a. record {
    counter = omega arith;
    kept = λ j g h le. update_keeps key f same (Dict.get key a.states) a.states j g refl h;
  };
}

pub Steady-next_generation : (previous : ℕ) → Steady (next_generation previous)
unfolding next_generation
Steady-next_generation previous = record {
  at = λ a. record { counter = omega arith; kept = λ key g h le. h };
}

bump_found-Grows :
    (key : Text) (o : Option PeerState) (a : Agent)
    → Dict.get key a.states ≡ o
    → Grows a (bump_found key o a).1
bump_found-Grows key none a e = Grows-refl a
bump_found-Grows key (some s) a e = record {
  counter = omega arith;
  kept = λ j g h le. ground (
    arith,
    get-put j key (record s { generation = max a.last_generation s.generation + 1 }) a.states,
  );
}

pub Steady-bump : (key : Text) → Steady (bump key)
unfolding bump
Steady-bump key = record { at = λ a. bump_found-Grows key (Dict.get key a.states) a refl }

pub Steady-assign : (key : Text) (fresh : ℕ → PeerState) → Steady (assign key fresh)
unfolding assign
Steady-assign key fresh = record {
  at = λ a. record {
    counter = omega arith;
    kept = λ j g h le. ground (
      arith,
      get-put j key
          (record (fresh (max a.last_generation 0 + 1)) {
            generation = max a.last_generation 0 + 1;
          })
          a.states,
    );
  };
}

pub Steady-delete : (key : Text) → Steady (delete key)
unfolding delete
Steady-delete key = record {
  at = λ a. record {
    counter = omega arith;
    kept = λ j g h le. ground (arith, get-remove j key a.states);
  };
}

pub Steady-wg_set : (c : Command) → Steady (wg_set c)
unfolding wg_set
Steady-wg_set c = record {
  at = λ a. record { counter = ground arith; kept = λ j g h le. ground arith };
}

pub Steady-save_state : Steady save_state
unfolding save_state
Steady-save_state = record {
  at = λ a. record { counter = ground arith; kept = λ j g h le. ground arith };
}

pub Steady-launch : (w : Thread) → Steady (launch w)
unfolding launch
Steady-launch w = record { at = λ a. Grows-same a _ refl (omega arith) }
