-- ===== src/Agent/Quiet.antt =====
-- Code under `STATE_LOCK` in p2p/wireguard-p2p/linux/p2p_agent.py that starts no thread, and code that
-- starts its threads at the end, after everything that may raise.
use wireguard_p2p.Base.{
  ℕ, ◌≡◌, ◌∙◌, refl, Bool, true, false, Option, none, some, if◌then◌else◌, arith,
}
use wireguard_p2p.Base.Text.{Text}
use wireguard_p2p.Result.{Error, Result, ok, err}
use wireguard_p2p.Agent.{Agent, PeerState, Command}
use wireguard_p2p.Agent.Monad.{
  Act, continue, bump_found, pure, lift, ◌>>=◌, state_of, update, bump, assign, delete, wg_set,
  save_state,
}

pub record Quiet {A : Type 0} (m : Act A) : Type 0 where
  pub at : (a : Agent) → (m a).1.launched ≡ a.launched

module _ {A : Type 0} where
  pub Quiet-pure : (x : A) → Quiet (pure x)
  unfolding pure
  Quiet-pure x = record { at = λ a. refl }

  pub Quiet-lift : (r : Result A) → Quiet (lift r)
  unfolding lift
  Quiet-lift r = record { at = λ a. refl }

  pub Quiet-if : (b : Bool) (m n : Act A) → Quiet m → Quiet n → Quiet (if b then m else n)
  Quiet-if true m n p q = p
  Quiet-if false m n p q = q

module _ {A B : Type 0} where
  pub Quiet-continue :
      (r : Result A) (f : A → Act B) → ((x : A) → Quiet (f x)) → Quiet (continue r f)
  Quiet-continue (ok x) f s = s x
  Quiet-continue (err e) f s = record { at = λ a. refl }

  pub Quiet-bind : (m : Act A) (f : A → Act B) → Quiet m → ((x : A) → Quiet (f x)) → Quiet (m >>= f)
  unfolding ◌>>=◌
  Quiet-bind m f p q = record { at = λ a. let (r, b) = m a in (Quiet-continue r f q).at b ∙ p.at a }

pub Quiet-state_of : (key : Text) → Quiet (state_of key)
unfolding state_of
Quiet-state_of key = record { at = λ a. refl }

pub Quiet-update : (key : Text) (f : PeerState → PeerState) → Quiet (update key f)
unfolding update
Quiet-update key f = record { at = λ a. refl }

bump_quiet :
    (key : Text) (o : Option PeerState) (a : Agent) → (bump_found key o a).1.launched ≡ a.launched
bump_quiet key none a = refl
bump_quiet key (some s) a = refl

pub Quiet-bump : (key : Text) → Quiet (bump key)
unfolding bump
Quiet-bump key = record { at = λ a. bump_quiet key _ a }

pub Quiet-delete : (key : Text) → Quiet (delete key)
unfolding delete
Quiet-delete key = record { at = λ a. refl }

pub Quiet-wg_set : (c : Command) → Quiet (wg_set c)
unfolding wg_set
Quiet-wg_set c = record { at = λ a. ground arith }

pub Quiet-assign : (key : Text) (fresh : ℕ → PeerState) → Quiet (assign key fresh)
unfolding assign
Quiet-assign key fresh = record { at = λ a. refl }

pub Quiet-save_state : Quiet save_state
unfolding save_state
Quiet-save_state = record { at = λ a. ground arith }

pub ruleset quiet_rules = (
  Quiet-pure, Quiet-lift, Quiet-if, Quiet-bind, Quiet-state_of, Quiet-update, Quiet-bump,
  Quiet-assign, Quiet-delete, Quiet-wg_set, Quiet-save_state,
)

-- Code that has launched nothing when it raises.
pub record LaunchesLast {A : Type 0} (m : Act A) : Type 0 where
  pub at : (a : Agent) (e : Error) → (m a).0 ≡ err e → (m a).1.launched ≡ a.launched

module _ {A B : Type 0} where
  last-continue :
      (r : Result A) (f : A → Act B)
      → ((x : A) → LaunchesLast (f x))
      → (b : Agent) (e : Error) → (continue r f b).0 ≡ err e
      → (continue r f b).1.launched ≡ b.launched
  last-continue (ok x) f s b e h = (s x).at b e h
  last-continue (err d) f s b e h = refl

  pub last-bind :
      (m : Act A) (f : A → Act B)
      → Quiet m
      → ((x : A) → LaunchesLast (f x))
      → LaunchesLast (m >>= f)
  unfolding ◌>>=◌
  last-bind m f p q = record {
    at = λ a e h. let (r, b) = m a in last-continue r f q b e h ∙ p.at a;
  }

pub last-pure : {A : Type 0} (x : A) → LaunchesLast (pure x)
unfolding pure
last-pure x = record { at = λ a e h. refl }

pub last-if :
    {A : Type 0} (b : Bool) (m n : Act A)
    → LaunchesLast m
    → LaunchesLast n
    → LaunchesLast (if b then m else n)
last-if true m n p q = p
last-if false m n p q = q
