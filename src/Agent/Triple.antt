-- ===== src/Agent/Triple.antt =====
-- Conditions before and after code under `STATE_LOCK` of p2p/wireguard-p2p/linux/p2p_agent.py.
use wireguard_p2p.Base.{◌≡◌, refl, sym, subst, Bool, true, false, if◌then◌else◌}
use wireguard_p2p.Result.{Result, ok, err, err-ok, ok-injective}
use wireguard_p2p.Agent.{Agent}
use wireguard_p2p.Agent.Monad.{Act, pure, gets, ◌>>=◌, continue, when}

-- Where `P` holds before and the code returns, `Q` holds of its answer and of the state behind it.
pub record Triple {A : Type 0} (P : Agent → Type 0) (m : Act A) (Q : A → Agent → Type 0)
    : Type 0 where
  pub at : (a : Agent) → P a → (x : A) → (m a).0 ≡ ok x → Q x (m a).1

abbrev pub Any : Agent → Type 0
Any a = Unit

module _ {A : Type 0} {P : Agent → Type 0} where
  pub Triple-Any : (m : Act A) → Triple P m (λ x. Any)
  Triple-Any m = record { at = λ a p x h. tt }

  pub Triple-pure :
      (x : A) {Q : A → Agent → Type 0} → ((a : Agent) → P a → Q x a) → Triple P (pure x) Q
  unfolding pure
  Triple-pure x {Q} s = record { at = λ a p y h. subst (λ z. Q z a) (ok-injective h) (s a p) }

  pub Triple-gets : (f : Agent → A) → Triple P (gets f) (λ x a. x ≡ f a)
  unfolding gets
  Triple-gets f = record { at = λ a p y h. sym (ok-injective h) }

module _ {A B : Type 0} {Q : A → Agent → Type 0} {R : B → Agent → Type 0} where
  Triple-continue :
      (r : Result A) (f : A → Act B) (b : Agent)
      → ((x : A) → r ≡ ok x → Q x b)
      → ((x : A) → Triple (Q x) (f x) R)
      → (y : B) → (continue r f b).0 ≡ ok y
      → R y (continue r f b).1
  Triple-continue (ok x) f b q s y h = (s x).at b (q x refl) y h
  Triple-continue (err e) f b q s y h = absurd (err-ok h)

module _ {A B : Type 0} {P : Agent → Type 0} {Q : A → Agent → Type 0} {R : B → Agent → Type 0} where
  pub Triple-bind :
      (m : Act A) (f : A → Act B)
      → Triple P m Q
      → ((x : A) → Triple (Q x) (f x) R)
      → Triple P (m >>= f) R
  unfolding ◌>>=◌
  Triple-bind m f q s = record {
    at = λ a p. let (r, b) = m a in Triple-continue r f b (q.at a p) s;
  }

module _ {A : Type 0} {P : Agent → Type 0} {Q : A → Agent → Type 0} where
  pub Triple-if :
      (b : Bool) (m n : Act A)
      → (b ≡ true → Triple P m Q)
      → (b ≡ false → Triple P n Q)
      → Triple P (if b then m else n) Q
  Triple-if true m n s t = s refl
  Triple-if false m n s t = t refl

module _ {P : Agent → Type 0} {Q : Unit {0} → Agent → Type 0} where
  pub Triple-when :
      (b : Bool) (m : Act (Unit {0}))
      → (b ≡ true → Triple P m Q)
      → (b ≡ false → (a : Agent) → P a → Q tt a)
      → Triple P (when b m) Q
  Triple-when b m s t = Triple-if b m (pure tt) s (λ f. Triple-pure tt (t f))

module _ {A : Type 0} {P P' : Agent → Type 0} {Q Q' : A → Agent → Type 0} where
  pub Triple-weaken :
      (m : Act A)
      → ((a : Agent) → P' a → P a)
      → ((x : A) (a : Agent) → Q x a → Q' x a)
      → Triple P m Q
      → Triple P' m Q'
  Triple-weaken m p q s = record { at = λ a p' x h. q x (m a).1 (s.at a (p a p') x h) }
