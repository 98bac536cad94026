-- ===== src/Agent/Frame.antt =====
-- Which states code under `STATE_LOCK` in p2p/wireguard-p2p/linux/p2p_agent.py may touch.
pub mod Offers
use wireguard_p2p.Base.{
  ℕ, ◌+◌, ◌≡◌, ◌∙◌, refl, Bool, true, false, Option, none, some, arith, max, if◌then◌else◌,
}
use wireguard_p2p.Base.Dict
use wireguard_p2p.Base.Dict.{Dict, get-put, get-remove}
use wireguard_p2p.Base.Text.{Text, text_eq}
use wireguard_p2p.Result.{Error, Result, ok, err}
use wireguard_p2p.Agent.{Agent, PeerState, Command, Thread}
use wireguard_p2p.Agent.Monad.{
  Act, bump_found, update_present, pure, raise, lift, gets, ◌>>=◌, state_of, update, bump, assign,
  delete, wg_set, save_state, launch, continue, recover, catch,
}

-- The states of all keys but one are the same.
pub record Same (key : Text) (a b : Agent) : Type 0 where
  pub others : (j : Text) → text_eq key j ≡ false → Dict.get j b.states ≡ Dict.get j a.states

Same-refl : (key : Text) (a : Agent) → Same key a a
Same-refl key a = record { others = λ j h. refl }

Same-trans : (key : Text) {a b c : Agent} → Same key a b → Same key b c → Same key a c
Same-trans key p q = record { others = λ j h. q.others j h ∙ p.others j h }

pub record Local {A : Type 0} (key : Text) (m : Act A) : Type 0 where
  pub at : (a : Agent) → Same key a (m a).1

module _ {A : Type 0} (key : Text) where
  pub Local-pure : (x : A) → Local key (pure x)
  unfolding pure
  Local-pure x = record { at = λ a. Same-refl key a }

  pub Local-lift : (r : Result A) → Local key (lift r)
  unfolding lift
  Local-lift r = record { at = λ a. Same-refl key a }

  pub Local-gets : (f : Agent → A) → Local key (gets f)
  unfolding gets
  Local-gets f = record { at = λ a. Same-refl key a }

  pub Local-if :
      (b : Bool) (m n : Act A) → Local key m → Local key n → Local key (if b then m else n)
  Local-if true m n p q = p
  Local-if false m n p q = q

module _ {A B : Type 0} (key : Text) where
  Local-continue :
      (r : Result A) (f : A → Act B) → ((x : A) → Local key (f x)) → Local key (continue r f)
  Local-continue (ok x) f s = s x
  Local-continue (err e) f s = record { at = λ a. Same-refl key a }

  pub Local-bind :
      (m : Act A) (f : A → Act B) → Local key m → ((x : A) → Local key (f x)) → Local key (m >>= f)
  unfolding ◌>>=◌
  Local-bind m f p q = record {
    at = λ a. let (r, b) = m a in Same-trans key (p.at a) ((Local-continue r f q).at b);
  }

module _ {A : Type 0} (key : Text) where
  Local-recover :
      (r : Result A) (handler : Act A) → Local key handler → Local key (recover r handler)
  Local-recover (ok x) handler q = record { at = λ a. Same-refl key a }
  Local-recover (err e) handler q = q

  pub Local-catch :
      (m handler : Act A) → Local key m → Local key handler → Local key (catch m handler)
  unfolding catch
  Local-catch m handler p q = record {
    at = λ a. let (r, b) = m a in Same-trans key (p.at a) ((Local-recover r handler q).at b);
  }

module _ (key : Text) where
  pub Local-state_of : (j : Text) → Local key (state_of j)
  unfolding state_of
  Local-state_of j = record { at = λ a. Same-refl key a }

  update_same :
      (f : PeerState → PeerState) (o : Option PeerState) (d : Dict PeerState) (j : Text)
      → text_eq key j ≡ false
      → Dict.get j (update_present key f o d) ≡ Dict.get j d
  update_same f none d j h = refl
  update_same f (some s) d j h = ground (arith, get-put j key (f s) d)

  pub Local-update : (f : PeerState → PeerState) → Local key (update key f)
  unfolding update
  Local-update f = record {
    at = λ a. record { others = λ j h. update_same f (Dict.get key a.states) a.states j h };
  }

  bump-Same : (o : Option PeerState) (a : Agent) → Same key a (bump_found key o a).1
  bump-Same none a = Same-refl key a
  bump-Same (some s) a = record {
    others = λ j h. ground (
      arith,
      get-put j key (record s { generation = max a.last_generation s.generation + 1 }) a.states,
    );
  }

  pub Local-bump : Local key (bump key)
  unfolding bump
  Local-bump = record { at = λ a. bump-Same (Dict.get key a.states) a }

  pub Local-assign : (fresh : ℕ → PeerState) → Local key (assign key fresh)
  unfolding assign
  Local-assign fresh = record {
    at = λ a. record {
      others = λ j h. ground (
        arith,
        get-put j key
            (record (fresh (max a.last_generation 0 + 1)) {
              generation = max a.last_generation 0 + 1;
            })
            a.states,
      );
    };
  }

  pub Local-delete : Local key (delete key)
  unfolding delete
  Local-delete = record {
    at = λ a. record { others = λ j h. ground (arith, get-remove j key a.states) };
  }

  pub Local-wg_set : (c : Command) → Local key (wg_set c)
  unfolding wg_set
  Local-wg_set c = record { at = λ a. record { others = λ j h. ground arith } }

  pub Local-save_state : Local key save_state
  unfolding save_state
  Local-save_state = record { at = λ a. record { others = λ j h. ground arith } }

  pub Local-launch : (w : Thread) → Local key (launch w)
  unfolding launch
  Local-launch w = record { at = λ a. record { others = λ j h. refl } }
