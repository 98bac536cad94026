-- ===== src/Agent/Invariant.antt =====
-- An invariant on the states of the peers in p2p/wireguard-p2p/linux/p2p_agent.py, and the code that
-- keeps it.
pub mod Offers
pub mod Sections
pub mod Workers
pub mod Reach
use wireguard_p2p.Base.{
  not, ◌||◌, ◌==◌, ℕ, ◌+◌, ◌≡◌, refl, subst, sym, Bool, true, false, List, [], Option, none, some,
  arith, max, inl, inr, some-injective, Bool-cases, if◌then◌else◌,
}
use wireguard_p2p.Base.Dict
use wireguard_p2p.Base.Dict.{Dict, get-put, get-remove}
use wireguard_p2p.Base.Text.{Text, text_eq}
use wireguard_p2p.Result.{Error, Result, ok, err, Ensures}
use wireguard_p2p.Candidates.Select.Bounds.{IsPlan}
use wireguard_p2p.Agent.{Agent, PeerState, Command, Thread}
use wireguard_p2p.Agent.Monad.{
  Act, bump_found, update_present, pure, lift, gets, catch, ◌>>=◌, state_of, update, bump, assign,
  delete, wg_set, save_state, launch, recover, continue,
}

abbrev pub Sane : PeerState → Type 0
Sane s = ((not s.control_expired || s.lease_expires == 0) ≡ true) × IsPlan s.candidates

abbrev pub AllSane : Dict PeerState → Type 0
AllSane d = (key : Text) (s : PeerState) → Dict.get key d ≡ some s → Sane s

-- Code that keeps all states sane, also where it raises.
pub record Keeps {A : Type 0} (m : Act A) : Type 0 where
  pub at : (a : Agent) → AllSane a.states → AllSane (m a).1.states

module _ {A : Type 0} where
  pub Keeps-pure : (x : A) → Keeps (pure x)
  unfolding pure
  Keeps-pure x = record { at = λ a h. h }

  pub Keeps-lift : (r : Result A) → Keeps (lift r)
  unfolding lift
  Keeps-lift r = record { at = λ a h. h }

  pub Keeps-gets : (f : Agent → A) → Keeps (gets f)
  unfolding gets
  Keeps-gets f = record { at = λ a h. h }

  pub Keeps-if : (b : Bool) (m n : Act A) → Keeps m → Keeps n → Keeps (if b then m else n)
  Keeps-if true m n p q = p
  Keeps-if false m n p q = q

  Keeps-recover : (r : Result A) {n : Act A} → Keeps n → Keeps (recover r n)
  Keeps-recover (ok x) s = record { at = λ a h. h }
  Keeps-recover (err e) s = s

  pub Keeps-catch : (m n : Act A) → Keeps m → Keeps n → Keeps (catch m n)
  unfolding catch
  Keeps-catch m n p q = record {
    at = λ a h. let (r, b) = m a in (Keeps-recover r q).at b (p.at a h);
  }

module _ {A B : Type 0} where
  Keeps-continue : (r : Result A) (f : A → Act B) → ((x : A) → Keeps (f x)) → Keeps (continue r f)
  Keeps-continue (ok x) f s = s x
  Keeps-continue (err e) f s = record { at = λ a h. h }

  pub Keeps-bind : (m : Act A) (f : A → Act B) → Keeps m → ((x : A) → Keeps (f x)) → Keeps (m >>= f)
  unfolding ◌>>=◌
  Keeps-bind m f p q = record {
    at = λ a h. let (r, b) = m a in (Keeps-continue r f q).at b (p.at a h);
  }

  pub Keeps-checked :
      (P : A → Type 0) (r : Result A) (f : A → Act B)
      → Ensures P r
      → ((x : A) → P x → Keeps (f x))
      → Keeps (lift r >>= f)
  unfolding ◌>>=◌ lift
  Keeps-checked P (ok x) f p q = q x (p.at x refl)
  Keeps-checked P (err e) f p q = record { at = λ a h. h }

pub Keeps-state_of : (key : Text) → Keeps (state_of key)
unfolding state_of
Keeps-state_of key = record { at = λ a h. h }

pub put-AllSane :
    (key : Text) (t : PeerState) (d : Dict PeerState)
    → Sane t
    → AllSane d
    → AllSane (Dict.put key t d)
put-AllSane key t d p h j s e = elim (Bool-cases (text_eq key j)) [
  | inl same ↦ subst Sane (some-injective (rw (get-put, same) at e)) p
  | inr other ↦ h j s (rw (get-put, other) at e)
]

remove-AllSane : (key : Text) (d : Dict PeerState) → AllSane d → AllSane (Dict.remove key d)
remove-AllSane key d h j s e = h j s (ground (arith, e, get-remove j key d))

update-AllSane :
    (key : Text) (f : PeerState → PeerState)
    → ((s : PeerState) → Sane s → Sane (f s))
    → (o : Option PeerState) (d : Dict PeerState) → Dict.get key d ≡ o
    → AllSane d
    → AllSane (update_present key f o d)
update-AllSane key f k none d e h = h
update-AllSane key f k (some s) d e h = put-AllSane key (f s) d (k s (h key s e)) h

pub Keeps-update :
    (key : Text) (f : PeerState → PeerState)
    → ((s : PeerState) → Sane s → Sane (f s))
    → Keeps (update key f)
unfolding update
Keeps-update key f k = record {
  at = λ a h. update-AllSane key f k (Dict.get key a.states) a.states refl h;
}

bump-AllSane :
    (key : Text) (o : Option PeerState) (a : Agent)
    → Dict.get key a.states ≡ o
    → AllSane a.states
    → AllSane (bump_found key o a).1.states
bump-AllSane key none a e h = h
bump-AllSane key (some s) a e h = put-AllSane key _ a.states (h key s e) h

pub Keeps-bump : (key : Text) → Keeps (bump key)
unfolding bump
Keeps-bump key = record { at = λ a h. bump-AllSane key (Dict.get key a.states) a refl h }

pub Keeps-assign :
    (key : Text) (fresh : ℕ → PeerState) → ((n : ℕ) → Sane (fresh n)) → Keeps (assign key fresh)
unfolding assign
Keeps-assign key fresh k = record { at = λ a h. put-AllSane key _ a.states (k _) h }

pub Keeps-delete : (key : Text) → Keeps (delete key)
unfolding delete
Keeps-delete key = record { at = λ a h. remove-AllSane key a.states h }

pub Keeps-wg_set : (c : Command) → Keeps (wg_set c)
unfolding wg_set
Keeps-wg_set c = record {
  at = λ a h. elim (Bool-cases (a.works a.calls)) [ inl e ↦ rw e h | inr e ↦ rw e h ];
}

pub Keeps-save_state : Keeps save_state
unfolding save_state
Keeps-save_state = record {
  at = λ a h. elim (Bool-cases (a.works a.calls)) [ inl e ↦ rw e h | inr e ↦ rw e h ];
}

pub Keeps-launch : (w : Thread) → Keeps (launch w)
unfolding launch
Keeps-launch w = record { at = λ a h. h }
