-- ===== src/Agent/Remove/Cleanup.antt =====
-- What `cleanup_initiator_states` of p2p/wireguard-p2p/linux/p2p_agent.py leaves behind.
use wireguard_p2p.Base.{
  ◌≡◌, refl, sym, subst, Bool, true, false, not, ◌&&◌, ◌||◌, List, [], ◌∷◌, Option, none, some,
  is_some, inl, inr, arith, Bool-cases,
}
use wireguard_p2p.Base.Dict
use wireguard_p2p.Base.Dict.{Dict, get-remove_self}
use wireguard_p2p.Base.Lists.{any}
use wireguard_p2p.Base.Text.{Text, text_eq, text_eq_iff, text_eq→eq}
use wireguard_p2p.Result.{Result, ok-injective}
use wireguard_p2p.Agent.{Agent, PeerState, LocalPeer, wg_remove}
use wireguard_p2p.Agent.Monad.{
  pure, lift, gets, catch, when, state_of, update, bump, delete, wg_set, save_state,
}
use wireguard_p2p.Agent.Triple.{
  Triple, Any, Triple-Any, Triple-pure, Triple-gets, Triple-bind, Triple-when, Triple-weaken,
}
use wireguard_p2p.Agent.Frame.{
  Local, Local-pure, Local-if, Local-bind, Local-catch, Local-state_of, Local-update, Local-bump,
  Local-delete, Local-wg_set,
}
use wireguard_p2p.Agent.Offer.{stop_running}
use wireguard_p2p.Agent.Remove.{
  is_initiated, has_key, cleanup_key, cleanup_visit, cleanup_keys, keys_of,
  cleanup_initiator_states,
}

ruleset local_rules = (
  Local-pure, Local-if, Local-bind, Local-catch, Local-state_of, Local-update, Local-bump,
  Local-delete, Local-wg_set,
)

-- A state that this server opened, for a key that is no longer active.
abbrev pub stale : List Text → Text → Agent → Bool
stale active k a = is_initiated (Dict.get k a.states) && not (has_key k active)

abbrev pub IsClean : List Text → Agent → Type 0
IsClean active a = (k : Text) → stale active k a ≡ false

-- A key that is clean, or visited by the rest of the loop.
abbrev settled : List Text → List Text → Text → Agent → Bool
settled active keys k a = has_key k keys || not (stale active k a)

delete-Gone : (key : Text) → Triple Any (delete key) (λ u a. Dict.get key a.states ≡ none)
unfolding delete
delete-Gone key = record { at = λ a p x h. get-remove_self key a.states }

module _ (active : List Text) (current : Dict LocalPeer) (key : Text) where
  cleanup_key-Gone : Triple Any (cleanup_key current key) (λ u a. Dict.get key a.states ≡ none)
  unfolding cleanup_key
  cleanup_key-Gone = Triple-bind (bump key) _ (Triple-Any _) λ g.
      Triple-bind (update key stop_running) _ (Triple-Any _) λ u.
        Triple-bind
          (when (is_some (Dict.get key current)) (catch (wg_set (wg_remove key)) (pure tt))) _
          (Triple-Any _) λ v. delete-Gone key

  cleanup_visit-Local : Local key (cleanup_visit active current key)
  unfolding cleanup_visit cleanup_key
  cleanup_visit-Local = search local_rules depth 20

  state_of-found : Triple Any (state_of key) (λ s a. s ≡ Dict.get key a.states)
  unfolding state_of
  state_of-found = record { at = λ a p s h. sym (ok-injective h) }

  cleanup_visit-Clean :
      Triple Any (cleanup_visit active current key) (λ g a. stale active key a ≡ false)
  unfolding cleanup_visit
  cleanup_visit-Clean = Triple-bind (state_of key) _ state_of-found λ s.
      Triple-bind (when (is_initiated s && not (has_key key active)) (cleanup_key current key)) _
        (Triple-when (is_initiated s && not (has_key key active)) (cleanup_key current key)
          (λ t. Triple-weaken _ (λ a p. tt) (λ x a e. rw e refl) cleanup_key-Gone)
          (λ f a e. subst (λ o. (is_initiated o && not (has_key key active)) ≡ false) e f))
        λ u. Triple-pure (is_initiated s && not (has_key key active)) (λ a p. p)

module _ (active : List Text) (current : Dict LocalPeer) where
  visit_other :
      (key k : Text) (a : Agent)
      → text_eq k key ≡ false
      → Dict.get k (cleanup_visit active current key a).1.states ≡ Dict.get k a.states
  visit_other key k a h =
      ((cleanup_visit-Local active current key).at a).others k
        (ground (arith, text_eq_iff k key, text_eq_iff key k))

  cleanup_visit-settled :
      (key : Text) (keys : List Text) (k : Text)
      → Triple
          (λ a. settled active (key ∷ keys) k a ≡ true)
          (cleanup_visit active current key)
          (λ g a. settled active keys k a ≡ true)
  unfolding has_key any
  cleanup_visit-settled key keys k = record {
    at = λ a p x h. elim (Bool-cases (text_eq k key)) [
      | inl same ↦
          rw (text_eq→eq k key same)
            (rw ((cleanup_visit-Clean active current key).at a tt x h) (ground arith))
      | inr other ↦ rw (visit_other key k a other) (rw other at p)
    ];
  }

  cleanup_keys-Clean :
      (keys : List Text) (k : Text)
      → Triple
          (λ a. settled active keys k a ≡ true)
          (cleanup_keys active current keys)
          (λ c a. stale active k a ≡ false)
  unfolding cleanup_keys has_key any
  cleanup_keys-Clean [] k = Triple-pure false (λ a p. ground (arith, p))
  cleanup_keys-Clean (key ∷ keys) k =
      Triple-bind (cleanup_visit active current key) _ (cleanup_visit-settled key keys k) λ gone.
        Triple-bind (cleanup_keys active current keys) _ (cleanup_keys-Clean keys k)
          λ changed. Triple-pure (gone || changed) (λ a p. p)

keys_of-get :
    (k : Text) (d : Dict PeerState) → (has_key k (keys_of d) || not (is_some (Dict.get k d))) ≡ true
unfolding has_key any Dict.get
keys_of-get k [] = refl
keys_of-get k ((j, s) ∷ d) = ground (arith, text_eq_iff k j, text_eq_iff j k, keys_of-get k d)

settled_by :
    (o : Option PeerState) (listed active : Bool)
    → (listed || not (is_some o)) ≡ true
    → (listed || not (is_initiated o && not active)) ≡ true
settled_by none listed active h = h
settled_by (some s) listed active h = ground (arith, h)

initially_settled :
    (active : List Text) (k : Text) (a : Agent) → settled active (keys_of a.states) k a ≡ true
initially_settled active k a =
    settled_by (Dict.get k a.states) (has_key k (keys_of a.states)) (has_key k active)
      (keys_of-get k a.states)

module _ (active : List Text) (peers : Result (Dict LocalPeer)) where
  every_key :
      (current : Dict LocalPeer) (keys : List Text)
      → Triple
          (λ a. keys ≡ keys_of a.states)
          (cleanup_keys active current keys)
          (λ c. IsClean active)
  every_key current keys = record {
    at = λ a p x h k.
        (cleanup_keys-Clean active current keys k).at a (rw p (initially_settled active k a)) x h;
  }

  saved : Triple (IsClean active) save_state (λ u. IsClean active)
  unfolding save_state
  saved = record {
    at = λ a p x h k. elim (Bool-cases (a.works a.calls)) [
      | inl w ↦ rw w (p k)
      | inr w ↦ rw w (p k)
    ];
  }

  -- After a cleanup that returns, every state that this server opened is for an active key.
  pub cleanup_initiator_states-Clean :
      Triple Any (cleanup_initiator_states active peers) (λ u. IsClean active)
  unfolding cleanup_initiator_states
  cleanup_initiator_states-Clean = Triple-bind (lift peers) _ (Triple-Any _) λ current.
      Triple-bind (gets (λ a. keys_of a.states)) _ (Triple-gets _) λ keys.
        Triple-bind (cleanup_keys active current keys) _ (every_key current keys)
          λ changed. Triple-when changed save_state (λ t. saved) (λ f a p. p)
