-- ===== src/Agent/Remove/Outcome.antt =====
-- What `handle_remove` of p2p/wireguard-p2p/linux/p2p_agent.py leaves behind.
use wireguard_p2p.Base.{
  ℕ, ◌≡◌, ◌∙◌, refl, sym, ap, Bool, true, false, ◌&&◌, Option, none, some, is_some, inl, inr,
  Bool-cases, if◌then◌else◌,
}
use wireguard_p2p.Base.Dict
use wireguard_p2p.Base.Dict.{Dict, get-remove_self, get-put, get-put_self}
use wireguard_p2p.Base.Text.{Text}
use wireguard_p2p.Result.{Result, ok, err, err-ok, ok-injective}
use wireguard_p2p.Agent.{Agent, PeerState, LocalPeer, direct, wg_remove}
use wireguard_p2p.Agent.Monad.{
  Act, pure, lift, ◌>>=◌, continue, when, state_of, update, bump, delete, wg_set, save_state,
}
use wireguard_p2p.Agent.Offer.{stop_running}
use wireguard_p2p.Agent.Session.{direct_peer_healthy, endpoint_of}
use wireguard_p2p.Agent.Remove.{
  Removal, Removed, removed, preserved_direct, expire_control, session_mismatch, is_expired,
  matches, preserve, forget, remove_matching, apply_removal,
}

-- What holds of a completed removal: the peer has no state, and none is on disk.
abbrev pub Gone : Text → Agent → Type 0
Gone key a = (Dict.get key a.states ≡ none) × (a.disk ≡ a.states)

-- A property of the agent behind an answer.
record Answers {A : Type 0} (P : A → Agent → Type 0) (m : Act A) : Type 0 where
  pub at : (a : Agent) (x : A) → (m a).0 ≡ ok x → P x (m a).1

module _ {A B : Type 0} (P : B → Agent → Type 0) where
  Answers-continue :
      (r : Result A) (f : A → Act B)
      → ((x : A) → Answers P (f x))
      → (b : Agent) (y : B) → (continue r f b).0 ≡ ok y
      → P y (continue r f b).1
  Answers-continue (ok x) f s b y h = (s x).at b y h
  Answers-continue (err e) f s b y h = absurd (err-ok h)

  Answers-bind : (m : Act A) (f : A → Act B) → ((x : A) → Answers P (f x)) → Answers P (m >>= f)
  unfolding ◌>>=◌
  Answers-bind m f s = record { at = λ a. let (r, b) = m a in Answers-continue r f s b }

RemovedGone : Text → Removed → Agent → Type 0
RemovedGone key x a = x ≡ removed → Gone key a

delete-last :
    (key : Text) → Answers (RemovedGone key) (delete key >>= λ u. save_state >>= λ v. pure removed)
unfolding delete save_state pure ◌>>=◌ RemovedGone
delete-last key = record {
  at = λ a x h e. elim (Bool-cases (a.works a.calls)) [
    | inl w ↦ rw w (get-remove_self key a.states, refl)
    | inr w ↦ absurd (err-ok (rw w at h))
  ];
}

forget-Answers : (key : Text) (b : Bool) → Answers (RemovedGone key) (forget key b)
unfolding forget
forget-Answers key b = Answers-bind _ (when b (wg_set (wg_remove key))) _ λ u.
    Answers-bind _ (bump key) _ λ g. Answers-bind _ (update key stop_running) _ λ v. delete-last key

true-false : true ≡ false → ⊥
true-false h = cc

abbrev is_removed : Removed → Bool
is_removed removed = true
is_removed _ = false

other_answer :
    (key : Text) (x : Removed) → is_removed x ≡ false → Answers (RemovedGone key) (pure x)
unfolding pure RemovedGone
other_answer key x n = record {
  at = λ a y h e. absurd (true-false (sym (ap is_removed (ok-injective h ∙ e)) ∙ n));
}

preserve-Answers : (key : Text) (l : Option LocalPeer) → Answers (RemovedGone key) (preserve key l)
unfolding preserve
preserve-Answers key l =
    Answers-bind _ (update key (expire_control (endpoint_of l))) _
      λ u. Answers-bind _ save_state _ λ v. other_answer key preserved_direct refl

Answers-if :
    {A : Type 0} (P : A → Agent → Type 0) (b : Bool) (m n : Act A)
    → Answers P m
    → Answers P n
    → Answers P (if b then m else n)
Answers-if P true m n p q = p
Answers-if P false m n p q = q

-- The state of a peer whose direct path outlives the session.
pub record IsKept (before after : PeerState) : Type 0 where
  same_session : after.session_id ≡ before.session_id
  same_generation : after.generation ≡ before.generation
  is_direct : after.mode ≡ direct
  no_lease : after.lease_expires ≡ 0
  outlived : after.control_expired ≡ true
  no_worker : after.worker_running ≡ false

module _ (r : Removal) (now : ℕ) (current : Dict LocalPeer) where
  remove_matching-Answers : Answers (RemovedGone r.key) (remove_matching r now (ok current))
  unfolding remove_matching
  remove_matching-Answers = Answers-bind _ (lift (ok current)) _ λ c.
      Answers-if _ (is_expired r.reason && direct_peer_healthy (Dict.get r.key c) r.peer_ip now) _ _
        (preserve-Answers r.key (Dict.get r.key c))
        (forget-Answers r.key (is_some (Dict.get r.key c)))

  apply_removal-Answers : Answers (RemovedGone r.key) (apply_removal r now (ok current))
  unfolding apply_removal
  apply_removal-Answers = Answers-bind _ (state_of r.key) _ λ s.
      Answers-if _ (matches r s) _ _ remove_matching-Answers
        (other_answer r.key session_mismatch refl)

  module _ (a : Agent) where
    -- A removal that is answered as done has removed the peer's state, and the file that is on disk
    -- no longer has it.
    pub apply_removal-Gone :
        (apply_removal r now (ok current) a).0 ≡ ok removed
        → Gone r.key (apply_removal r now (ok current) a).1
    unfolding RemovedGone
    apply_removal-Gone h = apply_removal-Answers.at a removed h refl

    module _ (s : PeerState) (found : Dict.get r.key a.states ≡ some s)
        (ours : matches r (some s) ≡ true) (lost : is_expired r.reason ≡ true)
        (healthy : direct_peer_healthy (Dict.get r.key current) r.peer_ip now ≡ true) where
      preserved :
          ((apply_removal r now (ok current) a).1.issued ≡ a.issued)
          × ((apply_removal r now (ok current) a).1.launched ≡ a.launched)
          × (Dict.get r.key (apply_removal r now (ok current) a).1.states
              ≡ some (expire_control (endpoint_of (Dict.get r.key current)) s))
      unfolding apply_removal remove_matching preserve update save_state state_of lift pure ◌>>=◌
      preserved = elim (Bool-cases (a.works a.calls)) [
        | inl w ↦
            rw (found, ours, lost, healthy, w)
              (refl, refl, rw found (get-put_self r.key _ a.states))
        | inr w ↦
            rw (found, ours, lost, healthy, w)
              (refl, refl, rw found (get-put_self r.key _ a.states))
      ]

      -- When only the coordinator lost the session and the kernel's path is healthy, the path is
      -- kept, whether the file can be written or not: no command is given to the kernel and no
      -- thread is started, and the state stays, direct, under the same session and generation, with
      -- no lease, marked as one that outlived its coordinator, and with no worker.
      pub apply_removal-IsKept :
          ((apply_removal r now (ok current) a).1.issued ≡ a.issued)
          × ((apply_removal r now (ok current) a).1.launched ≡ a.launched)
          × ((t : PeerState) × (Dict.get r.key (apply_removal r now (ok current) a).1.states
                ≡ some t)
              × IsKept s t)
      apply_removal-IsKept =
          let (issued, launched, left) = preserved in
          (
            issued,
            launched,
            (
              expire_control (endpoint_of (Dict.get r.key current)) s,
              left,
              record {
                same_session = refl;
                same_generation = refl;
                is_direct = refl;
                no_lease = refl;
                outlived = refl;
                no_worker = refl;
              },
            ),
          )
