-- ===== src/Agent/Monad.antt =====
-- Code of the agent that runs under `STATE_LOCK` and may raise. What was written before a raise
-- stays written, so the state comes back beside the error too.
use wireguard_p2p.Base.{ℕ, suc, ◌+◌, max, Bool, ◌∷◌, Option, none, some, if◌then◌else◌}
use wireguard_p2p.Base.Dict
use wireguard_p2p.Base.Dict.{Dict}
use wireguard_p2p.Base.Text.{Text}
use wireguard_p2p.Result.{Error, Result, ok, err, runtime_error, os_error}
use wireguard_p2p.Agent.{Agent, PeerState, Command, Thread}

abbrev pub Act : Type 0 → Type 0
Act A = Agent → Result A × Agent

module _ {A : Type 0} where
  unfoldable pub pure : A → Act A
  pure x a = (ok x, a)

  unfoldable pub raise : Error → Act A
  raise e a = (err e, a)

  unfoldable pub lift : Result A → Act A
  lift r a = (r, a)

  unfoldable pub gets : (Agent → A) → Act A
  gets f a = (ok (f a), a)

  abbrev pub recover : Result A → Act A → Act A
  recover (ok x) handler a = (ok x, a)
  recover (err e) handler a = handler a

  -- `try: m except Exception: handler`
  unfoldable pub catch : Act A → Act A → Act A
  catch m handler a = let (r, b) = m a in recover r handler b

module _ {A B : Type 0} where
  abbrev pub continue : Result A → (A → Act B) → Act B
  continue (ok x) f a = f x a
  continue (err e) f a = (err e, a)

  infixl 5 ◌>>=◌ ◌>>◌
  unfoldable pub ◌>>=◌ : Act A → (A → Act B) → Act B
  unfolding pure raise lift gets
  ◌>>=◌ m f a = let (r, b) = m a in continue r f b

  abbrev pub ◌>>◌ : Act A → Act B → Act B
  m >> n = m >>= λ _. n

-- `if test: m`
abbrev pub when : Bool → Act (Unit {0}) → Act (Unit {0})
when test m = if test then m else pure tt

-- `STATES.get(key)`
unfoldable pub state_of : Text → Act (Option PeerState)
unfolding Dict.get
state_of key a = (ok (Dict.get key a.states), a)

abbrev pub update_present :
    Text → (PeerState → PeerState) → Option PeerState → Dict PeerState → Dict PeerState
update_present key f none d = d
update_present key f (some s) d = Dict.put key (f s) d

-- Assignments to fields of the state of a key, in place.
unfoldable pub update : Text → (PeerState → PeerState) → Act (Unit {0})
unfolding Dict.get Dict.put
update key f a =
    (ok tt, record a { states = update_present key f (Dict.get key a.states) a.states })

-- `next_generation(previous)`
unfoldable pub next_generation : ℕ → Act ℕ
next_generation previous a =
    let n = max a.last_generation previous + 1 in (ok n, record a { last_generation = n })

abbrev pub bump_found : Text → Option PeerState → Act ℕ
bump_found key none a = (ok 0, a)
bump_found key (some s) a =
    let n = max a.last_generation s.generation + 1 in
    (
      ok n,
      record a {
        last_generation = n;
        states = Dict.put key (record s { generation = n }) a.states;
      },
    )

-- `state["generation"] = next_generation(state.get("generation", 0))`
unfoldable pub bump : Text → Act ℕ
unfolding next_generation Dict.get Dict.put
bump key a = bump_found key (Dict.get key a.states) a

-- `STATES[key] = new_peer_state(...)`: the new state takes a generation of its own.
unfoldable pub assign : Text → (ℕ → PeerState) → Act (Unit {0})
unfolding next_generation Dict.put
assign key fresh a =
    let n = max a.last_generation 0 + 1 in
    (
      ok tt,
      record a {
        last_generation = n;
        states = Dict.put key (record (fresh n) { generation = n }) a.states;
      },
    )

-- `del STATES[key]`
unfoldable pub delete : Text → Act (Unit {0})
unfolding Dict.remove
delete key a = (ok tt, record a { states = Dict.remove key a.states })

-- `wg_set(...)`
unfoldable pub wg_set : Command → Act (Unit {0})
wg_set c a =
    if a.works a.calls
    then (ok tt, record a { calls = suc a.calls; issued = c ∷ a.issued })
    else (err runtime_error, record a { calls = suc a.calls })

-- `save_state()`
unfoldable pub save_state : Act (Unit {0})
save_state a =
    if a.works a.calls
    then (ok tt, record a { calls = suc a.calls; disk = a.states })
    else (err os_error, record a { calls = suc a.calls })

-- `launch_probe(...)`, `launch_confirmation_rekey(...)`
unfoldable pub launch : Thread → Act (Unit {0})
launch w a = (ok tt, record a { launched = w ∷ a.launched })
