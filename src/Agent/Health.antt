-- ===== src/Agent/Health.antt =====
-- `Handler.do_GET` of p2p/wireguard-p2p/linux/p2p_agent.py, up to the status and what the answer tells.
use wireguard_p2p.Base.{
  ℕ, ◌+◌, ◌-◌, ◌/◌, ◌≤◌, not, ◌&&◌, ◌||◌, [], ◌∷◌, Option, none, some, ◌==◌, if◌then◌else◌, arith,
}
use wireguard_p2p.Base.Lists.{length}
use wireguard_p2p.Base.Dict.{Dict}
use wireguard_p2p.Base.Text.{Text, text, text_eq, is_empty}
use wireguard_p2p.Agent.{PeerState, vps_address}
use wireguard_p2p.Agent.Handler.{Server}
use wireguard_p2p.Agent.Reflexive.{Reflexive}

-- The request and the clock.
pub record Query : Type 0 where
  pub path : Text
  pub client_address : Text
  pub now : ℕ

-- The answer's fields that are not constants.
pub record Report : Type 0 where
  pub state_count : ℕ
  pub probing : ℕ
  pub nonce_cache : ℕ
  pub reflexive6 : Text
  pub reflexive6_age : Option ℕ

pub data Reply : Type 0 where
  refused : ℕ → Reply
  healthy : Report → Reply

unfoldable count_running : Dict PeerState → ℕ
count_running [] = 0
count_running ((key, s) ∷ d) =
    let rest = count_running d in if s.worker_running then 1 + rest else rest

-- The age in whole seconds; a clock that was set back counts as no time.
abbrev reflexive_age : ℕ → Reflexive → Option ℕ
reflexive_age now r =
    if not (is_empty r.address) && not (r.updated == 0)
    then some ((now - r.updated) / 1000000)
    else none

abbrev report : Query → Server → Reflexive → Report
unfolding count_running
report q s r = record {
  state_count = length s.agent.states;
  probing = count_running s.agent.states;
  nonce_cache = length s.seen_nonces;
  reflexive6 = r.address;
  reflexive6_age = reflexive_age q.now r;
}

-- `do_GET()`
unfoldable pub answer_query : Text → Query → Server → Reflexive → Reply
unfolding text_eq count_running
answer_query listen_address q s r =
    if not (text_eq q.path (text "/health"))
    then refused 404
    else if not (text_eq q.client_address vps_address || text_eq q.client_address listen_address)
    then refused 403
    else healthy (report q s r)

-- No more workers are told of than there are states.
count_running-≤ : (d : Dict PeerState) → count_running d ≤ length d
unfolding count_running
count_running-≤ [] = omega arith
count_running-≤ ((key, s) ∷ d) = ground (arith, count_running-≤ d)
