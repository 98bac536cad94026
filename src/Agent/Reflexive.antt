-- ===== src/Agent/Reflexive.antt =====
-- The reflexive IPv6 address of p2p/wireguard-p2p/linux/p2p_agent.py: `discover_reflexive_ipv6`,
-- `refresh_reflexive_ipv6`, `current_reflexive6_candidate`, `local_candidate_snapshot`.
use wireguard_p2p.Base.{
  ℕ, Bool, true, false, not, ◌&&◌, ◌||◌, List, [], ◌∷◌, ◌++◌, Option, none, some, ◌==◌,
  if◌then◌else◌,
}
use wireguard_p2p.Base.Clock.{seconds, older}
use wireguard_p2p.Base.Sort.{sort}
use wireguard_p2p.Base.Text.{Text, is_empty}
use wireguard_p2p.Base.Text.Decimal.{strip}
use wireguard_p2p.Result.{Result, ok, runtime_error, ◌>>=◌, ◌>>◌, guard}
use wireguard_p2p.Ip.{Address}
use wireguard_p2p.Ip.Read.{ip_address}
use wireguard_p2p.Ip.Print.{compressed}
use wireguard_p2p.Candidates.{Candidate}
use wireguard_p2p.Candidates.Gather.{Host, gather_candidates, reflexive6_candidate}
use wireguard_p2p.Candidates.Order.{before}
use wireguard_p2p.Candidates.Usable.{usable_global_ipv6}

-- REFLEXIVE6_ADDRESS and REFLEXIVE6_UPDATED
pub record Reflexive : Type 0 where
  pub address : Text
  pub updated : ℕ

usable_answer : Option Address → Option Text
unfolding usable_global_ipv6 compressed
usable_answer none = none
usable_answer (some ip) = if usable_global_ipv6 ip then some (compressed ip) else none

first_answer : List (Option Text) → Text
unfolding usable_answer ip_address strip
first_answer [] = []
first_answer (none ∷ rest) = first_answer rest
first_answer (some body ∷ rest) = elim (usable_answer (ip_address (strip body))) [
  | some t ↦ t
  | none ↦ first_answer rest
]

abbrev has_any : List Text → Bool
has_any [] = false
has_any (t ∷ ts) = true

-- `discover_reflexive_ipv6()`: the first usable answer, and only on a host with no usable address
-- of its own. `answers` is what the services sent, `none` for a failed request.
unfoldable pub discover_reflexive_ipv6 : List Text → List (Option Text) → Text
unfolding first_answer
discover_reflexive_ipv6 native answers = if has_any native then [] else first_answer answers

-- `refresh_reflexive_ipv6()`, with the address that was discovered
unfoldable pub refresh_reflexive_ipv6 : ℕ → Text → Reflexive → Reflexive
refresh_reflexive_ipv6 now address r =
    if not (is_empty address)
    then record { address = address; updated = now }
    else if older now r.updated (seconds 1800)
    then record { address = []; updated = 0 }
    else r

unfoldable pub current_reflexive6_candidate : ℕ → ℕ → Reflexive → Option Candidate
unfolding reflexive6_candidate
current_reflexive6_candidate now listen_port r =
    if is_empty r.address || older now r.updated (seconds 1800)
    then none
    else reflexive6_candidate r.address listen_port

abbrev with_reflexive : Option Candidate → List Candidate → List Candidate
with_reflexive none cs = cs
with_reflexive (some c) cs = sort before (cs ++ c ∷ [])

-- The candidates that the agent reports of itself.
unfoldable pub local_candidates : ℕ → Text → Host → Reflexive → Result (List Candidate)
unfolding gather_candidates current_reflexive6_candidate sort before
local_candidates listen_port lan_ip host r = do
  cs ← gather_candidates listen_port lan_ip host
  ok (with_reflexive (current_reflexive6_candidate host.now listen_port r) cs)

-- `local_candidate_snapshot()`
unfoldable pub local_candidate_snapshot :
    Result Text → ℕ → Host → Reflexive → Result (Text × ℕ × List Candidate)
unfolding local_candidates
local_candidate_snapshot local_ipv4 listen_port host r = do
  lan_ip ← local_ipv4
  guard (not (is_empty lan_ip) && not (listen_port == 0)) runtime_error
  cs ← local_candidates listen_port lan_ip host r
  ok (lan_ip, listen_port, cs)
