-- ===== src/Candidates/Gather.antt =====
-- The candidates of this host: p2p/wireguard-p2p/linux/candidates.py, `reflexive6_candidate`,
-- `mapped_candidate_from_state` and `gather_candidates`. What the host's sockets, the `ip` command
-- and the port mapping daemon's file give is an argument.
use wireguard_p2p.Base.{
  ℕ, ◌+◌, Bool, false, not, ◌&&◌, ◌||◌, List, [], ◌∷◌, ◌++◌, Option, none, some, leb, ◌==◌,
  if◌then◌else◌,
}
use wireguard_p2p.Base.Clock.{seconds}
use wireguard_p2p.Base.Text.{Text, text_eq, is_empty}
use wireguard_p2p.Json.{Json}
use wireguard_p2p.Result.{Result, ok, value_error, ◌>>=◌, to_option, or_raise}
use wireguard_p2p.Ip.{Address}
use wireguard_p2p.Ip.Read.{ip_address}
use wireguard_p2p.Ip.Print.{compressed}
use wireguard_p2p.Candidates.{
  lan4, host6, reflexive6, mapped4, udp4, udp6, Candidate, priority_of, preferred_host6_priority,
  type_eq,
}
use wireguard_p2p.Candidates.Endpoint.{format_endpoint, is_private_v4}
use wireguard_p2p.Candidates.Usable.{
  Interface, usable_global_ipv6, preferred_source_ipv6, global_ipv6_addresses,
}
use wireguard_p2p.Candidates.Normalize.{normalize_probe_candidate}
use wireguard_p2p.Candidates.Order.{dedupe_and_sort}

abbrev pub port_ok : ℕ → Bool
port_ok port = leb 1 port && leb port 65535

reflexive6_of : ℕ → Option Address → Option Candidate
unfolding usable_global_ipv6 format_endpoint
reflexive6_of port none = none
reflexive6_of port (some ip) =
    if not (usable_global_ipv6 ip) || not (port_ok port)
    then none
    else some (record {
      type = reflexive6;
      family = udp6;
      endpoint = format_endpoint ip port;
      priority = priority_of reflexive6;
      verified = false;
    })

unfoldable pub reflexive6_candidate : Text → ℕ → Option Candidate
unfolding reflexive6_of ip_address
reflexive6_candidate address listen_port = reflexive6_of listen_port (ip_address address)

-- What the port mapping daemon keeps in its file.
pub record MappedState : Type 0 where
  pub internal_ip : Text
  pub internal_port : ℕ
  pub expires_at : ℕ
  pub candidate : Json

abbrev pub only_mapped : Option Candidate → Option Candidate
only_mapped none = none
only_mapped (some c) =
    if type_eq c.type mapped4 then some (record c { priority = priority_of mapped4 }) else none

abbrev pub or_none : Option (Option Candidate) → Option Candidate
or_none none = none
or_none (some c) = c

unfoldable pub mapped_of : ℕ → Address → MappedState → ℕ → Option Candidate
unfolding text_eq compressed normalize_probe_candidate
mapped_of listen_port lan state now =
    if not (text_eq state.internal_ip (compressed lan))
    then none
    else if not (state.internal_port == listen_port)
    then none
    else if leb state.expires_at (now + seconds 15)
    then none
    else only_mapped (or_none (to_option (normalize_probe_candidate state.candidate)))

unfoldable pub mapped_candidate_from_state : ℕ → Text → Option MappedState → ℕ → Option Candidate
unfolding mapped_of ip_address
mapped_candidate_from_state listen_port lan_ip none now = none
mapped_candidate_from_state listen_port lan_ip (some state) now = elim (ip_address lan_ip) [
  | none ↦ none
  | some lan ↦ mapped_of listen_port lan state now
]

-- What the host answers while its candidates are gathered.
pub record Host : Type 0 where
  pub sources : List (Option Text)
  pub interfaces : Option (List Interface)
  pub mapped : Option MappedState
  pub now : ℕ

abbrev lan_and_mapped : ℕ → Host → Option Address → List Candidate
lan_and_mapped port host none = []
lan_and_mapped port host (some ip) =
    if is_private_v4 ip
    then record {
      type = lan4;
      family = udp4;
      endpoint = format_endpoint ip port;
      priority = priority_of lan4;
      verified = false;
    }
      ∷ (elim (mapped_candidate_from_state port (compressed ip) host.mapped host.now) [
        | none ↦ []
        | some m ↦ m ∷ []
      ])
    else []

host6_of : ℕ → Text → Text → Result Candidate
unfolding text_eq ip_address format_endpoint
host6_of port preferred address = do
  ip ← or_raise (ip_address address) value_error
  ok (record {
    type = host6;
    family = udp6;
    endpoint = format_endpoint ip port;
    priority = if text_eq address preferred then preferred_host6_priority else priority_of host6;
    verified = false;
  })

host6_all : ℕ → Text → List Text → Result (List Candidate)
unfolding host6_of
host6_all port preferred [] = ok []
host6_all port preferred (a ∷ as_) = do
  c ← host6_of port preferred a
  rest ← host6_all port preferred as_
  ok (c ∷ rest)

unfoldable pub gather_candidates : ℕ → Text → Host → Result (List Candidate)
unfolding mapped_candidate_from_state host6_all preferred_source_ipv6 global_ipv6_addresses
    dedupe_and_sort
gather_candidates port lan_ip host = if not (port_ok port) then ok [] else do
  let local = if is_empty lan_ip then [] else lan_and_mapped port host (ip_address lan_ip)
  let preferred = preferred_source_ipv6 host.sources
  native ← host6_all port preferred (global_ipv6_addresses host.interfaces)
  ok (dedupe_and_sort (local ++ native) false)
