-- ===== src/Candidates/Select.antt =====
-- `select_probe_candidates` of p2p/wireguard-p2p/linux/candidates.py, and the lookups by endpoint.
pub mod Bounds
use wireguard_p2p.Base.{
  ◌≡◌, refl, Bool, true, false, not, ◌&&◌, ◌||◌, List, [], ◌∷◌, ◌++◌, Option, none, some, leb,
  if◌then◌else◌, map, is_some,
}
use wireguard_p2p.Base.Lists.{length, take, any, first, set_last}
use wireguard_p2p.Base.Sort.{sort}
use wireguard_p2p.Base.Text.{Text, text, text_eq, join, lower, is_empty}
use wireguard_p2p.Json.{Json, null, bool, int, str, arr, obj}
use wireguard_p2p.Result.{Result, ok, err, ◌>>=◌}
use wireguard_p2p.Ip.{Address, is_v4, is_v6, is_global, is_private}
use wireguard_p2p.Candidates.{
  CandidateType, lan4, host6, observed6, reflexive6, mapped4, observed4, predicted4, Candidate,
  type_name, type_eq, priority_of, max_probe_candidates,
}
use wireguard_p2p.Candidates.Endpoint.{Parsed, parse_text, is_private_v4}
use wireguard_p2p.Candidates.Usable.{usable_global_ipv6}
use wireguard_p2p.Candidates.Normalize.{normalize_probe_candidate, family_of}
use wireguard_p2p.Candidates.Order.{before, dedupe_and_sort, same_endpoint}

-- `str(endpoint_type).lower() in ("lan", "lan4")`
unfoldable pub allows_lan : Json → Bool
unfolding text_eq
allows_lan (str t) = text_eq (lower t) (text "lan") || text_eq (lower t) (text "lan4")
allows_lan null = false
allows_lan (bool b) = false
allows_lan (int n) = false
allows_lan (arr vs) = false
allows_lan (obj fs) = false

abbrev pub is_type6 : CandidateType → Bool
is_type6 t = type_eq t host6 || type_eq t observed6 || type_eq t reflexive6

-- The two filters on the type.
abbrev pub admitted : Bool → Bool → Candidate → Bool
admitted allow_lan allow_ipv6 c =
    not (type_eq c.type lan4 && not allow_lan) && not (is_type6 c.type && not allow_ipv6)

abbrev pub add_admitted : Bool → Bool → Option Candidate → List Candidate → List Candidate
add_admitted allow_lan allow_ipv6 none rest = rest
add_admitted allow_lan allow_ipv6 (some c) rest =
    if admitted allow_lan allow_ipv6 c then c ∷ rest else rest

unfoldable pub normalized : Bool → Bool → List Json → Result (List Candidate)
normalized allow_lan allow_ipv6 [] = ok []
normalized allow_lan allow_ipv6 (v ∷ vs) = do
  c ← normalize_probe_candidate v
  rest ← normalized allow_lan allow_ipv6 vs
  ok (add_admitted allow_lan allow_ipv6 c rest)

-- The type of the endpoint that older coordinators send beside the candidates.
unfoldable pub legacy_type : Bool → Bool → Address → Option CandidateType
unfolding usable_global_ipv6
legacy_type allow_lan allow_ipv6 a =
    if allow_lan && is_private_v4 a
    then some lan4
    else if is_v6 a && usable_global_ipv6 a && allow_ipv6
    then some host6
    else if is_v4 a
    then some observed4
    else none

abbrev pub legacy_of : Parsed → Option CandidateType → List Candidate
legacy_of p none = []
legacy_of p (some t) =
    record {
      type = t;
      family = family_of p.address;
      endpoint = p.endpoint;
      priority = priority_of t;
      verified = type_eq t observed4;
    }
    ∷ []

abbrev pub legacy_parsed : Bool → Bool → Option Parsed → List Candidate
legacy_parsed allow_lan allow_ipv6 none = []
legacy_parsed allow_lan allow_ipv6 (some p) =
    legacy_of p (legacy_type allow_lan allow_ipv6 p.address)

unfoldable pub legacy_candidates : Bool → Bool → Text → List Candidate
legacy_candidates allow_lan allow_ipv6 endpoint =
    if is_empty endpoint then [] else legacy_parsed allow_lan allow_ipv6 (parse_text endpoint)

abbrev pub is_observed4 : Candidate → Bool
is_observed4 c = type_eq c.type observed4

abbrev pub with_observed : Option Candidate → List Candidate → List Candidate
with_observed none selected = selected
with_observed (some o) selected =
    if any (same_endpoint o) selected then selected else sort before (set_last o selected)

-- At most `MAX_PROBE_CANDIDATES`, the observed IPv4 endpoint among them.
unfoldable pub limit_candidates : List Candidate → List Candidate
unfolding sort before any first set_last
limit_candidates candidates =
    if leb (length candidates) max_probe_candidates
    then candidates
    else with_observed (first is_observed4 candidates) (take max_probe_candidates candidates)

unfoldable pub select_probe_candidates : List Json → Text → Json → Bool → Result (List Candidate)
unfolding allows_lan normalized legacy_candidates dedupe_and_sort limit_candidates
select_probe_candidates values legacy_endpoint endpoint_type allow_ipv6 = do
  let allow_lan = allows_lan endpoint_type
  candidates ← normalized allow_lan allow_ipv6 values
  let legacy = legacy_candidates allow_lan allow_ipv6 legacy_endpoint
  ok (limit_candidates (dedupe_and_sort (candidates ++ legacy) true))

-- `"type|endpoint"` of each candidate, between semicolons
unfoldable pub candidate_signature : List Candidate → Text
unfolding join
candidate_signature candidates =
    join (b';' ∷ []) (map (λ c. type_name c.type ++ b'|' ∷ c.endpoint) candidates)

-- `none` is the empty text.
unfoldable pub candidate_type_for_endpoint : List Candidate → Text → Option CandidateType
unfolding text_eq
candidate_type_for_endpoint [] endpoint = none
candidate_type_for_endpoint (c ∷ cs) endpoint =
    if text_eq c.endpoint endpoint then some c.type else candidate_type_for_endpoint cs endpoint

unfoldable pub candidate_endpoint_exists : List Candidate → Text → Bool
unfolding candidate_type_for_endpoint
candidate_endpoint_exists candidates endpoint =
    is_some (candidate_type_for_endpoint candidates endpoint)

abbrev observed_type : Option Parsed → Option CandidateType
observed_type none = none
observed_type (some p) =
    if is_v6 p.address && usable_global_ipv6 p.address
    then some observed6
    else if is_v4 p.address && is_global p.address && not (is_private p.address)
    then some observed4
    else none

unfoldable pub observed_type_for_endpoint : Text → Option CandidateType
unfolding parse_text usable_global_ipv6 is_global is_private
observed_type_for_endpoint endpoint = observed_type (parse_text endpoint)
