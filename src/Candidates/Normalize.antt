-- ===== src/Candidates/Normalize.antt =====
-- `normalize_probe_candidate` of p2p/wireguard-p2p/linux/candidates.py.
use wireguard_p2p.Base.{Bool, false, not, Option, none, some, [], if◌then◌else◌}
use wireguard_p2p.Base.Int.{ℤ}
use wireguard_p2p.Base.Text.{text}
use wireguard_p2p.Result.{Result, ok, ◌>>=◌}
use wireguard_p2p.Json
use wireguard_p2p.Json.{Json, Fields, null, bool, int, str, arr, obj, truthy, to_int}
use wireguard_p2p.Ip.{Address, is_v4, is_v6}
use wireguard_p2p.Candidates.{
  CandidateType, lan4, host6, observed6, reflexive6, mapped4, observed4, predicted4, Family, udp4,
  udp6, Candidate, read_type, priority_of,
}
use wireguard_p2p.Candidates.Endpoint.{Parsed, parse_endpoint, is_private_v4}
use wireguard_p2p.Candidates.Usable.{usable_global_ipv6}

abbrev pub family_of : Address → Family
family_of a = if is_v6 a then udp6 else udp4

-- The address that a candidate of each type may have.
unfoldable pub fits : CandidateType → Address → Bool
fits lan4 a = is_private_v4 a
fits host6 a = usable_global_ipv6 a
fits observed6 a = usable_global_ipv6 a
fits reflexive6 a = usable_global_ipv6 a
fits mapped4 a = is_v4 a
fits observed4 a = is_v4 a
fits predicted4 a = is_v4 a

-- `int(value.get("priority") or PRIORITY[candidate_type])`
unfoldable pub priority_field : CandidateType → Fields → Result ℤ
unfolding Json.get truthy to_int
priority_field t fs =
    let p = Json.get (text "priority") null fs in if truthy p then to_int p else ok (priority_of t)

unfoldable pub build : CandidateType → Fields → Option Parsed → Result (Option Candidate)
unfolding fits priority_field
build t fs none = ok none
build t fs (some p) = if not (fits t p.address) then ok none else do
  priority ← priority_field t fs
  ok (
      some (record {
        type = t;
        family = family_of p.address;
        endpoint = p.endpoint;
        priority = priority;
        verified = truthy (Json.get (text "verified") (bool false) fs);
      }))

unfoldable pub build_typed : Fields → Option CandidateType → Result (Option Candidate)
unfolding build parse_endpoint Json.get
build_typed fs none = ok none
build_typed fs (some t) = build t fs (parse_endpoint (Json.get (text "endpoint") (str []) fs))

unfoldable pub normalize_probe_candidate : Json → Result (Option Candidate)
unfolding build_typed read_type Json.get
normalize_probe_candidate (obj fs) = do
  t ← read_type (Json.get (text "type") (str []) fs)
  build_typed fs t
normalize_probe_candidate null = ok none
normalize_probe_candidate (bool b) = ok none
normalize_probe_candidate (int n) = ok none
normalize_probe_candidate (str t) = ok none
normalize_probe_candidate (arr vs) = ok none
