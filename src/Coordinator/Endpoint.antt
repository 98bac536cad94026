-- ===== src/Coordinator/Endpoint.antt =====
-- Endpoints and candidates in p2p/wireguard-p2p/vps/peers_api.py.
pub mod Merge
use wireguard_p2p.Base.{
  ℕ, zero, suc, ◌+◌, ◌-◌, ◌≤◌, ◌≡◌, refl, Bool, true, false, not, ◌&&◌, ◌||◌, List, [], ◌∷◌, ◌++◌,
  Option, none, some, leb, ◌==◌, if◌then◌else◌,
}
use wireguard_p2p.Base.Int.{ℤ, pos, negsuc, leb_ℤ}
use wireguard_p2p.Base.Lists.{length, any, take}
use wireguard_p2p.Base.Sort.{sort}
use wireguard_p2p.Base.Text.{Text, text, text_eq, is_empty}
use wireguard_p2p.Base.Text.Decimal.{show}
use wireguard_p2p.Json
use wireguard_p2p.Json.{Json, Fields, null, bool, int, str, arr, obj, to_int, truthy, to_list}
use wireguard_p2p.Result.{Result, ok, err, value_error, ◌>>=◌, ◌>>◌, guard, or_raise, to_option}
use wireguard_p2p.Ip.{
  Address, v4, v6, is_v4, is_v6, is_private, is_global, is_link_local, is_multicast, is_unspecified,
}
use wireguard_p2p.Ip.Read.{ip_address}
use wireguard_p2p.Ip.Print.{compressed}
use wireguard_p2p.Candidates.{
  CandidateType, lan4, host6, observed6, reflexive6, mapped4, observed4, predicted4, Family, udp4,
  udp6, Candidate, type_eq, family_name, read_type,
}
use wireguard_p2p.Candidates.Endpoint.{Parsed, split_endpoint, read_port, is_private_v4}
use wireguard_p2p.Candidates.Normalize.{family_of}
use wireguard_p2p.Candidates.Order.{same_key}
use wireguard_p2p.Coordinator.{max_candidates}

-- The text of an endpoint, as the coordinator formats it.
abbrev pub endpoint_text : Address → ℕ → Text
endpoint_text (v6 a) port = b'[' ∷ (compressed (v6 a) ++ text "]:" ++ show port)
endpoint_text (v4 a) port = compressed (v4 a) ++ b':' ∷ show port

abbrev pub parsed_endpoint : Option Address → Option ℕ → Option Parsed
parsed_endpoint (some a) (some port) =
    if is_unspecified a || is_multicast a
    then none
    else some (record { endpoint = endpoint_text a port; address = a; port = port })
parsed_endpoint _ _ = none

-- `parse_endpoint` on a text; `none` is its ValueError.
unfoldable pub parse_text : Text → Option Parsed
unfolding split_endpoint ip_address read_port is_unspecified is_multicast compressed show
parse_text value = elim (split_endpoint value) [
  | none ↦ none
  | some (host, port_text) ↦ parsed_endpoint (ip_address host) (read_port port_text)
]

unfoldable pub parse_endpoint : Json → Option Parsed
unfolding parse_text
parse_endpoint (str value) = parse_text value
parse_endpoint null = none
parse_endpoint (bool b) = none
parse_endpoint (int n) = none
parse_endpoint (arr vs) = none
parse_endpoint (obj fs) = none

abbrev compressed_of : Option Parsed → Text
compressed_of none = []
compressed_of (some p) = compressed p.address

-- `endpoint_ip(endpoint)`
unfoldable pub endpoint_ip : Text → Text
unfolding parse_text compressed
endpoint_ip endpoint = compressed_of (parse_text endpoint)

-- The types that a node may advertise; with `allow_observed` also those of the coordinator.
abbrev pub allowed : Bool → CandidateType → Bool
allowed observed lan4 = true
allowed observed host6 = true
allowed observed observed6 = false
allowed observed reflexive6 = true
allowed observed mapped4 = true
allowed observed observed4 = observed
allowed observed predicted4 = observed

abbrev pub global_host6 : Address → Bool
global_host6 a = is_v6 a && is_global a && not (is_private a) && not (is_link_local a)

-- The address that each type needs.
unfoldable pub address_fits : CandidateType → Address → Bool
unfolding is_private is_global is_link_local
address_fits lan4 a = is_private_v4 a
address_fits host6 a = global_host6 a
address_fits reflexive6 a = global_host6 a
address_fits mapped4 a = is_v4 a
address_fits observed4 a = is_v4 a
address_fits predicted4 a = is_v4 a
address_fits observed6 a = true

abbrev only_allowed : Bool → Option CandidateType → Option CandidateType
only_allowed observed none = none
only_allowed observed (some t) = if allowed observed t then some t else none

abbrev family_fits : Family → Json → Bool
family_fits f (str t) = is_empty t || text_eq t (family_name f)
family_fits f null = true
family_fits f _ = false

abbrev priority_in_range : ℤ → Bool
priority_in_range n = leb_ℤ (pos 0) n && leb_ℤ n (pos 2000)

unfoldable pub validate_candidate : Bool → Json → Result Candidate
unfolding read_type Json.get parse_endpoint address_fits to_int truthy text_eq
validate_candidate observed (obj fs) = do
  found ← read_type (Json.get (text "type") (str []) fs)
  t ← or_raise (only_allowed observed found) value_error
  p ← or_raise (parse_endpoint (Json.get (text "endpoint") (str []) fs)) value_error
  guard (address_fits t p.address) value_error
  guard (family_fits (family_of p.address) (Json.get (text "family") null fs)) value_error
  priority ← to_int (Json.get (text "priority") (int (pos 0)) fs)
  guard (priority_in_range priority) value_error
  ok (record {
    type = t;
    family = family_of p.address;
    endpoint = p.endpoint;
    priority = priority;
    verified = observed && truthy (Json.get (text "verified") (bool false) fs);
  })
validate_candidate observed null = err value_error
validate_candidate observed (bool b) = err value_error
validate_candidate observed (int n) = err value_error
validate_candidate observed (str t) = err value_error
validate_candidate observed (arr vs) = err value_error

unfoldable pub validate_each : Bool → List Candidate → List Json → Result (List Candidate)
unfolding validate_candidate any
validate_each observed seen [] = ok []
validate_each observed seen (v ∷ vs) = do
  c ← validate_candidate observed v
  let old = any (same_key false c) seen
  rest ← validate_each observed (if old then seen else c ∷ seen) vs
  ok (if old then rest else c ∷ rest)

abbrev pub by_priority : Candidate → Candidate → Bool
by_priority a b = leb_ℤ b.priority a.priority

-- `validate_candidates(values, allow_observed)`
unfoldable pub validate_candidates : Bool → Json → Result (List Candidate)
unfolding validate_each sort
validate_candidates observed (arr vs) = do
  guard (leb (length (to_list vs)) max_candidates) value_error
  found ← validate_each observed [] (to_list vs)
  ok (sort by_priority found)
validate_candidates observed null = ok []
validate_candidates observed (bool b) = err value_error
validate_candidates observed (int n) = err value_error
validate_candidates observed (str t) = err value_error
validate_candidates observed (obj fs) = err value_error

-- `lan_candidate(lan_ip, listen_port)`, on an address that was parsed
unfoldable pub lan_candidate : Address → ℕ → Option Candidate
unfolding compressed show is_private
lan_candidate a listen_port =
    if not (is_private_v4 a)
    then none
    else some (record {
      type = lan4;
      family = udp4;
      endpoint = compressed a ++ b':' ∷ show listen_port;
      priority = pos 1000;
      verified = false;
    })

abbrev observed_of : Option Parsed → Option Candidate
observed_of none = none
observed_of (some p) =
    if is_v4 p.address
    then some (record {
      type = observed4;
      family = udp4;
      endpoint = p.endpoint;
      priority = pos 700;
      verified = true;
    })
    else none

unfoldable pub observed_candidate : Text → Option Candidate
unfolding parse_text
observed_candidate endpoint = observed_of (parse_text endpoint)

abbrev pub predicted : Address → ℕ → Candidate
predicted a port = record {
  type = predicted4;
  family = udp4;
  endpoint = compressed a ++ b':' ∷ show port;
  priority = pos 500;
  verified = false;
}

-- The ports that `PREDICTED4_DELTAS` reaches: two below and two above, within 1 .. 65535.
unfoldable pub predicted_ports : ℕ → List ℕ
predicted_ports port =
    (if leb 3 port then (port - 2) ∷ [] else [])
    ++ ((if leb 2 port then (port - 1) ∷ [] else [])
        ++ ((if leb (port + 1) 65535 then (port + 1) ∷ [] else [])
            ++ (if leb (port + 2) 65535 then (port + 2) ∷ [] else [])))

unfoldable pub predicted_each : Address → List ℕ → List Candidate
unfolding compressed show
predicted_each a [] = []
predicted_each a (port ∷ ports) = predicted a port ∷ predicted_each a ports

abbrev predicted_of : Option Parsed → List Candidate
predicted_of none = []
predicted_of (some p) =
    if not (is_v4 p.address) || not (is_global p.address) || is_private p.address
    then []
    else predicted_each p.address (predicted_ports p.port)

-- `predicted_candidates(endpoint)`
unfoldable pub predicted_candidates : Text → List Candidate
unfolding parse_text is_global is_private predicted_each predicted_ports
predicted_candidates endpoint = predicted_of (parse_text endpoint)

-- The loop of `merge_candidates`: a candidate with no endpoint or an old key is skipped.
unfoldable pub merge_from : List Candidate → List Candidate → List Candidate
unfolding any
merge_from seen [] = []
merge_from seen (c ∷ cs) =
    let skipped = merge_from seen cs in
    let taken = merge_from (c ∷ seen) cs in
    if is_empty c.endpoint || any (same_key false c) seen then skipped else c ∷ taken

-- `merge_candidates(*groups)`, over the groups in a row
unfoldable pub merge_candidates : List Candidate → List Candidate
unfolding merge_from sort
merge_candidates candidates = take max_candidates (sort by_priority (merge_from [] candidates))
