-- ===== src/Agent/Validate.antt =====
-- The validators of p2p/wireguard-p2p/linux/p2p_agent.py.
pub mod Uuid
pub mod Base64
pub mod Order
use wireguard_p2p.Base.{
  ℕ, zero, suc, ◌+◌, ◌-◌, ◌*◌, ◌≡◌, refl, Bool, true, false, not, ◌&&◌, ◌||◌, List, [], ◌∷◌, ◌++◌,
  Option, none, some, leb, ltb, ◌==◌, if◌then◌else◌, map,
}
use wireguard_p2p.Base.Clock.{seconds}
use wireguard_p2p.Base.Int.{ℤ, pos, negsuc, leb_ℤ, neg_part}
use wireguard_p2p.Base.Lists.{length, any}
use wireguard_p2p.Base.Sort.{sort}
use wireguard_p2p.Base.Text.{Text, text, text_eq, break_at, rbreak_at, is_empty}
use wireguard_p2p.Json
use wireguard_p2p.Json.{
  Json, Fields, null, bool, int, str, arr, obj, to_int, truthy, to_list, equals_text,
}
use wireguard_p2p.Result.{
  Result, ok, err, key_error, type_error, value_error, ◌>>=◌, ◌>>◌, guard, or_raise, to_option,
}
use wireguard_p2p.Ip.{Address, v4, v6, is_v4, is_v6, is_multicast, is_unspecified, octets}
use wireguard_p2p.Ip
use wireguard_p2p.Ip.Read.{ip_address}
use wireguard_p2p.Ip.Print.{compressed}
use wireguard_p2p.Candidates.{
  CandidateType, observed6, Candidate, Family, type_eq, family_name, read_type,
}
use wireguard_p2p.Candidates.Endpoint.{split_endpoint, read_port, format_endpoint}
use wireguard_p2p.Candidates.Normalize.{family_of}
use wireguard_p2p.Candidates.Order.{same_key}
use wireguard_p2p.Agent.{vps_address}
use Uuid.{is_canonical_uuid, uuid_hex}
use Base64.{decoded_length}

-- `data[key]`
unfoldable pub require : Text → Fields → Result Json
unfolding Json.lookup
require key fs = or_raise (Json.lookup key fs) key_error

unfoldable pub validate_public_key : Json → Result Text
unfolding decoded_length
validate_public_key (str t) = elim (decoded_length t) [
  | none ↦ err value_error
  | some n ↦ if n == 32 then ok t else err value_error
]
validate_public_key null = err value_error
validate_public_key (bool b) = err value_error
validate_public_key (int n) = err value_error
validate_public_key (arr vs) = err value_error
validate_public_key (obj fs) = err value_error

-- `ipaddress.ip_address` of a number
unfoldable pub ip_of_number : ℤ → Option Address
ip_of_number (pos n) =
    if ltb n 4294967296
    then some (v4 n)
    else if ltb n 340282366920938463463374607431768211456
    then some (v6 n)
    else none
ip_of_number (negsuc n) = none

unfoldable pub ip_of_json : Json → Result Address
unfolding ip_address ip_of_number
ip_of_json (str t) = or_raise (ip_address t) value_error
ip_of_json (int n) = or_raise (ip_of_number n) value_error
ip_of_json (bool b) = ok (v4 (if b then 1 else 0))
ip_of_json null = err value_error
ip_of_json (arr vs) = err value_error
ip_of_json (obj fs) = err value_error

-- A member of 10.0.0.0/24.
abbrev pub in_overlay : Address → Bool
in_overlay (v4 a) = Ip.in_net4 a (octets 10 0 0 0, 24)
in_overlay (v6 a) = false

-- `validate_peer_ip(value)`, on the host whose overlay address is `listen_address`.
unfoldable pub validate_peer_ip : Text → Json → Result Text
unfolding ip_of_json Ip.in_net4 compressed text_eq
validate_peer_ip listen_address value = do
  a ← ip_of_json value
  guard (in_overlay a) value_error
  let t = compressed a
  guard (not (text_eq t vps_address || text_eq t listen_address)) value_error
  ok t

-- A text is accepted when its lower case is the canonical form.
unfoldable pub validate_session_id : Json → Result Text
unfolding is_canonical_uuid
validate_session_id (str t) = or_raise (is_canonical_uuid t) value_error
validate_session_id null = err value_error
validate_session_id (bool b) = err value_error
validate_session_id (int n) = err value_error
validate_session_id (arr vs) = err value_error
validate_session_id (obj fs) = err value_error

abbrev positive : ℤ → Option ℕ
positive (pos zero) = none
positive (pos (suc n)) = some (suc n)
positive (negsuc n) = none

-- `now` in microseconds; the session start in nanoseconds.
unfoldable pub validate_session_started_ns : ℕ → Json → Result ℕ
unfolding to_int
validate_session_started_ns now value = do
  n ← to_int value
  started ← or_raise (positive n) value_error
  guard (leb started (now * 1000 + 60000000000)) value_error
  ok started

abbrev pub checked_endpoint : Option Address → Option ℕ → Option Text
checked_endpoint (some a) (some port) =
    if is_unspecified a || is_multicast a then none else some (format_endpoint a port)
checked_endpoint _ _ = none

abbrev pub endpoint_parts : Option (Text × Text) → Option Text
endpoint_parts none = none
endpoint_parts (some (host, port_text)) = checked_endpoint (ip_address host) (read_port port_text)

unfoldable pub validate_endpoint : Json → Result Text
unfolding split_endpoint ip_address read_port is_unspecified is_multicast format_endpoint
validate_endpoint (str t) = or_raise (endpoint_parts (split_endpoint t)) value_error
validate_endpoint null = err value_error
validate_endpoint (bool b) = err value_error
validate_endpoint (int n) = err value_error
validate_endpoint (arr vs) = err value_error
validate_endpoint (obj fs) = err value_error

abbrev before_break : Option (Text × Text) → Text
before_break none = []
before_break (some (l, r)) = l

-- The address text of a normalised endpoint.
unfoldable pub address_text : Text → Text
unfolding break_at rbreak_at
address_text [] = []
address_text (c ∷ t) =
    if c == b'[' then before_break (break_at b']' t) else before_break (rbreak_at b':' (c ∷ t))

abbrev address_or_empty : Result Text → Text
address_or_empty (ok t) = address_text t
address_or_empty (err e) = []

-- `endpoint_address(value)`; the empty text where the endpoint is invalid.
unfoldable pub endpoint_address : Json → Text
unfolding validate_endpoint address_text
endpoint_address value = address_or_empty (validate_endpoint value)

abbrev pub owns : Option Address → Option Address → Bool
owns (some (v4 l)) (some (v4 r)) = ltb l r
owns _ _ = false

-- Of two servers the one with the lower IPv4 overlay address opens the session.
unfoldable pub server_initiator_owns_pair : Text → Text → Bool
unfolding ip_address
server_initiator_owns_pair local_ip remote_ip = owns (ip_address local_ip) (ip_address remote_ip)

-- `failures` is never negative.
unfoldable pub retry_delay : ℕ → ℕ
retry_delay zero = 3
retry_delay (suc zero) = 3
retry_delay (suc (suc zero)) = 10
retry_delay (suc (suc (suc zero))) = 30
retry_delay (suc (suc (suc (suc zero)))) = 60
retry_delay (suc (suc (suc (suc (suc n))))) = 300

-- `value.get("family") not in (None, "", family)`
abbrev family_fits : Family → Json → Bool
family_fits f (str t) = is_empty t || text_eq t (family_name f)
family_fits f null = true
family_fits f _ = false

abbrev allowed : Option CandidateType → Option CandidateType
allowed none = none
allowed (some t) = if type_eq t observed6 then none else some t

abbrev priority_in_range : ℤ → Bool
priority_in_range n = leb_ℤ (pos 0) n && leb_ℤ n (pos 2000)

-- One entry of the list that an offer carries.
unfoldable pub validate_candidate : Json → Result Candidate
unfolding read_type Json.get validate_endpoint address_text ip_address to_int truthy text_eq
validate_candidate (obj fs) = do
  found ← read_type (Json.get (text "type") (str []) fs)
  t ← or_raise (allowed found) value_error
  endpoint ← validate_endpoint (Json.get (text "endpoint") (str []) fs)
  address ← or_raise (ip_address (address_text endpoint)) value_error
  guard (family_fits (family_of address) (Json.get (text "family") null fs)) value_error
  priority ← to_int (Json.get (text "priority") (int (pos 0)) fs)
  guard (priority_in_range priority) value_error
  ok (record {
    type = t;
    family = family_of address;
    endpoint = endpoint;
    priority = priority;
    verified = truthy (Json.get (text "verified") (bool false) fs);
  })
validate_candidate null = err value_error
validate_candidate (bool b) = err value_error
validate_candidate (int n) = err value_error
validate_candidate (str t) = err value_error
validate_candidate (arr vs) = err value_error

-- The loop: the first invalid entry ends it; a repeated key is skipped.
unfoldable pub validate_each : List Candidate → List Json → Result (List Candidate)
unfolding validate_candidate any
validate_each seen [] = ok []
validate_each seen (v ∷ vs) = do
  c ← validate_candidate v
  let old = any (same_key false c) seen
  rest ← validate_each (if old then seen else c ∷ seen) vs
  ok (if old then rest else c ∷ rest)

-- `sorted(..., key=priority, reverse=True)`
abbrev pub by_priority : Candidate → Candidate → Bool
by_priority a b = leb_ℤ b.priority a.priority

unfoldable pub validate_candidates : Json → Result (List Candidate)
unfolding validate_each sort
validate_candidates (arr vs) = do
  guard (leb (length (to_list vs)) 16) value_error
  found ← validate_each [] (to_list vs)
  ok (sort by_priority found)
validate_candidates null = ok []
validate_candidates (bool b) = err value_error
validate_candidates (int n) = err value_error
validate_candidates (str t) = err value_error
validate_candidates (obj fs) = err value_error
