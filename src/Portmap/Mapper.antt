-- ===== src/Portmap/Mapper.antt =====
-- `PortMapper` of p2p/wireguard-p2p/linux/portmap.py. The text of the last error is kept as the
-- methods that failed and the classes of their exceptions.
pub mod Held
pub mod Attempts
pub mod Outcome
pub mod Renewal
pub mod History
use wireguard_p2p.Base.{
  ℕ, ◌+◌, ◌-◌, ◌*◌, ◌/◌, Bool, true, false, not, ◌&&◌, ◌||◌, List, [], ◌∷◌, ◌++◌, Option, none,
  some, min, max, leb, ltb, ◌==◌, if◌then◌else◌, is_some,
}
use wireguard_p2p.Base.Clock.{seconds}
use wireguard_p2p.Base.Text.{Text, text, text_eq, is_empty}
use wireguard_p2p.Base.Text.Decimal.{show}
use wireguard_p2p.Result.{Error, Result, ok, err, value_error, bind, guard}
use wireguard_p2p.Ip.{Address, is_v4, is_private}
use wireguard_p2p.Ip.Read.{ip_address}
use wireguard_p2p.Ip.Print.{compressed}
use wireguard_p2p.Candidates.{Candidate, mapped4, udp4, priority_of}
use wireguard_p2p.Portmap.{Mapping, default_lifetime, failure_retry}
use wireguard_p2p.Portmap.Bytes.{Packet}
use wireguard_p2p.Portmap.Gateway.{default_gateway_ipv4}
use wireguard_p2p.Portmap.Pcp.{Exchange, try_pcp}
use wireguard_p2p.Portmap.Natpmp.{try_natpmp}
use wireguard_p2p.Portmap.Upnp.{Igd, try_upnp}

-- Address and port inside the network.
abbrev pub Key : Type 0
Key = Text × ℕ

pub data LastError : Type 0 where
  no_error gateway_unavailable : LastError
  attempts : List (Text × Error) → LastError

pub record PortMapper : Type 0 where
  pub candidate : Option Candidate
  pub internal : Option Key
  pub expires_at : ℕ
  pub next_attempt : ℕ
  pub method : Text
  pub last_error : LastError

unfoldable pub new_port_mapper : PortMapper
new_port_mapper = record {
  candidate = none;
  internal = none;
  expires_at = 0;
  next_attempt = 0;
  method = [];
  last_error = no_error;
}

abbrev pub key_eq : Key → Key → Bool
unfolding text_eq
key_eq a b = text_eq a.0 b.0 && a.1 == b.1

abbrev pub held_by : Option Key → Key → Bool
unfolding text_eq
held_by none key = false
held_by (some held) key = key_eq held key

-- `self._internal == key`
abbrev pub holds_key : PortMapper → Key → Bool
unfolding text_eq
holds_key m key = held_by m.internal key

unfoldable pub current_candidate : PortMapper → Key → ℕ → Option Candidate
unfolding text_eq
current_candidate m key now =
    if not (holds_key m key) || leb m.expires_at now then none else m.candidate

-- Both branches of the source make the same test.
unfoldable pub should_refresh : PortMapper → Key → ℕ → Bool
unfolding text_eq
should_refresh m key now =
    if not (holds_key m key) || not (is_some m.candidate)
    then leb m.next_attempt now
    else leb m.next_attempt now

unfoldable pub mapped_candidate : Mapping → Candidate
unfolding show
mapped_candidate mapping = record {
  type = mapped4;
  family = udp4;
  endpoint = mapping.external_ip ++ b':' ∷ show mapping.external_port;
  priority = priority_of mapped4;
  verified = false;
}

-- `max(1, min(lifetime * 2 / 3, max(1, lifetime - 15)))`
abbrev pub refresh_after : ℕ → ℕ
refresh_after lifetime =
    max (seconds 1) (min (seconds lifetime * 2 / 3) (max (seconds 1) (seconds (lifetime - 15))))

-- The fields after a success.
unfoldable pub succeeded : Key → Text → Mapping → ℕ → PortMapper
unfolding mapped_candidate
succeeded key method mapping now = record {
  candidate = some (mapped_candidate mapping);
  internal = some key;
  expires_at = now + seconds mapping.lifetime;
  next_attempt = now + refresh_after mapping.lifetime;
  method = method;
  last_error = no_error;
}

-- The mapper is left as it was where the lifetime is 0.
unfoldable pub record_success : Key → Text → Mapping → ℕ → Result PortMapper
unfolding bind succeeded
record_success key method mapping now =
    bind (guard (ltb 0 mapping.lifetime) value_error) λ _. ok (succeeded key method mapping now)

abbrev pub forget_other : Key → PortMapper → PortMapper
unfolding text_eq
forget_other key m = if holds_key m key then m else record m { candidate = none; expires_at = 0 }

unfoldable pub record_failure : Key → LastError → ℕ → PortMapper → PortMapper
unfolding text_eq
record_failure key problem now m = record (forget_other key m) {
  internal = some key;
  next_attempt = now + seconds failure_retry;
  last_error = problem;
}

-- What a refresh meets: the routes, the three protocols, and the clock when it records its result.
pub record Network : Type 0 where
  pub routes : Option (List Text)
  pub nonce : Packet
  pub pcp : Exchange
  pub natpmp : Exchange
  pub igd : Igd
  pub recorded : ℕ

pub data Method : Type 0 where
  pcp natpmp upnp : Method

abbrev pub method_name : Method → Text
method_name pcp = text "pcp"
method_name natpmp = text "natpmp"
method_name upnp = text "upnp"

-- `function(gateway, str(local), port)`
unfoldable pub try_method : Network → Text → Key → Method → Result Mapping
unfolding try_pcp try_natpmp try_upnp
try_method net gateway key Method.pcp =
    try_pcp net.pcp net.nonce gateway key.0 key.1 default_lifetime
try_method net gateway key Method.natpmp = try_natpmp net.natpmp gateway key.1 default_lifetime
try_method net gateway key Method.upnp = try_upnp net.igd key.0 key.1 default_lifetime

-- A method and the record of its success; both may raise.
abbrev pub attempt : Network → Text → Key → Method → Result PortMapper
unfolding bind try_method record_success
attempt net gateway key method =
    bind (try_method net gateway key method)
      λ mapping. record_success key (method_name method) mapping net.recorded

-- The first method that succeeds; else a failure with the errors of all.
unfoldable pub try_methods :
    Network → Text → Key → List (Text × Error) → List Method → PortMapper → PortMapper × Bool
unfolding bind try_method record_success record_failure
try_methods net gateway key errors [] m =
    (record_failure key (attempts errors) net.recorded m, false)
try_methods net gateway key errors (method ∷ methods) m = elim (attempt net gateway key method) [
  | ok granted ↦ (granted, true)
  | err e ↦ try_methods net gateway key (errors ++ (method_name method, e) ∷ []) methods m
]

abbrev pub all_methods : List Method
all_methods = Method.pcp ∷ Method.natpmp ∷ Method.upnp ∷ []

-- The candidate that is returned is the one just recorded.
abbrev pub returned : PortMapper × Bool → Option Candidate
returned (m, granted) = if granted then m.candidate else none

-- Result and state: an error leaves the state alone.
abbrev pub Refreshed : Type 0
Refreshed = Result (Option Candidate) × PortMapper

abbrev pub with_gateway : Network → Key → Result Text → PortMapper → Refreshed
unfolding try_methods record_failure
with_gateway net key (err e) m = (err e, m)
with_gateway net key (ok gateway) m =
    if is_empty gateway
    then (ok none, record_failure key gateway_unavailable net.recorded m)
    else let done = try_methods net gateway key [] all_methods m in (ok (returned done), done.0)

abbrev pub with_local : Network → ℕ → Option Address → PortMapper → Refreshed
unfolding is_private compressed default_gateway_ipv4 try_methods record_failure
with_local net port none m = (ok none, m)
with_local net port (some local) m =
    if not (is_v4 local) || not (is_private local)
    then (ok none, m)
    else with_gateway net (compressed local, port) (default_gateway_ipv4 net.routes) m

unfoldable pub refresh : Network → ℕ → Text → PortMapper → Refreshed
unfolding ip_address is_private compressed default_gateway_ipv4 try_methods record_failure
refresh net internal_port local_ip m =
    if not (leb 1 internal_port && leb internal_port 65535)
    then (ok none, m)
    else with_local net internal_port (ip_address local_ip) m

pub record Status : Type 0 where
  pub method : Text
  pub endpoint : Text
  -- whole seconds
  pub expires_in : ℕ
  pub last_error : LastError

abbrev pub endpoint_now : PortMapper → ℕ → Text
endpoint_now m now = elim m.candidate [
  | none ↦ []
  | some c ↦ if ltb now m.expires_at then c.endpoint else []
]

unfoldable pub status : PortMapper → ℕ → Status
status m now = record {
  method = if is_empty (endpoint_now m now) then [] else m.method;
  endpoint = endpoint_now m now;
  expires_in = if is_empty (endpoint_now m now) then 0 else (m.expires_at - now) / 1000000;
  last_error = m.last_error;
}
