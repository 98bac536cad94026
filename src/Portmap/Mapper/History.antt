-- ===== src/Portmap/Mapper/History.antt =====
-- An abstract view of `PortMapper` of p2p/wireguard-p2p/linux/portmap.py: leases in the order in which
-- they were asked for.
pub mod Holder
use wireguard_p2p.Base.{
  ℕ, ◌+◌, ◌-◌, ◌*◌, ◌/◌, ◌≡◌, ◌<◌, ◌≤◌, refl, sym, ap, ◌∙◌, Bool, true, false, not, ◌&&◌, ◌||◌,
  List, [], ◌∷◌, ◌++◌, Option, none, some, arith, inl, inr, Bool-cases, Option-cases, max, min, leb,
  ltb, ◌==◌, if◌then◌else◌, map, ==_iff,
}
use wireguard_p2p.Base.Clock.{seconds}
use wireguard_p2p.Base.Text.{Text, text_eq, text_eq→eq, text_eq_refl, is_empty}
use wireguard_p2p.Result.{Error, Result, ok, err, value_error, bind, Result-cases}
use wireguard_p2p.Ip.{Address, is_v4, is_private}
use wireguard_p2p.Ip.Read.{ip_address}
use wireguard_p2p.Ip.Print.{compressed}
use wireguard_p2p.Candidates.{Candidate}
use wireguard_p2p.Portmap.{Mapping}
use wireguard_p2p.Portmap.Gateway.{default_gateway_ipv4}
use wireguard_p2p.Portmap.Mapper.{
  Key, LastError, gateway_unavailable, PortMapper, new_port_mapper, key_eq, holds_key,
  current_candidate, mapped_candidate, record_success, succeeded, record_failure, Network, Method,
  try_method, attempt, try_methods, all_methods, with_gateway, with_local, refresh, attempts,
  method_name, forget_other,
}

-- What one attempt to renew means for the leases.
pub data Effect : Type 0 where
  ignored : Effect
  refused : Key → Effect
  granted : Key → Mapping → ℕ → Effect

-- Who holds a lease for a key after one more effect: a grant replaces what was held, a refusal
-- keeps the lease of its own key and ends any other, and a lease ends with its time.
abbrev pub after_effect : Effect → Key → ℕ → Option Candidate → Option Candidate
unfolding text_eq mapped_candidate
after_effect ignored key now held = held
after_effect (refused k) key now held = if key_eq k key then held else none
after_effect (granted k mapping at) key now held =
    if key_eq k key && ltb now (at + seconds mapping.lifetime)
    then some (mapped_candidate mapping)
    else none

-- The holder after a history, its newest effect first.
unfoldable pub holder : List Effect → Key → ℕ → Option Candidate
unfolding text_eq mapped_candidate
holder [] key now = none
holder (e ∷ es) key now = after_effect e key now (holder es key now)

-- The first method whose router answers with a lease of more than 0 seconds.
unfoldable pub first_grant : Network → Text → Key → List Method → Option Mapping
unfolding try_method
first_grant net gateway key [] = none
first_grant net gateway key (method ∷ methods) =
    let later = first_grant net gateway key methods in
    elim (try_method net gateway key method) [
      | err e ↦ later
      | ok mapping ↦ if ltb 0 mapping.lifetime then some mapping else later
    ]

abbrev pub effect_of_grant : Key → ℕ → Option Mapping → Effect
effect_of_grant key now none = refused key
effect_of_grant key now (some mapping) = granted key mapping now

abbrev pub effect_of_gateway : Network → Key → Result Text → Effect
unfolding first_grant
effect_of_gateway net key (err e) = ignored
effect_of_gateway net key (ok gateway) =
    if is_empty gateway
    then refused key
    else effect_of_grant key net.recorded (first_grant net gateway key all_methods)

abbrev pub effect_of_local : Network → ℕ → Option Address → Effect
unfolding first_grant is_private compressed default_gateway_ipv4
effect_of_local net port none = ignored
effect_of_local net port (some local) =
    if not (is_v4 local) || not (is_private local)
    then ignored
    else effect_of_gateway net (compressed local, port) (default_gateway_ipv4 net.routes)

-- A call of `refresh`.
pub record Call : Type 0 where
  pub network : Network
  pub internal_port : ℕ
  pub local_ip : Text

unfoldable pub effect : Call → Effect
unfolding effect_of_local ip_address first_grant
effect c =
    if leb 1 c.internal_port && leb c.internal_port 65535
    then effect_of_local c.network c.internal_port (ip_address c.local_ip)
    else ignored

-- The mapper after the calls, the newest first.
unfoldable pub after_calls : List Call → PortMapper
unfolding refresh new_port_mapper
after_calls [] = new_port_mapper
after_calls (c ∷ cs) = (refresh c.network c.internal_port c.local_ip (after_calls cs)).1

pub key_eq→eq : (a b : Key) → key_eq a b ≡ true → a ≡ b
unfolding key_eq
key_eq→eq (s, n) (t, k) h =
    let first : s ≡ t = text_eq→eq s t (ground arith) in
    let second : n ≡ k = ground arith in λ i. (first i, second i)

pub key_eq_refl : (a : Key) → key_eq a a ≡ true
unfolding key_eq
key_eq_refl (s, n) = rw (text_eq_refl s) (ground arith)

pub succeeded_lem :
    (k key : Key) (method : Text) (mapping : Mapping) (at now : ℕ) (held : Option Candidate)
    → current_candidate (succeeded k method mapping at) key now
      ≡ after_effect (granted k mapping at) key now held
unfolding succeeded current_candidate after_effect holds_key
succeeded_lem k key method mapping at now held = ground arith

pub record_failure_lem :
    (k key : Key) (problem : LastError) (at now : ℕ) (m : PortMapper)
    → current_candidate (record_failure k problem at m) key now
      ≡ after_effect (refused k) key now (current_candidate m key now)
unfolding record_failure current_candidate after_effect holds_key forget_other
record_failure_lem k key problem at now m = elim (Bool-cases (key_eq k key)) [
  | inr other ↦ rw other refl
  | inl same ↦ rw (key_eq→eq k key same, key_eq_refl key) (ground arith)
]
