-- ===== src/Portmap/Mapper/History/Holder.antt =====
-- That `refresh` of p2p/wireguard-p2p/linux/portmap.py keeps to the history of leases.
use wireguard_p2p.Portmap.Mapper.Attempts.{
  attempt-failed, attempt-refused, attempt-granted, try_methods-failed, try_methods-granted,
}
use wireguard_p2p.Base.{
  ℕ, ◌≡◌, refl, ap, ◌∙◌, not, ◌&&◌, ◌||◌, List, [], ◌∷◌, ◌++◌, Option, none, some, inl, inr,
  Bool-cases, leb, ltb, if◌then◌else◌, map,
}
use wireguard_p2p.Base.Text.{Text}
use wireguard_p2p.Result.{Error, Result, ok, err, value_error, Result-cases}
use wireguard_p2p.Ip.{Address, is_v4, is_private}
use wireguard_p2p.Ip.Read.{ip_address}
use wireguard_p2p.Ip.Print.{compressed}
use wireguard_p2p.Portmap.{Mapping}
use wireguard_p2p.Portmap.Gateway.{default_gateway_ipv4}
use wireguard_p2p.Portmap.Mapper.{
  Key, gateway_unavailable, PortMapper, new_port_mapper, holds_key, current_candidate, Network,
  Method, try_method, try_methods, all_methods, with_gateway, with_local, refresh, attempts,
  method_name,
}
use wireguard_p2p.Portmap.Mapper.History.{
  after_effect, holder, first_grant, effect_of_grant, effect_of_gateway, effect_of_local, Call,
  effect, after_calls, succeeded_lem, record_failure_lem,
}

module _ (net : Network) (gateway : Text) (k : Key) (method : Method) where
  first_grant-failed :
      (methods : List Method) {e : Error}
      → try_method net gateway k method ≡ err e
      → first_grant net gateway k (method ∷ methods) ≡ first_grant net gateway k methods
  unfolding first_grant
  first_grant-failed methods failed = rw (first_grant, failed) refl

  first_grant-answered :
      (methods : List Method) {mapping : Mapping}
      → try_method net gateway k method ≡ ok mapping
      → first_grant net gateway k (method ∷ methods)
        ≡ (if ltb 0 mapping.lifetime then some mapping else first_grant net gateway k methods)
  unfolding first_grant
  first_grant-answered methods answered = rw (first_grant, answered) refl

try_methods_lem :
    (net : Network) (gateway : Text) (k key : Key) (now : ℕ) (m : PortMapper)
    (errors : List (Text × Error)) (methods : List Method)
    → current_candidate (try_methods net gateway k errors methods m).0 key now
      ≡ after_effect
          (effect_of_grant k net.recorded (first_grant net gateway k methods))
          key
          now
          (current_candidate m key now)
try_methods_lem net gateway k key now m errors [] =
    unfold try_methods first_grant in record_failure_lem k key (attempts errors) net.recorded now m
try_methods_lem net gateway k key now m errors (method ∷ methods) =
    elim (Result-cases (try_method net gateway k method)) [
      | inr (e, failed) ↦
          rw
            (
              try_methods-failed net gateway k method errors methods m
                  (attempt-failed net gateway k method failed),
              first_grant-failed net gateway k method methods failed,
            )
            (try_methods_lem net gateway k key now m (errors ++ (method_name method, e) ∷ [])
              methods)
      | inl (mapping, answered) ↦ elim (Bool-cases (ltb 0 mapping.lifetime)) [
        | inl long ↦
            rw
              (
                try_methods-granted net gateway k method errors methods m
                    (attempt-granted net gateway k method answered long),
                first_grant-answered net gateway k method methods answered,
                long,
              )
              (succeeded_lem k key (method_name method) mapping net.recorded now
                (current_candidate m key now))
        | inr short ↦
            rw
              (
                try_methods-failed net gateway k method errors methods m
                    (attempt-refused net gateway k method answered short),
                first_grant-answered net gateway k method methods answered,
                short,
              )
              (try_methods_lem net gateway k key now m
                (errors ++ (method_name method, value_error) ∷ []) methods)
      ]
    ]

with_gateway_lem :
    (net : Network) (k key : Key) (now : ℕ) (found : Result Text) (m : PortMapper)
    → current_candidate (with_gateway net k found m).1 key now
      ≡ after_effect (effect_of_gateway net k found) key now (current_candidate m key now)
unfolding with_gateway effect_of_gateway after_effect
with_gateway_lem net k key now (err e) m = refl
with_gateway_lem net k key now (ok []) m =
    record_failure_lem k key gateway_unavailable net.recorded now m
with_gateway_lem net k key now (ok (c ∷ t)) m =
    try_methods_lem net (c ∷ t) k key now m [] all_methods

with_local_lem :
    (net : Network) (port : ℕ) (key : Key) (now : ℕ) (local : Option Address) (m : PortMapper)
    → current_candidate (with_local net port local m).1 key now
      ≡ after_effect (effect_of_local net port local) key now (current_candidate m key now)
unfolding with_local effect_of_local after_effect
with_local_lem net port key now none m = refl
with_local_lem net port key now (some local) m =
    elim (Bool-cases (not (is_v4 local) || not (is_private local))) [
      | inl unfit ↦ rw unfit refl
      | inr fit ↦ rw fit (
          with_gateway_lem net (compressed local, port) key now (default_gateway_ipv4 net.routes) m)
    ]

pub refresh_lem :
    (c : Call) (key : Key) (now : ℕ) (m : PortMapper)
    → current_candidate (refresh c.network c.internal_port c.local_ip m).1 key now
      ≡ after_effect (effect c) key now (current_candidate m key now)
unfolding refresh effect after_effect
refresh_lem c key now m = elim (Bool-cases (leb 1 c.internal_port && leb c.internal_port 65535)) [
  | inl valid ↦
      rw valid (with_local_lem c.network c.internal_port key now (ip_address c.local_ip) m)
  | inr invalid ↦ rw invalid refl
]

-- However often `refresh` was called, with whatever addresses, ports, routers and clocks, the mapper's
-- current candidate for an address and a port is the lease that the history of effects gives: the
-- newest grant for them that has not ended, if no grant or refusal for another pair came after it.
pub current_candidate-holder :
    (calls : List Call) (key : Key) (now : ℕ)
    → current_candidate (after_calls calls) key now ≡ holder (map effect calls) key now
unfolding after_calls holder
current_candidate-holder [] key now = unfold new_port_mapper current_candidate holds_key in refl
current_candidate-holder (c ∷ cs) key now =
    refresh_lem c key now (after_calls cs)
    ∙ ap (after_effect (effect c) key now) (current_candidate-holder cs key now)
