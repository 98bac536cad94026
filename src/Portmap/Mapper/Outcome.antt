-- ===== src/Portmap/Mapper/Outcome.antt =====
-- What a call of `refresh` of p2p/wireguard-p2p/linux/portmap.py can do to the mapper.
use wireguard_p2p.Portmap.Mapper.Attempts.{
  attempt-failed, attempt-refused, attempt-granted, try_methods-failed, try_methods-granted,
}
use wireguard_p2p.Base.Text.{is_empty}
use wireguard_p2p.Base.{
  false, ℕ, ◌≡◌, refl, ap, ◌∙◌, Bool, true, not, ◌&&◌, ◌||◌, List, [], ◌∷◌, ◌++◌, none, some, inl,
  inr, Bool-cases, leb, ltb,
}
use wireguard_p2p.Base.Text.{Text}
use wireguard_p2p.Result.{Error, ok, value_error, Result-cases}
use wireguard_p2p.Ip.{Address, is_v4, is_private}
use wireguard_p2p.Ip.Read.{ip_address}
use wireguard_p2p.Ip.Print.{compressed}
use wireguard_p2p.Portmap.{Mapping}
use wireguard_p2p.Portmap.Gateway.{default_gateway_ipv4}
use wireguard_p2p.Portmap.Mapper.{
  Key, LastError, attempts, gateway_unavailable, PortMapper, mapped_candidate, succeeded,
  record_failure, Network, Method, method_name, try_method, try_methods, all_methods, returned,
  Refreshed, with_gateway, with_local, refresh,
}

-- A call that finds a gateway for its address leaves the mapper alone, or records a failure for the
-- key, or records a success for it and returns the candidate.
pub data Outcome (net : Network) (key : Key) (m : PortMapper) (r : Refreshed) : Type 0 where
  left_alone : r ≡ (ok none, m) → Outcome net key m r
  failed :
      (problem : LastError)
      → r ≡ (ok none, record_failure key problem net.recorded m)
      → Outcome net key m r
  succeeds :
      (method : Text) (mapping : Mapping)
      → ltb 0 mapping.lifetime ≡ true
      → r ≡ (ok (some (mapped_candidate mapping)), succeeded key method mapping net.recorded)
      → Outcome net key m r

abbrev refreshed_by : PortMapper × Bool → Refreshed
refreshed_by out = (ok (returned out), out.0)

module _ (net : Network) (gateway : Text) (key : Key) (m : PortMapper) where
  try_methods-Outcome :
      (errors : List (Text × Error)) (methods : List Method)
      → Outcome net key m (refreshed_by (try_methods net gateway key errors methods m))
  try_methods-Outcome errors [] = failed (attempts errors) (unfold try_methods in refl)
  try_methods-Outcome errors (method ∷ methods) =
      let later =
        λ (e : Error). try_methods-Outcome (errors ++ (method_name method, e) ∷ []) methods in
      elim (Result-cases (try_method net gateway key method)) [
        | inr (e, refused) ↦
            rw
              (try_methods-failed net gateway key method errors methods m
                (attempt-failed net gateway key method refused))
              (later e)
        | inl (mapping, answered) ↦ elim (Bool-cases (ltb 0 mapping.lifetime)) [
          | inl long ↦ succeeds (method_name method) mapping long (
              ap refreshed_by (
                try_methods-granted net gateway key method errors methods m
                  (attempt-granted net gateway key method answered long))
              ∙ unfold succeeded in refl)
          | inr short ↦
              rw
                (try_methods-failed net gateway key method errors methods m
                  (attempt-refused net gateway key method answered short))
                (later value_error)
        ]
      ]

with_gateway-Outcome :
    (net : Network) (key : Key) (m : PortMapper) (gateway : Text)
    → Outcome net key m (with_gateway net key (ok gateway) m)
unfolding with_gateway
with_gateway-Outcome net key m [] = failed gateway_unavailable refl
with_gateway-Outcome net key m (c ∷ t) = try_methods-Outcome net (c ∷ t) key m [] all_methods

pub refresh-Outcome :
    (net : Network) (port : ℕ) (ip gateway : Text) (local : Address) (m : PortMapper)
    → ip_address ip ≡ some local
    → compressed local ≡ ip
    → default_gateway_ipv4 net.routes ≡ ok gateway
    → Outcome net (ip, port) m (refresh net port ip m)
unfolding refresh with_local
refresh-Outcome net port ip gateway local m read shown routes =
    elim (Bool-cases (leb 1 port && leb port 65535)) [
      | inr invalid ↦ rw invalid (left_alone refl)
      | inl valid ↦ elim (Bool-cases (not (is_v4 local) || not (is_private local))) [
        | inl unfit ↦ rw (valid, read, with_local, unfit) (left_alone refl)
        | inr fit ↦
            rw (valid, read, with_local, fit, shown, routes)
              (with_gateway-Outcome net (ip, port) m gateway)
      ]
    ]

with_gateway-first :
    (net : Network) (key : Key) (m : PortMapper) (gateway : Text) (mapping : Mapping)
    → is_empty gateway ≡ false
    → try_method net gateway key Method.pcp ≡ ok mapping
    → ltb 0 mapping.lifetime ≡ true
    → with_gateway net key (ok gateway) m ≡ (
      ok (some (mapped_candidate mapping)),
      succeeded key (method_name Method.pcp) mapping net.recorded,
    )
unfolding with_gateway
with_gateway-first net key m gateway mapping known answered long =
    rw
      (
        with_gateway,
        known,
        try_methods-granted net gateway key Method.pcp [] (Method.natpmp ∷ Method.upnp ∷ []) m
            (attempt-granted net gateway key Method.pcp answered long),
      )
      (unfold succeeded in refl)

-- The first method that is asked is PCP, and a mapping from it is recorded.
pub refresh-first :
    (net : Network) (port : ℕ) (ip gateway : Text) (local : Address) (m : PortMapper)
    (mapping : Mapping)
    → (leb 1 port && leb port 65535) ≡ true
    → ip_address ip ≡ some local
    → compressed local ≡ ip
    → (not (is_v4 local) || not (is_private local)) ≡ false
    → default_gateway_ipv4 net.routes ≡ ok gateway
    → is_empty gateway ≡ false
    → try_method net gateway (ip, port) Method.pcp ≡ ok mapping
    → ltb 0 mapping.lifetime ≡ true
    → refresh net port ip m ≡ (
      ok (some (mapped_candidate mapping)),
      succeeded (ip, port) (method_name Method.pcp) mapping net.recorded,
    )
unfolding refresh with_local
refresh-first net port ip gateway local m mapping valid read shown fit routes known answered long =
    rw (refresh, valid, read, with_local, fit, shown, routes)
      (with_gateway-first net (ip, port) m gateway mapping known answered long)
