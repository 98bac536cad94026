-- ===== src/Agent/Offer/Request/Bounds.antt =====
-- What the checks of `handle_offer` in p2p/wireguard-p2p/linux/p2p_agent.py promise of an offer that
-- passes them.
use wireguard_p2p.Base.{ℕ, ◌+◌, ◌≡◌, ◌≤◌, refl, true, List, arith}
use wireguard_p2p.Base.Clock.{seconds}
use wireguard_p2p.Base.Text.{Text, text}
use wireguard_p2p.Json
use wireguard_p2p.Candidates.{Candidate}
use wireguard_p2p.Candidates.Select.{select_probe_candidates}
use wireguard_p2p.Json.{Json, Fields, null, bool, int, str, arr, obj, nil}
use wireguard_p2p.Result.{
  Result, value_error, guard, Ensures, Ensures-bind, Ensures-ok, Ensures-err,
}
use wireguard_p2p.Candidates.Select.Bounds.{IsPlan, select_probe_candidates-IsPlan}
use wireguard_p2p.Agent.Validate.{validate_candidates}
use wireguard_p2p.Agent.Offer.Request.{
  Offer, Header, read_header, legacy_endpoint, choose_type, seal_offer, select_offer, nonempty,
  requested_expiry, to_jsons, clamp_lease, read_fields, read_offer,
}

-- A lease of 30 to 180 seconds, and a list of candidates that a probe may go through.
pub record IsSound (now : ℕ) (o : Offer) : Type 0 where
  pub lease_from : now + seconds 30 ≤ o.lease_expires
  pub lease_to : o.lease_expires ≤ now + seconds 180
  pub plan : IsPlan o.candidates

clamp_lease-from : (now requested : ℕ) → now + seconds 30 ≤ clamp_lease now requested
unfolding clamp_lease
clamp_lease-from now requested = omega arith

clamp_lease-to : (now requested : ℕ) → clamp_lease now requested ≤ now + seconds 180
unfolding clamp_lease
clamp_lease-to now requested = omega arith

offer-IsSound :
    (now requested : ℕ) {o : Offer}
    → o.lease_expires ≡ clamp_lease now requested
    → IsPlan o.candidates
    → IsSound now o
offer-IsSound now requested e p = record {
  lease_from = rw e (clamp_lease-from now requested);
  lease_to = rw e (clamp_lease-to now requested);
  plan = p;
}

seal_offer-Ensures :
    (now : ℕ) (fs : Fields) (h : Header) (cs : List Candidate)
    → IsPlan cs
    → Ensures (IsSound now) (seal_offer now fs h cs)
unfolding seal_offer
seal_offer-Ensures now fs h cs p =
    Ensures-bind (IsSound now) (guard (nonempty cs) value_error) _ λ u _.
      Ensures-bind (IsSound now) (requested_expiry now (Json.lookup (text "lease_expires") fs)) _
        λ requested _. Ensures-ok (IsSound now) _ (offer-IsSound now requested refl p)

select_offer-Ensures :
    (now : ℕ) (fs : Fields) (h : Header) (cs : List Candidate) (legacy : Text) (t : Json)
    → Ensures (IsSound now) (select_offer now fs h cs legacy t)
unfolding select_offer
select_offer-Ensures now fs h cs legacy t =
    Ensures-bind (IsSound now) (select_probe_candidates (to_jsons cs) legacy t true)
      (seal_offer now fs h)
      λ chosen e.
        seal_offer-Ensures now fs h chosen
          (select_probe_candidates-IsPlan (to_jsons cs) legacy t true chosen e)

module _ (listen_address : Text) (now : ℕ) (lan_ip : Result Text) where
  read_fields-IsSound :
      (fs : Fields) → Ensures (IsSound now) (read_fields listen_address now lan_ip fs)
  unfolding read_fields
  read_fields-IsSound fs =
      let listed = Json.get (text "candidates") (arr nil) fs in
      Ensures-bind (IsSound now) (read_header listen_address now fs) _ λ h _.
        Ensures-bind (IsSound now) (validate_candidates listed) _ λ cs _.
          Ensures-bind (IsSound now) (legacy_endpoint (Json.get (text "endpoint") null fs)) _ λ l _.
            Ensures-bind (IsSound now)
              (choose_type lan_ip (Json.get (text "endpoint_type") (str (text "WAN")) fs) listed)
              (select_offer now fs h cs l) λ t _. select_offer-Ensures now fs h cs l t

  pub read_offer-Ensures :
      (v : Json) → Ensures (IsSound now) (read_offer listen_address now lan_ip v)
  unfolding read_offer
  read_offer-Ensures (obj fs) = read_fields-IsSound fs
  read_offer-Ensures null = Ensures-err _ _
  read_offer-Ensures (bool b) = Ensures-err _ _
  read_offer-Ensures (int n) = Ensures-err _ _
  read_offer-Ensures (str t) = Ensures-err _ _
  read_offer-Ensures (arr vs) = Ensures-err _ _
