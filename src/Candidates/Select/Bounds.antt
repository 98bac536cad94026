-- ===== src/Candidates/Select/Bounds.antt =====
-- The list that `select_probe_candidates` of p2p/wireguard-p2p/linux/candidates.py makes for the
-- probe worker.
use wireguard_p2p.Base.{
  ◌≡◌, ◌≤◌, refl, subst, Bool, true, false, ◌&&◌, List, [], ◌∷◌, ◌++◌, Option, none, some, inl, inr,
  arith, leb, Bool-cases, leb→le,
}
use wireguard_p2p.Base.Apart.{Apart, Apart-take, Apart-set_last, any-All, sort-Apart}
use wireguard_p2p.Base.Lists.{
  length, take, any, first, set_last, All, All-take, All-set_last, All-append, first-All,
  length-take, length-set_last, any-set_last, first-any,
}
use wireguard_p2p.Base.Sort.{
  IsSorted, IsSorted-take, sort-IsSorted, length-sort, All-sort, any-sort,
}
use wireguard_p2p.Base.Text.{Text, text_eq_refl, is_empty}
use wireguard_p2p.Json.{Json}
use wireguard_p2p.Result.{ok, Result-cases, ok-injective}
use wireguard_p2p.Candidates.{Candidate, max_probe_candidates}
use wireguard_p2p.Candidates.Endpoint.{Parsed, parse_text, is_private_v4}
use wireguard_p2p.Candidates.Usable.{usable_global_ipv6}
use wireguard_p2p.Ip.{is_v4, is_v6}
use wireguard_p2p.Candidates.Normalize.{normalize_probe_candidate}
use wireguard_p2p.Candidates.Order.{before, same_endpoint, dedupe_and_sort}
use wireguard_p2p.Candidates.Order.Dedupe.{
  before_total, before_trans, same_endpoint_sym, dedupe_and_sort-IsSorted, dedupe_and_sort-Apart,
  All-dedupe_and_sort,
}
use wireguard_p2p.Candidates.Select.{
  allows_lan, admitted, is_observed4, normalized, legacy_candidates, limit_candidates,
  with_observed, add_admitted, legacy_of, legacy_type, legacy_parsed, select_probe_candidates,
}

-- A list that the worker may go through: short, best first, no endpoint twice.
pub record IsPlan (cs : List Candidate) : Type 0 where
  pub short : length cs ≤ max_probe_candidates
  pub ordered : IsSorted before cs
  pub distinct : Apart same_endpoint cs

with_observed-IsPlan :
    (o : Option Candidate) (cs : List Candidate) → IsPlan cs → IsPlan (with_observed o cs)
with_observed-IsPlan none cs p = p
with_observed-IsPlan (some o) cs p = elim (Bool-cases (any (same_endpoint o) cs)) [
  | inl e ↦ rw e p
  | inr e ↦ rw e (record {
    short = omega (arith, p.short, length-sort before (set_last o cs), length-set_last o cs);
    ordered = sort-IsSorted before before_total before_trans (set_last o cs);
    distinct =
        sort-Apart same_endpoint same_endpoint_sym before (set_last o cs)
          (Apart-set_last same_endpoint o cs (any-All same_endpoint o cs e) p.distinct);
  })
]

limit_candidates-IsPlan :
    (cs : List Candidate)
    → IsSorted before cs
    → Apart same_endpoint cs
    → IsPlan (limit_candidates cs)
unfolding limit_candidates
limit_candidates-IsPlan cs s a = elim (Bool-cases (leb (length cs) max_probe_candidates)) [
  | inl e ↦ rw e (record { short = leb→le (length cs) 5 e; ordered = s; distinct = a })
  | inr e ↦ rw e (
      with_observed-IsPlan (first is_observed4 cs) (take max_probe_candidates cs) (record {
        short = length-take max_probe_candidates cs;
        ordered = IsSorted-take before max_probe_candidates cs s;
        distinct = Apart-take same_endpoint max_probe_candidates cs a;
      }))
]

module _ (P : Candidate → Type 0) where
  with_observed-All :
      (o : Option Candidate) (cs : List Candidate)
      → ((c : Candidate) → o ≡ some c → P c)
      → All P cs
      → All P (with_observed o cs)
  with_observed-All none cs p h = h
  with_observed-All (some o) cs p h = elim (Bool-cases (any (same_endpoint o) cs)) [
    | inl e ↦ rw e h
    | inr e ↦ rw e (All-sort before P (set_last o cs) (All-set_last P o cs (p o refl) h))
  ]

  limit_candidates-All : (cs : List Candidate) → All P cs → All P (limit_candidates cs)
  unfolding limit_candidates
  limit_candidates-All cs h = elim (Bool-cases (leb (length cs) max_probe_candidates)) [
    | inl e ↦ rw e h
    | inr e ↦ rw e (
        with_observed-All (first is_observed4 cs) (take max_probe_candidates cs)
          (λ c k. first-All P is_observed4 cs h k) (All-take P max_probe_candidates cs h))
  ]

with_observed-has :
    (o c : Candidate) (cs : List Candidate)
    → any (same_endpoint o) (with_observed (some o) (c ∷ cs)) ≡ true
with_observed-has o c cs = elim (Bool-cases (any (same_endpoint o) (c ∷ cs))) [
  | inl e ↦ rw e e
  | inr e ↦
      rw (e, any-sort before (same_endpoint o) (set_last o (c ∷ cs)))
        (any-set_last (same_endpoint o) o c cs (text_eq_refl o.endpoint))
]

limit_long :
    (cs : List Candidate) (o : Candidate)
    → first is_observed4 cs ≡ some o
    → leb (length cs) max_probe_candidates ≡ false
    → any (same_endpoint o) (with_observed (some o) (take max_probe_candidates cs)) ≡ true
limit_long [] o f h = cc
limit_long (c ∷ cs) o f h = with_observed-has o c (take 4 cs)

-- The first observed IPv4 endpoint of a list is still there when the list is cut to the number
-- that the worker probes.
pub limit_candidates-observed :
    (cs : List Candidate) (o : Candidate)
    → first is_observed4 cs ≡ some o
    → any (same_endpoint o) (limit_candidates cs) ≡ true
unfolding limit_candidates
limit_candidates-observed cs o f = elim (Bool-cases (leb (length cs) max_probe_candidates)) [
  | inl e ↦ rw e (first-any is_observed4 (same_endpoint o) cs f (text_eq_refl o.endpoint))
  | inr e ↦ rw (e, f) (limit_long cs o f e)
]

module _ (allow_lan allow_ipv6 : Bool) where
  abbrev pub IsAdmitted : Candidate → Type 0
  IsAdmitted c = admitted allow_lan allow_ipv6 c ≡ true

  add_admitted-All :
      (c : Option Candidate) (cs : List Candidate)
      → All IsAdmitted cs
      → All IsAdmitted (add_admitted allow_lan allow_ipv6 c cs)
  add_admitted-All none cs h = h
  add_admitted-All (some c) cs h = elim (Bool-cases (admitted allow_lan allow_ipv6 c)) [
    | inl e ↦ rw e (e, h)
    | inr e ↦ rw e h
  ]

  normalized-All :
      (vs : List Json) (cs : List Candidate)
      → normalized allow_lan allow_ipv6 vs ≡ ok cs
      → All IsAdmitted cs
  unfolding normalized
  normalized-All [] cs h = subst (All IsAdmitted) (ok-injective h) tt
  normalized-All (v ∷ vs) cs h = elim (Result-cases (normalize_probe_candidate v)) [
    | inr (e, q) ↦ cc
    | inl (c, q) ↦ elim (Result-cases (normalized allow_lan allow_ipv6 vs)) [
      | inr (e, r) ↦ cc
      | inl (rest, r) ↦
          subst (All IsAdmitted) (ok-injective (rw (q, r) at h))
            (add_admitted-All c rest (normalized-All vs rest r))
    ]
  ]

  legacy_of-All :
      (p : Parsed) → All IsAdmitted (legacy_of p (legacy_type allow_lan allow_ipv6 p.address))
  unfolding legacy_type
  legacy_of-All p = elim (Bool-cases (allow_lan && is_private_v4 p.address)) [
    | inl e ↦ rw e (ground arith, tt)
    | inr e ↦ elim (Bool-cases (is_v6 p.address && usable_global_ipv6 p.address && allow_ipv6)) [
      | inl f ↦ rw (e, f) (ground arith, tt)
      | inr f ↦ elim (Bool-cases (is_v4 p.address)) [
        | inl g ↦ rw (e, f, g) (ground arith, tt)
        | inr g ↦ rw (e, f, g) tt
      ]
    ]
  ]

  legacy_parsed-All : (o : Option Parsed) → All IsAdmitted (legacy_parsed allow_lan allow_ipv6 o)
  legacy_parsed-All none = tt
  legacy_parsed-All (some p) = legacy_of-All p

  legacy_candidates-All :
      (endpoint : Text) → All IsAdmitted (legacy_candidates allow_lan allow_ipv6 endpoint)
  unfolding legacy_candidates
  legacy_candidates-All endpoint = elim (Bool-cases (is_empty endpoint)) [
    | inl e ↦ rw e tt
    | inr e ↦ rw e (legacy_parsed-All (parse_text endpoint))
  ]

module _ (values : List Json) (legacy_endpoint : Text) (endpoint_type : Json)
    (allow_ipv6 : Bool) where
  abbrev pooled : List Candidate → List Candidate
  pooled cs =
      dedupe_and_sort
        (cs ++ legacy_candidates (allows_lan endpoint_type) allow_ipv6 legacy_endpoint) true

  module _ (P : List Candidate → Type 0)
      (each : (cs : List Candidate)
        → normalized (allows_lan endpoint_type) allow_ipv6 values ≡ ok cs
        → P (limit_candidates (pooled cs))) where
    -- What a successful selection is made of.
    chosen_lem :
        (chosen : List Candidate)
        → select_probe_candidates values legacy_endpoint endpoint_type allow_ipv6 ≡ ok chosen
        → P chosen
    unfolding select_probe_candidates
    chosen_lem chosen h =
        elim (Result-cases (normalized (allows_lan endpoint_type) allow_ipv6 values)) [
          | inr (e, q) ↦ cc
          | inl (cs, q) ↦ subst P (ok-injective (rw q at h)) (each cs q)
        ]

  -- A successful selection has at most five candidates, best priority first and then by endpoint,
  -- and no endpoint twice.
  pub select_probe_candidates-IsPlan :
      (chosen : List Candidate)
      → select_probe_candidates values legacy_endpoint endpoint_type allow_ipv6 ≡ ok chosen
      → IsPlan chosen
  select_probe_candidates-IsPlan = chosen_lem IsPlan λ cs q.
      limit_candidates-IsPlan (pooled cs) (dedupe_and_sort-IsSorted true _)
        (dedupe_and_sort-Apart true _)

  -- A successful selection has a candidate of type lan4 only where the endpoint type asks for the
  -- LAN, and one of an IPv6 type only where IPv6 is allowed, also from the older form of an endpoint.
  pub select_probe_candidates-IsAdmitted :
      (chosen : List Candidate)
      → select_probe_candidates values legacy_endpoint endpoint_type allow_ipv6 ≡ ok chosen
      → All (IsAdmitted (allows_lan endpoint_type) allow_ipv6) chosen
  select_probe_candidates-IsAdmitted =
      chosen_lem (All (IsAdmitted (allows_lan endpoint_type) allow_ipv6)) λ cs q.
        limit_candidates-All _ (pooled cs) (
          All-dedupe_and_sort true _ _ (
            All-append _ cs _ (normalized-All (allows_lan endpoint_type) allow_ipv6 values cs q)
              (legacy_candidates-All (allows_lan endpoint_type) allow_ipv6 legacy_endpoint)))
