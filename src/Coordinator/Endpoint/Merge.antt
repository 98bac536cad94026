-- ===== src/Coordinator/Endpoint/Merge.antt =====
-- What `merge_candidates` and `predicted_candidates` of p2p/wireguard-p2p/vps/peers_api.py promise.
use wireguard_p2p.Base.{
  ℕ, ◌+◌, ◌-◌, ◌≡◌, ◌≢◌, ◌≤◌, refl, Bool, true, false, ◌||◌, List, [], ◌∷◌, inl, inr, arith, leb,
  Bool-cases, if◌then◌else◌,
}
use wireguard_p2p.Base.Apart.{Apart, Apart-take, sort-Apart}
use wireguard_p2p.Base.Lists.{length, any, All, All-map, All-append, length-take}
use wireguard_p2p.Base.Sort.{IsSorted, IsSorted-take, sort, sort-IsSorted}
use wireguard_p2p.Base.Text.{is_empty}
use wireguard_p2p.Candidates.{Candidate}
use wireguard_p2p.Candidates.Order.{same_key}
use wireguard_p2p.Candidates.Order.Dedupe.{same_key_sym}
use wireguard_p2p.Coordinator.{max_candidates}
use wireguard_p2p.Coordinator.Endpoint.{by_priority, merge_from, merge_candidates, predicted_ports}

merge_from-unseen :
    (seen cs : List Candidate) → All (λ d. any (same_key false d) seen ≡ false) (merge_from seen cs)
unfolding merge_from any
merge_from-unseen seen [] = tt
merge_from-unseen seen (c ∷ cs) =
    elim (Bool-cases (is_empty c.endpoint || any (same_key false c) seen)) [
      | inl e ↦ rw e (merge_from-unseen seen cs)
      | inr e ↦ rw e (
        ground arith,
        All-map (λ d k. ground (arith, k)) (merge_from (c ∷ seen) cs)
            (merge_from-unseen (c ∷ seen) cs),
      )
    ]

merge_from-Apart : (seen cs : List Candidate) → Apart (same_key false) (merge_from seen cs)
unfolding merge_from any
merge_from-Apart seen [] = tt
merge_from-Apart seen (c ∷ cs) =
    elim (Bool-cases (is_empty c.endpoint || any (same_key false c) seen)) [
      | inl e ↦ rw e (merge_from-Apart seen cs)
      | inr e ↦ rw e (
        All-map (λ d k. ground (arith, k)) (merge_from (c ∷ seen) cs)
            (merge_from-unseen (c ∷ seen) cs),
        merge_from-Apart (c ∷ seen) cs,
      )
    ]

by_priority_total : (a b : Candidate) → by_priority a b ≡ false → by_priority b a ≡ true
by_priority_total a b h = ground arith

by_priority_trans :
    (a b c : Candidate) → by_priority a b ≡ true → by_priority b c ≡ true → by_priority a c ≡ true
by_priority_trans a b c h k = ground arith

-- A merged list has at most 16 candidates, by falling priority, and no pair of type and endpoint
-- twice.
pub merge_candidates-bounded :
    (cs : List Candidate)
    → (length (merge_candidates cs) ≤ max_candidates)
      × IsSorted by_priority (merge_candidates cs)
      × Apart (same_key false) (merge_candidates cs)
unfolding merge_candidates
merge_candidates-bounded cs = (
  length-take max_candidates (sort by_priority (merge_from [] cs)),
  IsSorted-take by_priority max_candidates _
      (sort-IsSorted by_priority by_priority_total by_priority_trans (merge_from [] cs)),
  Apart-take (same_key false) max_candidates _ (
      sort-Apart (same_key false) same_key_sym by_priority (merge_from [] cs)
        (merge_from-Apart [] cs)),
)

-- A port within two of the observed one, and not that one.
abbrev pub IsNear : ℕ → ℕ → Type 0
IsNear port p = (1 ≤ p) × (p ≤ 65535) × (p ≤ port + 2) × (port ≤ p + 2) × (p ≢ port)

module _ (P : ℕ → Type 0) where
  All-one : (b : Bool) (n : ℕ) → (b ≡ true → P n) → All P (if b then n ∷ [] else [])
  All-one true n h = (h refl, tt)
  All-one false n h = tt

length-one : (b : Bool) (n : ℕ) → length (if b then n ∷ [] else []) ≤ 1
length-one true n = omega arith
length-one false n = omega arith

ports-IsNear : (port : ℕ) → 1 ≤ port → port ≤ 65535 → All (IsNear port) (predicted_ports port)
unfolding predicted_ports
ports-IsNear port low high =
    All-append _ _ _ (All-one (IsNear port) (leb 3 port) (port - 2) λ h. ground arith) (
      All-append _ _ _ (All-one (IsNear port) (leb 2 port) (port - 1) λ h. ground arith) (
        All-append _ _ _ (All-one (IsNear port) (leb (port + 1) 65535) (port + 1) λ h. ground arith)
          (All-one (IsNear port) (leb (port + 2) 65535) (port + 2) λ h. ground arith)))

ports_length : (port : ℕ) → length (predicted_ports port) ≤ 4
unfolding predicted_ports
ports_length port = ground arith

-- The predicted ports are at most four, valid, within two of the observed port, and never that port.
pub predicted_ports-IsNear :
    (port : ℕ)
    → 1 ≤ port
    → port ≤ 65535
    → (length (predicted_ports port) ≤ 4) × All (IsNear port) (predicted_ports port)
unfolding predicted_ports
predicted_ports-IsNear port low high = (ports_length port, ports-IsNear port low high)
