-- ===== src/Candidates/Order/Dedupe.antt =====
-- What `_dedupe_and_sort` of p2p/wireguard-p2p/linux/candidates.py leaves of a list.
use wireguard_p2p.Base.{◌≡◌, Bool, true, false, ◌||◌, List, [], ◌∷◌, inl, inr, arith, Bool-cases}
use wireguard_p2p.Base.Apart.{Apart}
use wireguard_p2p.Base.Lists.{All, All-map, any}
use wireguard_p2p.Base.Sort.{IsSorted, sort, sort-IsSorted, All-sort}
use wireguard_p2p.Base.Text.{text_eq_iff, text_leb_total, text_leb_trans}
use wireguard_p2p.Candidates.{CandidateType, Candidate, type_eq}
use wireguard_p2p.Candidates.Order.{
  before, same_endpoint, same_key, no_key, dedupe, dedupe_and_sort,
}

pub before_total : (a b : Candidate) → before a b ≡ false → before b a ≡ true
unfolding before
before_total a b h = ground (arith, text_leb_total a.endpoint b.endpoint)

pub before_trans : (a b c : Candidate) → before a b ≡ true → before b c ≡ true → before a c ≡ true
unfolding before
before_trans a b c h k = ground (arith, text_leb_trans a.endpoint b.endpoint c.endpoint)

pub same_endpoint_sym : (a b : Candidate) → same_endpoint a b ≡ false → same_endpoint b a ≡ false
same_endpoint_sym a b h =
    ground (arith, text_eq_iff a.endpoint b.endpoint, text_eq_iff b.endpoint a.endpoint)

type_eq_sym : (a b : CandidateType) → type_eq a b ≡ type_eq b a
type_eq_sym a b = ground arith

pub same_key_sym : (a b : Candidate) → same_key false a b ≡ false → same_key false b a ≡ false
same_key_sym a b h = ground (
  arith,
  type_eq_sym a.type b.type,
  text_eq_iff a.endpoint b.endpoint,
  text_eq_iff b.endpoint a.endpoint,
)

module _ (by_endpoint : Bool) where
  pub All-dedupe {κ} :
      (P : Candidate → Type κ) (seen cs : List Candidate)
      → All P cs
      → All P (dedupe by_endpoint seen cs)
  unfolding dedupe
  All-dedupe P seen [] h = tt
  All-dedupe P seen (c ∷ cs) h =
      elim (Bool-cases (no_key by_endpoint c || any (same_key by_endpoint c) seen)) [
        | inl e ↦ rw e (All-dedupe P seen cs h.1)
        | inr e ↦ rw e (h.0, All-dedupe P (c ∷ seen) cs h.1)
      ]

  dedupe-IsSorted :
      (seen cs : List Candidate) → IsSorted before cs → IsSorted before (dedupe by_endpoint seen cs)
  unfolding dedupe
  dedupe-IsSorted seen [] h = tt
  dedupe-IsSorted seen (c ∷ cs) h =
      elim (Bool-cases (no_key by_endpoint c || any (same_key by_endpoint c) seen)) [
        | inl e ↦ rw e (dedupe-IsSorted seen cs h.1)
        | inr e ↦ rw e (All-dedupe _ (c ∷ seen) cs h.0, dedupe-IsSorted (c ∷ seen) cs h.1)
      ]

  -- Nothing that is left has a key that was seen before.
  dedupe-unseen :
      (seen cs : List Candidate)
      → All (λ d. any (same_key by_endpoint d) seen ≡ false) (dedupe by_endpoint seen cs)
  unfolding dedupe any
  dedupe-unseen seen [] = tt
  dedupe-unseen seen (c ∷ cs) =
      elim (Bool-cases (no_key by_endpoint c || any (same_key by_endpoint c) seen)) [
        | inl e ↦ rw e (dedupe-unseen seen cs)
        | inr e ↦ rw e (
          ground arith,
          All-map (λ d k. ground (arith, k)) (dedupe by_endpoint (c ∷ seen) cs)
              (dedupe-unseen (c ∷ seen) cs),
        )
      ]

  dedupe-Apart :
      (seen cs : List Candidate) → Apart (same_key by_endpoint) (dedupe by_endpoint seen cs)
  unfolding dedupe any
  dedupe-Apart seen [] = tt
  dedupe-Apart seen (c ∷ cs) =
      elim (Bool-cases (no_key by_endpoint c || any (same_key by_endpoint c) seen)) [
        | inl e ↦ rw e (dedupe-Apart seen cs)
        | inr e ↦ rw e (
          All-map (λ d k. ground (arith, k)) (dedupe by_endpoint (c ∷ seen) cs)
              (dedupe-unseen (c ∷ seen) cs),
          dedupe-Apart (c ∷ seen) cs,
        )
      ]

  module _ (cs : List Candidate) where
    pub dedupe_and_sort-IsSorted : IsSorted before (dedupe_and_sort cs by_endpoint)
    unfolding dedupe_and_sort
    dedupe_and_sort-IsSorted =
        dedupe-IsSorted [] (sort before cs) (sort-IsSorted before before_total before_trans cs)

    pub dedupe_and_sort-Apart : Apart (same_key by_endpoint) (dedupe_and_sort cs by_endpoint)
    unfolding dedupe_and_sort
    dedupe_and_sort-Apart = dedupe-Apart [] (sort before cs)

    pub All-dedupe_and_sort {κ} :
        (P : Candidate → Type κ) → All P cs → All P (dedupe_and_sort cs by_endpoint)
    unfolding dedupe_and_sort
    All-dedupe_and_sort P h = All-dedupe P [] (sort before cs) (All-sort before P cs h)
