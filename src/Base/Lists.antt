-- ===== src/Base/Lists.antt =====
-- Lists measured by native numbers, the tests `any` and `all`, and a predicate on all members.
use Prim.Native.Nat.{ℕ, zero, suc, ◌+◌, ◌≤◌}
use mathlib.Core.Path.{◌≡◌, refl, subst}
use mathlib.Core.Bool.{Bool, true, false, ◌&&◌, ◌||◌}
use mathlib.Core.List.{List, [], ◌∷◌, ◌++◌}
use mathlib.Core.Option.{Option, none, some}
use mathlib.Core.Logic.{inl, inr}
use native.Mathlib.Omega.{arith}
use wireguard_p2p.Base.Tests.{if◌then◌else◌, Bool-cases}

module _ {ℓ} {A : Type ℓ} where
  abbrev pub length : List A → ℕ
  length [] = 0
  length (x ∷ xs) = suc (length xs)

  abbrev pub take : ℕ → List A → List A
  take zero xs = []
  take (suc n) [] = []
  take (suc n) (x ∷ xs) = x ∷ take n xs

  unfoldable pub any : (A → Bool) → List A → Bool
  any p [] = false
  any p (x ∷ xs) = p x || any p xs

  unfoldable pub all : (A → Bool) → List A → Bool
  all p [] = true
  all p (x ∷ xs) = p x && all p xs

  -- `next((x for x in xs if p x), None)`
  unfoldable pub first : (A → Bool) → List A → Option A
  first p [] = none
  first p (x ∷ xs) = if p x then some x else first p xs

  unfoldable pub keep : (A → Bool) → List A → List A
  keep p [] = []
  keep p (x ∷ xs) = let rest = keep p xs in if p x then x ∷ rest else rest

  -- Drop the last member, and put another in its place: `xs[-1] = y`.
  unfoldable pub set_last : A → List A → List A
  set_last y [] = []
  set_last y (x ∷ []) = y ∷ []
  set_last y (x ∷ z ∷ xs) = x ∷ set_last y (z ∷ xs)

module _ {ℓ} {A : Type ℓ} where
  pub length-append : (xs ys : List A) → length (xs ++ ys) ≡ length xs + length ys
  length-append [] ys = omega arith
  length-append (x ∷ xs) ys = omega (arith, length-append xs ys)

  pub length-take : (n : ℕ) (xs : List A) → length (take n xs) ≤ n
  length-take zero xs = omega arith
  length-take (suc n) [] = omega arith
  length-take (suc n) (x ∷ xs) = omega (arith, length-take n xs)

  pub length-keep : (p : A → Bool) (xs : List A) → length (keep p xs) ≤ length xs
  unfolding keep
  length-keep p [] = omega arith
  length-keep p (x ∷ xs) = ground (arith, length-keep p xs)

  pub length-set_last : (y : A) (xs : List A) → length (set_last y xs) ≡ length xs
  unfolding set_last
  length-set_last y [] = refl
  length-set_last y (x ∷ []) = refl
  length-set_last y (x ∷ z ∷ xs) = omega (arith, length-set_last y (z ∷ xs))

module _ {ℓ κ} {A : Type ℓ} (P : A → Type κ) where
  abbrev pub All : List A → Type κ
  All [] = Unit
  All (x ∷ xs) = P x × All xs

module _ {ℓ κ} {A : Type ℓ} (P : A → Type κ) where
  pub All-append : (xs ys : List A) → All P xs → All P ys → All P (xs ++ ys)
  All-append [] ys h k = k
  All-append (x ∷ xs) ys h k = (h.0, All-append xs ys h.1 k)

  pub All-take : (n : ℕ) (xs : List A) → All P xs → All P (take n xs)
  All-take zero xs h = tt
  All-take (suc n) [] h = tt
  All-take (suc n) (x ∷ xs) h = (h.0, All-take n xs h.1)

  pub All-set_last : (y : A) (xs : List A) → P y → All P xs → All P (set_last y xs)
  unfolding set_last
  All-set_last y [] p h = tt
  All-set_last y (x ∷ []) p h = (p, tt)
  All-set_last y (x ∷ z ∷ xs) p h = (h.0, All-set_last y (z ∷ xs) p h.1)

  pub first-All : (p : A → Bool) (xs : List A) {x : A} → All P xs → first p xs ≡ some x → P x
  unfolding first
  first-All p [] h e = cc
  first-All p (y ∷ ys) {x} h e = elim (Bool-cases (p y)) [
    | inl hit ↦ subst P (ground arith) h.0
    | inr miss ↦ first-All p ys h.1 (rw miss at e)
  ]

pub All-map {ℓ κ μ} :
    {A : Type ℓ} {P : A → Type κ} {Q : A → Type μ}
    → ((x : A) → P x → Q x)
    → (xs : List A) → All P xs
    → All Q xs
All-map f [] h = tt
All-map f (x ∷ xs) h = (f x h.0, All-map f xs h.1)

module _ {ℓ} {A : Type ℓ} where
  pub any-set_last :
      (p : A → Bool) (y x : A) (xs : List A) → p y ≡ true → any p (set_last y (x ∷ xs)) ≡ true
  unfolding any set_last
  any-set_last p y x [] h = ground arith
  any-set_last p y x (z ∷ xs) h = ground (arith, any-set_last p y z xs h)

  pub first-any :
      (p q : A → Bool) (xs : List A) {x : A} → first p xs ≡ some x → q x ≡ true → any q xs ≡ true
  unfolding any first
  first-any p q [] e h = cc
  first-any p q (y ∷ ys) {x} e h = elim (Bool-cases (p y)) [
    | inl hit ↦ ground arith
    | inr miss ↦ ground (arith, first-any p q ys (rw miss at e) h)
  ]
