-- ===== src/Base/Apart.antt =====
-- Lists whose members are pairwise unrelated, as a list without repeated keys is.
use Prim.Native.Nat.{ℕ, zero, suc}
use mathlib.Core.Path.{◌≡◌}
use mathlib.Core.Bool.{Bool, false}
use mathlib.Core.List.{List, [], ◌∷◌}
use mathlib.Core.Logic.{inl, inr}
use native.Mathlib.Omega.{arith}
use wireguard_p2p.Base.Tests.{Bool-cases}
use wireguard_p2p.Base.Lists.{All, All-take, All-set_last, any, take, set_last}
use wireguard_p2p.Base.Sort.{insert, sort, All-insert, All-sort}

module _ {ℓ} {A : Type ℓ} (r : A → A → Bool) where
  -- No member is related to an earlier one.
  abbrev pub Apart : List A → Type 0
  Apart [] = Unit
  Apart (x ∷ xs) = All (λ y. r y x ≡ false) xs × Apart xs

module _ {ℓ} {A : Type ℓ} (r : A → A → Bool) where
  pub Apart-take : (n : ℕ) (xs : List A) → Apart r xs → Apart r (take n xs)
  Apart-take zero xs h = tt
  Apart-take (suc n) [] h = tt
  Apart-take (suc n) (x ∷ xs) h = (All-take _ n xs h.0, Apart-take n xs h.1)

  pub Apart-set_last :
      (y : A) (xs : List A) → All (λ x. r y x ≡ false) xs → Apart r xs → Apart r (set_last y xs)
  unfolding set_last
  Apart-set_last y [] h k = tt
  Apart-set_last y (x ∷ []) h k = (tt, tt)
  Apart-set_last y (x ∷ z ∷ xs) h k =
      (All-set_last (λ u. r u x ≡ false) y (z ∷ xs) h.0 k.0, Apart-set_last y (z ∷ xs) h.1 k.1)

  pub any-All : (y : A) (xs : List A) → any (r y) xs ≡ false → All (λ x. r y x ≡ false) xs
  unfolding any
  any-All y [] h = tt
  any-All y (x ∷ xs) h = (ground arith, any-All y xs (ground arith))

  module _ (sym : (x y : A) → r x y ≡ false → r y x ≡ false) (before : A → A → Bool) where
    insert-Apart :
        (x : A) (ys : List A)
        → All (λ y. r y x ≡ false) ys
        → Apart r ys
        → Apart r (insert before x ys)
    unfolding insert
    insert-Apart x [] h k = (tt, tt)
    insert-Apart x (y ∷ ys) h k = elim (Bool-cases (before x y)) [
      | inl e ↦ rw e (h, k)
      | inr e ↦
          rw e (
            All-insert before (λ u. r u y ≡ false) x ys (sym y x h.0) k.0,
            insert-Apart x ys h.1 k.1,
          )
    ]

    pub sort-Apart : (xs : List A) → Apart r xs → Apart r (sort before xs)
    unfolding sort
    sort-Apart [] h = tt
    sort-Apart (x ∷ xs) h =
        insert-Apart x (sort before xs) (All-sort before (λ y. r y x ≡ false) xs h.0)
          (sort-Apart xs h.1)
