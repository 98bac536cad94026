-- ===== src/Base/Text.antt =====
-- Python texts as lists of code points: comparison, decimal numerals, splitting.
pub mod Decimal
use Prim.Native.Char.{code}
use Prim.Native.Nat.{ℕ, zero, suc, ◌+◌, ◌-◌, compare, Ordering}
use Prim.Native.String.{String}
use mathlib.Core.Path.{◌≡◌, refl, ap}
use mathlib.Core.Logic.{◌↔◌, inl, inr}
use mathlib.Core.Bool.{Bool, true, false, ◌&&◌, ◌||◌}
use mathlib.Core.List.{List, [], ◌∷◌, ◌++◌, map}
use mathlib.Core.Option.{Option, none, some}
use native.Mathlib.Omega.{arith}
use wireguard_p2p.Base.Tests.{ltb, leb, ◌==◌, if◌then◌else◌, ==_iff, Bool-cases}

abbrev pub Text : Type 0
Text = List ℕ

-- The code points of a literal.
abbrev pub text : String → Text
text String.[] = []
text (String.◌∷◌ c s) = code c ∷ text s

unfoldable pub text_eq : Text → Text → Bool
text_eq [] [] = true
text_eq (a ∷ s) (b ∷ t) = a == b && text_eq s t
text_eq _ _ = false

pub text_eq_refl : (s : Text) → text_eq s s ≡ true
unfolding text_eq
text_eq_refl [] = refl
text_eq_refl (a ∷ s) = ground (arith, text_eq_refl s)

pub text_eq→eq : (s t : Text) → text_eq s t ≡ true → s ≡ t
unfolding text_eq
text_eq→eq [] [] h = refl
text_eq→eq [] (b ∷ t) h = cc
text_eq→eq (a ∷ s) [] h = cc
text_eq→eq (a ∷ s) (b ∷ t) h = ground (arith, text_eq→eq s t)

pub text_eq_iff : (s t : Text) → (text_eq s t ≡ true) ↔ (s ≡ t)
text_eq_iff s t = (text_eq→eq s t, λ e. rw e (text_eq_refl t))

-- The order by code points, as `<=` on str.
unfoldable pub text_leb : Text → Text → Bool
text_leb [] t = true
text_leb (a ∷ s) [] = false
text_leb (a ∷ s) (b ∷ t) = ltb a b || (a == b && text_leb s t)

pub text_leb_total : (s t : Text) → text_leb s t ≡ false → text_leb t s ≡ true
unfolding text_leb
text_leb_total [] t h = cc
text_leb_total (a ∷ s) [] h = refl
text_leb_total (a ∷ s) (b ∷ t) h = ground (arith, text_leb_total s t)

abbrev pub is_empty : Text → Bool
is_empty [] = true
is_empty (c ∷ s) = false

abbrev pub or_text : Text → Text → Text
or_text [] d = d
or_text (c ∷ s) d = c ∷ s

unfoldable pub has_char : ℕ → Text → Bool
has_char c [] = false
has_char c (a ∷ s) = a == c || has_char c s

-- The texts before and after the first occurrence of a character.
unfoldable pub break_at : ℕ → Text → Option (Text × Text)
break_at c [] = none
break_at c (a ∷ s) =
    let rest = break_at c s in
    if a == c then some ([], s) else elim rest [ none ↦ none | some (l, r) ↦ some (a ∷ l, r) ]

-- `s.rsplit(c, 1)`, where `c` occurs in `s`: the texts before and after its last occurrence.
unfoldable pub rbreak_at : ℕ → Text → Option (Text × Text)
rbreak_at c [] = none
rbreak_at c (a ∷ s) = elim (rbreak_at c s) [
  | some (l, r) ↦ some (a ∷ l, r)
  | none ↦ if a == c then some ([], s) else none
]

abbrev push_char : ℕ → List Text → List Text
push_char a [] = (a ∷ []) ∷ []
push_char a (w ∷ ws) = (a ∷ w) ∷ ws

-- `s.split(c)`: never empty.
unfoldable pub split_on : ℕ → Text → List Text
split_on c [] = [] ∷ []
split_on c (a ∷ s) = let rest = split_on c s in if a == c then [] ∷ rest else push_char a rest

unfoldable pub join : Text → List Text → Text
join sep [] = []
join sep (w ∷ []) = w
join sep (w ∷ v ∷ ws) = w ++ (sep ++ join sep (v ∷ ws))

unfoldable pub lower_char : ℕ → ℕ
lower_char c = if leb b'A' c && leb c b'Z' then c + 32 else c

unfoldable pub upper_char : ℕ → ℕ
upper_char c = if leb b'a' c && leb c b'z' then c - 32 else c

-- `str.lower` and `str.upper` on ASCII letters.
abbrev pub lower : Text → Text
lower = map lower_char

abbrev pub upper : Text → Text
upper = map upper_char

pub break_at-append :
    (c : ℕ) (s r : Text) → has_char c s ≡ false → break_at c (s ++ c ∷ r) ≡ some (s, r)
unfolding has_char break_at
break_at-append c [] r h = ground arith
break_at-append c (a ∷ s) r h = ground (arith, break_at-append c s r)

pub rbreak_at-none : (c : ℕ) (s : Text) → has_char c s ≡ false → rbreak_at c s ≡ none
unfolding has_char rbreak_at
rbreak_at-none c [] h = refl
rbreak_at-none c (a ∷ s) h = ground (arith, rbreak_at-none c s)

pub rbreak_at-append :
    (c : ℕ) (s r : Text) → has_char c r ≡ false → rbreak_at c (s ++ c ∷ r) ≡ some (s, r)
unfolding rbreak_at
rbreak_at-append c [] r h = ground (arith, rbreak_at-none c r h)
rbreak_at-append c (a ∷ s) r h = rw (rbreak_at-append c s r h)

pub has_char-append : (c : ℕ) (s t : Text) → has_char c (s ++ t) ≡ (has_char c s || has_char c t)
unfolding has_char
has_char-append c [] t = refl
has_char-append c (a ∷ s) t = ground (arith, has_char-append c s t)

pub text_leb_trans :
    (s t u : Text) → text_leb s t ≡ true → text_leb t u ≡ true → text_leb s u ≡ true
unfolding text_leb
text_leb_trans [] t u h k = refl
text_leb_trans (a ∷ s) [] u h k = cc
text_leb_trans (a ∷ s) (b ∷ t) [] h k = cc
text_leb_trans (a ∷ s) (b ∷ t) (c ∷ u) h k = ground (arith, text_leb_trans s t u)

pub split_on-none : (c : ℕ) (s : Text) → has_char c s ≡ false → split_on c s ≡ s ∷ []
unfolding has_char split_on
split_on-none c [] h = refl
split_on-none c (a ∷ s) h =
    let miss : (a == c) ≡ false = ground arith in rw (split_on-none c s (ground arith), miss) refl

pub split_on-append :
    (c : ℕ) (s r : Text) → has_char c s ≡ false → split_on c (s ++ c ∷ r) ≡ s ∷ split_on c r
unfolding has_char split_on
split_on-append c [] r h = let hit : (c == c) ≡ true = ground arith in rw hit refl
split_on-append c (a ∷ s) r h =
    let miss : (a == c) ≡ false = ground arith in
    rw (split_on-append c s r (ground arith), miss) refl
