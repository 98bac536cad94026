-- ===== src/Base/Text/Decimal.antt =====
-- Decimal numerals: `str(n)`, and `int(s)` with its blanks, sign and underscores.
use Prim.Native.Nat.{ℕ, zero, suc, ◌+◌, ◌-◌, ◌*◌, ◌/◌, ◌%◌, ◌<◌}
use mathlib.Core.Path.{◌≡◌, refl, ◌∙◌}
use mathlib.Core.Bool.{Bool, true, false, ◌&&◌, ◌||◌}
use mathlib.Core.List.{List, [], ◌∷◌, ◌++◌}
use mathlib.Core.Option.{Option, none, some}
use mathlib.Core.Logic.{◌≢◌}
use native.Mathlib.Omega.{arith}
use wireguard_p2p.Base.Text.{Text, has_char}
use wireguard_p2p.Base.Tests.{ltb, leb, ◌==◌, if◌then◌else◌}
use wireguard_p2p.Base.Int.{ℤ, pos, neg}

unfoldable pub is_digit : ℕ → Bool
is_digit c = leb 48 c && leb c 57

-- Blanks that `str.strip` removes, up to U+00FF.
unfoldable pub is_blank : ℕ → Bool
is_blank c = c == 32 || leb 9 c && leb c 13 || leb 28 c && leb c 31 || c == 133 || c == 160

unfoldable pub show_fuel : ℕ → ℕ → List ℕ
show_fuel zero n = []
show_fuel (suc f) n =
    let rest = show_fuel f (n / 10) in
    if ltb n 10 then (48 + n) ∷ [] else rest ++ (48 + n % 10) ∷ []

-- `str(n)`
unfoldable pub show : ℕ → List ℕ
unfolding show_fuel
show n = show_fuel (suc n) n

strip_left : List ℕ → List ℕ
unfolding is_blank
strip_left [] = []
strip_left (c ∷ s) = let rest = strip_left s in if is_blank c then rest else c ∷ s

keep_unless_end : ℕ → List ℕ → List ℕ
unfolding is_blank
keep_unless_end c [] = if is_blank c then [] else c ∷ []
keep_unless_end c (d ∷ s) = c ∷ d ∷ s

strip_right : List ℕ → List ℕ
unfolding keep_unless_end
strip_right [] = []
strip_right (c ∷ s) = keep_unless_end c (strip_right s)

-- `str.strip()`
unfoldable pub strip : List ℕ → List ℕ
unfolding strip_left strip_right
strip s = strip_left (strip_right s)

-- One more character of a numeral: an underscore stands only between digits.
digit_step : Bool → ℕ → ℕ → Option (Bool × ℕ)
unfolding is_digit
digit_step after acc c =
    if is_digit c
    then some (true, acc * 10 + (c - 48))
    else if after && c == 95
    then some (false, acc)
    else none

digits_from : Bool → ℕ → List ℕ → Option ℕ
unfolding digit_step
digits_from after acc [] = if after then some acc else none
digits_from after acc (c ∷ s) = elim (digit_step after acc c) [
  | none ↦ none
  | some (a, n) ↦ digits_from a n s
]

abbrev with_sign : (ℕ → ℤ) → Option ℕ → Option ℤ
with_sign f none = none
with_sign f (some n) = some (f n)

signed : List ℕ → Option ℤ
unfolding digits_from
signed [] = none
signed (c ∷ s) =
    if c == b'-'
    then with_sign neg (digits_from false 0 s)
    else if c == b'+'
    then with_sign pos (digits_from false 0 s)
    else with_sign pos (digits_from false 0 (c ∷ s))

-- `int(s)`; `none` is its ValueError.
unfoldable pub read_int : List ℕ → Option ℤ
unfolding signed strip
read_int s = signed (strip s)

unfoldable pub all_digits : List ℕ → Bool
all_digits [] = true
all_digits (c ∷ s) = is_digit c && all_digits s

-- What a text of digits adds to the value read so far.
value_from : ℕ → List ℕ → ℕ
value_from acc [] = acc
value_from acc (c ∷ s) = value_from (acc * 10 + (c - 48)) s

value_from-append :
    (acc : ℕ) (s : List ℕ) (c : ℕ) → value_from acc (s ++ c ∷ []) ≡ value_from acc s * 10 + (c - 48)
unfolding value_from
value_from-append acc [] c = refl
value_from-append acc (d ∷ s) c = value_from-append (acc * 10 + (d - 48)) s c

all_digits-append :
    (s : List ℕ) (c : ℕ) → all_digits s ≡ true → is_digit c ≡ true → all_digits (s ++ c ∷ []) ≡ true
unfolding all_digits
all_digits-append [] c h k = ground arith
all_digits-append (d ∷ s) c h k = ground (arith, all_digits-append s c)

value-show_fuel : (f n : ℕ) → n < f → value_from 0 (show_fuel f n) ≡ n
unfolding show_fuel value_from
value-show_fuel zero n h = absurd (omega arith)
value-show_fuel (suc f) n h =
    ground
      (arith, value-show_fuel f (n / 10), value_from-append 0 (show_fuel f (n / 10)) (48 + n % 10))

digits-show_fuel : (f n : ℕ) → all_digits (show_fuel f n) ≡ true
unfolding show_fuel is_digit all_digits
digits-show_fuel zero n = refl
digits-show_fuel (suc f) n =
    ground
      (arith, digits-show_fuel f (n / 10), all_digits-append (show_fuel f (n / 10)) (48 + n % 10))

pub all_digits-show : (n : ℕ) → all_digits (show n) ≡ true
unfolding show
all_digits-show n = digits-show_fuel (suc n) n

append-ne-nil : (s : List ℕ) (c : ℕ) → s ++ c ∷ [] ≢ []
append-ne-nil [] c h = cc
append-ne-nil (d ∷ s) c h = cc

pub show-ne-nil : (n : ℕ) → show n ≢ []
unfolding show
show-ne-nil n = ground (arith, append-ne-nil (show_fuel n (n / 10)) (48 + n % 10))

-- On digits the reader with blanks, sign and underscores is the plain value.
digits_from-value :
    (acc : ℕ) (s : List ℕ) → all_digits s ≡ true → digits_from true acc s ≡ some (value_from acc s)
unfolding digits_from value_from all_digits
digits_from-value acc [] h = refl
digits_from-value acc (c ∷ s) h = ground (arith, digits_from-value (acc * 10 + (c - 48)) s)

strip_right-digits : (s : List ℕ) → all_digits s ≡ true → strip_right s ≡ s
unfolding all_digits is_digit strip_right
strip_right-digits [] h = refl
strip_right-digits (c ∷ []) h = ground arith
strip_right-digits (c ∷ d ∷ s) h = rw (strip_right-digits (d ∷ s) (ground arith))

strip_left-digits : (s : List ℕ) → all_digits s ≡ true → strip_left s ≡ s
unfolding all_digits is_digit strip_left
strip_left-digits [] h = refl
strip_left-digits (c ∷ s) h = ground arith

pub strip-digits : (s : List ℕ) → all_digits s ≡ true → strip s ≡ s
unfolding strip
strip-digits s h = strip_left-digits _ (rw (strip_right-digits s h) h) ∙ strip_right-digits s h

signed-digits : (s : List ℕ) → s ≢ [] → all_digits s ≡ true → signed s ≡ some (pos (value_from 0 s))
unfolding signed all_digits is_digit value_from
signed-digits [] n h = absurd (n refl)
signed-digits (c ∷ s) n h = ground (arith, digits_from-value (c - 48) s)

-- `int(str(n)) == n`
pub read_int-show : (n : ℕ) → read_int (show n) ≡ some (pos n)
unfolding read_int
read_int-show n = rw (strip-digits (show n) (all_digits-show n)) (
    rw (signed-digits (show n) (show-ne-nil n) (all_digits-show n))
      (unfold show in rw (value-show_fuel (suc n) n (omega arith))))

digits-no_char :
    (c : ℕ) (s : Text) → is_digit c ≡ false → all_digits s ≡ true → has_char c s ≡ false
unfolding all_digits is_digit has_char
digits-no_char c [] n h = refl
digits-no_char c (a ∷ s) n h = ground (arith, digits-no_char c s)

-- A numeral has no other characters than digits.
pub show-no_char : (c n : ℕ) → is_digit c ≡ false → has_char c (show n) ≡ false
show-no_char c n h = digits-no_char c (show n) h (all_digits-show n)
