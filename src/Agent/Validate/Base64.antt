-- ===== src/Agent/Validate/Base64.antt =====
-- The length of `base64.b64decode(text, validate=True)`.
use wireguard_p2p.Base.{
  ℕ, suc, ◌+◌, ◌*◌, ◌/◌, ◌%◌, Bool, ◌&&◌, ◌||◌, [], ◌∷◌, Option, none, some, leb, ◌==◌,
  if◌then◌else◌,
}
use wireguard_p2p.Base.Text.{Text}

is_base64 : ℕ → Bool
is_base64 c =
    leb b'A' c && leb c b'Z'
    || leb b'a' c && leb c b'z'
    || leb b'0' c && leb c b'9'
    || c == b'+'
    || c == b'/'

-- At most two `=` at the end.
padding : Text → Option ℕ
padding [] = some 0
padding (a ∷ []) = if a == b'=' then some 1 else none
padding (a ∷ b ∷ []) = if a == b'=' && b == b'=' then some 2 else none
padding (a ∷ b ∷ c ∷ s) = none

-- How many characters of the alphabet stand before the padding, and how many padding characters.
counts : ℕ → Text → Option (ℕ × ℕ)
unfolding is_base64 padding
counts n [] = some (n, 0)
counts n (c ∷ s) =
    let rest = counts (suc n) s in
    if is_base64 c then rest else elim (padding (c ∷ s)) [ none ↦ none | some p ↦ some (n, p) ]

-- A group of two or three characters must be padded; one character is no group.
length_of : ℕ → ℕ → Option ℕ
length_of n p =
    if n % 4 == 0
    then some (n / 4 * 3)
    else if n % 4 == 2 && leb 2 p
    then some (n / 4 * 3 + 1)
    else if n % 4 == 3 && leb 1 p
    then some (n / 4 * 3 + 2)
    else none

unfoldable pub decoded_length : Text → Option ℕ
unfolding counts length_of
decoded_length t = elim (counts 0 t) [ none ↦ none | some (n, p) ↦ length_of n p ]
