-- ===== src/Agent/Validate/Uuid.antt =====
-- What the program uses of Python's `uuid.UUID`. (Signs, blanks and underscores between the digits,
-- which `int(hex, 16)` would skip, are refused.)
use wireguard_p2p.Base.{
  ℕ, zero, suc, Bool, true, false, not, ◌&&◌, ◌||◌, List, [], ◌∷◌, Option, none, some, leb, ◌==◌,
  if◌then◌else◌,
}
use wireguard_p2p.Base.Lists.{length, keep, all}
use wireguard_p2p.Base.Text.{Text, text, lower, lower_char}

unfoldable pub is_hex : ℕ → Bool
is_hex c = leb b'0' c && leb c b'9' || leb b'a' c && leb c b'f' || leb b'A' c && leb c b'F'

-- The shape of the canonical form: 8-4-4-4-12 hexadecimal digits.
groups : List ℕ → Text → Bool
unfolding is_hex
groups [] s = false
groups (zero ∷ []) [] = true
groups (zero ∷ []) (c ∷ s) = false
groups (zero ∷ g ∷ gs) [] = false
groups (zero ∷ g ∷ gs) (c ∷ s) = c == b'-' && groups (g ∷ gs) s
groups (suc n ∷ gs) [] = false
groups (suc n ∷ gs) (c ∷ s) = is_hex c && groups (n ∷ gs) s

-- The canonical text, where the lower case of the text is canonical.
unfoldable pub is_canonical_uuid : Text → Option Text
unfolding groups lower_char
is_canonical_uuid t = let s = lower t in if groups (8 ∷ 4 ∷ 4 ∷ 4 ∷ 12 ∷ []) s then some s else none

-- `t[len(w):]` where `t` starts with `w`
behind : Text → Text → Option Text
behind [] t = some t
behind (a ∷ w) [] = none
behind (a ∷ w) (c ∷ t) = if a == c then behind w t else none

-- `t.replace(w, "")`; the fuel is the length of the text.
erase_fuel : ℕ → Text → Text → Text
unfolding behind
erase_fuel zero w t = []
erase_fuel (suc n) w [] = []
erase_fuel (suc n) w (c ∷ t) = elim (behind w (c ∷ t)) [
  | none ↦ c ∷ erase_fuel n w t
  | some rest ↦ erase_fuel n w rest
]

erase : Text → Text → Text
unfolding erase_fuel
erase w t = erase_fuel (length t) w t

is_brace : ℕ → Bool
is_brace c = c == b'{' || c == b'}'

strip_left : Text → Text
unfolding is_brace
strip_left [] = []
strip_left (c ∷ s) = let rest = strip_left s in if is_brace c then rest else c ∷ s

strip_right : Text → Text
unfolding is_brace
strip_right [] = []
strip_right (c ∷ s) = elim (strip_right s) [
  | [] ↦ if is_brace c then [] else c ∷ []
  | d ∷ r ↦ c ∷ d ∷ r
]

-- `uuid.UUID(t).hex`; `none` is its ValueError.
unfoldable pub uuid_hex : Text → Option Text
unfolding erase strip_left strip_right keep all is_hex lower_char
uuid_hex t =
    let body = strip_left (strip_right (erase (text "uuid:") (erase (text "urn:") t))) in
    let hex = keep (λ c. not (c == b'-')) body in
    if length hex == 32 && all is_hex hex then some (lower hex) else none
