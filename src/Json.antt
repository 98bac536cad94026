-- ===== src/Json.antt =====
-- The values that the peers exchange, as `json.loads` gives them. Numbers are integers: no
-- component sends a fraction.
use wireguard_p2p.Base.{
  Bool, true, false, not, List, [], ◌∷◌, Option, none, some, ◌==◌, if◌then◌else◌,
}
use wireguard_p2p.Base.Int.{ℤ, pos, negsuc}
use wireguard_p2p.Base.Text.{Text, text_eq, is_empty}
use wireguard_p2p.Base.Text.Decimal.{read_int}
use wireguard_p2p.Result.{Result, ok, err, type_error, value_error, or_raise}

mutual
  pub data Json : Type 0 where
    null : Json
    bool : Bool → Json
    int : ℤ → Json
    str : Text → Json
    arr : Items → Json
    obj : Fields → Json

  pub data Items : Type 0 where
    nil : Items
    cons : Json → Items → Items

  pub data Fields : Type 0 where
    end : Fields
    field : Text → Json → Fields → Fields

unfoldable pub lookup : Text → Fields → Option Json
lookup k end = none
lookup k (field j v fs) = if text_eq j k then some v else lookup k fs

abbrev pub or_default : Option Json → Json → Json
or_default none d = d
or_default (some v) d = v

-- `value.get(k, d)` of a dict
unfoldable pub get : Text → Json → Fields → Json
unfolding lookup
get k d fs = or_default (lookup k fs) d

abbrev pub to_list : Items → List Json
to_list nil = []
to_list (cons v vs) = v ∷ to_list vs

abbrev is_zero : ℤ → Bool
is_zero (pos n) = n == 0
is_zero (negsuc n) = false

abbrev has_items : Items → Bool
has_items nil = false
has_items (cons v vs) = true

abbrev has_fields : Fields → Bool
has_fields end = false
has_fields (field k v fs) = true

-- `bool(value)`
unfoldable pub truthy : Json → Bool
truthy null = false
truthy (bool b) = b
truthy (int n) = not (is_zero n)
truthy (str t) = not (is_empty t)
truthy (arr vs) = has_items vs
truthy (obj fs) = has_fields fs

-- `int(value)`
unfoldable pub to_int : Json → Result ℤ
to_int null = err type_error
to_int (bool b) = ok (if b then pos 1 else pos 0)
to_int (int n) = ok n
to_int (str t) = or_raise (read_int t) value_error
to_int (arr vs) = err type_error
to_int (obj fs) = err type_error

-- `value == t`, for a text `t`
unfoldable pub equals_text : Json → Text → Bool
equals_text (str s) t = text_eq s t
equals_text null t = false
equals_text (bool b) t = false
equals_text (int n) t = false
equals_text (arr vs) t = false
equals_text (obj fs) t = false
