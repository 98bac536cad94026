-- ===== src/Ip/Print/Roundtrip.antt =====
-- Reading a printed IPv4 address.
use wireguard_p2p.Base.{
  ℕ, zero, suc, ◌+◌, ◌*◌, ◌/◌, ◌%◌, ◌≡◌, ◌<◌, refl, ap, ◌∙◌, Bool, true, false, ◌&&◌, [], ◌∷◌, ◌++◌,
  Option, none, some, arith, ◌==◌, inl, inr, Bool-cases,
}
use wireguard_p2p.Base.Text.{
  Text, has_char, has_char-append, split_on, split_on-none, split_on-append,
}
use wireguard_p2p.Base.Text.Decimal.{is_digit, show, show-no_char}
use wireguard_p2p.Ip.{v4}
use wireguard_p2p.Ip.Read.{octet, four_octets, read_v4, ip_address}
use wireguard_p2p.Ip.Print.{show_v4}

abbrev has_value : ℕ → Option ℕ → Bool
has_value n none = false
has_value n (some m) = m == n

-- Every number below the bound reads back.
abbrev octets_below : ℕ → Bool
octets_below zero = true
octets_below (suc n) = has_value n (octet (show n)) && octets_below n

octets_checked : octets_below 256 ≡ true
unfolding octet show
octets_checked = refl

value_lem : (n : ℕ) (o : Option ℕ) → has_value n o ≡ true → o ≡ some n
value_lem n none h = cc
value_lem n (some m) h = ground arith

below_lem : (b n : ℕ) → octets_below b ≡ true → n < b → octet (show n) ≡ some n
below_lem zero n h lt = absurd (omega arith)
below_lem (suc b) n h lt = elim (Bool-cases (n == b)) [
  | inl e ↦ let same : n ≡ b = ground arith in rw same (value_lem b (octet (show b)) (ground arith))
  | inr e ↦ below_lem b n (ground arith) (ground arith)
]

octet-show : (n : ℕ) → n < 256 → octet (show n) ≡ some n
octet-show n lt = below_lem 256 n octets_checked lt

dot_digit : is_digit b'.' ≡ false
unfolding is_digit
dot_digit = refl

show_v4-split :
    (a : ℕ)
    → split_on b'.' (show_v4 a)
      ≡ show (a / 16777216) ∷ show (a / 65536 % 256) ∷ show (a / 256 % 256) ∷ show (a % 256) ∷ []
unfolding show_v4
show_v4-split a =
    let dot : is_digit b'.' ≡ false = dot_digit in
    rw
      (
        split_on-append b'.' (show (a / 16777216))
            (show (a / 65536 % 256) ++ b'.' ∷ (show (a / 256 % 256) ++ b'.' ∷ show (a % 256)))
            (show-no_char b'.' (a / 16777216) dot),
        split_on-append b'.' (show (a / 65536 % 256))
            (show (a / 256 % 256) ++ b'.' ∷ show (a % 256))
            (show-no_char b'.' (a / 65536 % 256) dot),
        split_on-append b'.' (show (a / 256 % 256)) (show (a % 256))
            (show-no_char b'.' (a / 256 % 256) dot),
        split_on-none b'.' (show (a % 256)) (show-no_char b'.' (a % 256) dot),
      )
      refl

joined :
    (a : ℕ)
    → some (((a / 16777216 * 256 + a / 65536 % 256) * 256 + a / 256 % 256) * 256 + a % 256) ≡ some a
joined a = ap some (omega arith)

four_octets_lem :
    (s t u w : Text) {i j k l : ℕ}
    → octet s ≡ some i
    → octet t ≡ some j
    → octet u ≡ some k
    → octet w ≡ some l
    → four_octets (s ∷ t ∷ u ∷ w ∷ []) ≡ some (((i * 256 + j) * 256 + k) * 256 + l)
unfolding four_octets
four_octets_lem s t u w a b c d = rw (four_octets, a, b, c, d) refl

pub read_v4-show_v4 : (a : ℕ) → a < 4294967296 → read_v4 (show_v4 a) ≡ some a
unfolding read_v4 four_octets
read_v4-show_v4 a lt = rw (show_v4-split a) (
    four_octets_lem (show (a / 16777216)) (show (a / 65536 % 256)) (show (a / 256 % 256))
      (show (a % 256)) (octet-show (a / 16777216) (omega arith))
      (octet-show (a / 65536 % 256) (omega arith)) (octet-show (a / 256 % 256) (omega arith))
      (octet-show (a % 256) (omega arith))
    ∙ joined a)

pub show_v4-no_char :
    (c a : ℕ) → is_digit c ≡ false → (b'.' == c) ≡ false → has_char c (show_v4 a) ≡ false
unfolding show_v4 has_char
show_v4-no_char c a h k =
    rw
      (
        has_char-append c (show (a / 16777216)) (
            b'.'
            ∷ (show (a / 65536 % 256) ++ b'.' ∷ (show (a / 256 % 256) ++ b'.' ∷ show (a % 256)))),
        has_char-append c (show (a / 65536 % 256))
            (b'.' ∷ (show (a / 256 % 256) ++ b'.' ∷ show (a % 256))),
        has_char-append c (show (a / 256 % 256)) (b'.' ∷ show (a % 256)),
        show-no_char c (a / 16777216) h,
        show-no_char c (a / 65536 % 256) h,
        show-no_char c (a / 256 % 256) h,
        show-no_char c (a % 256) h,
        k,
      )
      refl

pub ip_address-show_v4 : (a : ℕ) → a < 4294967296 → ip_address (show_v4 a) ≡ some (v4 a)
unfolding ip_address
ip_address-show_v4 a lt = rw (ip_address, read_v4-show_v4 a lt) refl
