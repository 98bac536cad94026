-- ===== src/Ip.antt =====
-- What the program uses of Python's `ipaddress` (the tables of CPython 3.11; scope ids are refused).
pub mod Read
pub mod Print
use wireguard_p2p.Base.{
  ℕ, ◌+◌, ◌-◌, ◌*◌, ◌/◌, ◌^◌, ◌≡◌, refl, Bool, true, false, not, ◌&&◌, ◌||◌, List, [], ◌∷◌, ◌==◌,
  leb,
}
use wireguard_p2p.Base.Lists.{any}

pub data Address : Type 0 where
  v4 : ℕ → Address
  v6 : ℕ → Address

unfoldable pub address_eq : Address → Address → Bool
address_eq (v4 a) (v4 b) = a == b
address_eq (v6 a) (v6 b) = a == b
address_eq (v4 a) (v6 b) = false
address_eq (v6 a) (v4 b) = false

abbrev pub is_v4 : Address → Bool
is_v4 (v4 a) = true
is_v4 (v6 a) = false

abbrev pub is_v6 : Address → Bool
is_v6 a = not (is_v4 a)

abbrev pub octets : ℕ → ℕ → ℕ → ℕ → ℕ
octets a b c d = ((a * 256 + b) * 256 + c) * 256 + d

-- The first `prefix` bits agree.
unfoldable pub in_net4 : ℕ → ℕ × ℕ → Bool
in_net4 a (base, prefix) = a / 2 ^ (32 - prefix) == base / 2 ^ (32 - prefix)

unfoldable pub in_net6 : ℕ → ℕ × ℕ → Bool
in_net6 a (base, prefix) = a / 2 ^ (128 - prefix) == base / 2 ^ (128 - prefix)

private_nets4 : List (ℕ × ℕ)
private_nets4 =
    (octets 0 0 0 0, 8)
    ∷ (octets 10 0 0 0, 8)
    ∷ (octets 127 0 0 0, 8)
    ∷ (octets 169 254 0 0, 16)
    ∷ (octets 172 16 0 0, 12)
    ∷ (octets 192 0 0 0, 29)
    ∷ (octets 192 0 0 170, 31)
    ∷ (octets 192 0 2 0, 24)
    ∷ (octets 192 168 0 0, 16)
    ∷ (octets 198 18 0 0, 15)
    ∷ (octets 198 51 100 0, 24)
    ∷ (octets 203 0 113 0, 24)
    ∷ (octets 240 0 0 0, 4)
    ∷ (octets 255 255 255 255, 32)
    ∷ []

private_nets6 : List (ℕ × ℕ)
private_nets6 =
    (1, 128)
    ∷ (0, 128)
    ∷ (0xffff * 2 ^ 32, 96)
    ∷ (0x100 * 2 ^ 112, 64)
    ∷ (0x20010000 * 2 ^ 96, 23)
    ∷ (0x20010002 * 2 ^ 96, 48)
    ∷ (0x20010db8 * 2 ^ 96, 32)
    ∷ (0x20010010 * 2 ^ 96, 28)
    ∷ (0xfc00 * 2 ^ 112, 7)
    ∷ (0xfe80 * 2 ^ 112, 10)
    ∷ []

unfoldable pub is_private : Address → Bool
unfolding private_nets4 private_nets6 in_net4 in_net6 any
is_private (v4 a) = any (in_net4 a) private_nets4
is_private (v6 a) = any (in_net6 a) private_nets6

unfoldable pub is_global : Address → Bool
unfolding is_private
is_global (v4 a) = not (in_net4 a (octets 100 64 0 0, 10)) && not (is_private (v4 a))
is_global (v6 a) = not (is_private (v6 a))

unfoldable pub is_link_local : Address → Bool
unfolding in_net4 in_net6
is_link_local (v4 a) = in_net4 a (octets 169 254 0 0, 16)
is_link_local (v6 a) = in_net6 a (0xfe80 * 2 ^ 112, 10)

unfoldable pub is_loopback : Address → Bool
unfolding in_net4
is_loopback (v4 a) = in_net4 a (octets 127 0 0 0, 8)
is_loopback (v6 a) = a == 1

unfoldable pub is_multicast : Address → Bool
unfolding in_net4 in_net6
is_multicast (v4 a) = in_net4 a (octets 224 0 0 0, 4)
is_multicast (v6 a) = in_net6 a (0xff00 * 2 ^ 112, 8)

unfoldable pub is_unspecified : Address → Bool
is_unspecified (v4 a) = a == 0
is_unspecified (v6 a) = a == 0
