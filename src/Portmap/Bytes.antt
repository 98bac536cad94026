-- ===== src/Portmap/Bytes.antt =====
-- `struct.pack`, `struct.unpack_from` and slices, for the packets of p2p/wireguard-p2p/linux/portmap.py.
pub mod Fixed
use wireguard_p2p.Base.{
  ℕ, zero, suc, ◌+◌, ◌*◌, ◌/◌, ◌%◌, ◌^◌, List, [], ◌∷◌, ◌++◌, ltb, if◌then◌else◌,
}
use wireguard_p2p.Base.Lists.{take}
use wireguard_p2p.Result.{Result, ok, err, struct_error}

abbrev pub Packet : Type 0
Packet = List ℕ

abbrev pub skip : ℕ → Packet → Packet
skip zero p = p
skip (suc n) [] = []
skip (suc n) (b ∷ p) = skip n p

abbrev pub zeros : ℕ → Packet
zeros zero = []
zeros (suc n) = 0 ∷ zeros n

-- `packet[lo:lo + count]`
abbrev pub slice : ℕ → ℕ → Packet → Packet
slice lo count p = take count (skip lo p)

abbrev head_or_zero : Packet → ℕ
head_or_zero [] = 0
head_or_zero (b ∷ p) = b

-- `packet[i]`, for a packet that is known to be longer.
abbrev pub byte_at : ℕ → Packet → ℕ
byte_at i p = head_or_zero (skip i p)

-- `packet[lo:lo + count] = new`, which may change the length of a bytearray.
abbrev pub splice : ℕ → ℕ → Packet → Packet → Packet
splice lo count new p = take lo p ++ (new ++ skip (lo + count) p)

-- `!H` and `!I`, the byte order of the network.
abbrev pub be16 : ℕ → Packet
be16 n = n / 256 ∷ n % 256 ∷ []

abbrev pub be32 : ℕ → Packet
be32 n = n / 16777216 ∷ n / 65536 % 256 ∷ n / 256 % 256 ∷ n % 256 ∷ []

abbrev pub be128 : ℕ → Packet
be128 n =
    be32 (n / 2 ^ 96)
    ++ (be32 (n / 2 ^ 64 % 2 ^ 32) ++ (be32 (n / 2 ^ 32 % 2 ^ 32) ++ be32 (n % 2 ^ 32)))

abbrev pub be16_at : ℕ → Packet → ℕ
be16_at i p = byte_at i p * 256 + byte_at (i + 1) p

abbrev pub be32_at : ℕ → Packet → ℕ
be32_at i p =
    byte_at i p * 16777216 + byte_at (i + 1) p * 65536 + byte_at (i + 2) p * 256 + byte_at (i + 3) p

-- `struct.pack` refuses a number that does not fit.
abbrev pub pack16 : ℕ → Result Packet
pack16 n = if ltb n 65536 then ok (be16 n) else err struct_error

abbrev pub pack32 : ℕ → Result Packet
pack32 n = if ltb n 4294967296 then ok (be32 n) else err struct_error
