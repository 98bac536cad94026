-- ===== src/Portmap/Bytes/Fixed.antt =====
-- Lists of a known length, written out; and numbers read from the bytes that were packed.
use wireguard_p2p.Base.{ℕ, zero, suc, ◌+◌, ◌*◌, ◌/◌, ◌%◌, ◌≡◌, refl, ap, [], ◌∷◌, arith}
use wireguard_p2p.Base.Lists.{length}
use wireguard_p2p.Portmap.Bytes.{Packet}

abbrev pub Bytes : ℕ → Type 0
Bytes zero = Unit
Bytes (suc n) = ℕ × Bytes n

abbrev pub packet_of : (n : ℕ) → Bytes n → Packet
packet_of zero v = []
packet_of (suc n) (b, v) = b ∷ packet_of n v

pub packet_of-onto : (n : ℕ) (p : Packet) → length p ≡ n → (v : Bytes n) × (p ≡ packet_of n v)
packet_of-onto zero [] h = (tt, refl)
packet_of-onto zero (b ∷ p) h = absurd (omega arith)
packet_of-onto (suc n) [] h = absurd (omega arith)
packet_of-onto (suc n) (b ∷ p) h =
    let rest = packet_of-onto n p (omega arith) in ((b, rest.0), ap (λ (q : Packet). b ∷ q) rest.1)

pub be16-exact : (n : ℕ) → n / 256 * 256 + n % 256 ≡ n
be16-exact n = omega arith

pub be32-exact :
    (n : ℕ) → n / 16777216 * 16777216 + n / 65536 % 256 * 65536 + n / 256 % 256 * 256 + n % 256 ≡ n
be32-exact n = omega arith
