-- ===== src/Ip/Print.antt =====
-- `address.compressed`, which `str(address)` returns too.
pub mod Roundtrip
use wireguard_p2p.Base.{
  ℕ, zero, suc, ◌+◌, ◌*◌, ◌/◌, ◌%◌, ◌^◌, List, [], ◌∷◌, ◌++◌, ◌==◌, ltb, leb, if◌then◌else◌,
}
use wireguard_p2p.Base.Lists.{take}
use wireguard_p2p.Base.Text.{Text, text, join}
use wireguard_p2p.Base.Text.Decimal.{show}
use wireguard_p2p.Ip.{Address, v4, v6}
use wireguard_p2p.Ip.Read.{show_hex}

-- Dotted decimal.
unfoldable pub show_v4 : ℕ → Text
unfolding show
show_v4 a =
    show (a / 16777216)
    ++ b'.' ∷ (show (a / 65536 % 256) ++ b'.' ∷ (show (a / 256 % 256) ++ b'.' ∷ show (a % 256)))

hextets : ℕ → ℕ → List ℕ
hextets zero a = []
hextets (suc n) a = (a / 2 ^ (16 * n)) % 65536 ∷ hextets n a

-- The zeros that a list begins with.
zero_run : List ℕ → ℕ
zero_run [] = 0
zero_run (h ∷ hs) = let rest = zero_run hs in if h == 0 then suc rest else 0

-- Start and length of the first longest run of zeros, for the members from position `i` on.
longest_run : ℕ → List ℕ → ℕ × ℕ
unfolding zero_run
longest_run i [] = (i, 0)
longest_run i (h ∷ hs) =
    let here = zero_run (h ∷ hs) in
    let (start, best) = longest_run (suc i) hs in if leb best here then (i, here) else (start, best)

abbrev skip : ℕ → List ℕ → List ℕ
skip zero hs = hs
skip (suc n) [] = []
skip (suc n) (h ∷ hs) = skip n hs

shows : List ℕ → List Text
shows [] = []
shows (h ∷ hs) = show_hex h ∷ shows hs

unfoldable pub show_v6 : ℕ → Text
unfolding hextets longest_run shows show_hex join
show_v6 a =
    let hs = hextets 8 a in
    let (start, best) = longest_run 0 hs in
    if ltb 1 best
    then join (b':' ∷ []) (shows (take start hs))
      ++ text "::"
      ++ join (b':' ∷ []) (shows (skip (start + best) hs))
    else join (b':' ∷ []) (shows hs)

unfoldable pub compressed : Address → Text
unfolding show_v4 show_v6
compressed (v4 a) = show_v4 a
compressed (v6 a) = show_v6 a
