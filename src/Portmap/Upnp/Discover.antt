-- ===== src/Portmap/Upnp/Discover.antt =====
-- The answers to the UPnP search of p2p/wireguard-p2p/linux/portmap.py: `_header_value` and the loop of
-- `_discover_upnp_locations`.
use wireguard_p2p.Base.{
  ℕ, Bool, true, false, ◌&&◌, ◌||◌, List, [], ◌∷◌, ◌++◌, Option, none, some, leb, ◌==◌,
  if◌then◌else◌,
}
use wireguard_p2p.Base.Lists.{any}
use wireguard_p2p.Base.Text.{Text, text, text_eq, is_empty, lower, break_at}
use wireguard_p2p.Base.Text.Decimal.{strip}
use wireguard_p2p.Result.{Result, ok, err, os_error}
use wireguard_p2p.Portmap.Bytes.{Packet}

-- What ends a line for `str.splitlines`, up to U+00FF; `\r\n` leaves an empty line more, which no
-- caller tells from none.
abbrev pub is_line_end : ℕ → Bool
is_line_end c = leb 10 c && leb c 13 || leb 28 c && leb c 30 || c == 133

abbrev push_front : ℕ → List Text → List Text
push_front c [] = (c ∷ []) ∷ []
push_front c (w ∷ ws) = (c ∷ w) ∷ ws

unfoldable pub lines_of : Text → List Text
lines_of [] = [] ∷ []
lines_of (c ∷ s) = let rest = lines_of s in if is_line_end c then [] ∷ rest else push_front c rest

unfoldable pub starts_with : Text → Text → Bool
starts_with [] s = true
starts_with (p ∷ ps) [] = false
starts_with (p ∷ ps) (c ∷ s) = p == c && starts_with ps s

abbrev behind : Option (Text × Text) → Text
behind none = []
behind (some (before, after)) = after

unfoldable pub header_in : Text → List Text → Text
unfolding starts_with break_at strip
header_in prefix [] = []
header_in prefix (line ∷ lines) =
    let rest = header_in prefix lines in
    if starts_with prefix (lower line) then strip (behind (break_at b':' line)) else rest

-- `_header_value(data, name)`; a byte is the code point that iso-8859-1 gives it.
unfoldable pub header_value : Packet → Text → Text
unfolding header_in lines_of
header_value packet name = header_in (lower name ++ b':' ∷ []) (lines_of packet)

-- What `recvfrom` does: a datagram, the time limit, or another error.
pub data Received : Type 0 where
  datagram : Packet → Received
  timed_out failed : Received

unfoldable pub member : Text → List Text → Bool
unfolding any text_eq
member t ts = any (text_eq t) ts

abbrev pub add_location : Text → List Text → List Text
unfolding member
add_location location locations =
    if is_empty location || member location locations then locations else locations ++ location ∷ []

-- The loop up to the deadline: each round has the clock at its test and what is received then.
unfoldable pub discover_rounds : ℕ → List Text → List (ℕ × Received) → Result (List Text)
unfolding header_value
discover_rounds deadline locations [] = ok locations
discover_rounds deadline locations ((now, datagram packet) ∷ rounds) =
    let found = header_value packet (text "location") in
    let rest = discover_rounds deadline (add_location found locations) rounds in
    if leb deadline now then ok locations else rest
discover_rounds deadline locations ((now, timed_out) ∷ rounds) = ok locations
discover_rounds deadline locations ((now, failed) ∷ rounds) =
    if leb deadline now then ok locations else err os_error
