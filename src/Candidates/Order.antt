-- ===== src/Candidates/Order.antt =====
-- `_dedupe_and_sort` of p2p/wireguard-p2p/linux/candidates.py.
pub mod Dedupe
use wireguard_p2p.Base.{◌≡◌, refl, Bool, true, false, ◌&&◌, ◌||◌, List, [], ◌∷◌, if◌then◌else◌}
use wireguard_p2p.Base.Int.{ltb_ℤ, leb_ℤ}
use wireguard_p2p.Base.Lists.{any}
use wireguard_p2p.Base.Sort.{sort}
use wireguard_p2p.Base.Text.{Text, text_eq, text_leb, is_empty}
use wireguard_p2p.Candidates.{CandidateType, type_eq, Candidate}

-- The sort key `(-priority, endpoint)`.
unfoldable pub before : Candidate → Candidate → Bool
before a b =
    ltb_ℤ b.priority a.priority || leb_ℤ b.priority a.priority && text_leb a.endpoint b.endpoint

abbrev pub same_endpoint : Candidate → Candidate → Bool
same_endpoint a b = text_eq a.endpoint b.endpoint

abbrev pub same_key : Bool → Candidate → Candidate → Bool
same_key true a b = same_endpoint a b
same_key false a b = type_eq a.type b.type && same_endpoint a b

-- An empty key is falsy; a pair is not.
abbrev pub no_key : Bool → Candidate → Bool
no_key true c = is_empty c.endpoint
no_key false c = false

-- The first candidate with each key, beside those already seen.
unfoldable pub dedupe : Bool → List Candidate → List Candidate → List Candidate
unfolding any
dedupe by_endpoint seen [] = []
dedupe by_endpoint seen (c ∷ cs) =
    let skipped = dedupe by_endpoint seen cs in
    let taken = dedupe by_endpoint (c ∷ seen) cs in
    if no_key by_endpoint c || any (same_key by_endpoint c) seen then skipped else c ∷ taken

unfoldable pub dedupe_and_sort : List Candidate → Bool → List Candidate
unfolding dedupe before sort text_eq text_leb
dedupe_and_sort candidates by_endpoint = dedupe by_endpoint [] (sort before candidates)
