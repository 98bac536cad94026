-- ===== src/Candidates.antt =====
-- p2p/wireguard-p2p/linux/candidates.py: the candidate endpoints of a peer.
pub mod Endpoint
pub mod Usable
pub mod Normalize
pub mod Order
pub mod Select
pub mod Gather
use wireguard_p2p.Base.{
  ℕ, ◌≡◌, refl, Bool, true, false, List, [], ◌∷◌, Option, none, some, if◌then◌else◌,
}
use wireguard_p2p.Base.Int.{ℤ, pos}
use wireguard_p2p.Base.Text.{Text, text, text_eq}
use wireguard_p2p.Json.{Json, null, bool, int, str, obj, arr, end, field}
use wireguard_p2p.Result.{Result, ok, err, type_error}

-- The keys of `PRIORITY`.
pub data CandidateType : Type 0 where
  lan4 host6 observed6 reflexive6 mapped4 observed4 predicted4 : CandidateType

pub data Family : Type 0 where
  udp4 udp6 : Family

abbrev pub type_name : CandidateType → Text
type_name lan4 = text "lan4"
type_name host6 = text "host6"
type_name observed6 = text "observed6"
type_name reflexive6 = text "reflexive6"
type_name mapped4 = text "mapped4"
type_name observed4 = text "observed4"
type_name predicted4 = text "predicted4"

abbrev pub family_name : Family → Text
family_name udp4 = text "udp4"
family_name udp6 = text "udp6"

abbrev pub type_eq : CandidateType → CandidateType → Bool
type_eq lan4 lan4 = true
type_eq host6 host6 = true
type_eq observed6 observed6 = true
type_eq reflexive6 reflexive6 = true
type_eq mapped4 mapped4 = true
type_eq observed4 observed4 = true
type_eq predicted4 predicted4 = true
type_eq _ _ = false

-- `PRIORITY[type]`
abbrev pub priority_of : CandidateType → ℤ
priority_of lan4 = pos 1000
priority_of host6 = pos 900
priority_of observed6 = pos 850
priority_of reflexive6 = pos 825
priority_of mapped4 = pos 800
priority_of observed4 = pos 700
priority_of predicted4 = pos 500

abbrev pub preferred_host6_priority : ℤ
preferred_host6_priority = pos 910

abbrev pub max_probe_candidates : ℕ
max_probe_candidates = 5

-- The dict that the components pass round for one candidate.
pub record Candidate : Type 0 where
  pub type : CandidateType
  pub family : Family
  pub endpoint : Text
  pub priority : ℤ
  pub verified : Bool

find_type : Text → List CandidateType → Option CandidateType
find_type t [] = none
find_type t (c ∷ cs) = if text_eq t (type_name c) then some c else find_type t cs

abbrev all_types : List CandidateType
all_types = lan4 ∷ host6 ∷ observed6 ∷ reflexive6 ∷ mapped4 ∷ observed4 ∷ predicted4 ∷ []

-- `value in PRIORITY`: lists and dicts are not hashable.
unfoldable pub read_type : Json → Result (Option CandidateType)
unfolding find_type text_eq
read_type (str t) = ok (find_type t all_types)
read_type (arr vs) = err type_error
read_type (obj fs) = err type_error
read_type null = ok none
read_type (bool b) = ok none
read_type (int n) = ok none

unfoldable pub to_json : Candidate → Json
to_json c = obj (
    field (text "type") (str (type_name c.type)) (
      field (text "family") (str (family_name c.family)) (
        field (text "endpoint") (str c.endpoint) (
          field (text "priority") (int c.priority)
            (field (text "verified") (bool c.verified) end)))))
