-- ===== src/Tests/Selection.antt =====
-- The theorems on candidates and endpoints, at concrete lists.
use wireguard_p2p.Base.{some, ◌≡◌, ◌≤◌, refl, true, false, List, [], ◌∷◌, arith}
use wireguard_p2p.Base.Apart.{Apart}
use wireguard_p2p.Base.Int.{pos}
use wireguard_p2p.Base.Lists.{length, any, All}
use wireguard_p2p.Base.Sort.{IsSorted}
use wireguard_p2p.Base.Text.{Text, text, lower_char}
use wireguard_p2p.Candidates.Endpoint.Roundtrip.{parse_text-format_endpoint}
use wireguard_p2p.Ip.{v4, is_multicast, is_unspecified, is_private}
use wireguard_p2p.Ip.Print.{compressed}
use wireguard_p2p.Candidates.Normalize.{normalize_probe_candidate}
use wireguard_p2p.Json.{str}
use wireguard_p2p.Candidates.{Candidate, to_json, lan4, udp4, predicted4}
use wireguard_p2p.Candidates.Endpoint
use wireguard_p2p.Candidates.Order.{same_key, same_endpoint}
use wireguard_p2p.Candidates.Select.{legacy_type, limit_candidates, select_probe_candidates}
use wireguard_p2p.Candidates.Select.Bounds.{
  IsPlan, IsAdmitted, select_probe_candidates-IsPlan, select_probe_candidates-IsAdmitted,
  limit_candidates-observed,
}
use wireguard_p2p.Coordinator.{max_candidates}
use wireguard_p2p.Coordinator.Endpoint.{merge_candidates, by_priority, predicted_ports}
use wireguard_p2p.Coordinator.Endpoint.Merge.{
  IsNear, merge_candidates-bounded, predicted_ports-IsNear,
}
use wireguard_p2p.Tests.Data.{seen4}

abbrev lan : Candidate
lan = record {
  type = lan4;
  family = udp4;
  endpoint = text "192.168.1.5:51820";
  priority = pos 1000;
  verified = false;
}

abbrev guess : Text → Candidate
guess endpoint = record {
  type = predicted4;
  family = udp4;
  endpoint = endpoint;
  priority = pos 800;
  verified = false;
}

-- Five guesses stand before the observed endpoint.
abbrev crowded : List Candidate
crowded =
    guess (text "8.8.8.8:1")
    ∷ guess (text "8.8.8.8:2")
    ∷ guess (text "8.8.8.8:3")
    ∷ guess (text "8.8.8.8:4")
    ∷ guess (text "8.8.8.8:5")
    ∷ seen4
    ∷ []

limit_candidates-observed_example : any (same_endpoint seen4) (limit_candidates crowded) ≡ true
unfolding limit_candidates
limit_candidates-observed_example = limit_candidates-observed crowded seen4 refl

select_probe_candidates-IsPlan_example : IsPlan (lan ∷ seen4 ∷ [])
unfolding select_probe_candidates normalize_probe_candidate to_json Endpoint.parse_text is_private
    lower_char legacy_type compressed
select_probe_candidates-IsPlan_example =
    select_probe_candidates-IsPlan (to_json seen4 ∷ to_json lan ∷ []) (text "8.8.8.8:51820")
      (str (text "LAN")) true (lan ∷ seen4 ∷ []) refl

select_probe_candidates-IsAdmitted_example : All (IsAdmitted false true) (seen4 ∷ [])
unfolding select_probe_candidates normalize_probe_candidate to_json Endpoint.parse_text is_private
    lower_char legacy_type compressed
select_probe_candidates-IsAdmitted_example =
    select_probe_candidates-IsAdmitted (to_json lan ∷ to_json seen4 ∷ []) (text "8.8.8.8:51820")
      (str (text "WAN")) true (seen4 ∷ []) refl

merge_candidates-bounded_example :
    (length (merge_candidates (seen4 ∷ lan ∷ seen4 ∷ [])) ≤ max_candidates)
    × IsSorted by_priority (merge_candidates (seen4 ∷ lan ∷ seen4 ∷ []))
    × Apart (same_key false) (merge_candidates (seen4 ∷ lan ∷ seen4 ∷ []))
merge_candidates-bounded_example = merge_candidates-bounded (seen4 ∷ lan ∷ seen4 ∷ [])

predicted_ports-IsNear_example :
    (length (predicted_ports 2) ≤ 4) × All (IsNear 2) (predicted_ports 2)
predicted_ports-IsNear_example = predicted_ports-IsNear 2 (omega arith) (omega arith)

parse_text-format_endpoint_example :
    Endpoint.parse_text (Endpoint.format_endpoint (v4 134744072) 51820)
    ≡ some (record {
      endpoint = Endpoint.format_endpoint (v4 134744072) 51820;
      address = v4 134744072;
      port = 51820;
    })
unfolding is_multicast is_unspecified
parse_text-format_endpoint_example =
    parse_text-format_endpoint 134744072 51820 (omega arith) (omega arith) (omega arith) refl
