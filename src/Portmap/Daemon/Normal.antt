-- ===== src/Portmap/Daemon/Normal.antt =====
-- How the agent reads the candidate that p2p/wireguard-p2p/linux/portmap_daemon.py wrote.
use wireguard_p2p.Base.{
  ℕ, ◌≡◌, ◌<◌, ◌≤◌, refl, sym, subst, ◌∙◌, true, false, some, arith, inl, inr, Bool-cases, ◌==◌,
}
use wireguard_p2p.Base.Text.{text_eq}
use wireguard_p2p.Result.{ok}
use wireguard_p2p.Json.{lookup, get, truthy, to_int}
use wireguard_p2p.Ip.{v4, is_global, is_private, in_net4, is_multicast, is_unspecified}
use wireguard_p2p.Ip.Print.{show_v4, compressed}
use wireguard_p2p.Candidates.{to_json, read_type}
use wireguard_p2p.Candidates.Endpoint.{parse_endpoint, format_endpoint}
use wireguard_p2p.Candidates.Endpoint.Roundtrip.{parse_text-format_endpoint}
use wireguard_p2p.Candidates.Normalize.{
  normalize_probe_candidate, fits, build_typed, build, priority_field,
}
use wireguard_p2p.Portmap.Mapper.{mapped_candidate}

zero_not_global : is_global (v4 0) ≡ false
unfolding is_global is_private in_net4
zero_not_global = refl

global-specified : (a : ℕ) → is_global (v4 a) ≡ true → is_unspecified (v4 a) ≡ false
unfolding is_unspecified
global-specified a glob = elim (Bool-cases (a == 0)) [
  | inr e ↦ e
  | inl e ↦
      let zero_address : a ≡ 0 = ground arith in
      let global_zero : is_global (v4 0) ≡ true =
        subst (λ n. is_global (v4 n) ≡ true) zero_address glob in
      let both : true ≡ false = sym global_zero ∙ zero_not_global in cc
]

pub normalize_probe_candidate-mapped :
    (a port lifetime : ℕ)
    → a < 4294967296
    → is_global (v4 a) ≡ true
    → is_multicast (v4 a) ≡ false
    → 1 ≤ port
    → port ≤ 65535
    → normalize_probe_candidate (
        to_json (
          mapped_candidate
            (record { external_ip = show_v4 a; external_port = port; lifetime = lifetime })))
      ≡ ok (
          some (
            mapped_candidate
              (record { external_ip = show_v4 a; external_port = port; lifetime = lifetime })))
unfolding normalize_probe_candidate to_json read_type build_typed build mapped_candidate text_eq get
    lookup truthy to_int fits priority_field parse_endpoint format_endpoint compressed
normalize_probe_candidate-mapped a port lifetime small glob single low high =
    let read =
      parse_text-format_endpoint a port small low high
        (rw (global-specified a glob, single) refl) in
    rw read refl
