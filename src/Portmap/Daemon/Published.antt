-- ===== src/Portmap/Daemon/Published.antt =====
-- From the router to the agent: a mapping that PCP grants, through
-- p2p/wireguard-p2p/linux/portmap.py and portmap_daemon.py to p2p/wireguard-p2p/linux/candidates.py.
use wireguard_p2p.Base.{
  ℕ, ◌+◌, ◌-◌, ◌/◌, ◌≡◌, ◌<◌, ◌≤◌, refl, ◌∙◌, true, false, [], ◌∷◌, ◌++◌, Option, some, arith, inl,
  inr, Bool-cases, leb, ltb, ◌==◌,
}
use wireguard_p2p.Base.Lists.{length}
use wireguard_p2p.Base.Clock.{seconds}
use wireguard_p2p.Base.Text.{Text, is_empty, text_eq, text_eq_refl}
use wireguard_p2p.Result.{ok}
use wireguard_p2p.Ip.{v4, is_private, is_global, is_multicast}
use wireguard_p2p.Ip.Print.{compressed, show_v4}
use wireguard_p2p.Ip.Print.Roundtrip.{ip_address-show_v4}
use wireguard_p2p.Candidates.Gather.{mapped_of, mapped_candidate_from_state}
use wireguard_p2p.Portmap.{Mapping, default_lifetime}
use wireguard_p2p.Portmap.Gateway.{default_gateway_ipv4}
use wireguard_p2p.Portmap.Pcp.Answered.{Grant, pcp_router, try_pcp-answered}
use wireguard_p2p.Portmap.Mapper.{
  PortMapper, new_port_mapper, should_refresh, refresh, succeeded, mapped_candidate, status, Method,
  method_name, try_method,
}
use wireguard_p2p.Portmap.Mapper.Outcome.{refresh-first}
use wireguard_p2p.Portmap.Daemon.{
  StateFile, state_payload, Poll, local_ipv4, listen_port, publish, after_refresh, poll_key,
  poll_once, start,
}
use wireguard_p2p.Portmap.Daemon.Reader.{mapped_file, read_lem}
use wireguard_p2p.Portmap.Daemon.Normal.{normalize_probe_candidate-mapped}

abbrev pub mapping_of : Grant → Mapping
mapping_of g = record {
  external_ip = show_v4 g.address;
  external_port = g.port;
  lifetime = g.lifetime;
}

-- What a public mapping is: an address that is neither private nor multicast, and a valid port.
pub record IsPublicGrant (g : Grant) : Type 0 where
  pub small : g.address < 4294967296
  pub global : is_global (v4 g.address) ≡ true
  pub single : is_multicast (v4 g.address) ≡ false
  pub low : 1 ≤ g.port
  pub high : g.port ≤ 65535
  pub lasts : 1 ≤ g.lifetime

-- A host with a private address, a WireGuard port, a route to a gateway that answers PCP with the
-- grant, a file that can be written, and a clock that goes forward.
pub record IsAnswered (poll : Poll) (l port : ℕ) (g : Grant) : Type 0 where
  pub local : poll.local ≡ some (v4 l)
  pub small : l < 4294967296
  pub private : is_private (v4 l) ≡ true
  pub listens : listen_port poll.port_text ≡ port
  pub low : 1 ≤ port
  pub high : port ≤ 65535
  pub gateway : Text
  pub known : is_empty gateway ≡ false
  pub routes : default_gateway_ipv4 poll.network.routes ≡ ok gateway
  pub result : ℕ
  pub router : poll.network.pcp ≡ pcp_router result g
  pub nonce : length poll.network.nonce ≡ 12
  pub writes : poll.writes ≡ true
  pub recorded : poll.network.recorded ≤ poll.reported
  pub reported : poll.reported ≤ poll.written

nonempty_append : (s : Text) (c : ℕ) (t : Text) → is_empty (s ++ c ∷ t) ≡ false
nonempty_append [] c t = refl
nonempty_append (b ∷ s) c t = refl

module _ (poll : Poll) (l port : ℕ) (g : Grant) (a : IsAnswered poll l port g)
    (p : IsPublicGrant g) where
  granted : try_method poll.network a.gateway (show_v4 l, port) Method.pcp ≡ ok (mapping_of g)
  unfolding try_method
  granted = rw a.router (
      try_pcp-answered a.result l port default_lifetime g poll.network.nonce a.gateway (show_v4 l)
        a.nonce (ip_address-show_v4 l a.small) (omega arith) (omega (arith, a.high)) p.small
        p.global p.low)

  refreshed :
      (m : PortMapper)
      → refresh poll.network port (show_v4 l) m ≡ (
        ok (some (mapped_candidate (mapping_of g))),
        succeeded (show_v4 l, port) (method_name Method.pcp) (mapping_of g) poll.network.recorded,
      )
  refreshed m =
      refresh-first poll.network port (show_v4 l) a.gateway (v4 l) m (mapping_of g)
        (ground (arith, a.low, a.high)) (ip_address-show_v4 l a.small) (unfold compressed in refl)
        (rw a.private refl) a.routes a.known granted (ground (arith, p.lasts))

  -- The mapper and the file after the round.
  abbrev mapper_then : PortMapper
  mapper_then =
      succeeded (show_v4 l, port) (method_name Method.pcp) (mapping_of g) poll.network.recorded

  abbrev file_then : StateFile
  file_then =
      state_payload (mapped_candidate (mapping_of g)) (show_v4 l) port
        (status mapper_then poll.reported) poll.written

  publish-file :
      (left : Option StateFile)
      → (publish poll
          (show_v4 l, port)
          (mapped_candidate (mapping_of g))
          true
          (record (start left) { mapper = mapper_then })).1.file
        ≡ some file_then
  unfolding publish
  publish-file left = rw a.writes refl

  poll_key-file :
      (left : Option StateFile)
      → (poll_key poll (show_v4 l, port) (start left)).1.file ≡ some file_then
  unfolding poll_key should_refresh start new_port_mapper
  poll_key-file left =
      let now_due : leb 0 poll.tested ≡ true = ground arith in
      rw (now_due, refreshed new_port_mapper, after_refresh) (publish-file left)

  poll_once-file : (left : Option StateFile) → (poll_once poll (start left)).1.file ≡ some file_then
  unfolding poll_once
  poll_once-file left =
      let address : local_ipv4 poll.local ≡ show_v4 l =
        unfold local_ipv4 compressed in rw (a.local, a.private) refl in
      let there : is_empty (show_v4 l) ≡ false = unfold show_v4 in nonempty_append _ _ _ in
      let used : (port == 0) ≡ false = ground (arith, a.low) in
      rw (address, a.listens, there, used) (poll_key-file left)

  abbrev lease_end : ℕ
  lease_end = poll.network.recorded + seconds g.lifetime

  time_left : (status mapper_then poll.reported).expires_in ≡ (lease_end - poll.reported) / 1000000
  unfolding status succeeded mapped_candidate
  time_left =
      let shown : is_empty (mapped_candidate (mapping_of g)).endpoint ≡ false =
        unfold mapped_candidate in nonempty_append _ _ _ in
      elim (Bool-cases (ltb poll.reported lease_end)) [
        | inl alive ↦ rw (alive, shown) refl
        | inr over ↦ rw over (ground arith)
      ]

  file-lasts :
      (now : ℕ)
      → now + seconds 16 ≤ lease_end
      → leb file_then.mapped.expires_at (now + seconds 15) ≡ false
  unfolding state_payload
  file-lasts now early = ground (arith, time_left, a.reported)

  read_then :
      (now : ℕ)
      → now + seconds 16 ≤ lease_end
      → mapped_of port (v4 l) file_then.mapped now ≡ some (mapped_candidate (mapping_of g))
  unfolding mapped_of state_payload compressed
  read_then now early =
      let same : text_eq (show_v4 l) (show_v4 l) ≡ true = text_eq_refl (show_v4 l) in
      let matching : (port == port) ≡ true = ground arith in
      let lasting : leb file_then.mapped.expires_at (now + seconds 15) ≡ false =
        file-lasts now early in
      let normal =
        normalize_probe_candidate-mapped g.address g.port g.lifetime p.small p.global p.single p.low
          p.high in
      rw (same, matching, lasting, normal) (unfold mapped_candidate in refl)

-- From the router to the agent: after one round in which the router grants a mapping by PCP, the
-- agent reads from the file exactly the candidate of that mapping, until 16 seconds before it ends,
-- whatever file was there before. Conditions: the host has a private IPv4 address, a WireGuard port,
-- a route to a gateway that answers in the layout of RFC 6887, a nonce of twelve bytes, a file that
-- can be written, and a clock that goes forward; the mapping is for a public unicast address, a port
-- from 1 to 65535 and at least a second.
pub poll_once-published :
    (poll : Poll) (l port now : ℕ) (g : Grant) (left : Option StateFile)
    → IsAnswered poll l port g
    → IsPublicGrant g
    → now + seconds 16 ≤ poll.network.recorded + seconds g.lifetime
    → mapped_candidate_from_state port (show_v4 l) (mapped_file (poll_once poll (start left)).1) now
      ≡ some (mapped_candidate (mapping_of g))
poll_once-published poll l port now g left a p early =
    rw (mapped_file, poll_once-file poll l port g a p left)
      (read_lem port now (show_v4 l) (v4 l) (file_then poll l port g a p)
          (ip_address-show_v4 l a.small)
        ∙ read_then poll l port g a p now early)
