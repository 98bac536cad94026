-- ===== src/Portmap/Daemon/Rounds.antt =====
-- The loop of p2p/wireguard-p2p/linux/portmap_daemon.py, round after round.
use wireguard_p2p.Base.{
  ℕ, ◌+◌, ◌≡◌, ◌<◌, ◌≤◌, refl, ◌∙◌, Bool, true, false, Option, none, some, arith, inl, inr,
  Bool-cases, Option-cases, ltb→lt,
}
use wireguard_p2p.Base.Text.{Text}
use wireguard_p2p.Result.{Result, ok}
use wireguard_p2p.Ip.{Address, v4, v6}
use wireguard_p2p.Ip.Read.{ip_address}
use wireguard_p2p.Ip.Print.{compressed}
use wireguard_p2p.Candidates.{Candidate}
use wireguard_p2p.Portmap.Gateway.{default_gateway_ipv4}
use wireguard_p2p.Portmap.Mapper.{
  Key, PortMapper, holds_key, mapped_candidate, current_candidate, should_refresh, refresh,
  succeeded, record_failure, LastError, Refreshed,
}
use wireguard_p2p.Portmap.Mapper.Outcome.{Outcome, left_alone, failed, succeeds, refresh-Outcome}
use wireguard_p2p.Portmap.Daemon.{
  StateFile, Identity, Daemon, Poll, withdraw, publish, publish_or_withdraw, after_refresh,
  poll_key,
}
use wireguard_p2p.Portmap.Mapper.Held.{
  current_candidate-some, record_failure-holds, record_failure-keeps, succeeded-holds,
}
use wireguard_p2p.Portmap.Daemon.Backed.{
  key_of, IsReady, IsCurrentDaemon, withdraw-IsCurrent, IsPrompt, Left, publish-IsCurrent,
}

abbrev pub IsHost : Option Address → Type 0
IsHost none = Unit
IsHost (some (v4 a)) = a < 4294967296
IsHost (some (v6 a)) = Unit

-- A round in which the host does its part: the file can be written and removed, the table of routes
-- can be read, and the clock runs forward and less than `gap` from the first look to the file.
pub record IsSteady (gap : ℕ) (poll : Poll) : Type 0 where
  pub writes : poll.writes ≡ true
  pub unlinks : poll.unlinks ≡ true
  pub host : IsHost poll.local
  pub gateway : Text
  pub routes : default_gateway_ipv4 poll.network.routes ≡ ok gateway
  pub asked : poll.asked ≤ poll.network.recorded
  pub recorded : poll.network.recorded ≤ poll.reported
  pub reported : poll.reported ≤ poll.written
  pub quick : poll.written ≤ poll.asked + gap

-- A round that ended without an error, with a current file.
abbrev pub IsDone : ℕ → Result (Unit {0}) × Daemon → Type 0
IsDone gap r = (r.0 ≡ ok tt) × IsCurrentDaemon gap r.1

module _ (gap : ℕ) (poll : Poll) (key : Key) (steady : IsSteady gap poll) where
  pub withdrawn : (d : Daemon) → IsDone gap (ok tt, withdraw poll d)
  withdrawn d = (refl, rw (withdraw-IsCurrent gap poll d steady.unlinks) tt)

  prompt : (m : PortMapper) → poll.asked < m.expires_at → IsPrompt gap poll m
  prompt m alive = record {
    ordered = steady.reported;
    quick = omega (arith, steady.quick, steady.asked, steady.recorded);
    alive = omega (arith, steady.quick);
  }

  published :
      (c : Candidate) (refreshed : Bool) (d : Daemon)
      → d.mapper.candidate ≡ some c
      → holds_key d.mapper key ≡ true
      → poll.asked < d.mapper.expires_at
      → Left gap refreshed d
      → IsDone gap (publish poll key c refreshed d)
  published c refreshed d held keyed alive left =
      publish-IsCurrent gap poll key c refreshed d steady.writes held keyed (prompt d.mapper alive)
        left

  -- A failure for the same key keeps what stood behind the file.
  record_failure-IsReady :
      (m : PortMapper) (last : Option Identity) (file : Option StateFile) (problem : LastError)
      (at : ℕ)
      → holds_key m key ≡ true
      → IsReady gap m last file
      → IsReady gap (record_failure key problem at m) last file
  record_failure-IsReady m none file problem at keyed ready = tt
  record_failure-IsReady m (some last) none problem at keyed ready = tt
  record_failure-IsReady m (some last) (some f) problem at keyed (same, backed) =
      let kept = record_failure-keeps m key problem at keyed in
      (
        same,
        record {
          candidate = backed.candidate;
          held = kept.0 ∙ backed.held;
          told = backed.told;
          keyed = record_failure-holds m key (key_of f) problem at keyed backed.keyed;
          lasts = rw kept.1 backed.lasts;
        },
      )

  -- Without a renewal, the current candidate of the mapper is published or withdrawn.
  unrenewed :
      (d : Daemon)
      → IsReady gap d.mapper d.last_written d.file
      → IsDone gap
          (publish_or_withdraw poll key (current_candidate d.mapper key poll.asked) false d)
  unfolding publish_or_withdraw
  unrenewed d ready = elim (Option-cases (current_candidate d.mapper key poll.asked)) [
    | inl gone ↦ rw gone (withdrawn d)
    | inr (c, is) ↦
        let (held, keyed, alive) = current_candidate-some d.mapper key poll.asked c is in
        rw is (published c false d held keyed alive ready)
  ]

  -- After a failure to renew, what was current before.
  after_failure :
      (d : Daemon) (problem : LastError)
      → IsReady gap d.mapper d.last_written d.file
      → IsDone gap (
          publish_or_withdraw poll key
            (current_candidate d.mapper key poll.asked)
            false
            (record d { mapper = record_failure key problem poll.network.recorded d.mapper }))
  unfolding publish_or_withdraw
  after_failure d problem ready = elim (Option-cases (current_candidate d.mapper key poll.asked)) [
    | inl gone ↦ rw gone (withdrawn _)
    | inr (c, is) ↦
        let (held, keyed, alive) = current_candidate-some d.mapper key poll.asked c is in
        let kept = record_failure-keeps d.mapper key problem poll.network.recorded keyed in
        rw is (
          published c false
            (record d { mapper = record_failure key problem poll.network.recorded d.mapper })
            (kept.0 ∙ held)
            (record_failure-holds d.mapper key key problem poll.network.recorded keyed keyed)
            (rw kept.1 alive)
            (record_failure-IsReady d.mapper d.last_written d.file problem poll.network.recorded
              keyed ready))
  ]

  renewed :
      (d : Daemon) (r : Refreshed)
      → Outcome poll.network key d.mapper r
      → IsReady gap d.mapper d.last_written d.file
      → IsDone gap (
          after_refresh poll key
            (current_candidate d.mapper key poll.asked)
            r.0
            (record d { mapper = r.1 }))
  unfolding after_refresh
  renewed d r (left_alone e) ready = rw e (unrenewed d ready)
  renewed d r (failed problem e) ready = rw e (after_failure d problem ready)
  renewed d r (succeeds method mapping long e) ready =
      let (held, keyed, ends) = succeeded-holds key method mapping poll.network.recorded in
      rw e (
        published (mapped_candidate mapping) true
          (record d { mapper = succeeded key method mapping poll.network.recorded }) held keyed
          (omega (arith, ends, steady.asked, ltb→lt 0 mapping.lifetime long)) tt)

  pub poll_key-IsDone :
      (d : Daemon) (local : Address)
      → ip_address key.0 ≡ some local
      → compressed local ≡ key.0
      → IsReady gap d.mapper d.last_written d.file
      → IsDone gap (poll_key poll key d)
  unfolding poll_key
  poll_key-IsDone d local read shown ready =
      elim (Bool-cases (should_refresh d.mapper key poll.tested)) [
        | inr later ↦ rw later (unrenewed d ready)
        | inl due ↦ rw due (
            renewed d (refresh poll.network key.1 key.0 d.mapper)
              (refresh-Outcome poll.network key.1 key.0 steady.gateway local d.mapper read shown
                steady.routes)
              ready)
      ]
