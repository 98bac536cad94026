-- ===== src/Portmap/Daemon/Steady.antt =====
-- That the rounds of p2p/wireguard-p2p/linux/portmap_daemon.py keep the file current.
use wireguard_p2p.Base.{
  ℕ, ◌≡◌, ◌<◌, refl, subst, not, ◌&&◌, List, [], ◌∷◌, Option, none, some, ◌⊎◌, inl, inr, Bool-cases,
  ◌==◌,
}
use wireguard_p2p.Base.Lists.{All}
use wireguard_p2p.Base.Text.{is_empty}
use wireguard_p2p.Result.{Result, ok, err, err-ok}
use wireguard_p2p.Ip.{Address, v4, v6, is_private}
use wireguard_p2p.Ip.Read.{ip_address}
use wireguard_p2p.Ip.Print.{compressed, show_v4}
use wireguard_p2p.Ip.Print.Roundtrip.{ip_address-show_v4}
use wireguard_p2p.Portmap.Daemon.{
  StateFile, Daemon, Poll, local_ipv4, listen_port, poll_once, then_rounds, rounds, start,
}
use wireguard_p2p.Portmap.Daemon.Backed.{IsReady, IsCurrent-IsReady, IsCurrentDaemon}
use wireguard_p2p.Portmap.Daemon.Rounds.{IsHost, IsSteady, IsDone, withdrawn, poll_key-IsDone}

no_text : (local_ipv4 none ≡ []) × ((a : ℕ) → local_ipv4 (some (v6 a)) ≡ [])
unfolding local_ipv4
no_text = (refl, λ a. refl)

private_text : (a : ℕ) → (local_ipv4 (some (v4 a)) ≡ []) ⊎ (local_ipv4 (some (v4 a)) ≡ show_v4 a)
unfolding local_ipv4 compressed
private_text a = elim (Bool-cases (is_private (v4 a))) [
  | inl e ↦ inr (rw e refl)
  | inr e ↦ inl (rw e refl)
]

module _ (gap : ℕ) (poll : Poll) (steady : IsSteady gap poll) where
  -- The two branches of a round.
  by_key :
      (d : Daemon) (local : Address)
      → ip_address (local_ipv4 poll.local) ≡ some local
      → compressed local ≡ local_ipv4 poll.local
      → IsReady gap d.mapper d.last_written d.file
      → IsDone gap (poll_once poll d)
  unfolding poll_once
  by_key d local read shown ready =
      elim (Bool-cases
        (not (is_empty (local_ipv4 poll.local)) && not (listen_port poll.port_text == 0))) [
          | inl e ↦ rw e (
              poll_key-IsDone gap poll (local_ipv4 poll.local, listen_port poll.port_text) steady d
                local read shown ready)
          | inr e ↦ rw e (withdrawn gap poll ([], 0) steady d)
        ]

  no_key : (d : Daemon) → local_ipv4 poll.local ≡ [] → IsDone gap (poll_once poll d)
  unfolding poll_once
  no_key d e = rw e (withdrawn gap poll ([], 0) steady d)

pub poll_once-IsDone :
    (gap : ℕ) (poll : Poll) (d : Daemon) (local : Option Address)
    → IsSteady gap poll
    → poll.local ≡ local
    → IsReady gap d.mapper d.last_written d.file
    → IsDone gap (poll_once poll d)
poll_once-IsDone gap poll d none steady e ready = no_key gap poll steady d (rw e no_text.0)
poll_once-IsDone gap poll d (some (v6 a)) steady e ready =
    no_key gap poll steady d (rw e (no_text.1 a))
poll_once-IsDone gap poll d (some (v4 a)) steady e ready = elim (private_text a) [
  | inl none_left ↦ no_key gap poll steady d (rw e none_left)
  | inr shown ↦
      let small : a < 4294967296 = subst IsHost e steady.host in
      by_key gap poll steady d (v4 a) (rw (e, shown) (ip_address-show_v4 a small))
        (rw (e, shown) (unfold compressed in refl)) ready
]

pub then_rounds_lem :
    (r : Result (Unit {0}) × Daemon) (next : Daemon → Result (Unit {0}) × Daemon)
    → r.0 ≡ ok tt
    → then_rounds r next ≡ next r.1
then_rounds_lem (ok done, d) next e = refl
then_rounds_lem (err problem, d) next e = absurd (err-ok e)

pub rounds-IsDone :
    (gap : ℕ) (polls : List Poll) (d : Daemon)
    → All (IsSteady gap) polls
    → IsCurrentDaemon gap d
    → IsDone gap (rounds polls d)
unfolding rounds
rounds-IsDone gap [] d steady current = (refl, current)
rounds-IsDone gap (p ∷ ps) d steady current =
    let done =
      poll_once-IsDone gap p d p.local steady.0 refl
        (IsCurrent-IsReady gap d.mapper d.last_written d.file current) in
    rw (then_rounds_lem (poll_once p d) (rounds ps) done.0)
      (rounds-IsDone gap ps (poll_once p d).1 steady.1 done.1)

-- The first round starts from a file that may lie.
pub start-IsDone :
    (gap : ℕ) (left : Option StateFile) (poll : Poll) (polls : List Poll)
    → All (IsSteady gap) (poll ∷ polls)
    → IsDone gap (rounds (poll ∷ polls) (start left))
unfolding rounds start
start-IsDone gap left poll polls steady =
    let done = poll_once-IsDone gap poll (start left) poll.local steady.0 refl tt in
    rw (then_rounds_lem (poll_once poll (start left)) (rounds polls) done.0)
      (rounds-IsDone gap polls (poll_once poll (start left)).1 steady.1 done.1)
