-- ===== src/Portmap/Daemon/Reader.antt =====
-- What `mapped_candidate_from_state` of p2p/wireguard-p2p/linux/candidates.py reads of the file that
-- p2p/wireguard-p2p/linux/portmap_daemon.py keeps.
use wireguard_p2p.Base.{
  ℕ, ◌+◌, ◌≡◌, ◌<◌, ◌≤◌, refl, sym, subst, ◌∙◌, true, List, ◌∷◌, Option, none, some, arith, inl,
  inr, Option-cases,
}
use wireguard_p2p.Base.Lists.{All}
use wireguard_p2p.Base.Clock.{seconds}
use wireguard_p2p.Base.Text.{Text, text_eq, text_eq→eq}
use wireguard_p2p.Result.{ok, to_option}
use wireguard_p2p.Ip.{Address}
use wireguard_p2p.Ip.Read.{ip_address}
use wireguard_p2p.Ip.Print.{compressed}
use wireguard_p2p.Candidates.{Candidate, to_json}
use wireguard_p2p.Candidates.Normalize.{normalize_probe_candidate}
use wireguard_p2p.Candidates.Gather.{
  MappedState, only_mapped, or_none, mapped_of, mapped_candidate_from_state,
}
use wireguard_p2p.Portmap.Mapper.{PortMapper, current_candidate}
use wireguard_p2p.Portmap.Mapper.Held.{current_candidate-live}
use wireguard_p2p.Portmap.Daemon.{StateFile, Identity, Daemon, Poll, rounds, start}
use wireguard_p2p.Portmap.Daemon.Backed.{IsCurrent, IsBacked, IsCurrentDaemon}
use wireguard_p2p.Portmap.Daemon.Steady.{start-IsDone}
use wireguard_p2p.Portmap.Daemon.Rounds.{IsSteady}

pub mapped_of_lem :
    (port now : ℕ) (lan : Address) (f : StateFile) (r : Candidate)
    → mapped_of port lan f.mapped now ≡ some r
    → (text_eq f.mapped.internal_ip (compressed lan) ≡ true)
      × (f.mapped.internal_port ≡ port)
      × (now + seconds 15 < f.mapped.expires_at)
      × (only_mapped (or_none (to_option (normalize_probe_candidate f.mapped.candidate))) ≡ some r)
unfolding mapped_of
mapped_of_lem port now lan f r e = (ground arith, ground arith, ground arith, ground arith)

pub read_lem :
    (port now : ℕ) (lan_ip : Text) (lan : Address) (f : StateFile)
    → ip_address lan_ip ≡ some lan
    → mapped_candidate_from_state port lan_ip (some f.mapped) now ≡ mapped_of port lan f.mapped now
unfolding mapped_candidate_from_state
read_lem port now lan_ip lan f read = rw (mapped_candidate_from_state, read) refl

-- What the agent finds in the file.
abbrev pub mapped_file : Daemon → Option MappedState
mapped_file d = elim d.file [ none ↦ none | some f ↦ some f.mapped ]

file-some :
    (port now : ℕ) (lan_ip : Text) (d : Daemon) (r : Candidate)
    → mapped_candidate_from_state port lan_ip (mapped_file d) now ≡ some r
    → (f : StateFile) × (d.file ≡ some f)
unfolding mapped_candidate_from_state
file-some port now lan_ip d r e = elim (Option-cases d.file) [
  | inl gone ↦ let missing : none ≡ some r = rw (mapped_file, gone) at e in cc
  | inr found ↦ found
]

current-IsBacked :
    (gap : ℕ) (d : Daemon) (f : StateFile)
    → IsCurrentDaemon gap d
    → d.file ≡ some f
    → IsBacked gap d.mapper f
current-IsBacked gap d f current e =
    go d.last_written (subst (IsCurrent gap d.mapper d.last_written) e current)
  where
    go : (last : Option Identity) → IsCurrent gap d.mapper last (some f) → IsBacked gap d.mapper f
    go none h = absurd h
    go (some last) h = h.1

backed-read :
    (gap port now : ℕ) (lan_ip : Text) (lan : Address) (m : PortMapper) (f : StateFile)
    (r : Candidate)
    → gap ≤ seconds 15
    → ip_address lan_ip ≡ some lan
    → IsBacked gap m f
    → mapped_candidate_from_state port lan_ip (some f.mapped) now ≡ some r
    → (c : Candidate) × (current_candidate m (compressed lan, port) now ≡ some c)
      × (only_mapped (or_none (to_option (normalize_probe_candidate (to_json c)))) ≡ some r)
backed-read gap port now lan_ip lan m f r small read backed e =
    let (named, numbered, early, known) =
      mapped_of_lem port now lan f r (sym (read_lem port now lan_ip lan f read) ∙ e) in
    let same : f.mapped.internal_ip ≡ compressed lan =
      text_eq→eq f.mapped.internal_ip (compressed lan) named in
    (
      backed.candidate,
      current_candidate-live m (compressed lan, port) now backed.candidate backed.held
          (rw (← same, ← numbered) backed.keyed) (omega (arith, early, backed.lasts)),
      rw (← backed.told) known,
    )

-- Whatever file an earlier run left: after any number of rounds, at least one, the loop goes on, and
-- at any time at which the agent reads a mapped candidate from the file, the mapper itself has a
-- current candidate for the agent's address and port, and what the agent reads is that candidate as
-- `normalize_probe_candidate` takes it. Conditions: in each round the file can be written and removed,
-- the routes can be read, and the clock goes forward, at most `gap` from the first look to the file;
-- `gap` is at most 15 seconds.
pub mapped_candidate_from_state-current :
    (gap port now : ℕ) (lan_ip : Text) (lan : Address) (left : Option StateFile) (poll : Poll)
    (polls : List Poll) (r : Candidate)
    → gap ≤ seconds 15
    → All (IsSteady gap) (poll ∷ polls)
    → ip_address lan_ip ≡ some lan
    → mapped_candidate_from_state port lan_ip
        (mapped_file (rounds (poll ∷ polls) (start left)).1)
        now
      ≡ some r
    → ((rounds (poll ∷ polls) (start left)).0 ≡ ok tt)
      × (c : Candidate) × (current_candidate
            (rounds (poll ∷ polls) (start left)).1.mapper
            (compressed lan, port)
            now
          ≡ some c)
      × (only_mapped (or_none (to_option (normalize_probe_candidate (to_json c)))) ≡ some r)
mapped_candidate_from_state-current gap port now lan_ip lan left poll polls r small steady read e =
    let done = start-IsDone gap left poll polls steady in
    let d = (rounds (poll ∷ polls) (start left)).1 in
    let (f, found) = file-some port now lan_ip d r e in
    let (c, current, known) =
      backed-read gap port now lan_ip lan d.mapper f r small read
        (current-IsBacked gap d f done.1 found) (rw (mapped_file, found) at e) in
    (done.0, c, current, known)
