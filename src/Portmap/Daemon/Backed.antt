-- ===== src/Portmap/Daemon/Backed.antt =====
-- The state file of p2p/wireguard-p2p/linux/portmap_daemon.py and the mapping that stands behind it.
use wireguard_p2p.Base.{
  ℕ, ◌+◌, ◌-◌, ◌/◌, ◌≡◌, ◌≤◌, refl, Bool, true, false, not, ◌||◌, Option, none, some, arith, ◌⊎◌,
  inl, inr, Bool-cases, is_some,
}
use wireguard_p2p.Base.Clock.{seconds}
use wireguard_p2p.Base.Text.{is_empty}
use wireguard_p2p.Result.{ok}
use wireguard_p2p.Candidates.{Candidate, to_json}
use wireguard_p2p.Portmap.Mapper.{Key, PortMapper, holds_key, status, endpoint_now}
use wireguard_p2p.Portmap.Daemon.{
  StateFile, state_payload, Identity, identity_of, Daemon, Poll, clear_state, withdraw,
  same_as_last, publish,
}

abbrev pub key_of : StateFile → Key
key_of f = (f.mapped.internal_ip, f.mapped.internal_port)

-- The mapper holds the candidate of the file for the key of the file, at most `gap` microseconds less
-- long than the file says.
pub record IsBacked (gap : ℕ) (m : PortMapper) (f : StateFile) : Type 0 where
  pub candidate : Candidate
  pub held : m.candidate ≡ some candidate
  pub told : f.mapped.candidate ≡ to_json candidate
  pub keyed : holds_key m (key_of f) ≡ true
  pub lasts : f.mapped.expires_at ≤ m.expires_at + gap

abbrev pub IsKept : ℕ → PortMapper → Identity → StateFile → Type 0
IsKept gap m last f = (last.key ≡ key_of f) × IsBacked gap m f

-- A file that is there is the one written last, and the mapping stands behind it.
abbrev pub IsCurrent : ℕ → PortMapper → Option Identity → Option StateFile → Type 0
IsCurrent gap m last none = Unit
IsCurrent gap m none (some f) = ⊥
IsCurrent gap m (some last) (some f) = IsKept gap m last f

-- The same, where a file from before the start may lie about.
abbrev pub IsReady : ℕ → PortMapper → Option Identity → Option StateFile → Type 0
IsReady gap m none file = Unit
IsReady gap m (some last) none = Unit
IsReady gap m (some last) (some f) = IsKept gap m last f

pub IsCurrent-IsReady :
    (gap : ℕ) (m : PortMapper) (last : Option Identity) (file : Option StateFile)
    → IsCurrent gap m last file
    → IsReady gap m last file
IsCurrent-IsReady gap m none file h = tt
IsCurrent-IsReady gap m (some last) none h = tt
IsCurrent-IsReady gap m (some last) (some f) h = h

abbrev pub IsCurrentDaemon : ℕ → Daemon → Type 0
IsCurrentDaemon gap d = IsCurrent gap d.mapper d.last_written d.file

pub withdraw-IsCurrent :
    (gap : ℕ) (poll : Poll) (d : Daemon) → poll.unlinks ≡ true → (withdraw poll d).file ≡ none
unfolding withdraw clear_state
withdraw-IsCurrent gap poll d unlinks = ground arith

-- The clock between `status` and the file, and the end of the mapping.
pub record IsPrompt (gap : ℕ) (poll : Poll) (m : PortMapper) : Type 0 where
  pub ordered : poll.reported ≤ poll.written
  pub quick : poll.written ≤ poll.reported + gap
  pub alive : poll.written ≤ m.expires_at + gap

status_lem :
    (m : PortMapper) (now : ℕ)
    → ((status m now).expires_in ≡ 0) ⊎ ((status m now).expires_in ≡ (m.expires_at - now) / 1000000)
unfolding status
status_lem m now = elim (Bool-cases (is_empty (endpoint_now m now))) [
  | inl empty ↦ inl (rw empty refl)
  | inr shown ↦ inr (rw shown refl)
]

written-lasts :
    (gap : ℕ) (poll : Poll) (m : PortMapper)
    → IsPrompt gap poll m
    → poll.written + seconds (status m poll.reported).expires_in ≤ m.expires_at + gap
written-lasts gap poll m prompt = elim (status_lem m poll.reported) [
  | inl over ↦ omega (arith, over, prompt.alive)
  | inr left ↦ omega (arith, left, prompt.alive, prompt.quick, prompt.ordered)
]

written-IsBacked :
    (gap : ℕ) (poll : Poll) (m : PortMapper) (key : Key) (c : Candidate)
    → m.candidate ≡ some c
    → holds_key m key ≡ true
    → IsPrompt gap poll m
    → IsBacked gap m (state_payload c key.0 key.1 (status m poll.reported) poll.written)
unfolding state_payload
written-IsBacked gap poll m key c held keyed prompt = record {
  candidate = c;
  held = held;
  told = refl;
  keyed = keyed;
  lasts = written-lasts gap poll m prompt;
}

-- Where `publish` leaves the file alone, it must have been backed already.
abbrev pub Left : ℕ → Bool → Daemon → Type 0
Left gap true d = Unit
Left gap false d = IsReady gap d.mapper d.last_written d.file

same-some :
    (gap : ℕ) (m : PortMapper) (last : Option Identity) (file : Option StateFile)
    (identity : Identity)
    → same_as_last last identity ≡ true
    → IsReady gap m last file
    → IsCurrent gap m last file
unfolding same_as_last
same-some gap m none file identity same ready = cc
same-some gap m (some last) none identity same ready = tt
same-some gap m (some last) (some f) identity same ready = ready

pub publish-IsCurrent :
    (gap : ℕ) (poll : Poll) (key : Key) (c : Candidate) (refreshed : Bool) (d : Daemon)
    → poll.writes ≡ true
    → d.mapper.candidate ≡ some c
    → holds_key d.mapper key ≡ true
    → IsPrompt gap poll d.mapper
    → Left gap refreshed d
    → ((publish poll key c refreshed d).0 ≡ ok tt)
      × IsCurrentDaemon gap (publish poll key c refreshed d).1
unfolding publish
publish-IsCurrent gap poll key c true d writes held keyed prompt left =
    rw writes (refl, (refl, written-IsBacked gap poll d.mapper key c held keyed prompt))
publish-IsCurrent gap poll key c false d writes held keyed prompt left =
    let identity = identity_of key (status d.mapper poll.reported) c in
    elim (Bool-cases (not (same_as_last d.last_written identity) || not (is_some d.file))) [
      | inl stale ↦
          rw (stale, writes)
            (refl, (refl, written-IsBacked gap poll d.mapper key c held keyed prompt))
      | inr fresh ↦
          rw fresh (refl, same-some gap d.mapper d.last_written d.file identity (ground arith) left)
    ]
