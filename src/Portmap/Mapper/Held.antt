-- ===== src/Portmap/Mapper/Held.antt =====
-- What stays of a mapping in `PortMapper` of p2p/wireguard-p2p/linux/portmap.py.
use wireguard_p2p.Base.{ℕ, ◌+◌, ◌≡◌, ◌<◌, refl, true, Option, none, some, arith}
use wireguard_p2p.Base.Clock.{seconds}
use wireguard_p2p.Base.Text.{Text}
use wireguard_p2p.Candidates.{Candidate}
use wireguard_p2p.Portmap.{Mapping}
use wireguard_p2p.Portmap.Mapper.{
  Key, LastError, PortMapper, key_eq, held_by, holds_key, current_candidate, mapped_candidate,
  succeeded, record_failure, forget_other,
}
use wireguard_p2p.Portmap.Mapper.History.{key_eq→eq, key_eq_refl}

pub current_candidate-some :
    (m : PortMapper) (key : Key) (now : ℕ) (c : Candidate)
    → current_candidate m key now ≡ some c
    → (m.candidate ≡ some c) × (holds_key m key ≡ true) × (now < m.expires_at)
unfolding current_candidate
current_candidate-some m key now c h = (ground arith, ground arith, ground arith)

pub current_candidate-live :
    (m : PortMapper) (key : Key) (now : ℕ) (c : Candidate)
    → m.candidate ≡ some c
    → holds_key m key ≡ true
    → now < m.expires_at
    → current_candidate m key now ≡ some c
unfolding current_candidate
current_candidate-live m key now c held keyed alive = ground arith

-- A mapper holds one key.
held_same :
    (o : Option Key) (a b : Key) → held_by o a ≡ true → held_by o b ≡ true → key_eq a b ≡ true
unfolding held_by
held_same none a b ha hb = cc
held_same (some held) a b ha hb =
    let same : key_eq held b ≡ true = hb in rw (key_eq→eq held a ha) at same

pub record_failure-holds :
    (m : PortMapper) (key k : Key) (problem : LastError) (at : ℕ)
    → holds_key m key ≡ true
    → holds_key m k ≡ true
    → holds_key (record_failure key problem at m) k ≡ true
unfolding record_failure holds_key
record_failure-holds m key k problem at h hk = held_same m.internal key k h hk

pub record_failure-keeps :
    (m : PortMapper) (key : Key) (problem : LastError) (at : ℕ)
    → holds_key m key ≡ true
    → ((record_failure key problem at m).candidate ≡ m.candidate)
      × ((record_failure key problem at m).expires_at ≡ m.expires_at)
unfolding record_failure forget_other
record_failure-keeps m key problem at h = rw h (refl, refl)

pub succeeded-holds :
    (key : Key) (method : Text) (mapping : Mapping) (at : ℕ)
    → ((succeeded key method mapping at).candidate ≡ some (mapped_candidate mapping))
      × (holds_key (succeeded key method mapping at) key ≡ true)
      × ((succeeded key method mapping at).expires_at ≡ at + seconds mapping.lifetime)
unfolding succeeded holds_key
succeeded-holds key method mapping at = (refl, key_eq_refl key, refl)
