-- ===== src/Portmap/Mapper/Renewal.antt =====
-- When `PortMapper` of p2p/wireguard-p2p/linux/portmap.py renews a mapping.
use wireguard_p2p.Base.{
  ℕ, ◌+◌, ◌-◌, ◌*◌, ◌/◌, ◌≡◌, ◌<◌, ◌≤◌, refl, true, List, [], ◌∷◌, some, arith, inl, inr,
  Bool-cases, max, leb,
}
use wireguard_p2p.Base.Lists.{any, first}
use wireguard_p2p.Base.Clock.{seconds}
use wireguard_p2p.Base.Text.{Text}
use wireguard_p2p.Portmap.{Mapping}
use wireguard_p2p.Portmap.Mapper.{
  Key, PortMapper, holds_key, current_candidate, should_refresh, succeeded, mapped_candidate,
  refresh_after,
}
use wireguard_p2p.Portmap.Mapper.History.{key_eq_refl}

-- The next attempt lies at least a second after the grant, never behind the end of the lease, and at
-- least 15 seconds before its end where the lease is longer than that.
pub refresh_after-bounds :
    (lifetime : ℕ)
    → 1 ≤ lifetime
    → (seconds 1 ≤ refresh_after lifetime)
      × (refresh_after lifetime ≤ seconds lifetime)
      × (refresh_after lifetime ≤ max (seconds 1) (seconds (lifetime - 15)))
refresh_after-bounds lifetime h = (ground arith, ground arith, ground arith)

refresh_after_long :
    (lifetime : ℕ) → 45 ≤ lifetime → refresh_after lifetime ≡ seconds lifetime * 2 / 3
refresh_after_long lifetime h = ground arith

should_refresh_lem :
    (m : PortMapper) (key : Key) (t : ℕ) → should_refresh m key t ≡ leb m.next_attempt t
unfolding should_refresh
should_refresh_lem m key t = ground arith

-- Times of the rounds, each at most 60 seconds after the one before.
abbrev pub IsPaced : ℕ → List ℕ → Type 0
IsPaced before [] = Unit
IsPaced before (t ∷ ts) = (t ≤ before + seconds 60) × IsPaced t ts

first_due :
    (m : PortMapper) (key : Key) (before : ℕ) (times : List ℕ)
    → before < m.next_attempt
    → IsPaced before times
    → any (should_refresh m key) times ≡ true
    → (t : ℕ) × (first (should_refresh m key) times ≡ some t)
      × (m.next_attempt ≤ t)
      × (t < m.next_attempt + seconds 60)
unfolding any first
first_due m key before [] early paced due = cc
first_due m key before (t ∷ ts) early paced due = elim (Bool-cases (should_refresh m key t)) [
  | inl now_due ↦
      (t, rw now_due refl, ground (arith, should_refresh_lem m key t), omega (arith, paced.0))
  | inr later ↦
      let (u, found, reached, soon) =
        first_due m key t ts (ground (arith, should_refresh_lem m key t)) paced.1
          (rw later at due) in
      (u, rw later found, reached, soon)
]

-- The first round at which `should_refresh` asks for a renewal comes while the mapper still gives
-- the mapping as its current candidate, and more than 15 seconds before it ends. Conditions: the mapping was granted for at
-- least 225 seconds, the rounds are at most 60 seconds apart from the grant on, and one of them is
-- late enough to ask.
pub should_refresh-in_time :
    (key : Key) (method : Text) (mapping : Mapping) (now : ℕ) (times : List ℕ)
    → 225 ≤ mapping.lifetime
    → IsPaced now times
    → any (should_refresh (succeeded key method mapping now) key) times ≡ true
    → (t : ℕ) × (first (should_refresh (succeeded key method mapping now) key) times ≡ some t)
      × (t + seconds 15 < (succeeded key method mapping now).expires_at)
      × (current_candidate (succeeded key method mapping now) key t
          ≡ some (mapped_candidate mapping))
should_refresh-in_time key method mapping now times long paced due =
    let (t, found, late, soon) =
      first_due (succeeded key method mapping now) key now times
        (unfold succeeded in omega (arith, refresh_after_long mapping.lifetime (omega arith))) paced
        due in
    let ends : t + seconds 15 < (succeeded key method mapping now).expires_at =
      unfold succeeded in omega (arith, soon, refresh_after_long mapping.lifetime (omega arith)) in
    (
      t,
      found,
      ends,
      unfold succeeded current_candidate holds_key in ground (arith, ends, key_eq_refl key),
    )
