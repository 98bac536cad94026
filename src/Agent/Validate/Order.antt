-- ===== src/Agent/Validate/Order.antt =====
-- Which of two servers opens their session, and how long a failed probe waits.
use wireguard_p2p.Base.{
  ℕ, zero, suc, ◌≡◌, ◌≢◌, ◌≤◌, ◌<◌, refl, not, some, arith, ltb, ltb→lt, inl, inr, Bool-cases,
  subst,
}
use wireguard_p2p.Base.Text.{Text}
use wireguard_p2p.Ip.{v4}
use wireguard_p2p.Ip.Read.{ip_address}
use wireguard_p2p.Agent.Validate
use wireguard_p2p.Agent.Validate.{retry_delay}
use wireguard_p2p.Coordinator.Push

-- Of two servers with different IPv4 overlay addresses exactly one opens the session, and the
-- coordinator (vps/peers_api.py) picks the one that the agent (linux/p2p_agent.py) picks.
pub server_initiator_owns_pair-one :
    (left right : Text) (a b : ℕ)
    → ip_address left ≡ some (v4 a)
    → ip_address right ≡ some (v4 b)
    → a ≢ b
    → (Validate.server_initiator_owns_pair left right
        ≡ not (Validate.server_initiator_owns_pair right left))
      × (Push.server_initiator_owns_pair left right
          ≡ Validate.server_initiator_owns_pair left right)
unfolding Validate.server_initiator_owns_pair Push.server_initiator_owns_pair
server_initiator_owns_pair-one left right a b l r d = rw (l, r) (ground arith, refl)

retry_rises : (n : ℕ) → 1 ≤ n → n ≤ 4 → retry_delay n < retry_delay (suc n)
unfolding retry_delay
retry_rises zero low high = absurd (omega (arith, low))
retry_rises (suc zero) low high = omega arith
retry_rises (suc (suc zero)) low high = omega arith
retry_rises (suc (suc (suc zero))) low high = omega arith
retry_rises (suc (suc (suc (suc zero)))) low high = omega arith
retry_rises (suc (suc (suc (suc (suc n))))) low high = absurd (omega (arith, high))

retry_last : (n : ℕ) → 5 ≤ n → retry_delay n ≡ 300
unfolding retry_delay
retry_last zero h = absurd (omega (arith, h))
retry_last (suc zero) h = absurd (omega (arith, h))
retry_last (suc (suc zero)) h = absurd (omega (arith, h))
retry_last (suc (suc (suc zero))) h = absurd (omega (arith, h))
retry_last (suc (suc (suc (suc zero)))) h = absurd (omega (arith, h))
retry_last (suc (suc (suc (suc (suc n))))) h = refl

retry_climbs : (m n : ℕ) → 1 ≤ m → m < n → n ≤ 5 → retry_delay m < retry_delay n
retry_climbs m zero low lt high = absurd (omega (arith, lt))
retry_climbs m (suc n) low lt high = elim (Bool-cases (ltb m n)) [
  | inl e ↦ omega (
    arith,
    retry_climbs m n low (ltb→lt m n e) (omega (arith, high)),
    retry_rises n (omega (arith, low, ltb→lt m n e)) (omega (arith, high)),
  )
  | inr e ↦
      let same : m ≡ n = ground (arith, lt) in
      rw same (retry_rises n (subst (λ k. 1 ≤ k) same low) (omega (arith, high)))
]

-- The pause after a failed probe is 3 seconds after the first failure in a row, longer after each
-- of the next four, and 300 seconds from the fifth on.
pub retry_delay-rises :
    (m n k : ℕ)
    → 1 ≤ m
    → m < n
    → n ≤ 5
    → 5 ≤ k
    → (retry_delay m < retry_delay n) × (retry_delay 1 ≡ 3) × (retry_delay k ≡ 300)
unfolding retry_delay
retry_delay-rises m n k low lt high last = (retry_climbs m n low lt high, refl, retry_last k last)
