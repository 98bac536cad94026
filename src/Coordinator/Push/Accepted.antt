-- ===== src/Coordinator/Push/Accepted.antt =====
-- The requests of the coordinator (p2p/wireguard-p2p/vps/peers_api.py, `signed_post`) before the
-- agent (p2p/wireguard-p2p/linux/p2p_agent.py, `verify_signed_notification`).
use wireguard_p2p.Base.{ℕ, ◌+◌, ◌/◌, ◌≡◌, ◌≤◌, refl, true, false, some, arith}
use wireguard_p2p.Base.Clock.{seconds}
use wireguard_p2p.Base.Dict
use wireguard_p2p.Base.Dict.{Dict}
use wireguard_p2p.Base.Int.{pos}
use wireguard_p2p.Base.Text.{Text, text, text_eq_refl}
use wireguard_p2p.Base.Text.Decimal.{show, read_int-show}
use wireguard_p2p.Json.{Json}
use wireguard_p2p.Result.{Result, ok}
use wireguard_p2p.Agent.Notify
use wireguard_p2p.Agent.Notify.{
  validate_nonce, prune, skew_ok, authenticate, consume_nonce, verify_signed_notification,
}
use wireguard_p2p.Coordinator.Push.{signature_payload, signed_post}

skew_within :
    (sent received : ℕ)
    → sent ≤ received + seconds 30
    → received ≤ sent + seconds 29
    → skew_ok received (pos (sent / 1000000)) ≡ true
skew_within sent received h k = ground arith

module _ (hmac_hex : Text → Text → Text) (loads : Text → Result Json) (key nonce path body : Text)
    (sent received : ℕ) (seen : Dict ℕ) (j : Json) where
  signed_post-authenticate :
      validate_nonce nonce ≡ ok nonce
      → sent ≤ received + seconds 30
      → received ≤ sent + seconds 29
      → authenticate hmac_hex loads
          (some key)
          (signed_post hmac_hex key sent nonce path body)
          received
        ≡ ok nonce
  unfolding signed_post signature_payload Notify.signature_payload authenticate
  signed_post-authenticate v early late =
      rw
        (
          read_int-show (sent / 1000000),
          skew_within sent received early late,
          v,
          text_eq_refl (
              hmac_hex key
                (signature_payload (text "POST") path (show (sent / 1000000)) nonce body)),
        )
        refl

  -- What `signed_post` sends is accepted by the agent that shares its key: the timestamp, the signed
  -- text and the keyed hash are read as they were written. The nonce has to be 32 hex digits in lower case (as
  -- `secrets.token_hex(16)` gives) and new
  -- to the agent, the body decodable, and the agent's clock within 29 seconds.
  pub signed_post-accepted :
      validate_nonce nonce ≡ ok nonce
      → sent ≤ received + seconds 30
      → received ≤ sent + seconds 29
      → Dict.contains nonce (prune received seen) ≡ false
      → loads body ≡ ok j
      → (verify_signed_notification hmac_hex loads
          (some key)
          (signed_post hmac_hex key sent nonce path body)
          received
          seen).0
        ≡ ok j
  unfolding verify_signed_notification consume_nonce signed_post
  signed_post-accepted v early late new decodes =
      rw (signed_post-authenticate v early late, new) decodes
