-- ===== src/Agent/Handler/Refused.antt =====
-- Requests that `Handler.do_POST` of p2p/wireguard-p2p/linux/p2p_agent.py refuses.
use wireguard_p2p.Base.{
  ℕ, ◌≡◌, ◌≤◌, ◌⊎◌, refl, ◌||◌, true, false, Option, some, arith, inl, inr, Bool-cases,
  Option-cases,
}
use wireguard_p2p.Base.Dict
use wireguard_p2p.Base.Dict.{Dict}
use wireguard_p2p.Base.Int.{ℤ}
use wireguard_p2p.Base.Text.{Text, text, text_eq}
use wireguard_p2p.Base.Text.Decimal.{read_int}
use wireguard_p2p.Json.{Json}
use wireguard_p2p.Result.{
  Error, Result, ok, err, err-ok, Result-cases, permission_error, value_error, key_error,
  type_error, runtime_error, os_error, struct_error,
}
use wireguard_p2p.Agent.{vps_address}
use wireguard_p2p.Agent.Notify.{
  signature_payload, validate_nonce, prune, skew_ok, consume_nonce, authenticate, with_nonce,
  verify_signed_notification,
}
use wireguard_p2p.Agent.Handler.{
  Request, Server, admit, dispatch, read_signed_json, do_post, status_of,
}

error_status : (e : Error) → 400 ≤ status_of e
error_status permission_error = omega arith
error_status value_error = omega arith
error_status key_error = omega arith
error_status type_error = omega arith
error_status runtime_error = omega arith
error_status os_error = omega arith
error_status struct_error = omega arith

-- A request of the coordinator: from its address, signed with the key that it shares with the agent,
-- at most 30 seconds old, and under a nonce that was not seen in the last minute.
pub record IsGenuine (hmac_hex : Text → Text → Text) (notify_key : Option Text) (r : Request)
    (seen : Dict ℕ) : Type 0 where
  key : Text
  nonce : Text
  timestamp : ℤ
  from_coordinator : text_eq r.client vps_address ≡ true
  has_key : notify_key ≡ some key
  has_nonce : validate_nonce r.notification.nonce ≡ ok nonce
  signed :
      text_eq r.notification.signature (
        hmac_hex key (
          signature_payload r.notification.method r.notification.path r.notification.timestamp nonce
            r.notification.body))
      ≡ true
  has_time : read_int r.notification.timestamp ≡ some timestamp
  recent : skew_ok r.now timestamp ≡ true
  unseen : Dict.contains nonce (prune r.now seen) ≡ false

admit-origin : (r : Request) (u : Unit {0}) → admit r ≡ ok u → text_eq r.client vps_address ≡ true
unfolding admit
admit-origin r u h = elim (Bool-cases (text_eq r.client vps_address)) [
  | inl e ↦ e
  | inr e ↦ absurd (err-ok (rw e at h))
]

module _ (hmac_hex : Text → Text → Text) (loads : Text → Result Json) (notify_key : Option Text)
    (r : Request) (seen : Dict ℕ) (origin : text_eq r.client vps_address ≡ true) where
  consumed :
      (nonce : Text) (j : Json)
      → (with_nonce hmac_hex loads r.notification r.now seen (ok nonce)).0 ≡ ok j
      → Dict.contains nonce (prune r.now seen) ≡ false
  unfolding consume_nonce
  consumed nonce j h = elim (Bool-cases (Dict.contains nonce (prune r.now seen))) [
    | inl e ↦ absurd (err-ok (rw e at h))
    | inr e ↦ e
  ]

  verified :
      (j : Json)
      → (verify_signed_notification hmac_hex loads notify_key r.notification r.now seen).0 ≡ ok j
      → IsGenuine hmac_hex notify_key r seen
  unfolding verify_signed_notification authenticate
  verified j h = elim (Option-cases notify_key) [
    | inl no_key ↦ absurd (err-ok (rw no_key at h))
    | inr (key, has_key) ↦ elim (Option-cases (read_int r.notification.timestamp)) [
      | inl no_time ↦ absurd (err-ok (rw (has_key, no_time) at h))
      | inr (time, has_time) ↦ elim (Bool-cases (skew_ok r.now time)) [
        | inr old ↦ absurd (err-ok (rw (has_key, has_time, old) at h))
        | inl recent ↦ elim (Result-cases (validate_nonce r.notification.nonce)) [
          | inr (e, bad) ↦ absurd (err-ok (rw (has_key, has_time, recent, bad) at h))
          | inl (nonce, good) ↦
              elim (Bool-cases (
                text_eq r.notification.signature (
                  hmac_hex key (
                    signature_payload r.notification.method r.notification.path
                      r.notification.timestamp nonce r.notification.body)))) [
                        | inr forged ↦
                            absurd (err-ok (rw (has_key, has_time, recent, good, forged) at h))
                        | inl signed ↦ record {
                          key = key;
                          nonce = nonce;
                          timestamp = time;
                          from_coordinator = origin;
                          has_key = has_key;
                          has_nonce = good;
                          signed = signed;
                          has_time = has_time;
                          recent = recent;
                          unseen =
                              consumed nonce j (rw (has_key, has_time, recent, good, signed) at h);
                        }
                      ]
        ]
      ]
    ]
  ]

module _ (hmac_hex : Text → Text → Text) (loads : Text → Result Json) (notify_key : Option Text)
    (listen_address : Text) (r : Request) (s : Server) where
  refused_dispatch :
      (a : Result Json × Dict ℕ) (e : Error)
      → a.0 ≡ err e
      → dispatch hmac_hex loads notify_key listen_address r s.agent a
        ≡ (status_of e, record { agent = s.agent; seen_nonces = a.1 })
  refused_dispatch (a, seen) e h = rw h refl

  read_signed_json-IsGenuine :
      (j : Json)
      → (read_signed_json hmac_hex loads notify_key listen_address r s.seen_nonces).0 ≡ ok j
      → IsGenuine hmac_hex notify_key r s.seen_nonces
  unfolding read_signed_json
  read_signed_json-IsGenuine j h = elim (Result-cases (admit r)) [
    | inr (e, refused) ↦ absurd (err-ok (rw refused at h))
    | inl (u, admitted) ↦
        verified hmac_hex loads notify_key r s.seen_nonces (admit-origin r u admitted) j
          (rw admitted at h)
  ]

  -- Every request either is genuine (from the address of the coordinator, signed with the shared key
  -- and a fresh nonce, at most 30 seconds old), or is answered with an error status and changes
  -- nothing of the agent.
  pub do_post-IsGenuine :
      IsGenuine hmac_hex notify_key r s.seen_nonces
      ⊎ ((400 ≤ (do_post hmac_hex loads notify_key listen_address r s).0)
          × ((do_post hmac_hex loads notify_key listen_address r s).1.agent ≡ s.agent))
  unfolding do_post
  do_post-IsGenuine =
      elim (Bool-cases (
        text_eq r.notification.path (text "/offer")
        || text_eq r.notification.path (text "/remove"))) [
          | inr p ↦ inr (rw p (omega arith, refl))
          | inl p ↦
              elim (Result-cases
                (read_signed_json hmac_hex loads notify_key listen_address r s.seen_nonces).0) [
                  | inl (j, read) ↦ inl (read_signed_json-IsGenuine j read)
                  | inr (e, failed) ↦ inr (
                      rw
                        (
                          p,
                          refused_dispatch
                              (read_signed_json hmac_hex loads notify_key listen_address r
                                s.seen_nonces)
                              e failed,
                        )
                        (error_status e, refl))
                ]
        ]
