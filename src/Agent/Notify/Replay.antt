-- ===== src/Agent/Notify/Replay.antt =====
-- Replays of signed notifications in p2p/wireguard-p2p/linux/p2p_agent.py.
use wireguard_p2p.Base.{
  ℕ, suc, ◌+◌, ◌≡◌, ◌≤◌, ◌<◌, ◌⊎◌, refl, subst, ap, true, false, List, [], ◌∷◌, Option, some, inl,
  inr, arith, Bool-cases, Option-cases,
}
use wireguard_p2p.Base.Clock.{seconds, older}
use wireguard_p2p.Base.Dict
use wireguard_p2p.Base.Dict.{Dict, get-put, get-put_self}
use wireguard_p2p.Base.Lists.{length, All}
use wireguard_p2p.Base.Int.{ℤ, pos, negsuc}
use wireguard_p2p.Base.Text.Decimal.{read_int}
use wireguard_p2p.Base.Text.{Text}
use wireguard_p2p.Json.{Json}
use wireguard_p2p.Result.{Result, ok, err, permission_error, err-ok}
use wireguard_p2p.Agent.Notify.{
  skew_ok, nonce_ttl, max_seen_nonces, prune, make_room, consume_nonce, Notification, authenticate,
  validate_nonce, with_nonce, verify_signed_notification,
}
use wireguard_p2p.Agent.Notify.Cache.{
  consume_nonce-known, consume_nonce-keeps, consume_nonce-length,
}

-- A time that is within the skew now and later leaves less than the lifetime of a nonce between.
skew-recent :
    (ts : ℤ) (t later : ℕ)
    → skew_ok t ts ≡ true
    → skew_ok later ts ≡ true
    → t ≤ later
    → older later t (seconds nonce_ttl) ≡ false
skew-recent (pos n) t later h k le = ground arith
skew-recent (negsuc n) t later h k le = ground arith

module _ (hmac_hex : Text → Text → Text) (loads : Text → Result Json) where
  abbrev verify_at : Option Text → Notification × ℕ → Dict ℕ → Result Json × Dict ℕ
  verify_at key (r, now) seen = verify_signed_notification hmac_hex loads key r now seen

  -- The cache after a sequence of requests, each at its time.
  abbrev pub verify_all : Option Text → List (Notification × ℕ) → Dict ℕ → Dict ℕ
  verify_all key [] seen = seen
  verify_all key (e ∷ es) seen = verify_all key es (verify_at key e seen).1

  module _ (key : Option Text) (n : Text) (t : ℕ) where
    with_nonce-keeps :
        (r : Notification) (now : ℕ) (seen : Dict ℕ) (a : Result Text)
        → older now t (seconds nonce_ttl) ≡ false
        → Dict.get n seen ≡ some t
        → length seen < max_seen_nonces
        → (Dict.get n (with_nonce hmac_hex loads r now seen a).1 ≡ some t)
          × (length (with_nonce hmac_hex loads r now seen a).1 ≤ suc (length seen))
    with_nonce-keeps r now seen (err e) o g room = (g, omega arith)
    with_nonce-keeps r now seen (ok m) o g room =
        (consume_nonce-keeps n m t now seen g o room, consume_nonce-length m now seen room)

    verify_all-keeps :
        (es : List (Notification × ℕ)) (later : ℕ) (seen : Dict ℕ)
        → older later t (seconds nonce_ttl) ≡ false
        → All (λ e. e.1 ≤ later) es
        → length seen + length es ≤ max_seen_nonces
        → Dict.get n seen ≡ some t
        → Dict.get n (verify_all key es seen) ≡ some t
    unfolding verify_signed_notification
    verify_all-keeps [] later seen o times room g = g
    verify_all-keeps ((r, now) ∷ es) later seen o times room g =
        let (g', room') =
          with_nonce-keeps r now seen (authenticate hmac_hex loads key r now)
            (ground (arith, times.0)) g (omega arith) in
        verify_all-keeps es later (verify_at key (r, now) seen).1 o times.1 (omega arith) g'

  module _ (key : Option Text) (r : Notification) (nonce : Text) (t later : ℕ)
      (accepted : authenticate hmac_hex loads key r t ≡ ok nonce) where
    -- The clock cannot make another request of it; beyond the lifetime of a nonce it is too old.
    authenticate-later :
        t ≤ later
        → (authenticate hmac_hex loads key r later ≡ err permission_error)
          ⊎ ((authenticate hmac_hex loads key r later ≡ ok nonce)
              × (older later t (seconds nonce_ttl) ≡ false))
    unfolding authenticate
    authenticate-later le = elim (Option-cases key) [
      | inl none_key ↦ cc
      | inr (k, some_key) ↦ elim (Option-cases (read_int r.timestamp)) [
        | inl no_time ↦ cc
        | inr (ts, time) ↦ elim (Bool-cases (skew_ok later ts)) [
          | inr e ↦ inl (rw (some_key, time, e) refl)
          | inl e ↦ elim (Bool-cases (skew_ok t ts)) [
            | inr f ↦ absurd (err-ok (rw (some_key, time, f) at accepted))
            | inl f ↦ inr (
              rw (some_key, time, e) (rw (some_key, time, f) at accepted),
              skew-recent ts t later f e le,
            )
          ]
        ]
      ]
    ]

  module _ (key : Option Text) (r : Notification) (t : ℕ) (seen seen' : Dict ℕ) (j : Json) where
    accepted_state :
        (a : Result Text)
        → with_nonce hmac_hex loads r t seen a ≡ (ok j, seen')
        → (n : Text) × (a ≡ ok n) × (Dict.get n seen' ≡ some t)
    unfolding consume_nonce
    accepted_state (err e) h = absurd (err-ok (ap (λ p. p.0) h))
    accepted_state (ok n) h = elim (Bool-cases (Dict.contains n (prune t seen))) [
      | inl e ↦ absurd (err-ok (ap (λ p. p.0) (rw e at h)))
      | inr e ↦ (
        n,
        refl,
        subst (λ d. Dict.get n d ≡ some t) (ap (λ p. p.1) (rw e at h))
            (get-put_self n t (make_room (prune t seen))),
      )
    ]

    -- A copy of the request whose nonce may be written in other case.
    abbrev recased : Text → Notification
    recased nonce = record r { nonce = nonce }

    recased-authenticate :
        (nonce : Text) (later : ℕ)
        → validate_nonce nonce ≡ validate_nonce r.nonce
        → authenticate hmac_hex loads key (recased nonce) later
          ≡ authenticate hmac_hex loads key r later
    unfolding authenticate
    recased-authenticate nonce later same = rw same refl

    module _ (between : List (Notification × ℕ)) (later : ℕ) (nonce : Text) where
      -- A notification that was accepted is never accepted again, also not with its nonce in other
      -- case, whatever its clock says by then and whatever valid or forged requests come between,
      -- while the cache has room for a nonce of each.
      pub accepted_once :
          verify_signed_notification hmac_hex loads key r t seen ≡ (ok j, seen')
          → validate_nonce nonce ≡ validate_nonce r.nonce
          → t ≤ later
          → All (λ e. e.1 ≤ later) between
          → length seen' + length between ≤ max_seen_nonces
          → (verify_signed_notification hmac_hex loads key
              (recased nonce)
              later
              (verify_all key between seen')).0
            ≡ err permission_error
      unfolding verify_signed_notification
      accepted_once h same le times room =
          let (n, a, g) = accepted_state (authenticate hmac_hex loads key r t) h in
          let again = recased-authenticate nonce later same in
          elim (authenticate-later key r n t later a le) [
            | inl e ↦ rw (again, e) refl
            | inr (e, o) ↦
                rw
                  (
                    again,
                    e,
                    consume_nonce-known n n t later (verify_all key between seen')
                        (verify_all-keeps key n t between later seen' o times room g) o,
                  )
                  refl
          ]
