-- ===== src/Agent/Notify.antt =====
-- Signed notifications: `signature_payload`, `validate_nonce`, `consume_nonce` and
-- `verify_signed_notification` of p2p/wireguard-p2p/linux/p2p_agent.py. The keyed hash and the JSON
-- decoder are arguments.
pub mod Cache
pub mod Replay
use wireguard_p2p.Base.{
  ℕ, zero, suc, ◌+◌, ◌≡◌, refl, Bool, true, false, not, ◌&&◌, ◌||◌, List, [], ◌∷◌, ◌++◌, Option,
  none, some, leb, ltb, ◌==◌, if◌then◌else◌,
}
use wireguard_p2p.Base.Clock.{seconds, older}
use wireguard_p2p.Base.Dict
use wireguard_p2p.Base.Dict.{Dict}
use wireguard_p2p.Base.Int.{ℤ, pos, negsuc}
use wireguard_p2p.Base.Lists.{length, all}
use wireguard_p2p.Base.Text.{Text, text, text_eq, join, lower, lower_char, upper, upper_char}
use wireguard_p2p.Base.Text.Decimal.{read_int}
use wireguard_p2p.Json.{Json}
use wireguard_p2p.Result.{
  Result, ok, err, permission_error, runtime_error, ◌>>=◌, ◌>>◌, guard, or_raise,
}
use wireguard_p2p.Agent.Validate.Uuid.{is_hex}

abbrev pub notification_max_skew : ℕ
notification_max_skew = 30

abbrev pub nonce_ttl : ℕ
nonce_ttl = 60

abbrev pub max_seen_nonces : ℕ
max_seen_nonces = 4096

unfoldable pub signature_payload : Text → Text → Text → Text → Text → Text
unfolding join upper_char
signature_payload method path timestamp nonce body =
    join (10 ∷ []) (upper method ∷ path ∷ timestamp ∷ nonce ∷ body ∷ [])

unfoldable pub validate_nonce : Text → Result Text
unfolding all is_hex lower_char
validate_nonce t = if length t == 32 && all is_hex t then ok (lower t) else err permission_error

-- `for value, seen_at in ...: if seen_at < cutoff: del SEEN_NONCES[value]`
unfoldable pub prune : ℕ → Dict ℕ → Dict ℕ
prune now [] = []
prune now ((n, seen_at) ∷ d) =
    let rest = prune now d in
    if older now seen_at (seconds nonce_ttl) then rest else (n, seen_at) ∷ rest

-- The first entry with the least time, at most `(n, seen_at)`.
unfoldable pub oldest_from : Text → ℕ → Dict ℕ → Text
oldest_from n seen_at [] = n
oldest_from n seen_at ((m, t) ∷ d) =
    oldest_from (if ltb t seen_at then m else n) (if ltb t seen_at then t else seen_at) d

unfoldable pub drop_oldest : Dict ℕ → Dict ℕ
unfolding oldest_from Dict.remove
drop_oldest [] = []
drop_oldest ((n, t) ∷ d) = Dict.remove (oldest_from n t d) ((n, t) ∷ d)

unfoldable pub make_room : Dict ℕ → Dict ℕ
unfolding drop_oldest
make_room d = if leb max_seen_nonces (length d) then drop_oldest d else d

-- `consume_nonce(nonce, now)`: what was pruned stays pruned when it raises.
unfoldable pub consume_nonce : Text → ℕ → Dict ℕ → Result (Unit {0}) × Dict ℕ
unfolding prune make_room Dict.get Dict.put
consume_nonce nonce now seen =
    let kept = prune now seen in
    if Dict.contains nonce kept
    then (err permission_error, kept)
    else (ok tt, Dict.put nonce now (make_room kept))

-- `abs(now - timestamp) <= NOTIFICATION_MAX_SKEW`
abbrev pub skew_ok : ℕ → ℤ → Bool
skew_ok now (pos n) =
    leb now (seconds (n + notification_max_skew))
    && leb (seconds n) (now + seconds notification_max_skew)
skew_ok now (negsuc n) = leb (now + seconds (suc n)) (seconds notification_max_skew)

-- The headers and the body of a request.
pub record Notification : Type 0 where
  pub method : Text
  pub path : Text
  pub timestamp : Text
  pub nonce : Text
  pub signature : Text
  pub body : Text

module _ (hmac_hex : Text → Text → Text) (loads : Text → Result Json) where
  -- The checks before the nonce is consumed; the answer is the nonce in lower case, as it is signed.
  unfoldable pub authenticate : Option Text → Notification → ℕ → Result Text
  unfolding validate_nonce signature_payload text_eq read_int
  authenticate notify_key r now = do
    key ← or_raise notify_key runtime_error
    timestamp ← or_raise (read_int r.timestamp) permission_error
    guard (skew_ok now timestamp) permission_error
    nonce ← validate_nonce r.nonce
    guard
        (text_eq r.signature
          (hmac_hex key (signature_payload r.method r.path r.timestamp nonce r.body)))
        permission_error
    ok nonce

  abbrev pub with_nonce : Notification → ℕ → Dict ℕ → Result Text → Result Json × Dict ℕ
  with_nonce r now seen (err e) = (err e, seen)
  with_nonce r now seen (ok nonce) =
      let (answer, seen') = consume_nonce nonce now seen in (answer >>= λ _. loads r.body, seen')

  unfoldable pub verify_signed_notification :
      Option Text → Notification → ℕ → Dict ℕ → Result Json × Dict ℕ
  unfolding authenticate consume_nonce
  verify_signed_notification notify_key r now seen =
      with_nonce r now seen (authenticate notify_key r now)
