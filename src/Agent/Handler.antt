-- ===== src/Agent/Handler.antt =====
-- The HTTP handler of p2p/wireguard-p2p/linux/p2p_agent.py, `Handler.do_POST`, up to the status.
pub mod Refused
use wireguard_p2p.Base.{
  ℕ, ◌≡◌, refl, Bool, true, false, not, ◌&&◌, ◌||◌, List, [], ◌∷◌, Option, none, some, leb,
  if◌then◌else◌,
}
use wireguard_p2p.Base.Dict.{Dict}
use wireguard_p2p.Base.Int.{ℤ, pos, negsuc}
use wireguard_p2p.Base.Text.{Text, text, text_eq}
use wireguard_p2p.Base.Text.Decimal.{read_int}
use wireguard_p2p.Json.{Json}
use wireguard_p2p.Result.{
  Error, Result, ok, err, permission_error, value_error, key_error, type_error, runtime_error,
  os_error, struct_error, ◌>>=◌, ◌>>◌, guard, or_raise,
}
use wireguard_p2p.Candidates.{Candidate}
use wireguard_p2p.Agent.{Agent, LocalPeer, responder, vps_address}
use wireguard_p2p.Agent.Notify.{Notification, verify_signed_notification}
use wireguard_p2p.Agent.Offer.{Outcome, ignored, accepted, handle_offer}
use wireguard_p2p.Agent.Remove.{Removed, handle_remove}

abbrev pub max_request_size : ℕ
max_request_size = 16384

abbrev pub status_of : Error → ℕ
status_of permission_error = 403
status_of value_error = 400
status_of key_error = 400
status_of type_error = 400
status_of runtime_error = 503
status_of os_error = 503
status_of struct_error = 503

abbrev size_ok : ℤ → Bool
size_ok (pos n) = leb 1 n && leb n max_request_size
size_ok (negsuc n) = false

-- A request and what the host answers while it is handled.
pub record Request : Type 0 where
  pub client : Text
  pub content_length : Text
  pub notification : Notification
  pub now : ℕ
  pub lan_ip : Result Text
  pub dump : Result (Dict LocalPeer)
  -- the candidates that an accepted offer is answered with
  pub answer : Result (List Candidate)

-- The two tables that a request may change.
pub record Server : Type 0 where
  pub agent : Agent
  pub seen_nonces : Dict ℕ

-- The part of `read_signed_json` before the signature is looked at.
unfoldable pub admit : Request → Result (Unit {0})
unfolding text_eq read_int
admit r = do
  guard (text_eq r.client vps_address) permission_error
  size ← or_raise (read_int r.content_length) value_error
  guard (size_ok size) value_error

module _ (hmac_hex : Text → Text → Text) (loads : Text → Result Json) (notify_key : Option Text)
    (listen_address : Text) where
  abbrev pub checked : Request → Dict ℕ → Result (Unit {0}) → Result Json × Dict ℕ
  checked r seen (err e) = (err e, seen)
  checked r seen (ok u) =
      verify_signed_notification hmac_hex loads notify_key r.notification r.now seen

  -- `read_signed_json()`
  unfoldable pub read_signed_json : Request → Dict ℕ → Result Json × Dict ℕ
  unfolding admit verify_signed_notification
  read_signed_json r seen = checked r seen (admit r)

  abbrev offer_status : Result (List Candidate) → Result Outcome → ℕ
  offer_status answer (err e) = status_of e
  offer_status answer (ok ignored) = 200
  offer_status (ok cs) (ok accepted) = 200
  offer_status (err e) (ok accepted) = status_of e

  abbrev remove_status : Result Removed → ℕ
  remove_status (err e) = status_of e
  remove_status (ok r) = 200

  abbrev answer_offer : Request → Dict ℕ → Result Outcome × Agent → ℕ × Server
  answer_offer r seen (o, a) = (offer_status r.answer o, record { agent = a; seen_nonces = seen })

  abbrev answer_remove : Dict ℕ → Result Removed × Agent → ℕ × Server
  answer_remove seen (o, a) = (remove_status o, record { agent = a; seen_nonces = seen })

  abbrev pub dispatch : Request → Agent → Result Json × Dict ℕ → ℕ × Server
  dispatch r a (err e, seen) = (status_of e, record { agent = a; seen_nonces = seen })
  dispatch r a (ok data_, seen) =
      if text_eq r.notification.path (text "/offer")
      then answer_offer r seen (handle_offer responder listen_address r.now r.lan_ip r.dump data_ a)
      else answer_remove seen (handle_remove listen_address r.now r.dump data_ a)

  -- `do_POST()`
  unfoldable pub do_post : Request → Server → ℕ × Server
  unfolding read_signed_json handle_offer handle_remove text_eq
  do_post r s =
      if not (
        text_eq r.notification.path (text "/offer") || text_eq r.notification.path (text "/remove"))
      then (404, s)
      else dispatch r s.agent (read_signed_json r s.seen_nonces)
