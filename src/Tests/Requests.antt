-- ===== src/Tests/Requests.antt =====
-- The theorems on requests: signatures, nonces, the handler and the checks of offers.
use wireguard_p2p.Base.{◌≡◌, ◌≤◌, ◌⊎◌, refl, [], ◌∷◌, some, arith}
use wireguard_p2p.Base.Dict
use wireguard_p2p.Base.Dict.{Dict}
use wireguard_p2p.Base.Int.{pos}
use wireguard_p2p.Base.Lists.{length}
use wireguard_p2p.Base.Text.{text}
use wireguard_p2p.Json.{Json, null, str, int, arr, nil, cons, obj, field, end}
use wireguard_p2p.Result.{ok, err, permission_error}
use wireguard_p2p.Candidates.{to_json}
use wireguard_p2p.Agent.Notify.{
  Notification, prune, max_seen_nonces, validate_nonce, consume_nonce, verify_signed_notification,
}
use wireguard_p2p.Agent.Notify.Cache.{consume_nonce-bounded}
use wireguard_p2p.Agent.Notify.Replay.{accepted_once, verify_all}
use wireguard_p2p.Agent.Handler.{Request, do_post}
use wireguard_p2p.Agent.Handler.Refused.{IsGenuine, do_post-IsGenuine}
use wireguard_p2p.Agent.Offer.Request.{Offer}
use wireguard_p2p.Coordinator.Push.{signed_post}
use wireguard_p2p.Coordinator.Push.Accepted.{signed_post-accepted}
use wireguard_p2p.Tests.Data.{agent, seen4, keyed, decode, nonce, canonical_nonce}

-- A request that the coordinator sent at second 1000.
abbrev sent : Notification
sent = signed_post keyed (text "k") 1000500000 canonical_nonce (text "/remove") (text "{}")

signed_post-accepted_example :
    (verify_signed_notification keyed decode (some (text "k")) sent 1003000000 []).0 ≡ ok null
unfolding validate_nonce prune Dict.get
signed_post-accepted_example =
    signed_post-accepted keyed decode (text "k") canonical_nonce (text "/remove") (text "{}")
      1000500000 1003000000 [] null refl (omega arith) (omega arith) refl refl

accepted_once_example :
    (verify_signed_notification keyed decode
      (some (text "k"))
      (record sent { nonce = nonce })
      1004000000
      (verify_all keyed decode
        (some (text "k"))
        ((sent, 1003500000) ∷ [])
        ((canonical_nonce, 1003000000) ∷ []))).0
    ≡ err permission_error
unfolding verify_signed_notification signed_post validate_nonce
accepted_once_example =
    accepted_once keyed decode (some (text "k")) sent 1003000000 []
      ((canonical_nonce, 1003000000) ∷ []) null ((sent, 1003500000) ∷ []) 1004000000 nonce refl refl
      (omega arith) (omega arith, tt) (omega arith)

consume_nonce-bounded_example :
    length (consume_nonce (text "n") 5 ((text "m", 4) ∷ [])).1 ≤ max_seen_nonces
consume_nonce-bounded_example =
    consume_nonce-bounded (text "n") 5 ((text "m", 4) ∷ []) (omega arith)

-- The same request, from a client that is not the coordinator.
abbrev strange : Request
strange = record {
  client = text "10.0.0.66";
  content_length = text "2";
  notification = sent;
  now = 1003000000;
  lan_ip = ok (text "192.168.1.2");
  dump = ok [];
  answer = ok [];
}

do_post-IsGenuine_example :
    IsGenuine keyed (some (text "k")) strange []
    ⊎ ((400
          ≤ (do_post keyed decode
              (some (text "k"))
              (text "10.0.0.2")
              strange
              (record { agent = agent; seen_nonces = [] })).0)
        × ((do_post keyed decode
              (some (text "k"))
              (text "10.0.0.2")
              strange
              (record { agent = agent; seen_nonces = [] })).1.agent
            ≡ agent))
do_post-IsGenuine_example =
    do_post-IsGenuine keyed decode (some (text "k")) (text "10.0.0.2") strange
      (record { agent = agent; seen_nonces = [] })

abbrev offer_json : Json
offer_json = obj (
    field (text "peer_key") (str (text "AAAAAAAAAAAAAAAAAAAAAAAAAAAAAAAAAAAAAAAAAAA=")) (
      field (text "peer_ip") (str (text "10.0.0.7")) (
        field (text "session_id") (str (text "11111111-2222-4333-8444-555555555555")) (
          field (text "session_started_ns") (int (pos 5)) (
            field (text "candidates") (arr (cons (to_json seen4) nil)) (
              field (text "endpoint_type") (str (text "LAN"))
                (field (text "lease_expires") (int (pos 9999)) end)))))))

abbrev offer_read : Offer
offer_read = record {
  key = text "AAAAAAAAAAAAAAAAAAAAAAAAAAAAAAAAAAAAAAAAAAA=";
  peer_ip = text "10.0.0.7";
  session_id = text "11111111-2222-4333-8444-555555555555";
  session_started_ns = 5;
  peer_instance_id = [];
  candidates = seen4 ∷ [];
  candidate_signature = text "observed4|8.8.8.8:51820";
  lease_expires = 1180000000;
}
