-- ===== src/Agent/Initiator/Expected.antt =====
-- What a round of `server_initiator_once` of p2p/wireguard-p2p/linux/p2p_agent.py leaves behind.
use wireguard_p2p.Base.{
  ◌≡◌, refl, Bool, true, false, not, ◌&&◌, ◌||◌, List, [], ◌∷◌, Option, none, some, arith,
  if◌then◌else◌, ◌==◌,
}
use wireguard_p2p.Base.Dict
use wireguard_p2p.Base.Lists.{any, first}
use wireguard_p2p.Base.Text.{Text, text_eq, is_empty}
use wireguard_p2p.Json.{str}
use wireguard_p2p.Result.{ok}
use wireguard_p2p.Peers.{PeerInfo, is_server}
use wireguard_p2p.Agent.{Agent}
use wireguard_p2p.Agent.Monad.{pure, lift, ◌>>=◌}
use wireguard_p2p.Agent.Triple.{
  Triple, Any, Triple-Any, Triple-pure, Triple-bind, Triple-if, Triple-weaken,
}
use wireguard_p2p.Agent.Validate.{endpoint_address}
use wireguard_p2p.Agent.Remove.{is_initiated, has_key, cleanup_initiator_states}
use wireguard_p2p.Agent.Remove.Cleanup.{IsClean, cleanup_initiator_states-Clean}
use wireguard_p2p.Agent.Initiator.{
  Round, Sync, eligible_initiator_server, offer_to, offer_all, reconcile, reconcile_as,
  server_initiator_once,
}

-- A peer of the answer with this key that the server opens sessions to.
abbrev pub is_expected : Round → Text → PeerInfo → Bool
is_expected r k peer = text_eq k peer.key && eligible_initiator_server r.listen_address r.now peer

-- Each state that this server opened is for an expected peer, of an answer that names a session.
abbrev IsExpected : Round → Sync → Agent → Type 0
IsExpected r sync a =
    (k : Text)
    → is_initiated (Dict.get k a.states) ≡ true
    → (any (is_expected r k) sync.peers && not (is_empty sync.session_id)) ≡ true

-- A key that is offered to belongs to a peer that is offered to.
offered :
    (take : Bool) (j k : Text) (keys : List Text) (expected : Bool)
    → (not (has_key k keys) || expected) ≡ true
    → (not (has_key k (if take then j ∷ keys else keys)) || (text_eq k j && take || expected))
      ≡ true
unfolding has_key any
offered true j k keys expected h = ground (arith, h)
offered false j k keys expected h = ground (arith, h)

module _ (r : Round) (our_wan our_lan_ip : Text) (sync : Sync) where
  abbrev Expects : List PeerInfo → List Text → Agent → Type 0
  Expects peers keys a = (k : Text) → (not (has_key k keys) || any (is_expected r k) peers) ≡ true

  offer_all-Expects :
      (peers : List PeerInfo)
      → Triple Any (offer_all r our_wan our_lan_ip sync peers) (Expects peers)
  unfolding offer_all has_key any
  offer_all-Expects [] = Triple-pure [] (λ a p k. refl)
  offer_all-Expects (peer ∷ peers) =
      let take = eligible_initiator_server r.listen_address r.now peer in
      Triple-bind (if take then offer_to r our_wan our_lan_ip sync peer else pure tt) _
        (Triple-Any _)
        λ u.
          Triple-bind (offer_all r our_wan our_lan_ip sync peers) _ (offer_all-Expects peers)
            λ keys.
              Triple-pure (if take then peer.key ∷ keys else keys)
                λ a p k. offered take peer.key k keys (any (is_expected r k) peers) (p k)

module _ (r : Round) (sync : Sync) where
  -- With no active key, no state that this server opened is left.
  none_left : (a : Agent) → IsClean [] a → IsExpected r sync a
  unfolding has_key any
  none_left a c k h = ground (arith, c k, h)

  some_left :
      (keys : List Text) (a : Agent)
      → is_empty sync.session_id ≡ false
      → ((k : Text) → (not (has_key k keys) || any (is_expected r k) sync.peers) ≡ true)
      → IsClean keys a
      → IsExpected r sync a
  some_left keys a n e c k h = ground (arith, c k, e k, h, n)

  cleanup_all-IsExpected :
      Triple Any (cleanup_initiator_states [] r.last_dump) (λ u. IsExpected r sync)
  cleanup_all-IsExpected =
      Triple-weaken _ (λ a p. p) (λ u. none_left) (cleanup_initiator_states-Clean [] r.last_dump)

  reconcile-IsExpected :
      (ours : PeerInfo)
      → is_empty sync.session_id ≡ false
      → Triple Any (reconcile r sync ours) (λ u. IsExpected r sync)
  unfolding reconcile
  reconcile-IsExpected ours n = Triple-bind (lift r.lan_ip) _ (Triple-Any _) λ ip.
      let our_wan = endpoint_address (str ours.endpoint) in
      Triple-bind (offer_all r our_wan ip sync sync.peers) _
        (offer_all-Expects r our_wan ip sync sync.peers)
        λ active. record {
          at = λ a e x h.
              some_left active (cleanup_initiator_states active r.last_dump a).1 n e
                ((cleanup_initiator_states-Clean active r.last_dump).at a tt x h);
        }

  reconcile_as-IsExpected :
      (ours : Option PeerInfo) → Triple Any (reconcile_as r sync ours) (λ u. IsExpected r sync)
  reconcile_as-IsExpected none = cleanup_all-IsExpected
  reconcile_as-IsExpected (some ours) =
      Triple-if
        (not (is_server ours.role) || is_empty sync.session_id || sync.session_started_ns == 0) _ _
        (λ t. cleanup_all-IsExpected) (λ f. reconcile-IsExpected ours (ground (arith, f)))

  -- Whatever the agent did before and whatever fails in between: after a round that returns, each
  -- state that this server opened is for a peer of the coordinator's answer that it opens sessions
  -- to (a server, seen within 180 seconds, whose pair this server owns), and the answer names a
  -- session.
  pub server_initiator_once-expected :
      (a : Agent) (k : Text)
      → (server_initiator_once r (ok sync) a).0 ≡ ok tt
      → is_initiated (Dict.get k (server_initiator_once r (ok sync) a).1.states) ≡ true
      → (any (is_expected r k) sync.peers && not (is_empty sync.session_id)) ≡ true
  unfolding server_initiator_once ◌>>=◌ lift
  server_initiator_once-expected a k h initiated =
      (reconcile_as-IsExpected (first (λ p. text_eq p.ip r.listen_address) sync.peers)).at a tt tt h
        k initiated
