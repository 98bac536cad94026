-- ===== src/Agent/Invariant/Offers.antt =====
-- The rules as one set, and the invariant in the sections of `handle_offer` of
-- p2p/wireguard-p2p/linux/p2p_agent.py.
use wireguard_p2p.Base.{refl, arith, [], ℕ, Bool, Option, none, some}
use wireguard_p2p.Base.Dict.{Dict}
use wireguard_p2p.Base.Text.{Text}
use wireguard_p2p.Json.{Json}
use wireguard_p2p.Result.{Result}
use wireguard_p2p.Agent.{PeerState, LocalPeer, Controller}
use wireguard_p2p.Agent.Offer.{
  restart_instance, replace_session, preserve_direct, renew_session, enter_session, settle_direct,
  restart_probing, change_signature, refresh_candidates, confirm_direct, give_up_direct, adopt,
  keep_direct, claim, claim_probe, launch_claimed, accept_offer, apply_offer, handle_offer,
}
use wireguard_p2p.Agent.Offer.Request.{Offer, read_offer}
use wireguard_p2p.Agent.Offer.Request.Bounds.{IsSound, read_offer-Ensures}
use wireguard_p2p.Agent.Session.{new_peer_state}
use wireguard_p2p.Candidates.Select.Bounds.{IsPlan}
use wireguard_p2p.Agent.Invariant.{
  Keeps, Sane, Keeps-checked, Keeps-pure, Keeps-lift, Keeps-gets, Keeps-if, Keeps-catch, Keeps-bind,
  Keeps-state_of, Keeps-update, Keeps-bump, Keeps-assign, Keeps-delete, Keeps-wg_set,
  Keeps-save_state, Keeps-launch,
}

pub ruleset keeps_rules = (
  Keeps-pure, Keeps-lift, Keeps-gets, Keeps-if, Keeps-catch, Keeps-bind, Keeps-state_of,
  Keeps-update, Keeps-bump, Keeps-assign, Keeps-delete, Keeps-wg_set, Keeps-save_state,
  Keeps-launch,
)

pub claim-Keeps : (key : Text) → Keeps (claim key)
unfolding claim
claim-Keeps key = search keeps_rules depth 9

claim_probe-Keeps : (key : Text) (d : Bool) (now : ℕ) → Keeps (claim_probe key d now)
unfolding claim_probe
claim_probe-Keeps key d now = search (keeps_rules, claim-Keeps) depth 9

launch_claimed-Keeps : (key : Text) (o : Option ℕ) → Keeps (launch_claimed key o)
launch_claimed-Keeps key none = search keeps_rules
launch_claimed-Keeps key (some g) = search keeps_rules

module _ (o : Offer) (l : Option LocalPeer) where
  preserve_direct-Keeps : Keeps (preserve_direct o l)
  unfolding preserve_direct
  preserve_direct-Keeps = search keeps_rules depth 9

  settle_direct-Keeps : Keeps (settle_direct o l)
  unfolding settle_direct
  settle_direct-Keeps = search keeps_rules depth 9

  restart_probing-Keeps : Keeps (restart_probing o l)
  unfolding restart_probing
  restart_probing-Keeps = search keeps_rules depth 9

  confirm_direct-Keeps : Keeps (confirm_direct o l)
  unfolding confirm_direct
  confirm_direct-Keeps = search keeps_rules depth 9

give_up_direct-Keeps : (o : Offer) → Keeps (give_up_direct o)
unfolding give_up_direct
give_up_direct-Keeps o = search keeps_rules depth 9

no_candidates-IsPlan : IsPlan []
no_candidates-IsPlan = record { short = omega arith; ordered = tt; distinct = tt }

new_peer_state-Sane :
    (ip id : Text) (started : ℕ) (c : Controller) (instance_ : Text) (n : ℕ)
    → Sane (new_peer_state ip id started c instance_ n)
unfolding new_peer_state
new_peer_state-Sane ip id started c instance_ n = (refl, no_candidates-IsPlan)

adopt-Sane : (c : Controller) (o : Offer) (s : PeerState) → Sane s → Sane (adopt c o s)
adopt-Sane c o s h = (refl, h.1)

module _ (o : Offer) (plan : IsPlan o.candidates) (now : ℕ) (l : Option LocalPeer) where
  offered-Sane : (s : PeerState) → Sane s → Sane (record s { candidates = o.candidates })
  offered-Sane s h = (h.0, plan)

  change_signature-Keeps : Keeps (change_signature o now l)
  unfolding change_signature
  change_signature-Keeps = search (keeps_rules, settle_direct-Keeps, restart_probing-Keeps) depth 12

  refresh_candidates-Keeps : Keeps (refresh_candidates o now l)
  unfolding refresh_candidates
  refresh_candidates-Keeps = search (keeps_rules, change_signature-Keeps, offered-Sane) depth 9

  keep_direct-Keeps : Keeps (keep_direct o now l)
  unfolding keep_direct
  keep_direct-Keeps = search (keeps_rules, confirm_direct-Keeps, give_up_direct-Keeps)

module _ (controller : Controller) (o : Offer) where
  restart_instance-Keeps : (l : Option LocalPeer) → Keeps (restart_instance controller o l)
  unfolding restart_instance
  restart_instance-Keeps l = search (keeps_rules, new_peer_state-Sane) depth 12

  replace_session-Keeps : (l : Option LocalPeer) → Keeps (replace_session controller o l)
  unfolding replace_session
  replace_session-Keeps l = search (keeps_rules, new_peer_state-Sane) depth 9

  renew_session-Keeps : (now : ℕ) (l : Option LocalPeer) → Keeps (renew_session controller o now l)
  unfolding renew_session
  renew_session-Keeps now l =
      search (keeps_rules, preserve_direct-Keeps, replace_session-Keeps) depth 9

  enter_session-Keeps :
      (now : ℕ) (l : Option LocalPeer) (s : Option PeerState)
      → Keeps (enter_session controller o now l s)
  unfolding enter_session
  enter_session-Keeps now l none = search (keeps_rules, new_peer_state-Sane) depth 9
  enter_session-Keeps now l (some s) =
      search (keeps_rules, restart_instance-Keeps, renew_session-Keeps)

  accept_offer-Keeps :
      IsPlan o.candidates
      → (now : ℕ) (l : Option LocalPeer) (s : Option PeerState)
      → Keeps (accept_offer controller o now l s)
  unfolding accept_offer
  accept_offer-Keeps plan now l s =
      search
        (
          keeps_rules, enter_session-Keeps, refresh_candidates-Keeps, keep_direct-Keeps,
          claim_probe-Keeps, launch_claimed-Keeps, adopt-Sane,
        )
        depth 12

  pub apply_offer-Keeps :
      IsPlan o.candidates
      → (now : ℕ) (peers : Result (Dict LocalPeer)) → Keeps (apply_offer controller o now peers)
  unfolding apply_offer
  apply_offer-Keeps plan now peers = search (keeps_rules, accept_offer-Keeps) depth 9

pub handle_offer-Keeps :
    (controller : Controller) (listen_address : Text) (now : ℕ) (lan_ip : Result Text)
    (peers : Result (Dict LocalPeer)) (data_ : Json)
    → Keeps (handle_offer controller listen_address now lan_ip peers data_)
unfolding handle_offer
handle_offer-Keeps controller listen_address now lan_ip peers data_ =
    Keeps-checked (IsSound now) (read_offer listen_address now lan_ip data_) _
      (read_offer-Ensures listen_address now lan_ip data_)
      λ o p. apply_offer-Keeps controller o p.plan now peers
