-- ===== src/Agent/Generation/Rules.antt =====
-- The rules as one set, and generations in the sections of `handle_offer` of
-- p2p/wireguard-p2p/linux/p2p_agent.py.
use wireguard_p2p.Base.{ℕ, Bool, Option, none, some}
use wireguard_p2p.Base.Dict.{Dict}
use wireguard_p2p.Base.Text.{Text}
use wireguard_p2p.Json.{Json}
use wireguard_p2p.Result.{Result}
use wireguard_p2p.Agent.{PeerState, LocalPeer, Controller}
use wireguard_p2p.Agent.Offer.{
  restart_instance, replace_session, preserve_direct, renew_session, enter_session, settle_direct,
  restart_probing, change_signature, refresh_candidates, confirm_direct, give_up_direct,
  keep_direct, claim, claim_probe, launch_claimed, accept_offer, apply_offer, handle_offer,
}
use wireguard_p2p.Agent.Offer.Request.{Offer}
use wireguard_p2p.Agent.Generation.{
  Steady, Steady-pure, Steady-raise, Steady-lift, Steady-gets, Steady-if, Steady-catch, Steady-bind,
  Steady-state_of, Steady-update, Steady-next_generation, Steady-bump, Steady-assign, Steady-delete,
  Steady-wg_set, Steady-save_state, Steady-launch,
}

pub ruleset steady_rules = (
  Steady-pure, Steady-raise, Steady-lift, Steady-gets, Steady-if, Steady-catch, Steady-bind,
  Steady-state_of, Steady-update, Steady-next_generation, Steady-bump, Steady-assign, Steady-delete,
  Steady-wg_set, Steady-save_state, Steady-launch,
)

pub claim-Steady : (key : Text) → Steady (claim key)
unfolding claim
claim-Steady key = search steady_rules depth 9

claim_probe-Steady : (key : Text) (d : Bool) (now : ℕ) → Steady (claim_probe key d now)
unfolding claim_probe
claim_probe-Steady key d now = search (steady_rules, claim-Steady) depth 9

launch_claimed-Steady : (key : Text) (o : Option ℕ) → Steady (launch_claimed key o)
launch_claimed-Steady key none = search steady_rules
launch_claimed-Steady key (some g) = search steady_rules

module _ (o : Offer) (l : Option LocalPeer) where
  preserve_direct-Steady : Steady (preserve_direct o l)
  unfolding preserve_direct
  preserve_direct-Steady = search steady_rules depth 9

  settle_direct-Steady : Steady (settle_direct o l)
  unfolding settle_direct
  settle_direct-Steady = search steady_rules depth 9

  restart_probing-Steady : Steady (restart_probing o l)
  unfolding restart_probing
  restart_probing-Steady = search steady_rules depth 9

  confirm_direct-Steady : Steady (confirm_direct o l)
  unfolding confirm_direct
  confirm_direct-Steady = search steady_rules depth 9

give_up_direct-Steady : (o : Offer) → Steady (give_up_direct o)
unfolding give_up_direct
give_up_direct-Steady o = search steady_rules depth 9

module _ (o : Offer) (now : ℕ) (l : Option LocalPeer) where
  change_signature-Steady : Steady (change_signature o now l)
  unfolding change_signature
  change_signature-Steady =
      search (steady_rules, settle_direct-Steady, restart_probing-Steady) depth 12

  refresh_candidates-Steady : Steady (refresh_candidates o now l)
  unfolding refresh_candidates
  refresh_candidates-Steady = search (steady_rules, change_signature-Steady) depth 9

  keep_direct-Steady : Steady (keep_direct o now l)
  unfolding keep_direct
  keep_direct-Steady = search (steady_rules, confirm_direct-Steady, give_up_direct-Steady)

module _ (controller : Controller) (o : Offer) where
  restart_instance-Steady : (l : Option LocalPeer) → Steady (restart_instance controller o l)
  unfolding restart_instance
  restart_instance-Steady l = search steady_rules depth 12

  replace_session-Steady : (l : Option LocalPeer) → Steady (replace_session controller o l)
  unfolding replace_session
  replace_session-Steady l = search steady_rules depth 9

  renew_session-Steady :
      (now : ℕ) (l : Option LocalPeer) → Steady (renew_session controller o now l)
  unfolding renew_session
  renew_session-Steady now l =
      search (steady_rules, preserve_direct-Steady, replace_session-Steady) depth 9

  enter_session-Steady :
      (now : ℕ) (l : Option LocalPeer) (s : Option PeerState)
      → Steady (enter_session controller o now l s)
  unfolding enter_session
  enter_session-Steady now l none = search steady_rules depth 9
  enter_session-Steady now l (some s) =
      search (steady_rules, restart_instance-Steady, renew_session-Steady)

  accept_offer-Steady :
      (now : ℕ) (l : Option LocalPeer) (s : Option PeerState)
      → Steady (accept_offer controller o now l s)
  unfolding accept_offer
  accept_offer-Steady now l s =
      search
        (
          steady_rules, enter_session-Steady, refresh_candidates-Steady, keep_direct-Steady,
          claim_probe-Steady, launch_claimed-Steady,
        )
        depth 12

  pub apply_offer-Steady :
      (now : ℕ) (peers : Result (Dict LocalPeer)) → Steady (apply_offer controller o now peers)
  unfolding apply_offer
  apply_offer-Steady now peers = search (steady_rules, accept_offer-Steady) depth 9

pub handle_offer-Steady :
    (controller : Controller) (listen_address : Text) (now : ℕ) (lan_ip : Result Text)
    (peers : Result (Dict LocalPeer)) (data_ : Json)
    → Steady (handle_offer controller listen_address now lan_ip peers data_)
unfolding handle_offer
handle_offer-Steady controller listen_address now lan_ip peers data_ =
    search (steady_rules, apply_offer-Steady)
