-- ===== src/Agent/Frame/Offers.antt =====
-- The states that `handle_offer` and `handle_remove` of p2p/wireguard-p2p/linux/p2p_agent.py touch.
use wireguard_p2p.Base.{ℕ, ◌≡◌, Bool, false, Option, none, some}
use wireguard_p2p.Base.Dict
use wireguard_p2p.Base.Dict.{Dict}
use wireguard_p2p.Base.Text.{Text, text_eq}
use wireguard_p2p.Result.{Result}
use wireguard_p2p.Agent.{Agent, PeerState, LocalPeer, Controller}
use wireguard_p2p.Agent.Offer.{
  restart_instance, replace_session, preserve_direct, renew_session, enter_session, settle_direct,
  restart_probing, change_signature, refresh_candidates, confirm_direct, give_up_direct,
  keep_direct, claim, claim_probe, launch_claimed, accept_offer, apply_offer,
}
use wireguard_p2p.Agent.Offer.Request.{Offer}
use wireguard_p2p.Agent.Remove.{Removal, preserve, forget, remove_matching, apply_removal}
use wireguard_p2p.Agent.Frame.{
  Local, Local-pure, Local-lift, Local-gets, Local-if, Local-bind, Local-state_of, Local-update,
  Local-bump, Local-assign, Local-delete, Local-wg_set, Local-save_state, Local-launch,
}

ruleset local_rules = (
  Local-pure, Local-lift, Local-gets, Local-if, Local-bind, Local-state_of, Local-update,
  Local-bump, Local-assign, Local-delete, Local-wg_set, Local-save_state, Local-launch,
)

pub claim-Local : (key : Text) → Local key (claim key)
unfolding claim
claim-Local key = search local_rules depth 9

claim_probe-Local : (key : Text) (d : Bool) (now : ℕ) → Local key (claim_probe key d now)
unfolding claim_probe
claim_probe-Local key d now = search (local_rules, claim-Local) depth 9

launch_claimed-Local : (key : Text) (o : Option ℕ) → Local key (launch_claimed key o)
launch_claimed-Local key none = search local_rules
launch_claimed-Local key (some g) = search local_rules

module _ (o : Offer) (l : Option LocalPeer) where
  preserve_direct-Local : Local o.key (preserve_direct o l)
  unfolding preserve_direct
  preserve_direct-Local = search local_rules depth 9

  settle_direct-Local : Local o.key (settle_direct o l)
  unfolding settle_direct
  settle_direct-Local = search local_rules depth 9

  restart_probing-Local : Local o.key (restart_probing o l)
  unfolding restart_probing
  restart_probing-Local = search local_rules depth 9

  confirm_direct-Local : Local o.key (confirm_direct o l)
  unfolding confirm_direct
  confirm_direct-Local = search local_rules depth 9

give_up_direct-Local : (o : Offer) → Local o.key (give_up_direct o)
unfolding give_up_direct
give_up_direct-Local o = search local_rules depth 9

module _ (o : Offer) (now : ℕ) (l : Option LocalPeer) where
  change_signature-Local : Local o.key (change_signature o now l)
  unfolding change_signature
  change_signature-Local = search (local_rules, settle_direct-Local, restart_probing-Local) depth 12

  refresh_candidates-Local : Local o.key (refresh_candidates o now l)
  unfolding refresh_candidates
  refresh_candidates-Local = search (local_rules, change_signature-Local) depth 9

  keep_direct-Local : Local o.key (keep_direct o now l)
  unfolding keep_direct
  keep_direct-Local = search (local_rules, confirm_direct-Local, give_up_direct-Local)

module _ (controller : Controller) (o : Offer) where
  restart_instance-Local : (l : Option LocalPeer) → Local o.key (restart_instance controller o l)
  unfolding restart_instance
  restart_instance-Local l = search local_rules depth 12

  replace_session-Local : (l : Option LocalPeer) → Local o.key (replace_session controller o l)
  unfolding replace_session
  replace_session-Local l = search local_rules depth 9

  renew_session-Local :
      (now : ℕ) (l : Option LocalPeer) → Local o.key (renew_session controller o now l)
  unfolding renew_session
  renew_session-Local now l =
      search (local_rules, preserve_direct-Local, replace_session-Local) depth 9

  enter_session-Local :
      (now : ℕ) (l : Option LocalPeer) (s : Option PeerState)
      → Local o.key (enter_session controller o now l s)
  unfolding enter_session
  enter_session-Local now l none = search local_rules depth 9
  enter_session-Local now l (some s) =
      search (local_rules, restart_instance-Local, renew_session-Local)

  accept_offer-Local :
      (now : ℕ) (l : Option LocalPeer) (s : Option PeerState)
      → Local o.key (accept_offer controller o now l s)
  unfolding accept_offer
  accept_offer-Local now l s =
      search
        (
          local_rules, enter_session-Local, refresh_candidates-Local, keep_direct-Local,
          claim_probe-Local, launch_claimed-Local,
        )
        depth 12

  pub apply_offer-Local :
      (now : ℕ) (peers : Result (Dict LocalPeer)) → Local o.key (apply_offer controller o now peers)
  unfolding apply_offer
  apply_offer-Local now peers = search (local_rules, accept_offer-Local) depth 9

preserve-Local : (key : Text) (l : Option LocalPeer) → Local key (preserve key l)
unfolding preserve
preserve-Local key l = search local_rules depth 9

forget-Local : (key : Text) (b : Bool) → Local key (forget key b)
unfolding forget
forget-Local key b = search local_rules depth 12

module _ (r : Removal) (now : ℕ) (peers : Result (Dict LocalPeer)) where
  remove_matching-Local : Local r.key (remove_matching r now peers)
  unfolding remove_matching
  remove_matching-Local = search (local_rules, preserve-Local, forget-Local) depth 9

  apply_removal-Local : Local r.key (apply_removal r now peers)
  unfolding apply_removal
  apply_removal-Local = search (local_rules, remove_matching-Local)

  -- A removal leaves the state of every other peer as it was, also where the kernel or the disk
  -- fails.
  pub apply_removal-others :
      (a : Agent) (j : Text)
      → text_eq r.key j ≡ false
      → Dict.get j (apply_removal r now peers a).1.states ≡ Dict.get j a.states
  apply_removal-others a = (apply_removal-Local.at a).others

-- An offer leaves the state of every other peer as it was, also where it is refused half way because
-- the kernel or the disk fails.
pub apply_offer-others :
    (c : Controller) (o : Offer) (now : ℕ) (peers : Result (Dict LocalPeer)) (a : Agent) (j : Text)
    → text_eq o.key j ≡ false
    → Dict.get j (apply_offer c o now peers a).1.states ≡ Dict.get j a.states
apply_offer-others c o now peers a = ((apply_offer-Local c o now peers).at a).others
