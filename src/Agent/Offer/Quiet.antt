-- ===== src/Agent/Offer/Quiet.antt =====
-- Threads and failures in `handle_offer` of p2p/wireguard-p2p/linux/p2p_agent.py.
use wireguard_p2p.Base.Dict
use wireguard_p2p.Base.Dict.{Dict}
use wireguard_p2p.Base.Text.{Text}
use wireguard_p2p.Result.{Result}
use wireguard_p2p.Agent.{Agent}
use wireguard_p2p.Agent.Offer.Request.{Offer}
use wireguard_p2p.Agent.Quiet.{Quiet}
