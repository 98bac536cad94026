-- ===== src/Agent/Worker/Superseded.antt =====
-- Workers of p2p/wireguard-p2p/linux/p2p_agent.py that no longer own their peer.
use wireguard_p2p.Base.Dict
use wireguard_p2p.Base.Dict.{Dict}
use wireguard_p2p.Base.Text.{Text}
use wireguard_p2p.Agent.{Agent}
use wireguard_p2p.Agent.Generation.Reach.{Reach}
