-- ===== src/Peers.antt =====
-- A peer as the coordinator (p2p/wireguard-p2p/vps/peers_api.py) describes it to the nodes.
use wireguard_p2p.Base.{ℕ, Bool, true, false, List}
use wireguard_p2p.Base.Text.{Text}
use wireguard_p2p.Candidates.{Candidate}

pub data Role : Type 0 where
  relay_only server client : Role

abbrev pub is_server : Role → Bool
is_server server = true
is_server relay_only = false
is_server client = false

pub record PeerInfo : Type 0 where
  pub key : Text
  pub ip : Text
  pub role : Role
  pub endpoint : Text
  pub latest_handshake : ℕ
  pub lan_endpoint : Text
  pub instance_id : Text
  pub candidates : List Candidate
