-- ===== src/Tests/Coordinators.antt =====
-- The theorems on the coordinator, at concrete tables.
use wireguard_p2p.Base.{ℕ, ◌≡◌, refl, false, [], ◌∷◌, some}
use wireguard_p2p.Base.Dict
use wireguard_p2p.Base.Text.{Text, text}
use wireguard_p2p.Result.{err, os_error}
use wireguard_p2p.Coordinator.{Coordinator, Session}
use wireguard_p2p.Coordinator.Sessions.{Fresh, Answers}
use wireguard_p2p.Coordinator.Expiry.{is_expired, session_reaper}
use wireguard_p2p.Coordinator.Expiry.Reaped.{session_reaper-left}
use wireguard_p2p.Peers.{PeerInfo}
use wireguard_p2p.Tests.Data.{client_info, empty_coordinator}

abbrev pub silent : Answers
silent = record {
  server_ips = [];
  removes = λ ip. false;
  offers = λ ip. err os_error;
  meanwhile = λ c. c;
}

abbrev pub fresh_at : ℕ → Text → Fresh
fresh_at now id = record { now = now; now_ns = now; session_id = id }

-- The same client, behind a new endpoint.
abbrev moved_client : PeerInfo
moved_client = record client_info { endpoint = text "9.9.9.9:41000" }

abbrev session_at : ℕ → Session
session_at seen = record {
  session_id = text "s";
  session_started_ns = 1;
  key = text "client";
  ip = text "10.0.0.9";
  instance_id = [];
  last_seen = seen;
  last_push = [];
  fingerprints = [];
  server_info = [];
  candidates = [];
}

-- One session was last seen at second 1, the other at second 200.
abbrev two_sessions : Coordinator
two_sessions = record empty_coordinator {
  sessions = (text "10.0.0.8", session_at 1000000) ∷ (text "10.0.0.9", session_at 200000000) ∷ [];
}

session_reaper-left_example :
    (Dict.get (text "10.0.0.9") two_sessions.sessions ≡ some (session_at 200000000))
    × (is_expired 300000000 (session_at 200000000) ≡ false)
unfolding session_reaper
session_reaper-left_example =
    session_reaper-left [] (λ ip. false) 300000000 two_sessions (text "10.0.0.9")
      (session_at 200000000) refl
