-- ===== src/Tests/Posts.antt =====
-- The theorems on the requests to the coordinator, at one small network.
use wireguard_p2p.Base.{◌≡◌, refl, false, List, [], ◌∷◌, ◌++◌, none, some}
use wireguard_p2p.Base.Text.{Text, text}
use wireguard_p2p.Json.{Json, null, int, str, obj, field, end}
use wireguard_p2p.Base.Int.{pos}
use wireguard_p2p.Result.{ok}
use wireguard_p2p.Peers.{PeerInfo, relay_only}
use wireguard_p2p.Coordinator.Handler.{Post, do_post, read_post, peers_of, find_source_peer}
use wireguard_p2p.Coordinator.Handler.Bystander.{IsUntouched, do_post-bystander}
use wireguard_p2p.Coordinator.Handler.Rejected.{IsSpared, do_post-rejected}
use wireguard_p2p.Coordinator.Handler.Named.{IsNamed, session_of, do_post-IsNamed, do_post-started}
use wireguard_p2p.Coordinator.Updates.{Files, update_asset_path}
use wireguard_p2p.Coordinator.Updates.Inside.{IsInside, update_asset_path-IsInside}
use wireguard_p2p.Coordinator.Get.{Get, do_get}
use wireguard_p2p.Coordinator.Get.Key.{IsEarned, do_get-IsEarned}
use wireguard_p2p.Tests.Data.{empty_coordinator}
use wireguard_p2p.Tests.Coordinators.{silent, fresh_at}

-- A client of the interface and its announcement.
abbrev dump_text : Text
dump_text =
    text "private\tpublic\t51820\toff\n"
    ++ text "client\t(none)\t9.9.9.9:40000\t10.0.0.9/32\t5\t0\t0\toff\n"

abbrev announcement : Json
announcement = obj (
    field (text "lan_ip") (str (text "192.168.1.10"))
      (field (text "listen_port") (int (pos 51820)) end))

abbrev post_from : Text → List Text → Json → Post
post_from address relays payload = record {
  path = text "/announce";
  client_address = address;
  content_length = text "60";
  payload = ok payload;
  dump = ok dump_text;
  relay_only_ips = relays;
  now = 5;
  fresh = fresh_at 5 (text "first");
  answers = silent;
  after_session = λ c. c;
  after_peers = λ c. c;
}

abbrev client_text : Text
client_text = text "10.0.0.9"

-- The peer, where it is registered as one that only relays.
abbrev relay_peer : PeerInfo
relay_peer = record {
  key = text "client";
  ip = client_text;
  role = relay_only;
  endpoint = text "9.9.9.9:40000";
  latest_handshake = 5;
  lan_endpoint = [];
  instance_id = [];
  candidates = [];
}

relay_post :
    read_post (post_from client_text (client_text ∷ []) announcement)
    ≡ ok (announcement, relay_peer ∷ [])
unfolding read_post peers_of
relay_post = refl

do_post-bystander_example :
    IsUntouched empty_coordinator
      (do_post (post_from client_text (client_text ∷ []) announcement) empty_coordinator).1
unfolding find_source_peer
do_post-bystander_example =
    do_post-bystander (post_from client_text (client_text ∷ []) announcement) empty_coordinator
      announcement (relay_peer ∷ []) relay_post refl

-- A body that is not an object.
do_post-rejected_example :
    IsSpared
      (text "10.0.0.8")
      empty_coordinator
      (do_post (post_from client_text [] null) empty_coordinator).1
unfolding do_post
do_post-rejected_example =
    do_post-rejected (post_from client_text [] null) (text "10.0.0.8") empty_coordinator refl refl

do_post-IsNamed_example :
    IsNamed client_text
      (do_post (post_from client_text [] announcement) empty_coordinator).1
      (session_of (do_post (post_from client_text [] announcement) empty_coordinator).0)
unfolding do_post
do_post-IsNamed_example =
    do_post-IsNamed (post_from client_text [] announcement) empty_coordinator (λ d. refl)
      (λ d. refl) (λ d. refl) refl

do_post-started_example :
    IsNamed client_text
      (do_post (post_from client_text [] announcement) empty_coordinator).1
      (session_of (do_post (post_from client_text [] announcement) empty_coordinator).0)
unfolding do_post
do_post-started_example =
    do_post-started (post_from client_text [] announcement) empty_coordinator 5 refl

-- Another thread closes the sessions behind `coordinate_client`: the answer gives no start.
raced_post :
    (session_of
      (do_post
        (record (post_from client_text [] announcement) {
          after_session = λ c. record c { sessions = [] };
        })
        empty_coordinator).0).1
    ≡ none
unfolding do_post
raced_post = refl

-- No links, and only ASCII.
abbrev plain_files : Files
plain_files = record {
  decode = λ bytes. bytes;
  update_dir = text "/var/updates";
  realpath = λ path. path;
}

update_asset_path-IsInside_example :
    IsInside plain_files (text "/updates/manifest%2Ejson?v=2") (text "/var/updates/manifest.json")
unfolding update_asset_path
update_asset_path-IsInside_example =
    update_asset_path-IsInside plain_files (text "/updates/manifest%2Ejson?v=2")
      (text "/var/updates/manifest.json") refl

abbrev long_key : Text
long_key = text "0123456789abcdef0123456789abcdef"

abbrev key_request : Get
key_request = record {
  path = text "/bootstrap/server-key";
  client_address = client_text;
  server_ips = client_text ∷ [];
  notify_key = some long_key;
  files = plain_files;
  is_file = λ path. false;
  size_of = λ path. ok 0;
  peers = ok [];
  now = 5;
}

do_get-IsEarned_example : IsEarned key_request (long_key ++ 10 ∷ [])
unfolding do_get
do_get-IsEarned_example = do_get-IsEarned key_request empty_coordinator (long_key ++ 10 ∷ []) refl
