-- ===== src/Coordinator/Get.antt =====
-- `do_GET` and `send_update_file` of p2p/wireguard-p2p/vps/peers_api.py, up to the statuses and what
-- the answers carry.
pub mod Key
use wireguard_p2p.Base.{
  ℕ, ◌*◌, Bool, true, false, List, [], ◌∷◌, ◌++◌, Option, none, some, ltb, if◌then◌else◌, is_some,
}
use wireguard_p2p.Base.Lists.{length}
use wireguard_p2p.Base.Dict.{Dict}
use wireguard_p2p.Base.Text.{Text, text, text_eq}
use wireguard_p2p.Result.{
  Error, Result, ok, err, permission_error, value_error, key_error, type_error, runtime_error,
  os_error, struct_error, ◌>>=◌,
}
use wireguard_p2p.Peers.{PeerInfo}
use wireguard_p2p.Coordinator.{Coordinator, PushStatus}
use wireguard_p2p.Coordinator.Payload.{peer_payload}
use wireguard_p2p.Coordinator.Updates.{Files, bootstrap_server_key, after_prefix, update_asset_path}

abbrev pub update_max_file_size : ℕ
update_max_file_size = 128 * 1024 * 1024

-- A request, and what the host answers: the servers, the key, the files and the peers.
pub record Get : Type 0 where
  pub path : Text
  pub client_address : Text
  pub server_ips : List Text
  pub notify_key : Option Text
  pub files : Files
  pub is_file : Text → Bool
  pub size_of : Text → Result ℕ
  pub peers : Result (List PeerInfo)
  pub now : ℕ

-- A line of `server_push` in the state of health, without the time of the last logged error.
pub record Health : Type 0 where
  pub peer_count : ℕ
  pub session_count : ℕ
  pub server_push : Dict PushStatus
  pub update_ready : Bool

pub data Answer : Type 0 where
  failed : ℕ → Answer
  server_key : Text → Answer
  asset : Text → Answer
  told : List PeerInfo → Answer
  health : Health → Answer

abbrev pub answer_key : Result Text → Answer
answer_key (ok key) = server_key key
answer_key (err permission_error) = failed 403
answer_key (err other) = failed 503

-- `send_update_file(path)`
abbrev pub send_update_file : Text → Result ℕ → Answer
send_update_file path (err e) = failed 503
send_update_file path (ok size) = if ltb update_max_file_size size then failed 413 else asset path

abbrev pub answer_asset : Get → Result Text → Answer
answer_asset g (err value_error) = failed 400
answer_asset g (err other) = failed 503
answer_asset g (ok path) =
    if g.is_file path then send_update_file path (g.size_of path) else failed 404

abbrev without_log_time : PushStatus → PushStatus
without_log_time s = record s { last_error_log = 0 }

without_log_times : Dict PushStatus → Dict PushStatus
without_log_times [] = []
without_log_times ((ip, s) ∷ d) = (ip, without_log_time s) ∷ without_log_times d

abbrev pub answer_health : Get → Coordinator → Result (List PeerInfo) → Answer
unfolding without_log_times
answer_health g c (err e) = failed 503
answer_health g c (ok peers) = health (record {
  peer_count = length peers;
  session_count = length c.sessions;
  server_push = without_log_times c.push_status;
  update_ready = g.is_file (g.files.update_dir ++ text "/manifest.json");
})

abbrev pub answer_peers : Get → Coordinator → Result (List PeerInfo) → Answer × Coordinator
unfolding peer_payload
answer_peers g c (err e) = (failed 503, c)
answer_peers g c (ok peers) =
    let (described, pruned) = peer_payload g.now peers c in (told described, pruned)

-- The paths behind the first.
unfoldable pub get_other : Get → Coordinator → Answer × Coordinator
unfolding text_eq after_prefix update_asset_path peer_payload without_log_times
get_other g c =
    if is_some (after_prefix (text "/updates/") g.path)
    then (answer_asset g (update_asset_path g.files g.path), c)
    else if text_eq g.path (text "/")
    then answer_peers g c g.peers
    else if text_eq g.path (text "/health")
    then (answer_health g c g.peers, c)
    else (failed 404, c)

-- `do_GET`
unfoldable pub do_get : Get → Coordinator → Answer × Coordinator
unfolding text_eq bootstrap_server_key get_other
do_get g c =
    if text_eq g.path (text "/bootstrap/server-key")
    then (answer_key (bootstrap_server_key g.server_ips g.notify_key g.client_address), c)
    else get_other g c
