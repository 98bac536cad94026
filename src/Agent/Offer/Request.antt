-- ===== src/Agent/Offer/Request.antt =====
-- The checks of an offer in `handle_offer` of p2p/wireguard-p2p/linux/p2p_agent.py, before any state is
-- touched.
pub mod Bounds
use wireguard_p2p.Base.{
  ℕ, ◌+◌, ◌≡◌, refl, Bool, true, false, not, ◌&&◌, ◌||◌, List, [], ◌∷◌, Option, none, some, max,
  min, if◌then◌else◌,
}
use wireguard_p2p.Base.Clock.{seconds}
use wireguard_p2p.Base.Int.{ℤ, pos, negsuc}
use wireguard_p2p.Base.Text.{Text, text, text_eq}
use wireguard_p2p.Base.Text.Decimal.{show}
use wireguard_p2p.Json
use wireguard_p2p.Json.{
  Json, Items, Fields, null, bool, int, str, arr, obj, nil, cons, truthy, to_int, equals_text,
}
use wireguard_p2p.Result.{
  Result, ok, err, type_error, value_error, bind, ◌>>=◌, ◌>>◌, guard, or_raise,
}
use wireguard_p2p.Candidates.{Candidate, to_json}
use wireguard_p2p.Candidates.Endpoint.{same_private_subnet}
use wireguard_p2p.Candidates.Select.{allows_lan, select_probe_candidates, candidate_signature}
use wireguard_p2p.Agent.Validate.{
  require, validate_public_key, validate_peer_ip, validate_session_id, validate_session_started_ns,
  validate_candidates, validate_endpoint,
}
use wireguard_p2p.Agent.Validate.Uuid.{uuid_hex}

-- What is known of an offer that passed the checks.
pub record Offer : Type 0 where
  pub key : Text
  pub peer_ip : Text
  pub session_id : Text
  pub session_started_ns : ℕ
  pub peer_instance_id : Text
  pub candidates : List Candidate
  pub candidate_signature : Text
  pub lease_expires : ℕ

-- `uuid.UUID(str(value)).hex`
unfoldable pub instance_hex : Json → Option Text
unfolding uuid_hex show
instance_hex (str t) = uuid_hex t
instance_hex (int (pos n)) = uuid_hex (show n)
instance_hex (int (negsuc n)) = none
instance_hex null = none
instance_hex (bool b) = none
instance_hex (arr vs) = none
instance_hex (obj fs) = none

-- The instance id of the peer, or the empty text where the offer has none.
read_instance : Json → Result Text
unfolding instance_hex truthy
read_instance v = if truthy v then or_raise (instance_hex v) value_error else ok []

pub legacy_endpoint : Json → Result Text
unfolding validate_endpoint truthy
legacy_endpoint v = if truthy v then validate_endpoint v else ok []

-- The endpoint of the first entry of type lan4.
first_lan4 : Items → Json
unfolding equals_text Json.get
first_lan4 nil = str []
first_lan4 (cons (obj fs) vs) =
    if equals_text (Json.get (text "type") null fs) (text "lan4")
    then Json.get (text "endpoint") (str []) fs
    else first_lan4 vs
first_lan4 (cons _ vs) = first_lan4 vs

abbrev lan4_endpoint : Json → Json
lan4_endpoint (arr vs) = first_lan4 vs
lan4_endpoint _ = str []

-- A peer in our own subnet is probed through its LAN endpoint, whatever the coordinator says.
pub choose_type : Result Text → Json → Json → Result Json
unfolding allows_lan same_private_subnet first_lan4
choose_type lan_ip endpoint_type candidates =
    if allows_lan endpoint_type then ok endpoint_type else do
      ours ← lan_ip
      ok (
          if same_private_subnet ours (lan4_endpoint candidates) 24
          then str (text "LAN")
          else endpoint_type)

abbrev pub to_jsons : List Candidate → List Json
to_jsons [] = []
to_jsons (c ∷ cs) = to_json c ∷ to_jsons cs

-- `float(data.get("lease_expires", now + 120))`, which is in seconds.
pub requested_expiry : ℕ → Option Json → Result ℕ
unfolding to_int
requested_expiry now none = ok (now + seconds 120)
requested_expiry now (some v) = do n ← to_int v; ok (elim n [ pos k ↦ seconds k | negsuc k ↦ 0 ])

-- `min(max(requested, now + 30), now + 180)`
unfoldable pub clamp_lease : ℕ → ℕ → ℕ
clamp_lease now requested = min (max requested (now + seconds 30)) (now + seconds 180)

abbrev pub nonempty : List Candidate → Bool
nonempty [] = false
nonempty (c ∷ cs) = true

-- The fields of an offer before its candidates are selected.
pub record Header : Type 0 where
  pub key : Text
  pub peer_ip : Text
  pub session_id : Text
  pub session_started_ns : ℕ
  pub peer_instance_id : Text

unfoldable pub seal_offer : ℕ → Fields → Header → List Candidate → Result Offer
unfolding candidate_signature requested_expiry clamp_lease bind
seal_offer now fs h candidates = bind (guard (nonempty candidates) value_error) λ u.
    bind (requested_expiry now (Json.lookup (text "lease_expires") fs)) λ requested. ok (record {
      key = h.key;
      peer_ip = h.peer_ip;
      session_id = h.session_id;
      session_started_ns = h.session_started_ns;
      peer_instance_id = h.peer_instance_id;
      candidates = candidates;
      candidate_signature = candidate_signature candidates;
      lease_expires = clamp_lease now requested;
    })

unfoldable pub select_offer : ℕ → Fields → Header → List Candidate → Text → Json → Result Offer
unfolding seal_offer select_probe_candidates to_json bind
select_offer now fs h advertised legacy endpoint_type =
    bind (select_probe_candidates (to_jsons advertised) legacy endpoint_type true)
      (seal_offer now fs h)

unfoldable pub read_header : Text → ℕ → Fields → Result Header
unfolding require validate_public_key validate_peer_ip validate_session_id
    validate_session_started_ns read_instance Json.get
read_header listen_address now fs = do
  key ← validate_public_key (← require (text "peer_key") fs)
  peer_ip ← validate_peer_ip listen_address (← require (text "peer_ip") fs)
  session_id ← validate_session_id (← require (text "session_id") fs)
  started ← validate_session_started_ns now (← require (text "session_started_ns") fs)
  instance_id ← read_instance (Json.get (text "peer_instance_id") null fs)
  ok (record {
    key = key;
    peer_ip = peer_ip;
    session_id = session_id;
    session_started_ns = started;
    peer_instance_id = instance_id;
  })

unfoldable pub read_fields : Text → ℕ → Result Text → Fields → Result Offer
unfolding read_header validate_candidates legacy_endpoint choose_type select_offer Json.get bind
read_fields listen_address now lan_ip fs =
    let listed = Json.get (text "candidates") (arr nil) fs in
    bind (read_header listen_address now fs) λ h. bind (validate_candidates listed) λ advertised.
      bind (legacy_endpoint (Json.get (text "endpoint") null fs)) λ legacy.
        bind (choose_type lan_ip (Json.get (text "endpoint_type") (str (text "WAN")) fs) listed)
          (select_offer now fs h advertised legacy)

-- `lan_ip` is what `local_ipv4()` returns or raises.
unfoldable pub read_offer : Text → ℕ → Result Text → Json → Result Offer
unfolding read_fields
read_offer listen_address now lan_ip (obj fs) = read_fields listen_address now lan_ip fs
read_offer listen_address now lan_ip null = err type_error
read_offer listen_address now lan_ip (bool b) = err type_error
read_offer listen_address now lan_ip (int n) = err type_error
read_offer listen_address now lan_ip (str t) = err type_error
read_offer listen_address now lan_ip (arr vs) = err type_error
