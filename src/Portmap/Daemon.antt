-- ===== src/Portmap/Daemon.antt =====
-- p2p/wireguard-p2p/linux/portmap_daemon.py: the loop that keeps the mapping and its state file.
pub mod Backed
pub mod Rounds
pub mod Reader
pub mod Steady
pub mod Normal
pub mod Published
use wireguard_p2p.Base.{
  ℕ, ◌+◌, Bool, true, false, not, ◌&&◌, ◌||◌, List, [], ◌∷◌, Option, none, some, ◌==◌,
  if◌then◌else◌, is_some,
}
use wireguard_p2p.Base.Clock.{seconds}
use wireguard_p2p.Base.Int.{ℤ, pos}
use wireguard_p2p.Base.Text.{Text, text_eq, is_empty}
use wireguard_p2p.Base.Text.Decimal.{read_int, strip, all_digits}
use wireguard_p2p.Result.{Result, ok, err, os_error}
use wireguard_p2p.Ip.{Address, is_v4, is_private}
use wireguard_p2p.Ip.Print.{compressed}
use wireguard_p2p.Candidates.{Candidate, to_json}
use wireguard_p2p.Candidates.Gather.{MappedState}
use wireguard_p2p.Portmap.Mapper.{
  Key, PortMapper, new_port_mapper, Network, current_candidate, should_refresh, refresh, Status,
  status,
}

-- The address of the socket; `none` is an OSError.
unfoldable pub local_ipv4 : Option Address → Text
unfolding is_private compressed
local_ipv4 none = []
local_ipv4 (some ip) = if is_v4 ip && is_private ip then compressed ip else []

abbrev int_or_zero : Option ℤ → ℕ
int_or_zero (some (pos n)) = n
int_or_zero _ = 0

-- What `wg show` printed; `none` where it did not run or failed.
unfoldable pub listen_port : Option Text → ℕ
unfolding strip all_digits read_int
listen_port none = 0
listen_port (some out) =
    if not (is_empty (strip out)) && all_digits (strip out)
    then int_or_zero (read_int (strip out))
    else 0

-- The state file: what the agent reads of it, and the rest.
pub record StateFile : Type 0 where
  pub updated_at : ℕ
  pub method : Text
  pub mapped : MappedState

unfoldable pub state_payload : Candidate → Text → ℕ → Status → ℕ → StateFile
unfolding to_json
state_payload candidate internal_ip internal_port reported now = record {
  updated_at = now;
  method = reported.method;
  mapped = record {
    internal_ip = internal_ip;
    internal_port = internal_port;
    expires_at = now + seconds reported.expires_in;
    candidate = to_json candidate;
  };
}

-- Address, port, method and endpoint of what was written last.
pub record Identity : Type 0 where
  pub key : Key
  pub method : Text
  pub endpoint : Text

abbrev pub identity_of : Key → Status → Candidate → Identity
identity_of key now_status candidate = record {
  key = key;
  method = now_status.method;
  endpoint = candidate.endpoint;
}

abbrev pub identity_eq : Identity → Identity → Bool
unfolding text_eq
identity_eq a b =
    text_eq a.key.0 b.key.0
    && a.key.1 == b.key.1
    && text_eq a.method b.method
    && text_eq a.endpoint b.endpoint

pub record Daemon : Type 0 where
  pub mapper : PortMapper
  pub last_written : Option Identity
  pub file : Option StateFile

-- What one round of the loop meets: the socket's address, the output of `wg`, the clock at each
-- call, and whether the file can be written or removed.
pub record Poll : Type 0 where
  pub local : Option Address
  pub port_text : Option Text
  pub asked : ℕ
  pub tested : ℕ
  pub network : Network
  pub reported : ℕ
  pub written : ℕ
  pub writes : Bool
  pub unlinks : Bool

unfoldable pub clear_state : Bool → Daemon → Daemon
clear_state unlinks d = if unlinks then record d { file = none } else d

-- The branches with no candidate.
unfoldable pub withdraw : Poll → Daemon → Daemon
unfolding clear_state
withdraw poll d =
    record (if is_some d.last_written || is_some d.file then clear_state poll.unlinks d else d) {
      last_written = none;
    }

abbrev pub same_as_last : Option Identity → Identity → Bool
unfolding text_eq
same_as_last none identity = false
same_as_last (some last) identity = identity_eq identity last

-- The branch with a candidate.
unfoldable pub publish : Poll → Key → Candidate → Bool → Daemon → Result (Unit {0}) × Daemon
unfolding status state_payload text_eq
publish poll key candidate refreshed d =
    let now_status = status d.mapper poll.reported in
    let identity = identity_of key now_status candidate in
    if refreshed || not (same_as_last d.last_written identity) || not (is_some d.file)
    then (if poll.writes
        then (
          ok tt,
          record d {
            last_written = some identity;
            file = some (state_payload candidate key.0 key.1 now_status poll.written);
          },
        )
        else (err os_error, d))
    else (ok tt, d)

abbrev pub publish_or_withdraw :
    Poll → Key → Option Candidate → Bool → Daemon → Result (Unit {0}) × Daemon
unfolding publish withdraw
publish_or_withdraw poll key none refreshed d = (ok tt, withdraw poll d)
publish_or_withdraw poll key (some candidate) refreshed d = publish poll key candidate refreshed d

-- After `refresh`, whose candidate takes the place of the current one.
abbrev pub after_refresh :
    Poll → Key → Option Candidate → Result (Option Candidate) → Daemon → Result (Unit {0}) × Daemon
unfolding publish withdraw
after_refresh poll key current (err e) d = (err e, d)
after_refresh poll key current (ok none) d = publish_or_withdraw poll key current false d
after_refresh poll key current (ok (some fresh)) d =
    publish_or_withdraw poll key (some fresh) true d

unfoldable pub poll_key : Poll → Key → Daemon → Result (Unit {0}) × Daemon
unfolding current_candidate should_refresh refresh publish withdraw
poll_key poll key d =
    let current = current_candidate d.mapper key poll.asked in
    let renewed = refresh poll.network key.1 key.0 d.mapper in
    if should_refresh d.mapper key poll.tested
    then after_refresh poll key current renewed.0 (record d { mapper = renewed.1 })
    else publish_or_withdraw poll key current false d

-- One round of `main`; an error ends the loop.
unfoldable pub poll_once : Poll → Daemon → Result (Unit {0}) × Daemon
unfolding listen_port is_private compressed poll_key withdraw
poll_once poll d =
    let ip = local_ipv4 poll.local in
    let port = listen_port poll.port_text in
    if not (is_empty ip) && not (port == 0)
    then poll_key poll (ip, port) d
    else (ok tt, withdraw poll d)

abbrev pub then_rounds :
    Result (Unit {0}) × Daemon → (Daemon → Result (Unit {0}) × Daemon) → Result (Unit {0}) × Daemon
then_rounds (err e, d) next = (err e, d)
then_rounds (ok done, d) next = next d

-- The rounds of `main`, from a state file that an earlier run may have left.
unfoldable pub rounds : List Poll → Daemon → Result (Unit {0}) × Daemon
unfolding poll_once
rounds [] d = (ok tt, d)
rounds (poll ∷ polls) d = then_rounds (poll_once poll d) (rounds polls)

abbrev stopped : Bool → Result (Unit {0}) × Daemon → Result (Unit {0}) × Daemon
unfolding clear_state
stopped unlinks (err e, d) = (err e, d)
stopped unlinks (ok done, d) = (ok tt, clear_state unlinks d)

-- The whole loop and the removal of the file behind it.
unfoldable pub run_main : List Poll → Bool → Daemon → Result (Unit {0}) × Daemon
unfolding rounds clear_state
run_main polls unlinks d = stopped unlinks (rounds polls d)

unfoldable pub start : Option StateFile → Daemon
unfolding new_port_mapper
start left = record { mapper = new_port_mapper; last_written = none; file = left }
