-- ===== src/Lib.antt =====
-- WireGuard P2P: nodes of a WireGuard overlay that find direct paths to each other with the help of a
-- coordinator. Modelled are the Python programs of p2p/wireguard-p2p that carry the protocol.
--
-- The parts and how they interact. The coordinator (vps/peers_api.py) runs on the VPS. It keeps the
-- sessions of the clients, tells every client of its peers, and pushes signed offers and removals to the
-- servers. A server runs the agent (linux/p2p_agent.py), which checks the signature of a push, keeps a
-- state for each peer, points the kernel's WireGuard peer at one candidate endpoint after the other, and
-- promotes the first that answers. Threads of the agent (requests, the monitor, one worker for each
-- probe) share the states under one lock; a generation number tells a worker that it was superseded.
-- Candidates (linux/candidates.py) are what both sides exchange. On a server, the port mapping daemon
-- (linux/portmap_daemon.py with linux/portmap.py) asks the router for a public UDP port and keeps what it
-- was granted in a file, from which the agent reads it as one more candidate.
--
-- Base       texts, dicts, sorting and numbers of Python, as far as the programs use them. A text is a
--            list of code points, a dict an association list in insertion order.
-- Result     exceptions as values; only their classes are modelled, not their messages.
-- Json       decoded JSON. Numbers are integers: the programs read no fractions that matter.
-- Ip         the standard library's ipaddress (CPython 3.11), without scope ids.
-- Candidates p2p/wireguard-p2p/linux/candidates.py. Endpoint: format_endpoint, parse_endpoint and
--            same_private_subnet; Usable: the tests on IPv6 addresses; Gather: gather_candidates;
--            Normalize, Order, Select: normalize_probe_candidate, _dedupe_and_sort and
--            select_probe_candidates. Select/Bounds and Endpoint/Roundtrip are about these.
-- Agent      p2p/wireguard-p2p/linux/p2p_agent.py. Monad: code under STATE_LOCK, as functions from the
--            process state to a result and a state, so that what was written before a raise stays
--            written. Validate: the validators. Session: local_wg_peers, direct_peer_healthy and
--            new_peer_state. Offer, Remove, Monitor: handle_offer, handle_remove and monitor_once.
--            Worker: the locked sections of the two worker threads, and in Run and Confirm the threads
--            as programs that see the clock and the kernel between their sections. Notify: signed
--            notifications. Reflexive, Initiator, Startup, Handler, Health: the remaining decisions.
--            Generation: how sections may change generations, and all interleavings of them (Reach).
--            Invariant: what holds of every state. Frame: which states a request may touch. Quiet: what
--            starts no thread. Triple: conditions before and after such code, used for the rounds of the
--            initiator in Remove/Cleanup and Initiator/Expected.
--            Worker/Run/Ends: the end of the probe thread.
-- Portmap    p2p/wireguard-p2p/linux/portmap.py. Bytes: packets. Gateway: default_gateway_ipv4. Pcp, Natpmp,
--            Upnp: the three exchanges; Pcp/Answered and Natpmp/Answered hold routers that answer in the
--            layouts of the RFCs. Mapper: PortMapper; Mapper/History: an abstract history of leases.
--            Daemon: p2p/wireguard-p2p/linux/portmap_daemon.py, round by round; Daemon/Backed, Rounds,
--            Steady, Reader and Published follow a mapping from the router to the agent.
-- Peers      what the coordinator knows of a peer.
-- Coordinator p2p/wireguard-p2p/vps/peers_api.py. Endpoint, Registry, Payload, Push, Sessions and
--            Expiry follow the file from top to bottom; Updates, Handler and Get are its HTTP handler:
--            update_asset_path and bootstrap_server_key, do_POST, do_GET.
-- Tests      runs on concrete inputs.
--
-- Conventions. Time is in microseconds, session starts in nanoseconds, handshakes and leases of JSON in
-- seconds, as in the source. What the world answers (`wg show`, the clock, HTTP, interfaces, files) is
-- an argument. The n-th call of `wg set` or of save_state succeeds if `works n` says so. Each block
-- under STATE_LOCK is one atomic section; `wg set` inside it is part of it. The keyed hash and the JSON
-- decoder are parameters of Notify and Handler. Loops over lists are structural recursion, so no fuel
-- bounds a run; a thread or a loop is given by the list of what it sees in each of its sections or
-- rounds. Only the decimal printer and the eraser of UUID prefixes recurse on fuel, which is the
-- number or the length of the text itself. UUID texts with signs, blanks or underscores between digits
-- are refused.
--
-- Not modelled: log output, sockets, HTTP servers and thread creation; the XML parser and urljoin;
-- the decoding of bytes that are not ASCII; manage/wireguard-p2p.py and the bootstrap service; the
-- Go client; scripts and units. The concurrent pushes of the coordinator are made one after the
-- other (what other threads do to its tables meanwhile is an argument), and the files of roles are
-- sets of addresses.
pub mod Base
pub mod Portmap
pub mod Result
pub mod Json
pub mod Ip
pub mod Candidates
pub mod Peers
pub mod Agent
pub mod Coordinator
pub mod Tests
