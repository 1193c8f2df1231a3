-- ===== src/Agent.antt =====
-- src/agent.rs: what the agent of a user publishes to the daemon, the routes that it keeps to itself, and how
-- it opens a stream for the daemon. The answer of a backend to a connection is a parameter.
pub mod Routes
pub mod Gate
pub mod Start
use adbproxy_rs.Base.{
  ℕ, ◌+◌, Bool, true, false, Option, none, some, List, [], ◌∷◌, ◌++◌, keep, map, push,
  if◌then◌else◌,
}
use adbproxy_rs.Text.{Text, Bytes, codes, join}
use adbproxy_rs.Io.{Result, ok, err, IoError}
use adbproxy_rs.Addr.{SocketAddr, show_addr}
use adbproxy_rs.Map
use adbproxy_rs.Map.{Map, contains}
use adbproxy_rs.Map.ByNumber
use adbproxy_rs.Map.ByNumber.{NumberMap}
use adbproxy_rs.Types.{BackendConfig, DeviceEntry, DeviceSnapshot}
use adbproxy_rs.Registry.{merge_device_lists}
use adbproxy_rs.Config.{HubConfig, HubPolicySnapshot, filter_snapshot}
use adbproxy_rs.Protocol.{write_service}
use adbproxy_rs.Auth.{authenticate_stream}
use adbproxy_rs.Ipc.{
  IpcMessage, SanitizedDevice, DeviceSnapshotMsg, OpenPrivateStream, snapshot, snapshot_changed,
  opens, opened, carries, closes, pings, pongs, registers,
}

-- The address and the code of a route stay with the agent.
pub record RouteEntry : Type 0 where
  pub addr : SocketAddr
  pub pair_code : Option Text
  pub upstream_serial : Text

code_or_empty : Option Text → Text
code_or_empty none = []
code_or_empty (some code) = code

unfoldable pub backends_fingerprint : List BackendConfig → Text
unfolding code_or_empty
backends_fingerprint backends = join (codes "|") (
    map
      (λ b. b.name ++ (codes "@" ++ (show_addr b.addr ++ (codes "#" ++ code_or_empty b.pair_code))))
      backends)

-- The lists of the backends: empty where a backend is not compatible, or where its poll failed.
unfoldable pub poll_lists :
    List Text
    → (BackendConfig → Result IoError Text)
    → List BackendConfig
    → List (BackendConfig × Text)
poll_lists compatible fetch [] = []
poll_lists compatible fetch (b ∷ bs) =
    let rest = poll_lists compatible fetch bs in
    (b, if contains b.name compatible then elim (fetch b) [ ok body ↦ body | err e ↦ [] ] else [])
    ∷ rest

unfoldable pub route_id_of : DeviceEntry → Text
route_id_of d = d.backend_name ++ (codes ":" ++ d.upstream_serial)

unfoldable pub route_entry : DeviceEntry → RouteEntry
route_entry d = record {
  addr = d.backend_addr;
  pair_code = d.pair_code;
  upstream_serial = d.upstream_serial;
}

unfoldable pub sanitize : DeviceEntry → SanitizedDevice
sanitize d = record {
  public_serial = d.public_serial;
  upstream_serial = d.upstream_serial;
  state = d.state;
  extras = d.extras;
  backend_name = d.backend_name;
  route_id = route_id_of d;
}

-- The routes of the devices, in their order: a later device replaces one of the same route.
unfoldable pub routes_of : Map RouteEntry → List DeviceEntry → Map RouteEntry
routes_of routes [] = routes
routes_of routes (d ∷ ds) = routes_of (Map.insert (route_id_of d) (route_entry d) routes) ds

-- The devices that are published, by the policy that was read.
unfoldable pub visible_devices :
    HubPolicySnapshot
    → List Text
    → (BackendConfig → Result IoError Text)
    → List BackendConfig
    → DeviceSnapshot
visible_devices policy compatible fetch enabled =
    filter_snapshot policy (merge_device_lists (poll_lists compatible fetch enabled))

-- The number and the devices of a round.
unfoldable pub snapshot_msg : ℕ → List DeviceEntry → DeviceSnapshotMsg
snapshot_msg generation ds = record { generation = generation + 1; devices = map sanitize ds }

-- The routes and the message of one round, from the configuration and the policy that were read on.
unfoldable pub refresh_and_publish :
    HubConfig
    → HubPolicySnapshot
    → List Text
    → (BackendConfig → Result IoError Text)
    → ℕ
    → Bool
    → Map RouteEntry × IpcMessage
refresh_and_publish config policy compatible fetch generation changed =
    let devices =
      (visible_devices policy compatible fetch (keep (λ b. b.enabled) config.backends)).devices in
    (
      routes_of [] devices,
      if changed
          then snapshot_changed (snapshot_msg generation devices)
          else snapshot (snapshot_msg generation devices),
    )

-- The state of the agent, with the streams that lead to backends.
pub record AgentState : Type 0 where
  pub routes : Map RouteEntry
  pub streams : NumberMap (List Bytes)

unfoldable pub open_failed : ℕ → Text → IpcMessage
open_failed id reason =
    opened (record { stream_id = id; success = false; fail_reason = some reason })

unfoldable pub open_done : ℕ → IpcMessage
open_done id = opened (record { stream_id = id; success = true; fail_reason = none })

-- What a round of opening a stream leaves: the state, what is sent to the backend, and the message back.
pub record Attempt : Type 0 where
  pub after : AgentState
  pub to_backend : Bytes
  pub answer : IpcMessage

unfoldable pub joined_stream : OpenPrivateStream → Bytes → AgentState → Attempt
joined_stream req sent s = record {
  after = record s { streams = ByNumber.insert req.stream_id [] s.streams };
  to_backend = sent ++ write_service req.service;
  answer = open_done req.stream_id;
}

-- From the connection to the backend on, which sends the bytes.
unfoldable pub attempt_stream : OpenPrivateStream → Option Text → Bytes → AgentState → Attempt
attempt_stream req none stream s = joined_stream req [] s
attempt_stream req (some code) stream s =
    let (sent, result) = authenticate_stream code stream in
    elim result [
      | err e ↦ record {
        after = s;
        to_backend = sent;
        answer = open_failed req.stream_id (codes "auth failed: " ++ e.message);
      }
      | ok rest ↦ joined_stream req sent s
    ]

unfoldable pub connect_stream :
    (SocketAddr → Result IoError Bytes) → OpenPrivateStream → RouteEntry → AgentState → Attempt
connect_stream connect req route s = elim (connect route.addr) [
  | err e ↦ record {
    after = s;
    to_backend = [];
    answer = open_failed req.stream_id (codes "connect: " ++ e.message);
  }
  | ok stream ↦ attempt_stream req route.pair_code stream s
]

unfoldable pub agent_open_stream :
    (SocketAddr → Result IoError Bytes) → OpenPrivateStream → AgentState → Attempt
agent_open_stream connect req s = elim (Map.get req.route_id s.routes) [
  | none ↦ record {
    after = s;
    to_backend = [];
    answer = open_failed req.stream_id (codes "unknown route_id");
  }
  | some route ↦ connect_stream connect req route s
]

-- The new state and what is sent to the daemon for one of its messages.
unfoldable pub handle_daemon_message :
    (SocketAddr → Result IoError Bytes) → IpcMessage → AgentState → AgentState × List IpcMessage
handle_daemon_message connect pings s = (s, pongs ∷ [])
handle_daemon_message connect (opens req) s =
    let attempt = agent_open_stream connect req s in (attempt.after, attempt.answer ∷ [])
handle_daemon_message connect (carries stream_id bytes) s =
    elim (ByNumber.get stream_id s.streams) [
      | none ↦ (s, [])
      | some queue ↦
          (record s { streams = ByNumber.insert stream_id (push queue bytes) s.streams }, [])
    ]
handle_daemon_message connect (closes m) s =
    (record s { streams = ByNumber.remove m.stream_id s.streams }, [])
handle_daemon_message connect _ s = (s, [])
