-- ===== src/Daemon/Agents.antt =====
-- src/daemon.rs: the connections of agents, what their messages do, and the streams that are opened through
-- them. A connection has a number; the table of agents leads from a user to the connection that is in use,
-- and a connection that was replaced goes on being read.
pub mod Codes
pub mod Leaving
use adbproxy_rs.Base.{
  ℕ, ◌+◌, ◌%◌, ◌^◌, Bool, true, false, not, Option, none, some, List, [], ◌∷◌, ◌++◌, push, ◌==◌,
  if◌then◌else◌, ◌>>=◌,
}
use adbproxy_rs.Text.{Text, Bytes, codes, text_eq}
use adbproxy_rs.Text.Number.{to_decimal}
use adbproxy_rs.Io.{Result, ok, err, IoError, io_error, invalid_data, timed_out}
use adbproxy_rs.Map.ByNumber
use adbproxy_rs.Map.ByNumber.{NumberMap}
use adbproxy_rs.Types.{BackendConfig, DeviceSnapshot}
use adbproxy_rs.Protocol.{write_fail}
use adbproxy_rs.Ipc.{
  IpcMessage, RegisterAgent, OpenPrivateStream, registers, snapshot, snapshot_changed, opens,
  opened, carries, closes, pings, pongs, sanitized_to_snapshot, protocol_version,
}
use adbproxy_rs.Tenant.{
  Uid, TenantRegistry, update_agent_devices, remove_agent, update_shared_from_lists,
}
use adbproxy_rs.Tunnel.{TunnelManager, remove_owner}

pub record OpenOutcome : Type 0 where
  pub success : Bool
  pub fail_reason : Option Text

-- `AgentConn`: the queues toward the clients by stream, the streams whose opening is awaited, and the outcomes
-- that were sent to those that awaited them.
pub record AgentConn : Type 0 where
  pub uid : Uid
  pub instance_token : Text
  pub stream_tx : NumberMap (List Bytes)
  pub open_waiters : NumberMap (Unit {0})
  pub outcomes : NumberMap OpenOutcome

pub record DaemonState : Type 0 where
  pub tenants : TenantRegistry
  pub agents : NumberMap ℕ
  pub conns : NumberMap AgentConn
  pub tunnels : TunnelManager
  pub next_stream_id : ℕ

unfoldable pub new_conn : Uid → Text → AgentConn
new_conn uid token = record {
  uid = uid;
  instance_token = token;
  stream_tx = [];
  open_waiters = [];
  outcomes = [];
}

-- The first message of a connection; an agent of the same user is replaced.
unfoldable pub accept_agent : Uid → ℕ → IpcMessage → DaemonState → Result IoError DaemonState
accept_agent uid number (registers reg) s =
    if reg.version == protocol_version
    then ok (record s {
      agents = ByNumber.insert uid number s.agents;
      conns = ByNumber.insert number (new_conn uid reg.instance_token) s.conns;
    })
    else err (
        io_error invalid_data (
          codes "unsupported agent protocol version "
          ++ (to_decimal reg.version ++ codes " (want 1)")))
accept_agent uid number _ s = err (io_error invalid_data (codes "expected RegisterAgent"))

-- The connection that is in use for the user.
unfoldable pub active_agent : Uid → DaemonState → Option AgentConn
active_agent uid s = do number ← ByNumber.get uid s.agents; ByNumber.get number s.conns

-- Sends the outcome to the stream that waits for it, if one does.
unfoldable pub settle : ℕ → OpenOutcome → AgentConn → AgentConn
settle id outcome c = elim (ByNumber.get id c.open_waiters) [
  | none ↦ c
  | some w ↦ record c {
    open_waiters = ByNumber.remove id c.open_waiters;
    outcomes = ByNumber.insert id outcome c.outcomes;
  }
]

unfoldable pub deliver : ℕ → Bytes → AgentConn → AgentConn
deliver id bytes c = elim (ByNumber.get id c.stream_tx) [
  | none ↦ c
  | some queue ↦ record c { stream_tx = ByNumber.insert id (push queue bytes) c.stream_tx }
]

-- What a message does to its connection.
unfoldable pub conn_after : IpcMessage → AgentConn → AgentConn
conn_after (opened r) c =
    settle r.stream_id (record { success = r.success; fail_reason = r.fail_reason }) c
conn_after (carries stream_id bytes) c = deliver stream_id bytes c
conn_after (closes m) c =
    settle m.stream_id (record { success = false; fail_reason = some m.reason })
      (record c { stream_tx = ByNumber.remove m.stream_id c.stream_tx })
conn_after _ c = c

-- What a message does to the devices of the users.
unfoldable pub tenants_after : IpcMessage → Uid → TenantRegistry → TenantRegistry
tenants_after (snapshot m) uid t = (update_agent_devices t uid (sanitized_to_snapshot m.devices)).0
tenants_after (snapshot_changed m) uid t =
    (update_agent_devices t uid (sanitized_to_snapshot m.devices)).0
tenants_after _ uid t = t

-- What is sent back to the agent.
unfoldable pub reply_to : IpcMessage → List IpcMessage
reply_to pings = pongs ∷ []
reply_to _ = []

-- What one turn of `agent_read_loop` changes.
unfoldable pub receive : ℕ → IpcMessage → DaemonState → DaemonState
receive number msg s = elim (ByNumber.get number s.conns) [
  | none ↦ s
  | some c ↦ record s {
    tenants = tenants_after msg c.uid s.tenants;
    conns = ByNumber.insert number (conn_after msg c) s.conns;
  }
]

-- One turn of `agent_read_loop`, with what it sends.
unfoldable pub agent_turn : ℕ → IpcMessage → DaemonState → DaemonState × List IpcMessage
agent_turn number msg s = (receive number msg s, reply_to msg)

-- The user's agent is gone, with the devices and the tunnels of the user.
unfoldable pub forget_agent : Uid → DaemonState → DaemonState
forget_agent uid s = record s {
  tenants = (remove_agent s.tenants uid).0;
  agents = ByNumber.remove uid s.agents;
  tunnels = remove_owner uid s.tunnels;
}

unfoldable pub forget_if_active : AgentConn → Option AgentConn → DaemonState → DaemonState
forget_if_active c none s = s
forget_if_active c (some current) s =
    if text_eq current.instance_token c.instance_token then forget_agent c.uid s else s

-- The end of `handle_agent`, when the connection cannot be read any more.
unfoldable pub leave : ℕ → DaemonState → DaemonState
leave number s = elim (ByNumber.get number s.conns) [
  | none ↦ s
  | some c ↦
      let s' = forget_if_active c (active_agent c.uid s) s in
      record s' { conns = ByNumber.remove number s'.conns }
]

-- `poll_shared_once`: what the local server lists, or nothing if it cannot be asked.
unfoldable pub poll_shared_once : BackendConfig → Result IoError Text → DaemonState → DaemonState
poll_shared_once backend (ok body) s = record s {
  tenants = (update_shared_from_lists s.tenants ((backend, body) ∷ [])).0;
}
poll_shared_once backend (err e) s = record s {
  tenants = (update_shared_from_lists s.tenants ((backend, []) ∷ [])).0;
}

-- The start of `forward_private`: the refusal of the client, or the number of the stream with the message to
-- the agent.
pub data Opening : Type 0 where
  refused : Bytes → Opening
  asked : (stream_id : ℕ) (number : ℕ) (msg : IpcMessage) → Opening

unfoldable pub await_stream : ℕ → AgentConn → AgentConn
await_stream id c = record c {
  stream_tx = ByNumber.insert id [] c.stream_tx;
  open_waiters = ByNumber.insert id tt c.open_waiters;
}

unfoldable pub ask_agent : ℕ → AgentConn → Text → Text → DaemonState → DaemonState × Opening
ask_agent number c route_id service s =
    let id = s.next_stream_id in
    (
      record s {
        conns = ByNumber.insert number (await_stream id c) s.conns;
        next_stream_id = (id + 1) % 2 ^ 32;
      },
      asked id number (opens (record { stream_id = id; route_id = route_id; service = service })),
    )

unfoldable pub open_stream : Uid → Text → Text → DaemonState → DaemonState × Opening
open_stream uid route_id service s = elim (ByNumber.get uid s.agents) [
  | none ↦ (s, refused (write_fail (codes "device not found")))
  | some number ↦ elim (ByNumber.get number s.conns) [
    | none ↦ (s, refused (write_fail (codes "device not found")))
    | some c ↦ ask_agent number c route_id service s
  ]
]

-- What follows the message: the stream is joined to the client, the client is refused, or the wait was too long.
pub data Opened : Type 0 where
  streaming : Opened
  turned_down : Bytes → Opened
  gave_up : IoError → Opened

unfoldable pub reason_of : Option Text → Text
reason_of none = codes "open failed"
reason_of (some r) = r

-- The outcome, or how the program shows that there was none within ten seconds.
unfoldable pub settle_stream : ℕ → Result Text OpenOutcome → AgentConn → AgentConn × Opened
settle_stream id (err shown) c = (
  record c {
    open_waiters = ByNumber.remove id c.open_waiters;
    stream_tx = ByNumber.remove id c.stream_tx;
  },
  gave_up (io_error timed_out (codes "open private stream failed: " ++ shown)),
)
settle_stream id (ok outcome) c = if outcome.success then (c, streaming) else (
  record c { stream_tx = ByNumber.remove id c.stream_tx },
  turned_down (write_fail (reason_of outcome.fail_reason)),
)
