-- ===== src/Daemon/Agents/Codes.antt =====
-- That no pair code enters the daemon: in every state that it reaches, no user sees a device with one.
pub mod Clean
use adbproxy_rs.Base.{
  ℕ, ◌≡◌, refl, sym, subst, Bool, true, false, Option, none, some, List, [], ◌∷◌, ◌++◌, ◌+◌, map,
  All, All-append, if◌then◌else◌, ◌==◌, Bool-cases, Option-cases, inl, inr,
}
use adbproxy_rs.Text.{Text, text_eq}
use adbproxy_rs.Text.Whitespace.{lines}
use adbproxy_rs.Io.{Result, ok, err, IoError}
use adbproxy_rs.Map.{Map}
use adbproxy_rs.Map.ByNumber
use adbproxy_rs.Map.ByNumber.{NumberMap, get-remove, get-insert}
use adbproxy_rs.Types.{BackendConfig, DeviceEntry, DeviceSnapshot}
use adbproxy_rs.Registry.{
  Parsed, parse_device_line, parse_lines, parse_lists, count_serials, public_of, entry_of, assign,
  merge_device_lists,
}
use adbproxy_rs.Ipc.{
  IpcMessage, SanitizedDevice, sanitized_entry, sanitized_to_snapshot, protocol_version, registers,
  snapshot, snapshot_changed, opens, opened, carries, closes, pings, pongs,
}
use adbproxy_rs.Tenant.{
  Uid, TenantRegistry, update_shared, update_shared_from_lists, update_agent_devices, remove_agent,
  snapshot_for, private_devices, empty_registry,
}
use adbproxy_rs.Daemon.Agents.{
  AgentConn, DaemonState, accept_agent, tenants_after, receive, forget_agent, forget_if_active,
  active_agent, leave, poll_shared_once, open_stream, ask_agent,
}
use adbproxy_rs.Daemon.Start.{empty_state}
use adbproxy_rs.Daemon.Agents.Codes.Clean.{
  IsClean, receive-IsClean, leave-IsClean, poll-IsClean, open_stream_tenants, SameTenants,
  SameTenants-accept_agent, NoCodes,
}

-- The steps of the daemon, whose shared devices are those of the local backend: an agent is accepted, a message of
-- an agent is received, a connection ends, the local server is polled, and a stream is opened for a client.
pub data Step (local : BackendConfig) : DaemonState → DaemonState → Type 0 where
  accepts :
      (uid number : ℕ) (msg : IpcMessage) (s s' : DaemonState)
      → accept_agent uid number msg s ≡ ok s'
      → Step local s s'
  receives : (number : ℕ) (msg : IpcMessage) (s : DaemonState) → Step local s (receive number msg s)
  ends : (number : ℕ) (s : DaemonState) → Step local s (leave number s)
  polls :
      (answer : Result IoError Text) (s : DaemonState)
      → Step local s (poll_shared_once local answer s)
  opens_stream :
      (uid : Uid) (route_id service : Text) (s : DaemonState)
      → Step local s (open_stream uid route_id service s).0

pub data Reach (local : BackendConfig) (s : DaemonState) : DaemonState → Type 0 where
  here : Reach local s s
  next : {t u : DaemonState} → Reach local s t → Step local t u → Reach local s u

Step-IsClean :
    (local : BackendConfig) {s t : DaemonState}
    → local.pair_code ≡ none
    → Step local s t
    → IsClean s.tenants
    → IsClean t.tenants
Step-IsClean local c (accepts uid number msg s s' e) h =
    subst IsClean (sym (subst (SameTenants s) e (SameTenants-accept_agent uid number msg s))) h
Step-IsClean local c (receives number msg s) h = receive-IsClean number msg s h
Step-IsClean local c (ends number s) h = leave-IsClean number s h
Step-IsClean local c (polls answer s) h = poll-IsClean local answer s c h
Step-IsClean local c (opens_stream uid route_id service s) h =
    subst IsClean (sym (open_stream_tenants uid route_id service s)) h

empty_state-IsClean : IsClean empty_state.tenants
unfolding empty_registry private_devices ByNumber.get
empty_state-IsClean = (tt, λ u. tt)

Reach-IsClean :
    (local : BackendConfig) {t : DaemonState}
    → local.pair_code ≡ none
    → Reach local empty_state t
    → IsClean t.tenants
Reach-IsClean local c here = empty_state-IsClean
Reach-IsClean local c (next r st) = Step-IsClean local c st (Reach-IsClean local c r)

-- In every state that the daemon reaches from its start, in whatever order agents come, speak and go, the local server
-- is polled and clients open streams, no device that any user sees has a pair code, since the local backend
-- has none.
pub snapshot_for-NoCodes :
    (local : BackendConfig) (t : DaemonState) (u : Uid)
    → local.pair_code ≡ none
    → Reach local empty_state t
    → NoCodes (snapshot_for t.tenants u).devices
unfolding snapshot_for
snapshot_for-NoCodes local t u c r =
    let (h, hs) = Reach-IsClean local c r in
    All-append (λ d. d.pair_code ≡ none) t.tenants.shared.devices _ h (hs u)
