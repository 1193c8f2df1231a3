-- ===== src/Daemon/Start.antt =====
-- src/daemon.rs: what the daemon of all users does before it accepts clients, and which clients it accepts.
pub mod Sound
use adbproxy_rs.Base.{
  ℕ, ◌≡◌, refl, Bool, true, false, not, Option, none, some, List, [], ◌∷◌, if◌then◌else◌, arith,
  Bool-cases, inl, inr, append-nil, subst,
}
use adbproxy_rs.Map.ByNumber.{get}
use adbproxy_rs.Text.{Text, Bytes, codes}
use adbproxy_rs.Io.{Result, ok, err, ◌>>=◌, map_err, IoError, io_error, invalid_input, Result-cases}
use adbproxy_rs.Addr.{SocketAddr, v4}
use adbproxy_rs.Types.{BackendConfig, DeviceSnapshot}
use adbproxy_rs.Registry.{merge_device_lists}
use adbproxy_rs.Tenant.{
  Uid, empty_registry, snapshot_for, private_devices, update_shared_from_lists, update_shared,
}
use adbproxy_rs.Backend.{Attempt, fetch_server_version}
use adbproxy_rs.Local.{LocalWorld, LocalAdb, prepare, local_addr}
use adbproxy_rs.Hub.Start.{IsAt, prepare-IsAt}
use adbproxy_rs.Preferred.{local_name}
use adbproxy_rs.Hub.{local_backend, version_or}
use adbproxy_rs.Peercred.{is_loopback}
use adbproxy_rs.Daemon.Agents.{DaemonState, poll_shared_once}

pub data DaemonError : Type 0 where
  io : IoError → DaemonError
  bind : SocketAddr → IoError → DaemonError
  local_adb : IoError → DaemonError
  unsupported_platform : DaemonError

-- The time is in milliseconds.
pub record DaemonConfig : Type 0 where
  pub listen : SocketAddr
  pub local_adb_port : ℕ
  pub include_local : Bool
  pub control_abstract : Text
  pub control_path : Option Text
  pub poll_interval : ℕ
  pub adb_version : ℕ

-- What `run_daemon_with_shutdown` meets before its loop: the server at the local port, its answers about its version and
-- its devices, and the binds of the control socket and of the listen port. The texts are those of the standard library.
pub record DaemonWorld : Type 0 where
  pub supported : Bool
  pub local : LocalWorld
  pub message : Bytes → Text
  pub version : Attempt
  pub devices : Result IoError Text
  pub control : Result IoError (Unit {0})
  pub bound : Result IoError (Unit {0})

-- The daemon when it starts to accept.
pub record Running : Type 0 where
  pub listen : SocketAddr
  pub adb_version : ℕ
  pub backend : Option BackendConfig
  pub state : DaemonState

abbrev pub empty_state : DaemonState
empty_state = record {
  tenants = empty_registry;
  agents = [];
  conns = [];
  tunnels = [];
  next_stream_id = 1;
}

unfoldable pub shared_backend :
    DaemonWorld → DaemonConfig → Result DaemonError (ℕ × Option BackendConfig)
shared_backend w c =
    if c.include_local
    then (do
      local ← map_err local_adb (prepare w.local c.local_adb_port).1
      ok (
        version_or c.adb_version (fetch_server_version w.message w.version none).1,
        some (local_backend local.addr),
      ))
    else ok (c.adb_version, none)

-- The poll before the first client.
unfoldable pub seed_shared : DaemonWorld → Option BackendConfig → DaemonState
seed_shared w none = empty_state
seed_shared w (some backend) = poll_shared_once backend w.devices empty_state

unfoldable pub open_sockets : DaemonWorld → DaemonConfig → Running → Result DaemonError Running
open_sockets w c r = do u ← map_err io w.control; v ← map_err (bind c.listen) w.bound; ok r

unfoldable pub start_daemon : DaemonWorld → DaemonConfig → Result DaemonError Running
start_daemon w c =
    if not w.supported
    then err unsupported_platform
    else if not (is_loopback c.listen)
    then err (io (io_error invalid_input (codes "multi-user daemon must listen on loopback only")))
    else (do
      (v, backend) ← shared_backend w c
      open_sockets w c (record {
        listen = c.listen;
        adb_version = v;
        backend = backend;
        state = seed_shared w backend;
      }))

-- An accepted connection, with what `local_addr` gives for it.
unfoldable pub takes_client : Result IoError SocketAddr → SocketAddr → Bool
takes_client (err e) peer = false
takes_client (ok local) peer = is_loopback peer
