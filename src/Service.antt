-- ===== src/Service.antt =====
-- src/service.rs: the choice between the hub of one user and the daemon with an agent, and the end of those two.
pub mod Ends
use adbproxy_rs.Base.{
  ℕ, Bool, true, false, not, ◌&&◌, ◌||◌, Option, none, some, List, [], ◌∷◌, if◌then◌else◌,
}
use adbproxy_rs.Text.{Text, codes}
use adbproxy_rs.Io.{Result, ok, err, ErrorKind, IoError, io_error, addr_in_use, other}
use adbproxy_rs.Addr.{SocketAddr}
use adbproxy_rs.Config.{HubConfig}
use adbproxy_rs.Hub.{HubError}
use adbproxy_rs.Agent.Start.{AgentError, AgentConfig}
use adbproxy_rs.Daemon.Start.{DaemonError, DaemonConfig, bind}

pub data ServiceError : Type 0 where
  hub : HubError → ServiceError
  daemon : DaemonError → ServiceError
  agent : AgentError → ServiceError
  io : IoError → ServiceError

-- Times are in milliseconds.
pub record ServiceConfig : Type 0 where
  pub listen : SocketAddr
  pub local_adb_port : ℕ
  pub include_local : Bool
  pub poll_interval : ℕ
  pub adb_version : ℕ
  pub hub : HubConfig
  pub control_abstract : Text
  pub control_path : Option Text

abbrev pub default_control_abstract : Text
default_control_abstract = codes "adb-hubd"

unfoldable pub from_hub : HubConfig → ServiceConfig
from_hub c = record {
  listen = c.listen;
  local_adb_port = c.local_adb_port;
  include_local = c.include_local;
  poll_interval = c.poll_interval;
  adb_version = c.adb_version;
  hub = c;
  control_abstract = default_control_abstract;
  control_path = none;
}

-- The configuration that `run_classic_service` starts the hub with.
unfoldable pub classic_hub : ServiceConfig → HubConfig
classic_hub c = record c.hub {
  listen = c.listen;
  local_adb_port = c.local_adb_port;
  include_local = c.include_local;
  poll_interval = c.poll_interval;
  adb_version = c.adb_version;
}

-- `unwrap_or_else(default_config_path)`.
unfoldable pub path_or : Text → Option Text → Text
path_or d none = d
path_or d (some p) = p

unfoldable pub agent_config : Text → ServiceConfig → AgentConfig
agent_config default_path c = record {
  config_path = path_or default_path c.hub.config_path;
  control_abstract = c.control_abstract;
  control_path = c.control_path;
  poll_interval = c.poll_interval;
  inline_backends = some c.hub;
  connect_retries = 50;
  connect_retry_delay = 100;
}

unfoldable pub daemon_config : ServiceConfig → DaemonConfig
daemon_config c = record {
  listen = c.listen;
  local_adb_port = c.local_adb_port;
  include_local = c.include_local;
  control_abstract = c.control_abstract;
  control_path = c.control_path;
  poll_interval = c.poll_interval;
  adb_version = c.adb_version;
}

unfoldable pub is_in_use : IoError → Bool
is_in_use e = elim e.kind [ addr_in_use ↦ true | _ ↦ false ]

-- What the service runs.
pub data Choice : Type 0 where
  classic : HubConfig → Choice
  alone : AgentConfig → Choice
  both : AgentConfig → DaemonConfig → Choice

-- The result is that of the bind to the listen port, which is let go at once.
unfoldable pub shared_service :
    Text → Result IoError (Unit {0}) → ServiceConfig → Result ServiceError Choice
shared_service default_path (ok u) c = ok (both (agent_config default_path c) (daemon_config c))
shared_service default_path (err e) c =
    if is_in_use e then ok (alone (agent_config default_path c)) else err (io e)

-- The flag is `multi_user_supported`.
unfoldable pub run_service :
    Bool → Text → Result IoError (Unit {0}) → ServiceConfig → Result ServiceError Choice
run_service supported default_path bound c =
    if supported then shared_service default_path bound c else ok (classic (classic_hub c))

-- How a task ends: with its result, or, behind a panic, with the text of the error that `await` gives.
abbrev pub Task {ℓ} : Type ℓ → Type ℓ
Task E = Result Text (Result E (Unit {0}))

unfoldable pub result_of {ℓ} :
    {E : Type ℓ} → (E → ServiceError) → Task E → Result ServiceError (Unit {0})
result_of f (ok (ok u)) = ok u
result_of f (ok (err e)) = err (f e)
result_of f (err m) = err (io (io_error other m))

-- `Err(DaemonError::Bind { source, .. })` with a port that is in use.
unfoldable pub lost_port : Task DaemonError → Bool
lost_port (ok (err (bind addr source))) = is_in_use source
lost_port _ = false

-- What the two `select!` meet, in the order in which they take it.
pub data Event : Type 0 where
  shutdown : Event
  agent_ends : Task AgentError → Event
  daemon_ends : Task DaemonError → Event

-- Where the service stands: in the first `select!`, in the second, waiting for the agent and for the daemon, if it
-- does, or behind its end.
pub data Phase : Type 0 where
  choosing continuing : Phase
  waiting : Bool → Bool → Result ServiceError (Unit {0}) → Phase
  returned : Result ServiceError (Unit {0}) → Phase

-- The service beside its tasks: which of them it has told to stop, and which have ended.
pub record Tasks : Type 0 where
  pub phase : Phase
  pub agent_told : Bool
  pub daemon_told : Bool
  pub agent_ended : Bool
  pub daemon_ended : Bool

abbrev pub spawned : Tasks
spawned = record {
  phase = choosing;
  agent_told = false;
  daemon_told = false;
  agent_ended = false;
  daemon_ended = false;
}

abbrev pub note_end : Event → Tasks → Tasks
note_end shutdown s = s
note_end (agent_ends r) s = record s { agent_ended = true }
note_end (daemon_ends r) s = record s { daemon_ended = true }

-- The arms of the first `select!`.
unfoldable pub choose : Event → Tasks → Tasks
choose shutdown s = record s {
  phase = waiting true true (ok tt);
  agent_told = true;
  daemon_told = true;
}
choose (agent_ends r) s = record s {
  phase = waiting false true (result_of agent r);
  daemon_told = true;
}
choose (daemon_ends r) s =
    if lost_port r
    then record s { phase = continuing }
    else record s { phase = waiting true false (result_of daemon r); agent_told = true }

-- The arms of the second.
unfoldable pub continue_alone : Event → Tasks → Tasks
continue_alone shutdown s = record s { phase = waiting true false (ok tt); agent_told = true }
continue_alone (agent_ends r) s = record s { phase = returned (result_of agent r) }
continue_alone (daemon_ends r) s = s

-- The awaits of an arm, one after the other.
unfoldable pub await_tasks : Tasks → Tasks
await_tasks s = elim s.phase [
  | waiting for_agent for_daemon r ↦
      if (not for_agent || s.agent_ended) && (not for_daemon || s.daemon_ended)
      then record s { phase = returned r }
      else s
  | choosing ↦ s
  | continuing ↦ s
  | returned r ↦ s
]

unfoldable pub select_arm : Event → Tasks → Tasks
select_arm e s = elim s.phase [
  | choosing ↦ choose e s
  | continuing ↦ continue_alone e s
  | waiting for_agent for_daemon r ↦ s
  | returned r ↦ s
]

unfoldable pub on_event : Event → Tasks → Tasks
on_event e s = await_tasks (select_arm e (note_end e s))

unfoldable pub run_tasks : List Event → Tasks → Tasks
run_tasks [] s = s
run_tasks (e ∷ es) s = run_tasks es (on_event e s)
