-- ===== src/Runs/Services.antt =====
-- The start of the daemon and the end of the service, at concrete inputs.
use adbproxy_rs.Base.{◌≡◌, ◌&&◌, ◌||◌, not, true, false, List, [], ◌∷◌, refl, some, none}
use adbproxy_rs.Text.{codes}
use adbproxy_rs.Io.{ok, err, io_error, addr_in_use}
use adbproxy_rs.Addr.{v4}
use adbproxy_rs.Local.{prepare, find_adb, from_path, reuse_or_start, local_addr}
use adbproxy_rs.Backend.{fetch_server_version, query, connect_backend, timeout}
use adbproxy_rs.Hub.{local_backend, version_or}
use adbproxy_rs.Peercred.{is_loopback}
use adbproxy_rs.Tenant.{Uid, snapshot_for}
use adbproxy_rs.Daemon.Start.{
  bind, DaemonWorld, DaemonConfig, Running, start_daemon, shared_backend, open_sockets, seed_shared,
}
use adbproxy_rs.Daemon.Start.Sound.{backend_at, first_devices, start_daemon_sound}
use adbproxy_rs.Runs.Data.{world, silent}
use adbproxy_rs.Service.{
  Event, shutdown, agent_ends, daemon_ends, run_tasks, spawned, returned, on_event, select_arm,
  await_tasks, choose, continue_alone, lost_port, is_in_use,
}
use adbproxy_rs.Service.Ends.{is_returned, asks_shutdown, fails_lost, run_tasks_ends}

-- Another hub takes the port, and the service goes on with the agent until it is told to stop.
abbrev overtaken : List Event
overtaken =
    daemon_ends (ok (err (bind (v4 127 0 0 1 5037) (io_error addr_in_use (codes "in use")))))
    ∷ shutdown
    ∷ agent_ends (ok (ok tt))
    ∷ []

overtaken_returns : (run_tasks overtaken spawned).phase ≡ returned (ok tt)
unfolding run_tasks on_event select_arm await_tasks choose continue_alone lost_port is_in_use
overtaken_returns = refl

run_tasks_ends_example :
    let s = run_tasks overtaken spawned in
    (is_returned s.phase ≡ (s.agent_ended && s.daemon_ended))
    × ((not (asks_shutdown overtaken)
          || ((s.agent_ended || s.agent_told) && (s.daemon_ended || s.daemon_told)))
        ≡ true)
    × (fails_lost s.phase ≡ false)
run_tasks_ends_example = run_tasks_ends overtaken

abbrev meets : DaemonWorld
meets = record {
  supported = true;
  local = world;
  message = λ s. [];
  version = silent;
  devices = ok (codes "P1\tdevice\n");
  control = ok tt;
  bound = ok tt;
}

abbrev shared_config : DaemonConfig
shared_config = record {
  listen = v4 127 0 0 1 5037;
  local_adb_port = 5039;
  include_local = true;
  control_abstract = codes "adb-hubd";
  control_path = none;
  poll_interval = 1000;
  adb_version = 41;
}

abbrev daemon_runs : Running
daemon_runs = record {
  listen = v4 127 0 0 1 5037;
  adb_version = 41;
  backend = some (local_backend (local_addr 5039));
  state = seed_shared meets (some (local_backend (local_addr 5039)));
}

daemon_starts : start_daemon meets shared_config ≡ ok daemon_runs
unfolding start_daemon shared_backend open_sockets is_loopback version_or prepare find_adb from_path
    reuse_or_start local_addr fetch_server_version query connect_backend timeout
daemon_starts = refl

start_daemon_sound_example :
    (daemon_runs.listen ≡ shared_config.listen)
    × (is_loopback shared_config.listen ≡ true)
    × (daemon_runs.backend ≡ backend_at shared_config)
    × ((uid : Uid)
        → (snapshot_for daemon_runs.state.tenants uid).devices
          ≡ (first_devices meets.devices daemon_runs.backend).devices)
start_daemon_sound_example = start_daemon_sound meets shared_config daemon_starts
