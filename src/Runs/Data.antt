-- ===== src/Runs/Data.antt =====
-- Backends, device lists and policies for the runs.
use adbproxy_rs.Io.{err, eof_error}
use adbproxy_rs.Local.{LocalWorld}
use adbproxy_rs.Backend.{Attempt}
use adbproxy_rs.Base.{true, false, none, some, List, [], ◌∷◌}
use adbproxy_rs.Text.{Text, codes}
use adbproxy_rs.Addr.{v4}
use adbproxy_rs.Types.{BackendConfig, DeviceEntry, DeviceSnapshot}
use adbproxy_rs.Policy.{default_table}
use adbproxy_rs.Config.{HubPolicySnapshot}

abbrev pub office : BackendConfig
office = record { name = codes "office"; addr = v4 1 1 1 1 5038; pair_code = none; enabled = true }

abbrev pub lab : BackendConfig
lab = record { name = codes "lab"; addr = v4 2 2 2 2 5038; pair_code = none; enabled = true }

abbrev pub same_serial : List (BackendConfig × Text)
same_serial = (office, codes "SAME\tdevice\n") ∷ (lab, codes "SAME\toffline\n") ∷ []

-- A device of the backend, in the given state.
abbrev pub phone : BackendConfig → Text → Text → Text → DeviceEntry
phone b public upstream state = record {
  public_serial = public;
  upstream_serial = upstream;
  state = state;
  extras = [];
  backend_name = b.name;
  backend_addr = b.addr;
  pair_code = b.pair_code;
  route_id = none;
}

abbrev pub office_same : DeviceEntry
office_same = phone office (codes "office:SAME") (codes "SAME") (codes "device")

abbrev pub lab_pixel : DeviceEntry
lab_pixel = phone lab (codes "PIXEL") (codes "PIXEL") (codes "device")

abbrev pub two_phones : DeviceSnapshot
two_phones = record { devices = office_same ∷ lab_pixel ∷ [] }

-- The lab is off.
abbrev pub no_lab : HubPolicySnapshot
no_lab = record { devices = default_table; backends = (codes "lab", false) ∷ [] }

-- A machine with an adb whose server answers before the hub starts, and a server that cannot be reached.
abbrev pub world : LocalWorld
world = record {
  env_adb = none;
  in_path = some (codes "/usr/bin/adb");
  ready_before = true;
  started = err eof_error;
  ready_in_time = false;
}

abbrev pub silent : Attempt
silent = record {
  connect = err eof_error;
  connect_late = false;
  auth_late = false;
  read_late = false;
}
