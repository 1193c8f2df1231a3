-- ===== src/Config/File.antt =====
-- src/config.rs: the configuration as a file, its defaults, the old format, and the policy that the
-- hub starts with.
use adbproxy_rs.Base.{ℕ, true, ◌||◌, Option, none, some, List, [], ◌∷◌, ◌++◌, map, if◌then◌else◌}
use adbproxy_rs.Text.{Text, codes, text_eq, is_empty, split_once, starts_with}
use adbproxy_rs.Text.Whitespace.{trim, lines}
use adbproxy_rs.Io.{Result, ok, err, ◌>>=◌, map_err}
use adbproxy_rs.Addr.{SocketAddr, v4, show_addr}
use adbproxy_rs.Types.{BackendConfig}
use adbproxy_rs.Policy.{default_table, to_disabled_entries}
use adbproxy_rs.Config.{
  HubConfig, TomlFile, TomlBackend, Invalid, default_backend_name, HubPolicySnapshot,
  policy_of_config, PolicyFile, ReloadableHubPolicy,
}

-- The defaults of the fields.
abbrev pub default_listen : SocketAddr
default_listen = v4 127 0 0 1 5037

abbrev pub default_poll_ms : ℕ
default_poll_ms = 1000

abbrev pub default_adb_version : ℕ
default_adb_version = 41

abbrev pub default_local_adb_port : ℕ
default_local_adb_port = 5039

unfoldable pub to_toml_backend : BackendConfig → TomlBackend
to_toml_backend b = record {
  name = some b.name;
  addr = show_addr b.addr;
  pair_code = b.pair_code;
  enabled = b.enabled;
}

-- The file that `to_toml_string` prints.
unfoldable pub to_toml_file : HubConfig → TomlFile
to_toml_file c = record {
  listen = show_addr c.listen;
  poll_interval_ms = c.poll_interval;
  adb_version = c.adb_version;
  include_local = c.include_local;
  local_adb_port = c.local_adb_port;
  backend = map to_toml_backend c.backends;
  device = to_disabled_entries c.devices;
}

unfoldable pub local_only : HubConfig
local_only = record {
  listen = default_listen;
  poll_interval = default_poll_ms;
  backends = [];
  adb_version = default_adb_version;
  include_local = true;
  local_adb_port = default_local_adb_port;
  devices = default_table;
  config_path = none;
}

-- The host and the port, as far as they were read.
abbrev pub Legacy : Type 0
Legacy = Option Text × Option Text

unfoldable pub legacy_entry : Text → Text → Legacy → Legacy
legacy_entry key value (host, port) =
    if text_eq key (codes "host")
    then (some value, port)
    else if text_eq key (codes "port")
    then (host, some value)
    else (host, port)

unfoldable pub legacy_line : Text → Legacy → Legacy
legacy_line raw found =
    let line = trim raw in
    if is_empty line || starts_with (codes "#") line then found else elim (split_once b'=' line) [
      | none ↦ found
      | some (key, value) ↦ legacy_entry (trim key) (trim value) found
    ]

unfoldable pub legacy_lines : List Text → Legacy → Legacy
legacy_lines [] found = found
legacy_lines (l ∷ ls) found = legacy_lines ls (legacy_line l found)

-- `found.ok_or_else(…)`.
unfoldable pub or_missing : Text → Option Text → Result Invalid Text
or_missing message none = err message
or_missing message (some s) = ok s

-- Reading an address is left to the standard library.
unfoldable pub from_legacy_adbproxy :
    (Text → Result Text SocketAddr) → Text → Result Invalid HubConfig
from_legacy_adbproxy parse_addr text =
    let (found_host, found_port) = legacy_lines (lines text) (none, none) in
    do
      host ← or_missing (codes "legacy config missing host") found_host
      port ← or_missing (codes "legacy config missing port") found_port
      addr ←
          map_err (λ e. codes "legacy host:port: " ++ e) (parse_addr (host ++ (codes ":" ++ port)))
      ok (record {
        listen = default_listen;
        poll_interval = default_poll_ms;
        backends =
            record {
              name = default_backend_name addr;
              addr = addr;
              pair_code = none;
              enabled = true;
            }
            ∷ [];
        adb_version = default_adb_version;
        include_local = true;
        local_adb_port = default_local_adb_port;
        devices = default_table;
        config_path = none;
      })

-- The policy of the file, if it is read.
unfoldable pub loaded_or : HubPolicySnapshot → Option HubPolicySnapshot → HubPolicySnapshot
loaded_or d none = d
loaded_or d (some p) = p

-- `ReloadableHubPolicy::from_config`; the file is missing if nothing or no file stands at the path.
unfoldable pub from_config : HubConfig → Option PolicyFile → ReloadableHubPolicy
from_config c file =
    let static = policy_of_config c in
    elim c.config_path [
      | none ↦ record { path = none; static_policy = static; mtime = none; policy = static }
      | some path ↦ elim file [
        | none ↦ record { path = some path; static_policy = static; mtime = none; policy = static }
        | some f ↦ record {
          path = some path;
          static_policy = static;
          mtime = f.mtime;
          policy = loaded_or static f.loaded;
        }
      ]
    ]
