-- ===== src/Cli.antt =====
-- src/bin/adb-hub.rs: the commands that change the configuration, and the configuration of a run.
pub mod Unique
pub mod Unpair
use adbproxy_rs.Base.{
  ℕ, Bool, true, false, not, ◌&&◌, ◌||◌, Option, none, some, List, [], ◌∷◌, ◌++◌, keep, length, ltb,
  ◌==◌, if◌then◌else◌,
}
use adbproxy_rs.Text.{Text, Bytes, codes, text_eq}
use adbproxy_rs.Io.{Result, ok, err, ◌>>=◌, map_err, IoError}
use adbproxy_rs.Map.{contains}
use adbproxy_rs.Addr.{SocketAddr, show_addr}
use adbproxy_rs.Types.{BackendConfig, DeviceEntry, DeviceSnapshot}
use adbproxy_rs.Auth.{validate_pair_code, authenticate_stream}
use adbproxy_rs.Compat.{is_compatible}
use adbproxy_rs.Policy.{default_table}
use adbproxy_rs.Registry.{merge_device_lists}
use adbproxy_rs.Config.{
  HubConfig, Invalid, default_backend_name, enabled_backends, parse_backend_arg, set_device_enabled,
  set_backend_enabled, upsert_backend, name_or,
}
use adbproxy_rs.Config.File.{default_listen, local_only}
use adbproxy_rs.Backend.{Attempt, check_proxy_compat, fetch_lists}

-- `ConfigError::Invalid` as it is printed.
unfoldable pub shown : Invalid → Text
shown e = codes "invalid config: " ++ e

-- What stands at the path of a configuration: nothing, or the answer of `load_file`.
abbrev pub ConfigFile : Type 0
ConfigFile = Option (Result Text HubConfig)

unfoldable pub load_or_empty : ConfigFile → Result Text HubConfig
load_or_empty none = ok local_only
load_or_empty (some loaded) = loaded

unfoldable pub save_pair : ConfigFile → SocketAddr → Text → Option Text → Result Text HubConfig
save_pair file addr code name = do
  config ← load_or_empty file
  ok (
      upsert_backend config (record {
        name = name_or (default_backend_name addr) name;
        addr = addr;
        pair_code = some code;
        enabled = true;
      }))

-- `run_pair`, up to the configuration that is saved: the answer of the connection, and the attempt to ask
-- for the version behind it.
unfoldable pub run_pair :
    Result IoError Bytes
    → Attempt
    → ConfigFile
    → SocketAddr
    → Text
    → Option Text
    → Result Text HubConfig
run_pair connect attempt file addr code name = do
  valid ← validate_pair_code code
  stream ← map_err IoError.message connect
  rest ← map_err IoError.message (authenticate_stream code stream).1
  if is_compatible (check_proxy_compat attempt (some code))
      then save_pair file addr code name
      else err (codes "incompatible adb-proxy version on " ++ show_addr addr)

-- Behind `config.backends.retain(…)`.
unfoldable pub retained : Text → HubConfig → List BackendConfig → Result Text HubConfig
retained name config kept =
    if length kept == length config.backends
    then err (codes "backend '" ++ (name ++ codes "' not found"))
    else ok (record config { backends = kept })

unfoldable pub run_unpair : ConfigFile → Text → Result Text HubConfig
run_unpair file name = do
  config ← load_or_empty file
  retained name config (keep (λ (b : BackendConfig). not (text_eq b.name name)) config.backends)

pub data DeviceAction : Type 0 where
  enable disable : Text → DeviceAction

-- `run_device` for the actions that save a configuration.
unfoldable pub run_device : ConfigFile → DeviceAction → Result Text HubConfig
run_device file (enable serial) = do
  config ← load_or_empty file
  ok (set_device_enabled config serial true)
run_device file (disable serial) = do
  config ← load_or_empty file
  ok (set_device_enabled config serial false)

-- The devices of `adb-hub device list`; the attempts are numbered.
unfoldable pub listed_devices : (ℕ → Attempt) → HubConfig → DeviceSnapshot
listed_devices asks config = merge_device_lists (fetch_lists asks 0 (enabled_backends config))

pub data NodeAction : Type 0 where
  enable disable : Text → NodeAction

-- `run_node` for the actions that save a configuration.
unfoldable pub run_node : ConfigFile → NodeAction → Result Text HubConfig
run_node file (NodeAction.enable name) = do
  config ← load_or_empty file
  map_err shown (set_backend_enabled config name true)
run_node file (NodeAction.disable name) = do
  config ← load_or_empty file
  map_err shown (set_backend_enabled config name false)

-- The arguments of a run that decide on the configuration.
pub record Args : Type 0 where
  pub listen : Option SocketAddr
  pub config : Option (Result Text HubConfig)
  pub backends : List Text
  pub poll_interval_ms : Option ℕ
  pub no_local : Bool
  pub local_port : Option ℕ

-- What stands at the three places of a configuration; the second and the third are asked in this order.
pub record Places : Type 0 where
  pub path : ConfigFile
  pub old : ConfigFile
  pub same_as_old : Bool
  pub legacy : ConfigFile
  pub shown : Text

unfoldable pub load_legacy : Places → Result Text HubConfig
load_legacy p = elim p.legacy [
  | some loaded ↦ loaded
  | none ↦ err (codes "no config at " ++ p.shown)
]

unfoldable pub load_default_config : Places → Result Text HubConfig
load_default_config p = elim p.path [
  | some loaded ↦ loaded
  | none ↦ elim p.old [
    | some loaded ↦ if p.same_as_old then load_legacy p else loaded
    | none ↦ load_legacy p
  ]
]

-- `if let Some(p) = args.local_port { c.local_adb_port = p; }`, and the like.
unfoldable pub number_or : ℕ → Option ℕ → ℕ
number_or d none = d
number_or d (some n) = n

unfoldable pub with_local_flags : Args → HubConfig → HubConfig
with_local_flags args c = record c {
  include_local = if args.no_local then false else c.include_local;
  local_adb_port = number_or c.local_adb_port args.local_port;
}

module _ (parse_addr : Text → Result Text SocketAddr) where
  unfoldable pub parse_specs : List Text → Result Text (List BackendConfig)
  parse_specs [] = ok []
  parse_specs (s ∷ ss) = do
    b ← map_err shown (parse_backend_arg parse_addr s)
    rest ← parse_specs ss
    ok (b ∷ rest)

  unfoldable pub config_of_specs : Args → Result Text HubConfig
  config_of_specs args = do
    backends ← parse_specs args.backends
    ok (record {
      listen = default_listen;
      poll_interval = 1000;
      backends = backends;
      adb_version = 41;
      include_local = not args.no_local;
      local_adb_port = number_or 5039 args.local_port;
      devices = default_table;
      config_path = none;
    })

  -- The configuration that the arguments are applied to.
  unfoldable pub base_config : Args → Places → Result Text HubConfig
  base_config args places = elim args.backends [
    | s ∷ ss ↦ config_of_specs args
    | [] ↦ elim args.config [
      | some loaded ↦ do c ← loaded; ok (with_local_flags args c)
      | none ↦ elim (load_default_config places) [
        | ok c ↦ ok (with_local_flags args c)
        | err e ↦ ok (with_local_flags args local_only)
      ]
    ]
  ]

unfoldable pub max_ms : ℕ → ℕ
max_ms ms = if ltb ms 100 then 100 else ms

unfoldable pub poll_or : ℕ → Option ℕ → ℕ
poll_or d none = d
poll_or d (some ms) = max_ms ms

unfoldable pub addr_or : SocketAddr → Option SocketAddr → SocketAddr
addr_or d none = d
addr_or d (some a) = a

-- The last elements come first.
unfoldable pub reverse_onto {ℓ} : {A : Type ℓ} → List A → List A → List A
reverse_onto [] acc = acc
reverse_onto (x ∷ xs) acc = reverse_onto xs (x ∷ acc)

-- `iter().rev()`, and `Vec::reverse`.
unfoldable pub reverse {ℓ} : {A : Type ℓ} → List A → List A
reverse xs = reverse_onto xs []

-- The loop over the backends from the last on, with the names that were seen.
unfoldable pub first_of_each : List Text → List BackendConfig → List BackendConfig
first_of_each seen [] = []
first_of_each seen (b ∷ bs) = elim (contains b.name seen) [
  | true ↦ first_of_each seen bs
  | false ↦ b ∷ first_of_each (b.name ∷ seen) bs
]

unfoldable pub last_of_each : List BackendConfig → List BackendConfig
last_of_each backends = reverse (first_of_each [] (reverse backends))

unfoldable pub apply_args : Args → HubConfig → HubConfig
apply_args args c = record c {
  listen = addr_or c.listen args.listen;
  poll_interval = poll_or c.poll_interval args.poll_interval_ms;
  backends = last_of_each c.backends;
}

unfoldable pub build_config :
    (Text → Result Text SocketAddr) → Args → Places → Result Text HubConfig
build_config parse_addr args places = do
  c ← base_config parse_addr args places
  ok (apply_args args c)
