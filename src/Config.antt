-- ===== src/Config.antt =====
-- src/config.rs: the configuration of the hub, and what of it decides which devices are shown. The TOML
-- text is read and written by a library: here stand the values that it yields.
pub mod File
pub mod RoundTrip
use adbproxy_rs.Base.{
  ℕ, ◌+◌, Bool, true, false, not, ◌&&◌, Option, none, some, List, [], ◌∷◌, ◌++◌, keep, push, ltb,
  ◌==◌, if◌then◌else◌,
}
use adbproxy_rs.Text.{Text, codes, text_eq, is_empty, split_once}
use adbproxy_rs.Text.Number.{to_decimal}
use adbproxy_rs.Io.{Result, ok, err, ◌>>=◌, map_err}
use adbproxy_rs.Map
use adbproxy_rs.Map.{Map}
use adbproxy_rs.Addr.{SocketAddr, v4, v6, addr_eq, port_of, show_v4, show_v6}
use adbproxy_rs.Types.{BackendConfig, DeviceEntry, DeviceSnapshot}
use adbproxy_rs.Policy.{
  DevicePolicyEntry, DevicePolicyTable, is_enabled, set_enabled, from_entries, enabled_or,
}
use adbproxy_rs.Auth.{validate_pair_code}

pub record HubConfig : Type 0 where
  pub listen : SocketAddr
  pub poll_interval : ℕ
  pub backends : List BackendConfig
  pub adb_version : ℕ
  pub include_local : Bool
  pub local_adb_port : ℕ
  pub devices : DevicePolicyTable
  pub config_path : Option Text

pub record TomlBackend : Type 0 where
  pub name : Option Text
  pub addr : Text
  pub pair_code : Option Text
  pub enabled : Bool

pub record TomlFile : Type 0 where
  pub listen : Text
  pub poll_interval_ms : ℕ
  pub adb_version : ℕ
  pub include_local : Bool
  pub local_adb_port : ℕ
  pub backend : List TomlBackend
  pub device : List DevicePolicyEntry

colons_to_lines : Text → Text
colons_to_lines [] = []
colons_to_lines (c ∷ s) = (if c == b':' then b'_' else c) ∷ colons_to_lines s

unfoldable pub default_backend_name : SocketAddr → Text
unfolding colons_to_lines
default_backend_name (v4 a b c d port) = show_v4 a b c d ++ (codes "_" ++ to_decimal port)
default_backend_name (v6 s port flow scope) =
    colons_to_lines (show_v6 s ++ (codes "_" ++ to_decimal port))

-- What `ConfigError::Invalid` says.
abbrev pub Invalid : Type 0
Invalid = Text

unfoldable pub check_code : ℕ → Option Text → Result Invalid (Unit {0})
check_code idx none = ok tt
check_code idx (some code) =
    map_err (λ e. codes "backend[" ++ (to_decimal idx ++ (codes "].pair_code: " ++ e)))
      (validate_pair_code code)

unfoldable pub name_or : Text → Option Text → Text
name_or d none = d
name_or d (some n) = n

unfoldable pub no_backend : List BackendConfig → Bool
no_backend [] = true
no_backend (b ∷ bs) = false

-- Reading an address is left to the standard library: its answer, or its message.
module _ (parse_addr : Text → Result Text SocketAddr) where
  unfoldable pub backend_of : ℕ → TomlBackend → Result Invalid BackendConfig
  backend_of idx b = do
    addr ←
        map_err (λ e. codes "backend[" ++ (to_decimal idx ++ (codes "].addr: " ++ e)))
          (parse_addr b.addr)
    valid ← check_code idx b.pair_code
    ok (record {
      name = name_or (default_backend_name addr) b.name;
      addr = addr;
      pair_code = b.pair_code;
      enabled = b.enabled;
    })

  unfoldable pub backends_of : ℕ → List TomlBackend → Result Invalid (List BackendConfig)
  backends_of idx [] = ok []
  backends_of idx (b ∷ bs) = do
    backend ← backend_of idx b
    rest ← backends_of (idx + 1) bs
    ok (backend ∷ rest)

  unfoldable pub from_toml_file : TomlFile → Result Invalid HubConfig
  unfolding no_backend
  from_toml_file parsed = do
    listen ← map_err (λ e. codes "listen: " ++ e) (parse_addr parsed.listen)
    if parsed.local_adb_port == 0
        then err (codes "local_adb_port must be non-zero")
        else if port_of listen == parsed.local_adb_port
        then err (codes "local_adb_port must differ from listen port")
        else do
          backends ← backends_of 0 parsed.backend
          if no_backend backends && not parsed.include_local
              then err (codes "at least one [[backend]] is required when include_local = false")
              else ok (record {
                listen = listen;
                poll_interval =
                    if ltb parsed.poll_interval_ms 100 then 100 else parsed.poll_interval_ms;
                backends = backends;
                adb_version = parsed.adb_version;
                include_local = parsed.include_local;
                local_adb_port = parsed.local_adb_port;
                devices = from_entries parsed.device;
                config_path = none;
              })

  -- `--backend name=host:port` or `host:port`.
  unfoldable pub parse_backend_arg : Text → Result Invalid BackendConfig
  parse_backend_arg s = elim (split_once b'=' s) [
    | some (name, addr_s) ↦ do
      addr ← map_err (λ e. codes "backend addr: " ++ e) (parse_addr addr_s)
      if is_empty name
          then err (codes "backend name must not be empty")
          else ok (record { name = name; addr = addr; pair_code = none; enabled = true })
    | none ↦ do
      addr ← map_err (λ e. codes "backend addr: " ++ e) (parse_addr s)
      ok (record {
        name = default_backend_name addr;
        addr = addr;
        pair_code = none;
        enabled = true;
      })
  ]

unfoldable pub enabled_backends : HubConfig → List BackendConfig
enabled_backends c = keep (λ b. b.enabled) c.backends

unfoldable pub set_device_enabled : HubConfig → Text → Bool → HubConfig
set_device_enabled c serial enabled = record c { devices = set_enabled c.devices serial enabled }

behind {ℓ} : {A : Type ℓ} → A → Option (List A) → Option (List A)
behind x none = none
behind x (some xs) = some (x ∷ xs)

-- Changes the first element that passes the test, if there is one.
unfoldable pub change_first {ℓ} : {A : Type ℓ} → (A → Bool) → (A → A) → List A → Option (List A)
unfolding behind
change_first p f [] = none
change_first p f (x ∷ xs) =
    let rest = behind x (change_first p f xs) in if p x then some (f x ∷ xs) else rest

unfoldable pub set_backend_enabled : HubConfig → Text → Bool → Result Invalid HubConfig
set_backend_enabled c name enabled =
    elim (change_first (λ (b : BackendConfig). text_eq b.name name)
      (λ b. record b { enabled = enabled }) c.backends) [
        | none ↦ err (codes "node '" ++ (name ++ codes "' not found"))
        | some bs ↦ ok (record c { backends = bs })
      ]

-- The list of `upsert_backend`.
unfoldable pub upsert : BackendConfig → List BackendConfig → List BackendConfig
upsert backend bs =
    elim (change_first (λ (b : BackendConfig). text_eq b.name backend.name)
      (λ b. record b { addr = backend.addr; pair_code = backend.pair_code }) bs) [
        | some done ↦ done
        | none ↦
            elim (change_first (λ (b : BackendConfig). addr_eq b.addr backend.addr)
              (λ b. record b { name = backend.name; pair_code = backend.pair_code }) bs) [
                | some done ↦ done
                | none ↦ push bs backend
              ]
      ]

unfoldable pub upsert_backend : HubConfig → BackendConfig → HubConfig
upsert_backend c backend = record c { backends = upsert backend c.backends }

pub record HubPolicySnapshot : Type 0 where
  pub devices : DevicePolicyTable
  pub backends : Map Bool

unfoldable pub device_enabled : HubPolicySnapshot → Text → Bool
device_enabled p serial = is_enabled p.devices serial

unfoldable pub backend_enabled : HubPolicySnapshot → Text → Bool
backend_enabled p name = enabled_or (Map.get name p.backends)

-- The test of `filter_snapshot`.
unfoldable pub shows : HubPolicySnapshot → DeviceEntry → Bool
shows p d = backend_enabled p d.backend_name && device_enabled p d.public_serial

unfoldable pub filter_snapshot : HubPolicySnapshot → DeviceSnapshot → DeviceSnapshot
filter_snapshot p snap = record { devices = keep (shows p) snap.devices }

-- `backends.iter().map(…).collect()`: a later backend of one name wins.
unfoldable pub flags_from : Map Bool → List BackendConfig → Map Bool
flags_from m [] = m
flags_from m (b ∷ bs) = flags_from (Map.insert b.name b.enabled m) bs

unfoldable pub policy_of_config : HubConfig → HubPolicySnapshot
policy_of_config c = record { devices = c.devices; backends = flags_from [] c.backends }

-- What the file system shows of the configuration: when it was changed, and the policy that it
-- holds, if it is read without an error.
pub record PolicyFile : Type 0 where
  pub mtime : Option ℕ
  pub loaded : Option HubPolicySnapshot

pub record ReloadableHubPolicy : Type 0 where
  pub path : Option Text
  pub static_policy : HubPolicySnapshot
  pub mtime : Option ℕ
  pub policy : HubPolicySnapshot

unfoldable pub mtime_eq : Option ℕ → Option ℕ → Bool
mtime_eq none none = true
mtime_eq none (some b) = false
mtime_eq (some a) none = false
mtime_eq (some a) (some b) = a == b

-- A read of the file when it is changed; the policy is kept if it cannot be read.
unfoldable pub reload : PolicyFile → ReloadableHubPolicy → ReloadableHubPolicy
reload file r = if mtime_eq file.mtime r.mtime then r else elim file.loaded [
  | some policy ↦ record r { mtime = file.mtime; policy = policy }
  | none ↦ record r { mtime = file.mtime }
]

unfoldable pub refresh : PolicyFile → ReloadableHubPolicy → ReloadableHubPolicy × HubPolicySnapshot
refresh file r = elim r.path [
  | none ↦ (r, r.static_policy)
  | some path ↦ let r' = reload file r in (r', r'.policy)
]
