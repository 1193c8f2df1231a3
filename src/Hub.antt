-- ===== src/Hub.antt =====
-- src/hub.rs: what the hub does before it accepts clients.
pub mod Start
use adbproxy_rs.Base.{
  ℕ, Bool, true, false, not, ◌&&◌, Option, none, some, List, [], ◌∷◌, keep, map, if◌then◌else◌,
}
use adbproxy_rs.Text.{Text, Bytes, codes, text_eq}
use adbproxy_rs.Io.{Result, ok, err, ◌>>=◌, map_err, IoError, io_error, invalid_input}
use adbproxy_rs.Addr.{SocketAddr, addr_eq}
use adbproxy_rs.Types.{BackendConfig, DeviceSnapshot}
use adbproxy_rs.Registry.{merge_device_lists}
use adbproxy_rs.Config.{HubConfig, PolicyFile, HubPolicySnapshot, ReloadableHubPolicy}
use adbproxy_rs.Config.File.{from_config}
use adbproxy_rs.Backend.{Attempt, fetch_server_version, once_lists}
use adbproxy_rs.Preferred.{local_name}
use adbproxy_rs.Session.{SessionContext}
use adbproxy_rs.Local.{LocalWorld, LocalAdb, prepare}

pub data HubError : Type 0 where
  io : IoError → HubError
  bind : SocketAddr → IoError → HubError
  local_adb : IoError → HubError

unfoldable pub local_backend : SocketAddr → BackendConfig
local_backend addr = record { name = local_name; addr = addr; pair_code = none; enabled = true }

-- `retain(|b| b.name != … && b.addr != …)`.
unfoldable pub is_other : SocketAddr → BackendConfig → Bool
is_other addr b = not (text_eq b.name local_name) && not (addr_eq b.addr addr)

unfoldable pub version_or : ℕ → Result IoError ℕ → ℕ
version_or d (ok v) = v
version_or d (err e) = d

-- The configuration with the local server first.
unfoldable pub with_local : SocketAddr → Result IoError ℕ → HubConfig → HubConfig
with_local addr version c = record c {
  adb_version = version_or c.adb_version version;
  backends = local_backend addr ∷ keep (is_other addr) c.backends;
}

-- Behind `LocalAdb::prepare`; the number is the local server's answer about its version.
unfoldable pub add_local :
    Result IoError LocalAdb → Result IoError ℕ → HubConfig → Result HubError HubConfig
add_local (err e) version c = err (local_adb e)
add_local (ok local) version c = ok (with_local local.addr version c)

-- The attempt is the one to ask the local server for its version; the texts are those of the standard library.
unfoldable pub prepare_local :
    LocalWorld → (Bytes → Text) → Attempt → HubConfig → Result HubError HubConfig
prepare_local w message attempt c =
    if c.include_local
    then add_local (prepare w c.local_adb_port).1 (fetch_server_version message attempt none).1 c
    else ok c

-- The configuration that is polled, and what clients without a device of their own are sent to.
pub record Started : Type 0 where
  pub config : HubConfig
  pub default_backend : SocketAddr
  pub default_pair_code : Option Text
  pub backend_order : List Text

unfoldable pub defaults_of : HubConfig → List BackendConfig → Result HubError Started
defaults_of c [] =
    err (io (io_error invalid_input (codes "no backends configured (all nodes disabled?)")))
defaults_of c (b ∷ bs) = ok (record {
  config = record c { backends = b ∷ bs };
  default_backend = b.addr;
  default_pair_code = b.pair_code;
  backend_order = map BackendConfig.name (b ∷ bs);
})

unfoldable pub start_hub :
    LocalWorld → (Bytes → Text) → Attempt → HubConfig → Result HubError Started
start_hub w message attempt c = do
  config ← prepare_local w message attempt c
  defaults_of config (keep BackendConfig.enabled config.backends)

-- `TcpListener::bind(config.listen)`, behind the first poll.
unfoldable pub bind_listener : Result IoError (Unit {0}) → Started → Result HubError Started
bind_listener bound s = elim bound [ ok u ↦ ok s | err e ↦ err (bind s.config.listen e) ]

-- What a client that comes at once is served with: the first poll and the policy of the file.
unfoldable pub first_context :
    (ℕ → Attempt) → (ℕ → Attempt) → HubPolicySnapshot → Started → SessionContext
first_context gate asks policy s = record {
  registry = merge_device_lists (once_lists gate asks s.config.backends);
  default_backend = s.default_backend;
  default_pair_code = s.default_pair_code;
  backend_order = s.backend_order;
  policy = policy;
}
