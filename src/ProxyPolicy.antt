-- ===== src/ProxyPolicy.antt =====
-- src/proxy_config.rs: the configuration of a proxy, which holds the devices that are disabled, and its
-- reload. The library that reads and prints TOML is a parameter.
pub mod RoundTrip
use adbproxy_rs.Base.{ℕ, Bool, true, false, Option, none, some, List, [], ◌∷◌, if◌then◌else◌}
use adbproxy_rs.Text.{Text}
use adbproxy_rs.Io.{Result, ok, err, ◌>>=◌, map_err, IoError}
use adbproxy_rs.Policy.{
  DevicePolicyEntry, DevicePolicyTable, default_table, from_entries, to_disabled_entries,
  is_enabled, set_enabled,
}
use adbproxy_rs.Config.{mtime_eq}

pub record TomlFile : Type 0 where
  pub device : List DevicePolicyEntry

pub record ProxyFileConfig : Type 0 where
  pub devices : DevicePolicyTable

-- `ProxyConfigError`; the errors of the TOML library are their messages.
pub data ProxyConfigError : Type 0 where
  io : IoError → ProxyConfigError
  toml : Text → ProxyConfigError
  toml_ser : Text → ProxyConfigError

abbrev pub default_config : ProxyFileConfig
default_config = record { devices = default_table }

-- What stands at a path: no file, a file that cannot be read as text, or a text.
pub data Contents : Type 0 where
  no_file : Contents
  unreadable : IoError → Contents
  holds : Text → Contents

unfoldable pub no_entries : List DevicePolicyEntry → Bool
no_entries [] = true
no_entries (e ∷ es) = false

module _ (from_str : Text → Result Text TomlFile)
    (to_string_pretty : TomlFile → Result Text Text) where
  unfoldable pub from_toml_str : Text → Result ProxyConfigError ProxyFileConfig
  from_toml_str text = do
    parsed ← map_err toml (from_str text)
    ok (record { devices = from_entries parsed.device })

  unfoldable pub load_file : Contents → Result ProxyConfigError ProxyFileConfig
  load_file no_file = ok default_config
  load_file (unreadable e) = err (io e)
  load_file (holds text) = from_toml_str text

  unfoldable pub to_toml_string : ProxyFileConfig → Result ProxyConfigError Text
  to_toml_string c =
      let file : TomlFile = record { device = to_disabled_entries c.devices } in
      if no_entries file.device then ok [] else map_err toml_ser (to_string_pretty file)

unfoldable pub set_device_enabled : ProxyFileConfig → Text → Bool → ProxyFileConfig
set_device_enabled c serial enabled = record c { devices = set_enabled c.devices serial enabled }

-- What the file system shows of the configuration: when it was changed, and what `load_file` makes of it.
pub record PolicyFile : Type 0 where
  pub mtime : Option ℕ
  pub loaded : Result ProxyConfigError ProxyFileConfig

-- The `PolicyCache` behind the lock of `ReloadableProxyPolicy`.
pub record PolicyCache : Type 0 where
  pub mtime : Option ℕ
  pub table : DevicePolicyTable

-- `load_file(…).unwrap_or_default().devices`.
unfoldable pub table_or_default : Result ProxyConfigError ProxyFileConfig → DevicePolicyTable
table_or_default (ok c) = c.devices
table_or_default (err e) = default_table

-- `ReloadableProxyPolicy::new`.
unfoldable pub new_policy : PolicyFile → PolicyCache
new_policy file = record { mtime = file.mtime; table = table_or_default file.loaded }

-- `ReloadableProxyPolicy::refresh`: the cache, and the table that is returned.
unfoldable pub refresh : PolicyFile → PolicyCache → PolicyCache × DevicePolicyTable
refresh file cache =
    if mtime_eq file.mtime cache.mtime
    then (cache, cache.table)
    else (new_policy file, table_or_default file.loaded)

-- `ReloadableProxyPolicy::is_enabled`.
unfoldable pub is_enabled_now : PolicyFile → PolicyCache → Text → PolicyCache × Bool
is_enabled_now file cache serial =
    let (cache', table) = refresh file cache in (cache', is_enabled table serial)
