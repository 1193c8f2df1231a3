-- ===== src/Tenant.antt =====
-- src/tenant.rs: the devices that all users share, and those of each user. An operation returns the new
-- registry and whether it notifies those that follow the devices.
pub mod Isolation
use adbproxy_rs.Base.{
  ℕ, Bool, true, false, not, ◌&&◌, Option, none, some, List, [], ◌∷◌, ◌++◌, if◌then◌else◌,
}
use adbproxy_rs.Text.{Text, text_eq}
use adbproxy_rs.Addr.{addr_eq}
use adbproxy_rs.Map.ByNumber
use adbproxy_rs.Map.ByNumber.{NumberMap}
use adbproxy_rs.Types.{BackendConfig, DeviceEntry, DeviceSnapshot}
use adbproxy_rs.Registry.{merge_device_lists}

abbrev pub Uid : Type 0
Uid = ℕ

pub record TenantRegistry : Type 0 where
  pub shared : DeviceSnapshot
  pub private : NumberMap DeviceSnapshot

unfoldable pub empty_registry : TenantRegistry
empty_registry = record { shared = record { devices = [] }; private = [] }

unfoldable pub optional_eq : Option Text → Option Text → Bool
optional_eq none none = true
optional_eq (some s) (some t) = text_eq s t
optional_eq none (some t) = false
optional_eq (some s) none = false

-- The derived `==` of `DeviceEntry`.
unfoldable pub entry_eq : DeviceEntry → DeviceEntry → Bool
entry_eq d e =
    text_eq d.public_serial e.public_serial
    && (text_eq d.upstream_serial e.upstream_serial
        && (text_eq d.state e.state
            && (text_eq d.extras e.extras
                && (text_eq d.backend_name e.backend_name
                    && (addr_eq d.backend_addr e.backend_addr
                        && (optional_eq d.pair_code e.pair_code
                            && optional_eq d.route_id e.route_id))))))

unfoldable pub entries_eq : List DeviceEntry → List DeviceEntry → Bool
entries_eq [] [] = true
entries_eq (d ∷ ds) (e ∷ es) = entry_eq d e && entries_eq ds es
entries_eq [] (e ∷ es) = false
entries_eq (d ∷ ds) [] = false

unfoldable pub update_shared : TenantRegistry → DeviceSnapshot → TenantRegistry × Bool
update_shared t snap = (record t { shared = snap }, not (entries_eq t.shared.devices snap.devices))

unfoldable pub update_shared_from_lists :
    TenantRegistry → List (BackendConfig × Text) → TenantRegistry × Bool
update_shared_from_lists t lists = update_shared t (merge_device_lists lists)

unfoldable pub is_change : Option DeviceSnapshot → DeviceSnapshot → Bool
is_change none snap = true
is_change (some prev) snap = not (entries_eq prev.devices snap.devices)

unfoldable pub update_agent_devices : TenantRegistry → Uid → DeviceSnapshot → TenantRegistry × Bool
update_agent_devices t uid snap = (
  record t { private = ByNumber.insert uid snap t.private },
  is_change (ByNumber.get uid t.private) snap,
)

unfoldable pub remove_agent : TenantRegistry → Uid → TenantRegistry × Bool
remove_agent t uid =
    (record t { private = ByNumber.remove uid t.private }, ByNumber.contains_key uid t.private)

unfoldable pub private_devices : Option DeviceSnapshot → List DeviceEntry
private_devices none = []
private_devices (some snap) = snap.devices

unfoldable pub snapshot_for : TenantRegistry → Uid → DeviceSnapshot
snapshot_for t uid = record {
  devices = t.shared.devices ++ private_devices (ByNumber.get uid t.private);
}

unfoldable pub snapshot_shared : TenantRegistry → DeviceSnapshot
snapshot_shared t = t.shared

unfoldable pub has_agent : TenantRegistry → Uid → Bool
has_agent t uid = ByNumber.contains_key uid t.private
