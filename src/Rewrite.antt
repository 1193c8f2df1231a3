-- ===== src/Rewrite.antt =====
-- src/session.rs: the service that is sent to the backend of a device, in the order of the tests of
-- rewrite_upstream_service.
use adbproxy_rs.Base.{Bool, ◌||◌, Option, none, some, List, ◌++◌, if◌then◌else◌}
use adbproxy_rs.Text.{Text, codes, text_eq, strip_prefix, starts_with, split_once}
use adbproxy_rs.Io.{Result, ok, err, ◌>>=◌}
use adbproxy_rs.Types.{DeviceEntry, DeviceSnapshot}
use adbproxy_rs.Registry.{find_device, is_online}
use adbproxy_rs.Preferred.{pick_preferred}

unfoldable pub lookup_device : DeviceSnapshot → Text → Result Text DeviceEntry
lookup_device snap serial = elim (find_device snap serial) [
  | none ↦ err (codes "device '" ++ (serial ++ codes "' not found"))
  | some d ↦ ok d
]

unfoldable pub lookup_online : DeviceSnapshot → Text → Result Text DeviceEntry
lookup_online snap serial = do
  entry ← lookup_device snap serial
  if is_online entry
      then ok entry
      else err (
          codes "device '" ++ (serial ++ (codes "' is not online (" ++ (entry.state ++ codes ")"))))

abbrev pub Rewrite : Type 0
Rewrite = Result Text (Option (DeviceEntry × Text))

-- The selectors that name no device.
unfoldable pub is_any_selector : Text → Bool
is_any_selector s =
    text_eq s (codes "host:tport:any")
    || (text_eq s (codes "host:tport:usb")
        || (text_eq s (codes "host:tport:local")
            || (text_eq s (codes "host:transport-any")
                || (text_eq s (codes "host:transport-usb")
                    || text_eq s (codes "host:transport-local")))))

-- The requests that mean any single device.
unfoldable pub is_device_request : Text → Bool
is_device_request r =
    text_eq r (codes "get-state")
    || (text_eq r (codes "get-serialno")
        || (text_eq r (codes "get-devpath") || text_eq r (codes "get-connection-state")))

unfoldable pub serial_request : Text → DeviceEntry → Text
serial_request request d = codes "host-serial:" ++ (d.upstream_serial ++ (codes ":" ++ request))

unfoldable pub tport_service : DeviceEntry → Text
tport_service d = codes "host:tport:serial:" ++ d.upstream_serial

unfoldable pub transport_service : DeviceEntry → Text
transport_service d = codes "host:transport:" ++ d.upstream_serial

-- The device that was found, with the service for it.
abbrev pub routed : (DeviceEntry → Text) → Result Text DeviceEntry → Rewrite
routed f (ok d) = ok (some (d, f d))
routed f (err e) = err e

unfoldable pub rewrite_serial_request : Text → DeviceSnapshot → Rewrite
rewrite_serial_request rest snap = elim (split_once b':' rest) [
  | none ↦ err (codes "invalid host-serial service")
  | some (serial, request) ↦ routed (serial_request request) (lookup_device snap serial)
]

-- `host:get-state` and its kin.
unfoldable pub rewrite_host_request : Text → DeviceSnapshot → List Text → Rewrite
rewrite_host_request service snap order = elim (strip_prefix (codes "host:") service) [
  | none ↦ ok none
  | some request ↦
      if is_device_request request
      then routed (serial_request request) (pick_preferred snap order)
      else ok none
]

unfoldable pub rewrite_features : Text → DeviceSnapshot → List Text → Rewrite
rewrite_features service snap order =
    if text_eq service (codes "host:features") || text_eq service (codes "host:host-features")
    then elim (pick_preferred snap order) [
      | ok d ↦ ok (some (d, service))
      | err e ↦ rewrite_host_request service snap order
    ]
    else rewrite_host_request service snap order

unfoldable pub rewrite_local : Text → DeviceSnapshot → List Text → Rewrite
rewrite_local service snap order = elim (strip_prefix (codes "host-local:") service) [
  | some request ↦ routed (serial_request request) (pick_preferred snap order)
  | none ↦ rewrite_features service snap order
]

unfoldable pub rewrite_usb : Text → DeviceSnapshot → List Text → Rewrite
rewrite_usb service snap order = elim (strip_prefix (codes "host-usb:") service) [
  | some request ↦ routed (serial_request request) (pick_preferred snap order)
  | none ↦ rewrite_local service snap order
]

unfoldable pub rewrite_serial : Text → DeviceSnapshot → List Text → Rewrite
rewrite_serial service snap order = elim (strip_prefix (codes "host-serial:") service) [
  | some rest ↦ rewrite_serial_request rest snap
  | none ↦ rewrite_usb service snap order
]

unfoldable pub rewrite_transport : Text → DeviceSnapshot → List Text → Rewrite
rewrite_transport service snap order = elim (strip_prefix (codes "host:transport:") service) [
  | some serial ↦ routed transport_service (lookup_online snap serial)
  | none ↦ rewrite_serial service snap order
]

unfoldable pub rewrite_tport : Text → DeviceSnapshot → List Text → Rewrite
rewrite_tport service snap order = elim (strip_prefix (codes "host:tport:serial:") service) [
  | some serial ↦ routed tport_service (lookup_online snap serial)
  | none ↦ rewrite_transport service snap order
]

-- The service for a selector that names no device.
unfoldable pub any_service : Text → DeviceEntry → Text
any_service service d =
    if starts_with (codes "host:tport:") service then tport_service d else transport_service d

unfoldable pub rewrite_upstream_service : Text → DeviceSnapshot → List Text → Rewrite
rewrite_upstream_service service snap order =
    if is_any_selector service
    then routed (any_service service) (pick_preferred snap order)
    else rewrite_tport service snap order
