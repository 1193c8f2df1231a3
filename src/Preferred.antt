-- ===== src/Preferred.antt =====
-- src/session.rs: the device that is meant where a client names none.
use adbproxy_rs.Base.{Bool, ◌&&◌, ◌||◌, List, [], ◌∷◌, ◌++◌, keep, push, any, if◌then◌else◌}
use adbproxy_rs.Text.{Text, codes, text_eq}
use adbproxy_rs.Io.{Result, ok, err}
use adbproxy_rs.Map.{contains}
use adbproxy_rs.Types.{DeviceEntry, DeviceSnapshot}
use adbproxy_rs.Registry.{is_online}

unfoldable pub local_name : Text
local_name = codes "local"

-- `PickBackendErr`.
pub data PickBackendErr : Type 0 where
  nobody many : PickBackendErr

unfoldable pub on_backend : Text → DeviceEntry → Bool
on_backend name d = text_eq d.backend_name name && is_online d

unfoldable pub one_of : List DeviceEntry → Result PickBackendErr DeviceEntry
one_of [] = err nobody
one_of (d ∷ []) = ok d
one_of (d ∷ e ∷ ds) = err many

unfoldable pub pick_one_on_backend : DeviceSnapshot → Text → Result PickBackendErr DeviceEntry
pick_one_on_backend snap name = one_of (keep (on_backend name) snap.devices)

unfoldable pub push_new : List Text → Text → List Text
push_new order name = if contains name order then order else push order name

-- The names of the configuration other than `local`.
unfoldable pub add_names : List Text → List Text → List Text
add_names order [] = order
add_names order (n ∷ ns) = add_names (if text_eq n local_name then order else push_new order n) ns

-- The names of the backends of the devices.
unfoldable pub add_backends : List Text → List DeviceEntry → List Text
add_backends order [] = order
add_backends order (d ∷ ds) = add_backends (push_new order d.backend_name) ds

unfoldable pub start_order : DeviceSnapshot → List Text → List Text
start_order snap backend_order =
    if any (λ n. text_eq n local_name) backend_order
      || any (λ (d : DeviceEntry). text_eq d.backend_name local_name) snap.devices
    then local_name ∷ []
    else []

unfoldable pub search_order : DeviceSnapshot → List Text → List Text
search_order snap backend_order =
    add_backends (add_names (start_order snap backend_order) backend_order) snap.devices

unfoldable pub no_devices : Text
no_devices = codes "no devices/emulators found"

unfoldable pub too_many : Text → Text
too_many name = codes "more than one device/emulator on backend '" ++ (name ++ codes "'")

-- The loop over the order.
unfoldable pub first_pick : DeviceSnapshot → List Text → Result Text DeviceEntry
first_pick snap [] = err no_devices
first_pick snap (n ∷ ns) = elim (pick_one_on_backend snap n) [
  | ok d ↦ ok d
  | err e ↦ elim e [ nobody ↦ first_pick snap ns | many ↦ err (too_many n) ]
]

unfoldable pub pick_preferred : DeviceSnapshot → List Text → Result Text DeviceEntry
pick_preferred snap backend_order = first_pick snap (search_order snap backend_order)
