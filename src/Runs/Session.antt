-- ===== src/Runs/Session.antt =====
-- src/session.rs at concrete inputs.
use adbproxy_rs.Base.{none, ◌≡◌, ◌↔◌, refl, true, some, inl, [], ◌∷◌, ◌++◌, keep, arith}
use adbproxy_rs.Text.{codes, text_eq, starts_with, is_empty, join}
use adbproxy_rs.Text.Number.{to_decimal}
use adbproxy_rs.Text.Whitespace.{trim, split_whitespace, lines}
use adbproxy_rs.Io.{ok, err}
use adbproxy_rs.Map
use adbproxy_rs.Map.{contains}
use adbproxy_rs.Types.{DeviceEntry}
use adbproxy_rs.Registry.{
  parse_device_line, words_of_line, parse_lines, parse_lists, count_of, count_serials, is_conflict,
  first_public, public_of, assign, entry_of, merge_device_lists, is_online, online_count,
}
use adbproxy_rs.Preferred.{
  pick_preferred, search_order, start_order, add_names, add_backends, push_new, first_pick,
  pick_one_on_backend, one_of, on_backend, local_name, no_devices,
}
use adbproxy_rs.Rewrite.{rewrite_upstream_service}
use adbproxy_rs.Session.{SessionContext, handle_client}
use adbproxy_rs.Session.Dispatch.{IsAllowed, handle_client-IsAllowed}
use adbproxy_rs.Session.Pick.{IsAmong, pick_preferred_sound}
use adbproxy_rs.Session.Nobody.{pick_preferred_nobody}
use adbproxy_rs.Session.Route.{rewrite-merge}
use adbproxy_rs.Runs.Data.{lab, same_serial, office_same, lab_pixel, two_phones, no_lab}

rewrite-merge_example :
    rewrite_upstream_service
      (codes "host:transport:" ++ codes "office:SAME")
      (merge_device_lists same_serial)
      (codes "lab" ∷ [])
    ≡ ok (some (office_same, codes "host:transport:" ++ codes "SAME"))
unfolding merge_device_lists parse_lists parse_lines parse_device_line words_of_line lines trim
    is_empty starts_with split_whitespace join count_serials assign public_of first_public
    is_conflict count_of Map.get Map.insert contains text_eq entry_of to_decimal codes is_online
rewrite-merge_example =
    rewrite-merge same_serial (codes "lab" ∷ []) office_same (omega arith) (inl refl) refl

pick_preferred_sound_example :
    IsAmong lab_pixel two_phones.devices
    × (is_online lab_pixel ≡ true)
    × (keep (on_backend lab_pixel.backend_name) two_phones.devices ≡ lab_pixel ∷ [])
unfolding pick_preferred search_order start_order add_names add_backends push_new contains text_eq
    codes local_name first_pick pick_one_on_backend one_of on_backend is_online
pick_preferred_sound_example =
    pick_preferred_sound two_phones (codes "lab" ∷ codes "office" ∷ []) lab_pixel refl

abbrev local_tablet : DeviceEntry
local_tablet = record office_same { backend_name = codes "local" }

pick_preferred_nobody_example :
    (pick_preferred two_phones [] ≡ err no_devices) ↔ (online_count two_phones ≡ 0)
pick_preferred_nobody_example = pick_preferred_nobody two_phones []

abbrev hub : SessionContext
hub = record {
  registry = two_phones;
  default_backend = lab.addr;
  default_pair_code = none;
  backend_order = codes "lab" ∷ codes "office" ∷ [];
  policy = no_lab;
}

handle_client-IsAllowed_example : IsAllowed hub (handle_client (codes "0012host:transport-any") hub)
handle_client-IsAllowed_example = handle_client-IsAllowed (codes "0012host:transport-any") hub
