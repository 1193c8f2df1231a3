-- ===== src/Runs/Policy.antt =====
-- src/policy.rs at concrete inputs.
use adbproxy_rs.Base.{◌≡◌, refl, Bool, true, false, [], ◌∷◌, keep, not}
use adbproxy_rs.Text.{Text, codes, text_eq}
use adbproxy_rs.Text.Whitespace.{lines}
use adbproxy_rs.Map
use adbproxy_rs.Registry.{parse_lines}
use adbproxy_rs.Policy.{
  DevicePolicyTable, from_entries, to_disabled_entries, is_enabled, filter_devices_body,
}
use adbproxy_rs.Policy.Body.{parse-filter_devices_body}
use adbproxy_rs.Policy.Table.{from_entries-to_disabled_entries}
use adbproxy_rs.Runs.Data.{lab}

abbrev raw_body : Text
raw_body = codes "List of devices attached\nAAA\tdevice product:x\r\nBBB\toffline\n\n"

abbrev not_bbb : Text → Bool
not_bbb s = not (text_eq s (codes "BBB"))

parse-filter_devices_body_example :
    parse_lines lab (lines (filter_devices_body raw_body not_bbb))
    ≡ keep (λ x. not_bbb x.serial) (parse_lines lab (lines raw_body))
parse-filter_devices_body_example = parse-filter_devices_body lab raw_body not_bbb

abbrev table : DevicePolicyTable
table = record { entries = (codes "BBB", false) ∷ (codes "AAA", true) ∷ [] }

from_entries-to_disabled_entries_example :
    is_enabled (from_entries (to_disabled_entries table)) (codes "AAA")
    ≡ is_enabled table (codes "AAA")
unfolding codes Map.get text_eq
from_entries-to_disabled_entries_example =
    from_entries-to_disabled_entries table (codes "AAA") (refl, (refl, tt))
