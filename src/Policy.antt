-- ===== src/Policy.antt =====
-- src/policy.rs: which devices are enabled, and the filter of a device list.
pub mod Table
pub mod Body
pub mod Chars
use adbproxy_rs.Base.{
  ℕ, Bool, true, false, not, ◌&&◌, ◌||◌, Option, none, some, List, [], ◌∷◌, ◌++◌, ltb, ◌==◌,
  if◌then◌else◌,
}
use adbproxy_rs.Text.{Text, codes, text_eq, strip_prefix, starts_with, is_empty}
use adbproxy_rs.Text.Whitespace.{trim, split_whitespace, lines}
use adbproxy_rs.Map
use adbproxy_rs.Map.{Map}

pub record DevicePolicyEntry : Type 0 where
  pub serial : Text
  pub enabled : Bool

pub record DevicePolicyTable : Type 0 where
  pub entries : Map Bool

abbrev pub default_table : DevicePolicyTable
default_table = record { entries = [] }

unfoldable pub insert_all : Map Bool → List DevicePolicyEntry → Map Bool
insert_all m [] = m
insert_all m (e ∷ es) = insert_all (Map.insert e.serial e.enabled m) es

unfoldable pub from_entries : List DevicePolicyEntry → DevicePolicyTable
from_entries es = record { entries = insert_all [] es }

unfoldable pub enabled_or : Option Bool → Bool
enabled_or none = true
enabled_or (some b) = b

unfoldable pub is_enabled : DevicePolicyTable → Text → Bool
unfolding enabled_or
is_enabled t serial = enabled_or (Map.get serial t.entries)

unfoldable pub set_enabled : DevicePolicyTable → Text → Bool → DevicePolicyTable
set_enabled t serial enabled =
    if enabled
    then record { entries = Map.remove serial t.entries }
    else record { entries = Map.insert serial false t.entries }

-- The entries that are `false`, as a list.
unfoldable pub disabled_of : Map Bool → List DevicePolicyEntry
disabled_of [] = []
disabled_of ((s, en) ∷ m) =
    let rest = disabled_of m in if en then rest else record { serial = s; enabled = false } ∷ rest

-- `a.cmp(b)` is not greater: the order of bytes, which is that of code points.
unfoldable pub text_le : Text → Text → Bool
text_le [] t = true
text_le (x ∷ s) [] = false
text_le (x ∷ s) (y ∷ t) = ltb x y || (x == y && text_le s t)

unfoldable pub insert_sorted : DevicePolicyEntry → List DevicePolicyEntry → List DevicePolicyEntry
insert_sorted e [] = e ∷ []
insert_sorted e (f ∷ fs) =
    let rest = insert_sorted e fs in if text_le e.serial f.serial then e ∷ f ∷ fs else f ∷ rest

unfoldable pub sort_entries : List DevicePolicyEntry → List DevicePolicyEntry
sort_entries [] = []
sort_entries (e ∷ es) = insert_sorted e (sort_entries es)

unfoldable pub to_disabled_entries : DevicePolicyTable → List DevicePolicyEntry
to_disabled_entries t = sort_entries (disabled_of t.entries)

-- `split_whitespace().next().unwrap_or("")`.
unfoldable pub first_word : List Text → Text
first_word [] = []
first_word (w ∷ ws) = w

-- Whether a line of the raw body goes to the output.
unfoldable pub keeps_line : (Text → Bool) → Text → Bool
keeps_line enabled line =
    let trimmed = trim line in
    if is_empty trimmed
    then false
    else if starts_with (codes "*") trimmed || starts_with (codes "List of") trimmed
    then true
    else (let serial = first_word (split_whitespace trimmed) in
        not (is_empty serial || not (enabled serial)))

unfoldable pub filter_lines : (Text → Bool) → List Text → Text
filter_lines enabled [] = []
filter_lines enabled (l ∷ ls) =
    let rest = filter_lines enabled ls in if keeps_line enabled l then l ++ (b'\n' ∷ rest) else rest

unfoldable pub filter_devices_body : Text → (Text → Bool) → Text
filter_devices_body raw enabled = filter_lines enabled (lines raw)

unfoldable pub transport_serial : Text → Option Text
transport_serial service = elim (strip_prefix (codes "host:transport:") service) [
  | some s ↦
      if text_eq s (codes "any") || (text_eq s (codes "usb") || text_eq s (codes "local"))
      then none
      else some s
  | none ↦ strip_prefix (codes "host:tport:serial:") service
]
