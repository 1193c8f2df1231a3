-- ===== src/Registry.antt =====
-- src/registry.rs: the merged list of devices. The proofs are in the children.
pub mod Sources
pub mod Unique
pub mod Collision
use adbproxy_rs.Base.{
  ℕ, ◌+◌, Bool, true, false, ◌&&◌, ◌||◌, Option, none, some, List, [], ◌∷◌, ◌++◌, push, find, keep,
  length, ltb, ◌==◌, if◌then◌else◌, not,
}
use adbproxy_rs.Text.{Text, codes, text_eq, starts_with, is_empty, join}
use adbproxy_rs.Text.Number.{to_decimal}
use adbproxy_rs.Text.Whitespace.{trim, split_whitespace, lines}
use adbproxy_rs.Map
use adbproxy_rs.Map.{Map, contains}
use adbproxy_rs.Types.{BackendConfig, DeviceEntry, DeviceSnapshot}

-- One line of `format_devices`.
unfoldable pub format_line : Bool → DeviceEntry → Text
format_line long d =
    let short = d.public_serial ++ (codes "\t" ++ (d.state ++ codes "\n")) in
    if long
    then (if is_empty d.extras
        then short
        else d.public_serial
          ++ (codes "\t" ++ (d.state ++ (codes " " ++ (d.extras ++ codes "\n")))))
    else short

format_all : Bool → List DeviceEntry → Text
format_all long [] = []
format_all long (d ∷ ds) = format_line long d ++ format_all long ds

unfoldable pub format_devices : Bool → DeviceSnapshot → Text
unfolding format_all
format_devices long snap = format_all long snap.devices

unfoldable pub find_device : DeviceSnapshot → Text → Option DeviceEntry
find_device snap serial = find (λ d. text_eq d.public_serial serial) snap.devices

-- `d.state == "device"`.
unfoldable pub is_online : DeviceEntry → Bool
is_online d = text_eq d.state (codes "device")

unfoldable pub online_count : DeviceSnapshot → ℕ
online_count snap = length (keep is_online snap.devices)

-- Serial, state and extras of a line that has words.
unfoldable pub words_of_line : List Text → Option (Text × Text × Text)
words_of_line (serial ∷ state ∷ extras) = some (serial, state, join (codes " ") extras)
words_of_line _ = none

unfoldable pub parse_device_line : Text → Option (Text × Text × Text)
parse_device_line raw =
    let line = trim raw in
    if is_empty line || (starts_with (codes "*") line || starts_with (codes "List of") line)
    then none
    else words_of_line (split_whitespace line)

-- A line that was parsed, with the backend that it came from.
pub record Parsed : Type 0 where
  pub backend : BackendConfig
  pub serial : Text
  pub state : Text
  pub extras : Text

unfoldable pub parse_lines : BackendConfig → List Text → List Parsed
parse_lines b [] = []
parse_lines b (l ∷ ls) = elim (parse_device_line l) [
  | none ↦ parse_lines b ls
  | some (serial, state, extras) ↦
      record { backend = b; serial = serial; state = state; extras = extras } ∷ parse_lines b ls
]

-- The `parsed` of the first pass.
unfoldable pub parse_lists : List (BackendConfig × Text) → List Parsed
parse_lists [] = []
parse_lists ((b, body) ∷ rest) = parse_lines b (lines body) ++ parse_lists rest

unfoldable pub count_of : Option ℕ → ℕ
count_of none = 0
count_of (some n) = n

-- The `serial_counts` of the first pass.
unfoldable pub count_serials : Map ℕ → List Parsed → Map ℕ
count_serials counts [] = counts
count_serials counts (p ∷ ps) =
    count_serials (Map.insert p.serial (count_of (Map.get p.serial counts) + 1) counts) ps

unfoldable pub is_conflict : Map ℕ → Text → Bool
is_conflict counts serial = ltb 1 (count_of (Map.get serial counts))

-- The public serial that an entry is tried under.
unfoldable pub first_public : Map ℕ → Parsed → Text
first_public counts p =
    if is_conflict counts p.serial then p.backend.name ++ (codes ":" ++ p.serial) else p.serial

-- The public serial of the entry at the position, when the names are used already.
unfoldable pub public_of : Map ℕ → List Text → ℕ → Parsed → Text
public_of counts used at p =
    let first = first_public counts p in
    if contains first used
    then p.backend.name ++ (codes ":" ++ (p.serial ++ (codes ":" ++ to_decimal at)))
    else first

unfoldable pub entry_of : Text → Parsed → DeviceEntry
entry_of public p = record {
  public_serial = public;
  upstream_serial = p.serial;
  state = p.state;
  extras = p.extras;
  backend_name = p.backend.name;
  backend_addr = p.backend.addr;
  pair_code = p.backend.pair_code;
  route_id = none;
}

-- The second pass, from a position on. The names that are used are those of the entries before it:
-- a name that is tried and not taken is used already.
unfoldable pub assign : Map ℕ → List Text → ℕ → List Parsed → List DeviceEntry
assign counts used at [] = []
assign counts used at (p ∷ ps) =
    let public = public_of counts used at p in
    entry_of public p ∷ assign counts (public ∷ used) (at + 1) ps

unfoldable pub merge_device_lists : List (BackendConfig × Text) → DeviceSnapshot
merge_device_lists lists =
    let parsed = parse_lists lists in
    record { devices = assign (count_serials [] parsed) [] 0 parsed }
