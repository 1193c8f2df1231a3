-- ===== src/Registry/Sources.antt =====
-- What the merge keeps of each line, and how the conflicts are counted.
use adbproxy_rs.Base.{ℕ, ◌+◌, ◌≡◌, ◌∙◌, refl, ap, List, [], ◌∷◌, map, arith, if◌then◌else◌, ltb}
use adbproxy_rs.Text.{Text, text_eq}
use adbproxy_rs.Text.Equality.{text_eq_iff}
use adbproxy_rs.Map
use adbproxy_rs.Map.{Map, get-insert}
use adbproxy_rs.Types.{BackendConfig, DeviceEntry}
use adbproxy_rs.Registry.{
  Parsed, parse_lists, count_of, count_serials, public_of, is_conflict, assign, entry_of,
  merge_device_lists,
}

-- An entry without the name that clients see.
abbrev pub unnamed : DeviceEntry → DeviceEntry
unnamed d = record d { public_serial = [] }

assign-unnamed :
    (counts : Map ℕ) (used : List Text) (at : ℕ) (ps : List Parsed)
    → map unnamed (assign counts used at ps) ≡ map (entry_of []) ps
unfolding assign entry_of
assign-unnamed counts used at [] = refl
assign-unnamed counts used at (p ∷ ps) =
    ap (λ r. entry_of [] p ∷ r)
      (assign-unnamed counts (public_of counts used at p ∷ used) (at + 1) ps)

-- How many of the lines have the serial.
unfoldable pub occurrences : Text → List Parsed → ℕ
occurrences s [] = 0
occurrences s (p ∷ ps) = (if text_eq p.serial s then 1 else 0) + occurrences s ps

-- The counting loop counts.
count_serials-occurrences :
    (s : Text) (counts : Map ℕ) (ps : List Parsed)
    → count_of (Map.get s (count_serials counts ps))
      ≡ count_of (Map.get s counts) + occurrences s ps
unfolding count_serials occurrences count_of
count_serials-occurrences s counts [] = omega arith
count_serials-occurrences s counts (p ∷ ps) =
    let n = count_of (Map.get p.serial counts) + 1 in
    ground (
      arith,
      count_serials-occurrences s (Map.insert p.serial n counts) ps,
      get-insert p.serial s n counts,
      text_eq_iff p.serial s,
    )

-- A serial is a conflict exactly if two lines of the merge or more have it.
pub is_conflict-occurrences :
    (s : Text) (ps : List Parsed) → is_conflict (count_serials [] ps) s ≡ ltb 1 (occurrences s ps)
unfolding is_conflict
is_conflict-occurrences s ps = ap (λ n. ltb 1 n) (count_serials-occurrences s [] ps ∙ start)
  where
    start : count_of (Map.get s []) + occurrences s ps ≡ occurrences s ps
    start = unfold Map.get count_of in omega arith

-- The merge has one entry for each line that was parsed, in their order, with the serial, the state,
-- the extras and the name, the address and the pair code of the backend that the line came from, and
-- with no route.
pub merge-unnamed :
    (lists : List (BackendConfig × Text))
    → map unnamed (merge_device_lists lists).devices ≡ map (entry_of []) (parse_lists lists)
unfolding merge_device_lists
merge-unnamed lists = assign-unnamed (count_serials [] (parse_lists lists)) [] 0 (parse_lists lists)
