-- ===== src/Runs/Registry.antt =====
-- src/registry.rs at concrete inputs.
use adbproxy_rs.Base.{◌≡◌, refl, some, List, [], ◌∷◌, ◌++◌, All, map, arith}
use adbproxy_rs.Text.{Text, codes, text_eq, starts_with, is_empty, join}
use adbproxy_rs.Text.Number.{to_decimal}
use adbproxy_rs.Text.Whitespace.{trim, split_whitespace, lines}
use adbproxy_rs.Map
use adbproxy_rs.Map.{contains}
use adbproxy_rs.Types.{BackendConfig}
use adbproxy_rs.Runs.Data.{lab, same_serial}
use adbproxy_rs.Registry.{
  parse_device_line, words_of_line, parse_lines, parse_lists, count_of, count_serials, is_conflict,
  first_public, public_of, assign, entry_of, merge_device_lists, find_device,
}
use adbproxy_rs.Registry.Unique.{find-merge, merge-Fresh, Fresh}
use adbproxy_rs.Registry.Collision.{merge_collision, third_name}

rewrites_conflicts :
    map (λ d. d.public_serial) (merge_device_lists same_serial).devices
    ≡ codes "office:SAME" ∷ codes "lab:SAME" ∷ []
unfolding merge_device_lists parse_lists parse_lines parse_device_line words_of_line lines trim
    is_empty starts_with split_whitespace join count_serials assign public_of first_public
    is_conflict count_of Map.get Map.insert contains text_eq entry_of to_decimal codes
rewrites_conflicts = refl

find-merge_example :
    All
      (λ d. find_device (merge_device_lists same_serial) d.public_serial ≡ some d)
      (merge_device_lists same_serial).devices
unfolding parse_lists parse_lines parse_device_line words_of_line lines trim is_empty starts_with
    split_whitespace join codes
find-merge_example = find-merge same_serial (omega arith)

abbrev twins : List (BackendConfig × Text)
twins = (lab, codes "lab:S:2 device\nS device\nS device\n") ∷ []

merge_collision_example :
    map (λ d. d.public_serial) (merge_device_lists twins).devices
    ≡ third_name lab (codes "S")
      ∷ (codes "lab" ++ (b':' ∷ codes "S"))
      ∷ third_name lab (codes "S")
      ∷ []
unfolding parse_lists parse_lines parse_device_line words_of_line lines trim is_empty starts_with
    split_whitespace join codes
merge_collision_example = merge_collision lab (codes "S") twins refl

merge-Fresh_example : Fresh [] (merge_device_lists same_serial).devices
unfolding parse_lists parse_lines parse_device_line words_of_line lines trim is_empty starts_with
    split_whitespace join codes
merge-Fresh_example = merge-Fresh same_serial (omega arith)
