-- ===== src/Registry/Collision.antt =====
-- A class of device lists for which the merge gives one public serial twice.
use adbproxy_rs.Base.{
  ◌≡◌, ◌∙◌, refl, ap, true, false, List, [], ◌∷◌, ◌++◌, length, length-append, arith, map,
}
use adbproxy_rs.Text.{Text, codes, text_eq}
use adbproxy_rs.Text.Equality.{text_eq_refl, text_eq-false}
use adbproxy_rs.Text.Number.{to_decimal}
use adbproxy_rs.Map.{contains}
use adbproxy_rs.Types.{BackendConfig}
use adbproxy_rs.Registry.{
  Parsed, parse_lists, count_serials, is_conflict, first_public, public_of, assign, entry_of,
  merge_device_lists,
}
use adbproxy_rs.Registry.Sources.{occurrences, is_conflict-occurrences}

-- The third form of a public serial, as the program writes it at the third position.
abbrev pub third_name : BackendConfig → Text → Text
third_name b s = b.name ++ (b':' ∷ (s ++ (b':' ∷ b'2' ∷ [])))

abbrev line_of : BackendConfig → Text → Parsed
line_of b s = record { backend = b; serial = s; state = codes "device"; extras = [] }

-- A backend that lists a device named like the third form, and then one serial twice.
abbrev pub colliding : BackendConfig → Text → List Parsed
colliding b s = line_of b (third_name b s) ∷ line_of b s ∷ line_of b s ∷ []

module _ (b : BackendConfig) (s : Text) where
  longer : text_eq (third_name b s) s ≡ false
  longer = text_eq-false (third_name b s) s (λ e. omega (
    arith,
    ap length e,
    length-append b.name (b':' ∷ (s ++ (b':' ∷ b'2' ∷ []))),
    length-append s (b':' ∷ b'2' ∷ []),
  ))

  longer_sym : text_eq s (third_name b s) ≡ false
  longer_sym = text_eq-false s (third_name b s) (λ e. omega (
    arith,
    ap length e,
    length-append b.name (b':' ∷ (s ++ (b':' ∷ b'2' ∷ []))),
    length-append s (b':' ∷ b'2' ∷ []),
  ))

  third_ne_second : text_eq (third_name b s) (b.name ++ (b':' ∷ s)) ≡ false
  third_ne_second = text_eq-false (third_name b s) (b.name ++ (b':' ∷ s)) (λ e. omega (
    arith,
    ap length e,
    length-append b.name (b':' ∷ (s ++ (b':' ∷ b'2' ∷ []))),
    length-append s (b':' ∷ b'2' ∷ []),
    length-append b.name (b':' ∷ s),
  ))

  alone : is_conflict (count_serials [] (colliding b s)) (third_name b s) ≡ false
  alone =
      is_conflict-occurrences (third_name b s) (colliding b s)
      ∙ (unfold occurrences in rw (longer_sym, text_eq_refl (third_name b s)))

  twice : is_conflict (count_serials [] (colliding b s)) s ≡ true
  twice =
      is_conflict-occurrences s (colliding b s)
      ∙ (unfold occurrences in rw (longer, text_eq_refl s))

  two : to_decimal 2 ≡ b'2' ∷ []
  unfolding to_decimal
  two = refl

  names :
      map (λ d. d.public_serial) (assign (count_serials [] (colliding b s)) [] 0 (colliding b s))
      ≡ third_name b s ∷ (b.name ++ (b':' ∷ s)) ∷ third_name b s ∷ []
  unfolding assign public_of first_public contains codes entry_of
  names = simp (alone, twice, third_ne_second, text_eq_refl (b.name ++ (b':' ∷ s)), two)

-- Where a backend lists a device under the very name `<backend>:<serial>:2` and then one serial twice,
-- in whatever text this was written, the first and the third public serial of the merge are the same
-- name: they are not unique.
pub merge_collision :
    (b : BackendConfig) (s : Text) (lists : List (BackendConfig × Text))
    → parse_lists lists ≡ colliding b s
    → map (λ d. d.public_serial) (merge_device_lists lists).devices
      ≡ third_name b s ∷ (b.name ++ (b':' ∷ s)) ∷ third_name b s ∷ []
unfolding merge_device_lists
merge_collision b s lists e = rw (e, merge_device_lists) (names b s)
