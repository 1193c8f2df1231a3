-- ===== src/Map.antt =====
-- `HashMap` with text keys as an association list, and `HashSet` of texts as a list. Nothing here
-- depends on the order of entries: the program sorts where it prints a map.
pub mod ByNumber
use adbproxy_rs.Base.{
  ◌≡◌, Bool, true, false, ◌||◌, Option, none, some, List, [], ◌∷◌, if◌then◌else◌, arith,
}
use adbproxy_rs.Text.{Text, text_eq}
use adbproxy_rs.Text.Equality.{text_eq_iff}

abbrev pub Map {ℓ} : Type ℓ → Type ℓ
Map V = List (Text × V)

module _ {ℓ} {V : Type ℓ} where
  unfoldable pub get : Text → Map V → Option V
  get k [] = none
  get k ((j, v) ∷ m) = let rest = get k m in if text_eq j k then some v else rest

  unfoldable pub remove : Text → Map V → Map V
  remove k [] = []
  remove k ((j, v) ∷ m) = let rest = remove k m in if text_eq j k then rest else (j, v) ∷ rest

  unfoldable pub insert : Text → V → Map V → Map V
  unfolding remove
  insert k v m = (k, v) ∷ remove k m

  pub get-remove :
      (k j : Text) (m : Map V) → get j (remove k m) ≡ (if text_eq k j then none else get j m)
  unfolding get remove
  get-remove k j [] = ground arith
  get-remove k j ((i, v) ∷ m) =
      ground (arith, get-remove k j m, text_eq_iff i k, text_eq_iff i j, text_eq_iff k j)

  pub get-insert :
      (k j : Text) (v : V) (m : Map V)
      → get j (insert k v m) ≡ (if text_eq k j then some v else get j m)
  unfolding get insert
  get-insert k j v m = ground (arith, get-remove k j m)

  unfoldable pub contains_key : Text → Map V → Bool
  contains_key k m = elim (get k m) [ none ↦ false | some v ↦ true ]

  pub contains_key-insert :
      (k j : Text) (v : V) (m : Map V)
      → contains_key j (insert k v m) ≡ (text_eq k j || contains_key j m)
  unfolding contains_key
  contains_key-insert k j v m = ground (arith, get-insert k j v m)

-- `set.contains(k)`.
unfoldable pub contains : Text → List Text → Bool
contains k [] = false
contains k (j ∷ s) = text_eq j k || contains k s
