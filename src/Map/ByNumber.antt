-- ===== src/Map/ByNumber.antt =====
-- `HashMap` with numbers for keys, as an association list.
use adbproxy_rs.Base.{
  ℕ, ◌≡◌, Bool, true, false, Option, none, some, List, [], ◌∷◌, if◌then◌else◌, arith, ◌==◌, ==_iff,
}

abbrev pub NumberMap {ℓ} : Type ℓ → Type ℓ
NumberMap V = List (ℕ × V)

module _ {ℓ} {V : Type ℓ} where
  unfoldable pub get : ℕ → NumberMap V → Option V
  get k [] = none
  get k ((j, v) ∷ m) = let rest = get k m in if j == k then some v else rest

  unfoldable pub remove : ℕ → NumberMap V → NumberMap V
  remove k [] = []
  remove k ((j, v) ∷ m) = let rest = remove k m in if j == k then rest else (j, v) ∷ rest

  unfoldable pub insert : ℕ → V → NumberMap V → NumberMap V
  insert k v m = (k, v) ∷ remove k m

  -- `retain` by a test of the value.
  unfoldable pub retain : (V → Bool) → NumberMap V → NumberMap V
  retain p [] = []
  retain p ((j, v) ∷ m) = let rest = retain p m in if p v then (j, v) ∷ rest else rest

  unfoldable pub contains_key : ℕ → NumberMap V → Bool
  contains_key k m = elim (get k m) [ none ↦ false | some v ↦ true ]

  pub get-remove :
      (k j : ℕ) (m : NumberMap V) → get j (remove k m) ≡ (if k == j then none else get j m)
  unfolding get remove
  get-remove k j [] = ground arith
  get-remove k j ((i, v) ∷ m) = ground (arith, get-remove k j m, ==_iff i k, ==_iff i j, ==_iff k j)

  pub get-insert :
      (k j : ℕ) (v : V) (m : NumberMap V)
      → get j (insert k v m) ≡ (if k == j then some v else get j m)
  unfolding get insert
  get-insert k j v m = ground (arith, get-remove k j m)

  pub get-retain :
      (p : V → Bool) (k : ℕ) (m : NumberMap V) {v : V}
      → get k m ≡ some v
      → p v ≡ true
      → get k (retain p m) ≡ some v
  unfolding get retain
  get-retain p k [] h e = absurd (ground arith)
  get-retain p k ((j, w) ∷ m) {v} h e = ground (arith, get-retain p k m {v = v})

  pub retain_sound :
      (p : V → Bool) (k : ℕ) (m : NumberMap V) {v : V} → get k (retain p m) ≡ some v → p v ≡ true
  unfolding get retain
  retain_sound p k [] h = absurd (ground arith)
  retain_sound p k ((j, w) ∷ m) {v} h = ground (arith, retain_sound p k m {v = v})
