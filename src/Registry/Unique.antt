-- ===== src/Registry/Unique.antt =====
-- When the public serials of the merge are unique, and that `find` then leads to each device.
use adbproxy_rs.Base.{
  ℕ, ◌+◌, ◌≤◌, ◌≡◌, ◌≢◌, refl, subst, true, false, some, List, [], ◌∷◌, ◌++◌, arith, All,
  Bool-cases, inl, inr, find,
}
use adbproxy_rs.Text.{Text, codes, text_eq}
use adbproxy_rs.Text.Equality.{text_eq_refl, text_eq-false}
use adbproxy_rs.Text.Number.{to_decimal}
use adbproxy_rs.Text.Number.Laws.{to_decimal-injective}
use adbproxy_rs.Map.{Map, contains}
use adbproxy_rs.Types.{BackendConfig, DeviceEntry}
use adbproxy_rs.Registry.{
  Parsed, parse_lists, count_serials, is_conflict, first_public, public_of, assign, entry_of,
  merge_device_lists, find_device,
}

abbrev pub NoColon : Text → Type 0
NoColon = All (λ c. c ≢ b':')

-- Neither the name of the backend nor the serial holds a colon.
abbrev pub IsPlain : Parsed → Type 0
IsPlain p = NoColon p.backend.name × NoColon p.serial

colon_in : (a x : Text) → ¬ NoColon (a ++ (b':' ∷ x))
colon_in [] x h = h.0 refl
colon_in (c ∷ a) x h = colon_in a x h.1

pub split_at_colon :
    (a b x y : Text) → NoColon a → NoColon b → a ++ (b':' ∷ x) ≡ b ++ (b':' ∷ y) → (a ≡ b) × (x ≡ y)
split_at_colon [] [] x y ha hb e = ground arith
split_at_colon [] (d ∷ b) x y ha hb e = ground arith
split_at_colon (c ∷ a) [] x y ha hb e = ground arith
split_at_colon (c ∷ a) (d ∷ b) x y ha hb e = ground (arith, split_at_colon a b x y)

-- The name that the third form of `public_of` gives.
abbrev numbered : Text → Text → ℕ → Text
numbered n s i = n ++ (b':' ∷ (s ++ (b':' ∷ to_decimal i)))

-- No numbered name from the position on is the given one.
abbrev IsOlder : ℕ → Text → Type 0
IsOlder at u = (n s : Text) (i : ℕ) → NoColon n → NoColon s → at ≤ i → u ≢ numbered n s i

plain-IsOlder : (at : ℕ) (u : Text) → NoColon u → IsOlder at u
plain-IsOlder at u h n s i hn hs le e = colon_in n (s ++ (b':' ∷ to_decimal i)) (subst NoColon e h)

paired-IsOlder : (at : ℕ) (n0 s0 : Text) → NoColon n0 → NoColon s0 → IsOlder at (n0 ++ (b':' ∷ s0))
paired-IsOlder at n0 s0 hn0 hs0 n s i hn hs le e =
    colon_in s (to_decimal i)
      (subst NoColon (split_at_colon n0 n s0 (s ++ (b':' ∷ to_decimal i)) hn0 hn e).1 hs0)

numbered-IsOlder :
    (at : ℕ) (n0 s0 : Text) → NoColon n0 → NoColon s0 → IsOlder (at + 1) (numbered n0 s0 at)
numbered-IsOlder at n0 s0 hn0 hs0 n s i hn hs le e =
    let rest = (split_at_colon n0 n _ _ hn0 hn e).1 in
    omega (arith, to_decimal-injective at i (split_at_colon s0 s _ _ hs0 hs rest).1)

IsOlder-suc : (at : ℕ) (used : List Text) → All (IsOlder at) used → All (IsOlder (at + 1)) used
IsOlder-suc at [] h = tt
IsOlder-suc at (u ∷ used) (h, hs) =
    (λ n s i hn hs' le. h n s i hn hs' (omega arith), IsOlder-suc at used hs)

not-contains_older :
    (at : ℕ) (n s : Text) (used : List Text)
    → NoColon n
    → NoColon s
    → All (IsOlder at) used
    → contains (numbered n s at) used ≡ false
unfolding contains
not-contains_older at n s [] hn hs h = refl
not-contains_older at n s (u ∷ used) hn hs (h, rest) =
    rw (text_eq-false u (numbered n s at) (h n s at hn hs (omega arith)))
      (not-contains_older at n s used hn hs rest)

-- Every name is taken for the first time.
abbrev pub Fresh : List Text → List DeviceEntry → Type 0
Fresh used [] = Unit
Fresh used (d ∷ ds) = (contains d.public_serial used ≡ false) × Fresh (d.public_serial ∷ used) ds

module _ (counts : Map ℕ) (used : List Text) (at : ℕ) (p : Parsed) (plain : IsPlain p) where
  first_public-IsOlder : IsOlder (at + 1) (first_public counts p)
  unfolding first_public codes
  first_public-IsOlder = elim (Bool-cases (is_conflict counts p.serial)) [
    | inl e ↦ rw e (paired-IsOlder (at + 1) p.backend.name p.serial plain.0 plain.1)
    | inr e ↦ rw e (plain-IsOlder (at + 1) p.serial plain.1)
  ]

  public_of-IsOlder : IsOlder (at + 1) (public_of counts used at p)
  unfolding public_of codes
  public_of-IsOlder = elim (Bool-cases (contains (first_public counts p) used)) [
    | inl e ↦ rw e (numbered-IsOlder at p.backend.name p.serial plain.0 plain.1)
    | inr e ↦ rw e first_public-IsOlder
  ]

  public_of_fresh : All (IsOlder at) used → contains (public_of counts used at p) used ≡ false
  unfolding public_of codes
  public_of_fresh h = elim (Bool-cases (contains (first_public counts p) used)) [
    | inl e ↦ rw e (not-contains_older at p.backend.name p.serial used plain.0 plain.1 h)
    | inr e ↦ rw e e
  ]

assign-Fresh :
    (counts : Map ℕ) (used : List Text) (at : ℕ) (ps : List Parsed)
    → All IsPlain ps
    → All (IsOlder at) used
    → Fresh used (assign counts used at ps)
unfolding assign entry_of
assign-Fresh counts used at [] plain h = tt
assign-Fresh counts used at (p ∷ ps) (plain, rest) h = (
  public_of_fresh counts used at p plain h,
  assign-Fresh counts (public_of counts used at p ∷ used) (at + 1) ps rest
      (public_of-IsOlder counts used at p plain, IsOlder-suc at used h),
)

-- The name is taken by nobody after it.
Fresh-apart :
    (k : Text) (used : List Text) (ds : List DeviceEntry)
    → contains k used ≡ true
    → Fresh used ds
    → All (λ d. text_eq k d.public_serial ≡ false) ds
Fresh-apart k used [] c h = tt
Fresh-apart k used (d ∷ ds) c (h, rest) =
    (apart, Fresh-apart k (d.public_serial ∷ used) ds (unfold contains in grind (arith, c)) rest)
  where
    apart : text_eq k d.public_serial ≡ false
    apart = text_eq-false k d.public_serial (λ e. cc (subst (λ t. contains t used ≡ true) e c, h))

abbrev pub IsFound : List DeviceEntry → DeviceEntry → Type 0
IsFound ds d = find (λ e. text_eq e.public_serial d.public_serial) ds ≡ some d

IsFound-cons :
    (d : DeviceEntry) (ds es : List DeviceEntry)
    → All (λ e. text_eq d.public_serial e.public_serial ≡ false) es
    → All (IsFound ds) es
    → All (IsFound (d ∷ ds)) es
IsFound-cons d ds [] a f = tt
IsFound-cons d ds (e ∷ es) (a, as') (f, fs) = (rw a f, IsFound-cons d ds es as' fs)

Fresh-IsFound : (used : List Text) (ds : List DeviceEntry) → Fresh used ds → All (IsFound ds) ds
Fresh-IsFound used [] h = tt
Fresh-IsFound used (d ∷ ds) (h, rest) = (
  rw (text_eq_refl d.public_serial),
  IsFound-cons d ds ds
      (Fresh-apart d.public_serial (d.public_serial ∷ used) ds
        (unfold contains in rw (text_eq_refl d.public_serial)) rest)
      (Fresh-IsFound (d.public_serial ∷ used) ds rest),
)

-- If no name of a backend and no serial holds a colon, the public serials of the merge are all
-- different: each of them is taken for the first time.
pub merge-Fresh :
    (lists : List (BackendConfig × Text))
    → All IsPlain (parse_lists lists)
    → Fresh [] (merge_device_lists lists).devices
unfolding merge_device_lists
merge-Fresh lists h =
    assign-Fresh (count_serials [] (parse_lists lists)) [] 0 (parse_lists lists) h tt

-- If no name of a backend and no serial holds a colon, looking up the public serial of any device of
-- the merge leads to that device, so to its own backend, pair code and upstream serial.
pub find-merge :
    (lists : List (BackendConfig × Text))
    → All IsPlain (parse_lists lists)
    → All
        (λ d. find_device (merge_device_lists lists) d.public_serial ≡ some d)
        (merge_device_lists lists).devices
unfolding find_device
find-merge lists h = Fresh-IsFound [] (merge_device_lists lists).devices (merge-Fresh lists h)
