-- ===== src/Backend/Once.antt =====
-- The poll that fills the registry before the hub accepts clients.
use adbproxy_rs.Base.{
  ◌+◌, sym, false, ◌⊎◌, ◌↔◌, none, some, Option-cases, ℕ, ◌≡◌, ◌∙◌, refl, ap, subst, true, ◌||◌,
  List, [], ◌∷◌, ◌++◌, push, All, arith, append-nil, append_assoc, Bool-cases, inl, inr,
}
use adbproxy_rs.Text.{Text, text_eq}
use adbproxy_rs.Text.Equality.{text_eq_refl}
use adbproxy_rs.Text.Whitespace.{lines}
use adbproxy_rs.Io.{Result, ok, err, IoError, Result-cases}
use adbproxy_rs.Types.{BackendConfig}
use adbproxy_rs.Compat.{SemVer, parse_version, is_compatible, evaluate_proxy_version}
use adbproxy_rs.Compat.Order.{IsRecent, evaluate_proxy_version_iff}
use adbproxy_rs.Registry.{parse_lines, parse_lists, merge_device_lists}
use adbproxy_rs.Backend.{
  passes, check_proxy_compat, compat_of, fetch_proxy_version, Attempt, filter_compatible_backends,
  fetch_lists, has_name, add_missing, once_lists,
}

parse_lists-append :
    (xs ys : List (BackendConfig × Text))
    → parse_lists (xs ++ ys) ≡ parse_lists xs ++ parse_lists ys
unfolding parse_lists
parse_lists-append [] ys = refl
parse_lists-append ((b, body) ∷ xs) ys = simp (append_assoc, parse_lists-append xs ys)

lists_nothing : (b : BackendConfig) → parse_lists ((b, []) ∷ []) ≡ []
unfolding parse_lists parse_lines lines
lists_nothing b = refl

parse_lists-push :
    (lists : List (BackendConfig × Text)) (b : BackendConfig)
    → parse_lists (push lists (b, [])) ≡ parse_lists lists
parse_lists-push lists b =
    parse_lists-append lists ((b, []) ∷ [])
    ∙ (ap (λ r. parse_lists lists ++ r) (lists_nothing b) ∙ append-nil (parse_lists lists))

-- The lists that are added hold no devices.
parse_lists-add_missing :
    (lists : List (BackendConfig × Text)) (bs : List BackendConfig)
    → parse_lists (add_missing lists bs) ≡ parse_lists lists
unfolding add_missing
parse_lists-add_missing lists [] = refl
parse_lists-add_missing lists (b ∷ bs) = elim (Bool-cases (has_name b.name lists)) [
  | inl e ↦ rw e (parse_lists-add_missing lists bs)
  | inr e ↦ rw e (parse_lists-add_missing (push lists (b, [])) bs ∙ parse_lists-push lists b)
]

has_name-push :
    (name : Text) (lists : List (BackendConfig × Text)) (l : BackendConfig × Text)
    → has_name name (push lists l) ≡ (has_name name lists || text_eq l.0.name name)
unfolding has_name
has_name-push name [] l = ground arith
has_name-push name (k ∷ ls) l = ground (arith, has_name-push name ls l)

-- A name that is there stays.
has_name-add_missing :
    (name : Text) (lists : List (BackendConfig × Text)) (bs : List BackendConfig)
    → has_name name lists ≡ true
    → has_name name (add_missing lists bs) ≡ true
unfolding add_missing
has_name-add_missing name lists [] h = h
has_name-add_missing name lists (b ∷ bs) h = elim (Bool-cases (has_name b.name lists)) [
  | inl e ↦ rw e (has_name-add_missing name lists bs h)
  | inr e ↦ rw e (
      has_name-add_missing name (push lists (b, [])) bs
        (ground (arith, has_name-push name lists (b, []))))
]

-- Every backend has a list under its name.
abbrev IsListed : List (BackendConfig × Text) → List BackendConfig → Type 0
IsListed lists = All (λ (b : BackendConfig). has_name b.name lists ≡ true)

add_missing-IsListed :
    (lists : List (BackendConfig × Text)) (bs : List BackendConfig)
    → IsListed (add_missing lists bs) bs
unfolding add_missing
add_missing-IsListed lists [] = tt
add_missing-IsListed lists (b ∷ bs) = elim (Bool-cases (has_name b.name lists)) [
  | inl e ↦
      subst (λ out. IsListed (add_missing out bs) (b ∷ bs)) (rw e)
        (has_name-add_missing b.name lists bs e, add_missing-IsListed lists bs)
  | inr e ↦
      let more = push lists (b, []) in
      let there : has_name b.name more ≡ true =
        ground (arith, has_name-push b.name lists (b, []), text_eq_refl b.name) in
      subst (λ out. IsListed (add_missing out bs) (b ∷ bs)) (rw e)
        (has_name-add_missing b.name more bs there, add_missing-IsListed more bs)
]

-- The verdict on an answer.
abbrev Verdict : Result IoError Text → Type 0
Verdict (ok told) = is_compatible (evaluate_proxy_version told) ≡ true
Verdict (err e) = ⊥

module _ (gate : ℕ → Attempt) where
  -- The backend needs no pair code, or its proxy tells a version from 0.4.4 on.
  abbrev pub IsAccepted : ℕ → BackendConfig → Type 0
  IsAccepted i b =
      (b.pair_code ≡ none)
      ⊎ ((code : Text) × (told : Text) × (v : SemVer) × (b.pair_code ≡ some code)
          × ((fetch_proxy_version (gate i) (some code)).1 ≡ ok told)
          × (parse_version told ≡ some v)
          × IsRecent v)

  -- The backends of a list that are accepted, in their order; the one at the front has the given number.
  pub data Selected : ℕ → List BackendConfig → List BackendConfig → Type 0 where
    done : (i : ℕ) → Selected i [] []
    takes :
        (i : ℕ) (b : BackendConfig) (bs kept : List BackendConfig)
        → IsAccepted i b
        → Selected (i + 1) bs kept
        → Selected i (b ∷ bs) (b ∷ kept)
    leaves :
        (i : ℕ) (b : BackendConfig) (bs kept : List BackendConfig)
        → ¬ IsAccepted i b
        → Selected (i + 1) bs kept
        → Selected i (b ∷ bs) kept

  passes_code :
      (i : ℕ) (code : Text)
      → (is_compatible (check_proxy_compat (gate i) (some code)) ≡ true) ↔ (
          (told : Text) × ((fetch_proxy_version (gate i) (some code)).1 ≡ ok told)
          × (is_compatible (evaluate_proxy_version told) ≡ true))
  unfolding check_proxy_compat compat_of is_compatible
  passes_code i code = elim (Result-cases (fetch_proxy_version (gate i) (some code)).1) [
    | inl (told, e) ↦ rw (e, compat_of) (λ h. (told, refl, h), λ (x, p, h). subst Verdict (sym p) h)
    | inr (x, e) ↦ rw (e, compat_of) (λ h. ground arith, λ (y, p, h). ground arith)
  ]

  passes_iff : (i : ℕ) (b : BackendConfig) → (passes (gate i) b ≡ true) ↔ IsAccepted i b
  unfolding passes
  passes_iff i b = elim (Option-cases b.pair_code) [
    | inl e ↦ rw (e, passes) (λ h. inl refl, λ a. refl)
    | inr (code, e) ↦
        rw (e, passes)
          (
            λ h.
                (let (told, p, c) = (passes_code i code).0 h in
                  let (v, q, r) = (evaluate_proxy_version_iff told).0 c in
                  inr (code, told, v, refl, p, q, r)),
            λ a. elim a [
              | inl q ↦ ground arith
              | inr (other, told, v, same, p, q, r) ↦
                  let equal : code ≡ other = ground arith in
                  (passes_code i code).1 (
                    told,
                    ap (λ c. (fetch_proxy_version (gate i) (some c)).1) equal ∙ p,
                    (evaluate_proxy_version_iff told).1 (v, q, r),
                  )
            ],
          )
  ]

  filter-Selected :
      (i : ℕ) (bs : List BackendConfig) → Selected i bs (filter_compatible_backends gate i bs)
  unfolding filter_compatible_backends
  filter-Selected i [] = done i
  filter-Selected i (b ∷ bs) = elim (Bool-cases (passes (gate i) b)) [
    | inl e ↦ rw e (takes i b bs _ ((passes_iff i b).0 e) (filter-Selected (i + 1) bs))
    | inr e ↦ rw e (leaves i b bs _ (refused e) (filter-Selected (i + 1) bs))
  ]
    where
      refused : passes (gate i) b ≡ false → ¬ IsAccepted i b
      refused e a = ground (arith, (passes_iff i b).1 a)

-- What the first poll gives the registry has a list for every configured backend, and it makes the same snapshot as
-- the answers of those backends alone that need no pair code or whose proxy tells a version from 0.4.4 on: a backend whose
-- proxy is too old or does not tell its version shows no device and changes nothing for the others.
pub merge-once_lists :
    (gate asks : ℕ → Attempt) (backends : List BackendConfig)
    → All (λ (b : BackendConfig). has_name b.name (once_lists gate asks backends) ≡ true) backends
      × ((kept : List BackendConfig) × Selected gate 0 backends kept
          × (merge_device_lists (once_lists gate asks backends)
              ≡ merge_device_lists (fetch_lists asks 0 kept)))
unfolding once_lists merge_device_lists
merge-once_lists gate asks backends =
    let kept = filter_compatible_backends gate 0 backends in
    let lists = fetch_lists asks 0 kept in
    (
      add_missing-IsListed lists backends,
      (kept, filter-Selected gate 0 backends, rw (parse_lists-add_missing lists backends)),
    )
