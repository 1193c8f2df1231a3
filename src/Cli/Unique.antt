-- ===== src/Cli/Unique.antt =====
-- The backends of a run: one for each name.
use adbproxy_rs.Base.{
  ◌≡◌, ◌∙◌, refl, sym, ap, Bool, true, Option, none, some, List, [], ◌∷◌, ◌++◌, keep, find, arith,
  Bool-cases, inl, inr, if◌then◌else◌, append_assoc,
}
use adbproxy_rs.Text.{Text, text_eq}
use adbproxy_rs.Text.Equality.{text_eq_iff}
use adbproxy_rs.Map.{contains}
use adbproxy_rs.Types.{BackendConfig}
use adbproxy_rs.Io.{Result, ok, Result-cases}
use adbproxy_rs.Addr.{SocketAddr}
use adbproxy_rs.Config.{HubConfig}
use adbproxy_rs.Cli.{
  Args, Places, base_config, apply_args, build_config, reverse_onto, reverse, first_of_each,
  last_of_each,
}

module _ {ℓ} {A : Type ℓ} where
  abbrev pub to_list : Option A → List A
  to_list none = []
  to_list (some x) = x ∷ []

  -- The last element that passes the test.
  unfoldable pub find_last : (A → Bool) → List A → Option A
  find_last p [] = none
  find_last p (x ∷ xs) = elim (find_last p xs) [
    | some y ↦ some y
    | none ↦ if p x then some x else none
  ]

  keep-reverse_onto :
      (p : A → Bool) (xs acc : List A)
      → keep p (reverse_onto xs acc) ≡ reverse_onto (keep p xs) (keep p acc)
  unfolding reverse_onto
  keep-reverse_onto p [] acc = refl
  keep-reverse_onto p (x ∷ xs) acc = elim (Bool-cases (p x)) [
    | inl e ↦ rw (keep-reverse_onto p xs (x ∷ acc), e)
    | inr e ↦ rw (keep-reverse_onto p xs (x ∷ acc), e)
  ]

  keep-reverse : (p : A → Bool) (xs : List A) → keep p (reverse xs) ≡ reverse (keep p xs)
  unfolding reverse
  keep-reverse p xs = keep-reverse_onto p xs []

  find-append :
      (p : A → Bool) (xs ys : List A)
      → find p (xs ++ ys) ≡ (elim (find p xs) [ some x ↦ some x | none ↦ find p ys ])
  find-append p [] ys = refl
  find-append p (x ∷ xs) ys = ground (arith, find-append p xs ys)

  reverse_onto-append : (xs acc : List A) → reverse_onto xs acc ≡ reverse xs ++ acc
  unfolding reverse_onto reverse
  reverse_onto-append [] acc = refl
  reverse_onto-append (x ∷ xs) acc =
      reverse_onto-append xs (x ∷ acc)
      ∙ sym (
          ap (λ r. r ++ acc) (reverse_onto-append xs (x ∷ []))
          ∙ append_assoc (reverse xs) (x ∷ []) acc)

  find-reverse : (p : A → Bool) (xs : List A) → find p (reverse xs) ≡ find_last p xs
  unfolding reverse find_last reverse_onto
  find-reverse p [] = refl
  find-reverse p (x ∷ xs) =
      ap (find p) (reverse_onto-append xs (x ∷ []))
      ∙ (find-append p (reverse xs) (x ∷ []) ∙ rw (find-reverse p xs) refl)

abbrev pub named : Text → BackendConfig → Bool
named name b = text_eq b.name name

contains-same :
    (a b : Text) (seen : List Text) → text_eq a b ≡ true → contains a seen ≡ contains b seen
contains-same a b seen h = ap (λ t. contains t seen) ((text_eq_iff a b).0 h)

keep-first_of_each :
    (name : Text) (seen : List Text) (bs : List BackendConfig)
    → keep (named name) (first_of_each seen bs)
      ≡ (if contains name seen then [] else to_list (find (named name) bs))
unfolding first_of_each contains
keep-first_of_each name seen [] = ground arith
keep-first_of_each name seen (b ∷ bs) = elim (Bool-cases (contains b.name seen)) [
  | inl e ↦
      rw (e, first_of_each)
        (ground (arith, keep-first_of_each name seen bs, contains-same b.name name seen))
  | inr e ↦
      rw (e, first_of_each)
        (ground (arith, keep-first_of_each name (b.name ∷ seen) bs, contains-same b.name name seen))
]

reverse-to_list : (o : Option BackendConfig) → reverse (to_list o) ≡ to_list o
unfolding reverse reverse_onto
reverse-to_list none = refl
reverse-to_list (some b) = refl

keep-last_of_each :
    (name : Text) (bs : List BackendConfig)
    → keep (named name) (last_of_each bs) ≡ to_list (find_last (named name) bs)
unfolding last_of_each contains
keep-last_of_each name bs =
    keep-reverse (named name) (first_of_each [] (reverse bs))
    ∙ (ap reverse
          (keep-first_of_each name [] (reverse bs) ∙ ap to_list (find-reverse (named name) bs))
        ∙ reverse-to_list (find_last (named name) bs))

-- In the configuration of a run each name has at most one backend: of several that the arguments or the file give one
-- name the last one stays, as it is, and no name is lost.
pub build_config-named :
    (parse_addr : Text → Result Text SocketAddr) (args : Args) (places : Places) {c : HubConfig}
    → build_config parse_addr args places ≡ ok c
    → (base : HubConfig) × (base_config parse_addr args places ≡ ok base)
      × ((name : Text)
          → keep (named name) c.backends ≡ to_list (find_last (named name) base.backends))
unfolding build_config apply_args
build_config-named parse_addr args places {c} h =
    elim (Result-cases (base_config parse_addr args places)) [
      | inr (e, p) ↦ ground arith
      | inl (base, p) ↦
          let same : apply_args args base ≡ c = ground arith in
          (base, p, λ name. rw (← same) (keep-last_of_each name base.backends))
    ]
