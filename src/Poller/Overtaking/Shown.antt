-- ===== src/Poller/Overtaking/Shown.antt =====
-- What the registry shows while the watchers interleave.
use adbproxy_rs.Base.{
  ℕ, ◌≡◌, ◌≢◌, ◌==◌, ◌∙◌, refl, sym, ap, some, List, [], ◌∷◌, ◌++◌, map, append-nil, append_assoc,
  arith, Bool-cases, inl, inr,
}
use adbproxy_rs.Text.{Text}
use adbproxy_rs.Types.{BackendConfig, DeviceSnapshot}
use adbproxy_rs.Registry.{merge_device_lists}
use adbproxy_rs.Backend.{Attempt}
use adbproxy_rs.Poller.{seeded, shared_entry, update_from_backend_lists, collect, hear}
use adbproxy_rs.Poller.Seed.{
  IsSeeded, publish_start, collect_seeded, hear-IsSeeded, hear_all, seed-IsSeeded,
}
use adbproxy_rs.Poller.Latest.{latest, hear_all-append, seed-hear_all, shared_entry-latest}
use adbproxy_rs.Poller.Overtaking.{
  Phase, idle, heard, holds, PollerState, set_phase, Step, hears, collects, skips, publishes, Reach,
  here, next, first_state, seed_lists,
}

module _ (seed : List (BackendConfig × Text)) (order : List BackendConfig) where
  -- The lists are the last one of each backend at some moment: behind the seed and a first part of what came since.
  abbrev pub IsPast : List (BackendConfig × Text) → List (BackendConfig × Text) → Type 0
  IsPast log lists =
      (past : List (BackendConfig × Text)) × (later : List (BackendConfig × Text)) × (log
        ≡ past ++ later)
      × (lists ≡ map (latest (seed ++ past)) order)

  IsPast-later :
      (log lists : List (BackendConfig × Text)) (x : BackendConfig × Text)
      → IsPast log lists
      → IsPast (log ++ (x ∷ [])) lists
  IsPast-later log lists x (past, later, e, f) =
      (past, later ++ (x ∷ []), ap (λ l. l ++ (x ∷ [])) e ∙ append_assoc past later (x ∷ []), f)

  -- The map has the lists of the log, and what is shown or will be are lists of the past.
  IsSound : PollerState → Type 0
  IsSound s =
      (s.shared ≡ hear_all (seed ++ s.log) [])
      × IsSeeded order s.shared
      × ((i : ℕ) (lists : List (BackendConfig × Text))
          → s.phase i ≡ holds lists
          → IsPast s.log lists)
      × ((lists : List (BackendConfig × Text)) × IsPast s.log lists
          × (s.registry ≡ merge_device_lists lists))

  collect-IsPast :
      (s : PollerState) (lists : List (BackendConfig × Text))
      → s.shared ≡ hear_all (seed ++ s.log) []
      → IsSeeded order s.shared
      → collect order s.shared ≡ some lists
      → IsPast s.log lists
  collect-IsPast s lists same there e =
      let entries : map (shared_entry s.shared) order ≡ lists =
        ground (arith, collect_seeded order s.shared there) in
      (
        s.log,
        [],
        sym (append-nil s.log),
        sym entries
            ∙ (ap (λ m. map (shared_entry m) order) same
                ∙ shared_entry-latest (seed ++ s.log) order),
      )

  -- A watcher that holds nothing does not add to what is held.
  held :
      (i j : ℕ) (p : Phase) (phase : ℕ → Phase) (lists : List (BackendConfig × Text))
      → set_phase i p phase j ≡ holds lists
      → p ≢ holds lists
      → phase j ≡ holds lists
  held i j p phase lists h ne = elim (Bool-cases (j == i)) [
    | inl e ↦ absurd (ne (rw e at h))
    | inr e ↦ rw e at h
  ]

  Step-IsSound : {s t : PollerState} → Step order s t → IsSound s → IsSound t
  unfolding IsSound update_from_backend_lists
  Step-IsSound (hears i b body s at rests) (same, there, pending, (lists, past, from)) = (
    ap (hear b body) same
        ∙ (sym (hear_all-append (seed ++ s.log) ((b, body) ∷ []) [])
            ∙ ap (λ l. hear_all l []) (append_assoc seed s.log ((b, body) ∷ []))),
    hear-IsSeeded order b body s.shared there,
    λ j held_lists e.
        IsPast-later s.log held_lists (b, body)
          (pending j held_lists (held i j heard s.phase held_lists e cc)),
    (lists, IsPast-later s.log lists (b, body) past, from),
  )
  Step-IsSound (collects i lists s reads e) (same, there, pending, shown) = (
    same,
    there,
    λ j held_lists f. elim (Bool-cases (j == i)) [
      | inl q ↦
          let mine : holds lists ≡ holds held_lists = rw q at f in
          collect-IsPast s held_lists same there (ground (arith, mine))
      | inr q ↦ pending j held_lists (rw q at f)
    ],
    shown,
  )
  Step-IsSound (skips i s reads e) (same, there, pending, shown) = (
    same,
    there,
    λ j held_lists f. pending j held_lists (held i j idle s.phase held_lists f cc),
    shown,
  )
  Step-IsSound (publishes i lists s has) (same, there, pending, shown) = (
    same,
    there,
    λ j held_lists f. pending j held_lists (held i j idle s.phase held_lists f cc),
    (lists, pending i lists has, refl),
  )

  Reach-IsSound : {s t : PollerState} → Reach order s t → IsSound s → IsSound t
  Reach-IsSound here h = h
  Reach-IsSound (next r st) h = Step-IsSound st (Reach-IsSound r h)

module _ (gate asks : ℕ → Attempt) (order : List BackendConfig) where
  pub seeded-hear_all : seeded gate asks order ≡ hear_all (seed_lists gate asks order) []
  unfolding seeded
  seeded-hear_all = seed-hear_all _ asks 0 order []

  pub seeded-IsSeeded : IsSeeded order (seeded gate asks order)
  unfolding seeded
  seeded-IsSeeded = seed-IsSeeded _ asks 0 order []

  first_state-IsSound :
      (registry : DeviceSnapshot)
      → IsSound (seed_lists gate asks order) order (first_state gate asks order registry)
  unfolding IsSound
  first_state-IsSound registry =
      let seed = seed_lists gate asks order in
      (
        seeded-hear_all ∙ ap (λ l. hear_all l []) (sym (append-nil seed)),
        seeded-IsSeeded,
        λ i lists e. absurd (waits lists e),
        (
          map (latest (seed ++ [])) order,
          ([], [], refl, refl),
          publish_start gate asks order registry
              ∙ ap merge_device_lists (
                  ap (λ m. map (shared_entry m) order) seeded-hear_all
                  ∙ (shared_entry-latest seed order
                      ∙ ap (λ l. map (latest l) order) (sym (append-nil seed)))),
        ),
      )
    where
      waits : (lists : List (BackendConfig × Text)) → idle ≡ holds lists → ⊥
      waits lists e = cc

-- However the watchers interleave from the seed on, the registry is always the merge of the last list of each configured
-- backend, in the order of the configuration, as they were at one moment: when the seed and some first part of the lists
-- that the watchers have put into the map had come. Every backend has its list there, and lists of different moments are not
-- mixed.
pub Reach-IsPast :
    (gate asks : ℕ → Attempt) (order : List BackendConfig) (registry : DeviceSnapshot)
    {t : PollerState}
    → Reach order (first_state gate asks order registry) t
    → (past : List (BackendConfig × Text)) × (later : List (BackendConfig × Text)) × (t.log
        ≡ past ++ later)
      × (t.registry ≡ merge_device_lists (map (latest (seed_lists gate asks order ++ past)) order))
unfolding IsSound
Reach-IsPast gate asks order registry r =
    let (same, there, pending, (lists, (past, later, e, f), from)) =
      Reach-IsSound (seed_lists gate asks order) order r
        (first_state-IsSound gate asks order registry) in
    (past, later, e, from ∙ ap merge_device_lists f)
