-- ===== src/Session/Nobody.antt =====
-- When no device is picked because there is none.
use adbproxy_rs.Base.{
  ◌≡◌, ◌≢◌, ◌↔◌, refl, ap, subst, Bool, true, false, ◌||◌, List, [], ◌∷◌, keep, push, length, All,
  arith, Bool-cases, inl, inr,
}
use adbproxy_rs.Text.{Text, codes, text_eq}
use adbproxy_rs.Text.Equality.{text_eq_refl, text_eq_sound}
use adbproxy_rs.Io.{err, Result-cases}
use adbproxy_rs.Map.{contains}
use adbproxy_rs.Types.{DeviceEntry, DeviceSnapshot}
use adbproxy_rs.Registry.{is_online, online_count}
use adbproxy_rs.Session.Pick.{IsAmong}
use adbproxy_rs.Preferred.{
  nobody, many, on_backend, one_of, pick_one_on_backend, push_new, add_names, add_backends,
  start_order, search_order, no_devices, too_many, first_pick, pick_preferred,
}

too_many-ne-no_devices : (n : Text) → too_many n ≢ no_devices
unfolding too_many no_devices codes
too_many-ne-no_devices n e = ground arith

-- No device of the backend is online.
abbrev IsQuiet : DeviceSnapshot → Text → Type 0
IsQuiet snap n = keep (on_backend n) snap.devices ≡ []

one_of_nobody : (ds : List DeviceEntry) → one_of ds ≡ err nobody → ds ≡ []
unfolding one_of
one_of_nobody [] h = refl
one_of_nobody (d ∷ []) h = ground arith
one_of_nobody (d ∷ e ∷ ds) h = ground arith

first_pick_nobody :
    (snap : DeviceSnapshot) (ns : List Text)
    → first_pick snap ns ≡ err no_devices
    → (n : Text) → contains n ns ≡ true
    → IsQuiet snap n
unfolding first_pick contains pick_one_on_backend
first_pick_nobody snap [] h n c = ground arith
first_pick_nobody snap (m ∷ ns) h n c =
    elim (Result-cases (one_of (keep (on_backend m) snap.devices))) [
      | inl (x, e) ↦ ground arith
      | inr (many, e) ↦ absurd (too_many-ne-no_devices m (ground arith))
      | inr (nobody, e) ↦ elim (Bool-cases (text_eq m n)) [
        | inl f ↦ rw (← text_eq_sound m n f) (one_of_nobody (keep (on_backend m) snap.devices) e)
        | inr f ↦ first_pick_nobody snap ns (ground arith) n (ground arith)
      ]
    ]

contains-push : (n m : Text) (o : List Text) → contains n (push o m) ≡ (contains n o || text_eq m n)
unfolding contains
contains-push n m [] = ground arith
contains-push n m (k ∷ o) = ground (arith, contains-push n m o)

contains-push_new :
    (n m : Text) (o : List Text) → contains n (push_new o m) ≡ (contains n o || text_eq m n)
unfolding push_new
contains-push_new n m o = elim (Bool-cases (contains m o)) [
  | inl e ↦ elim (Bool-cases (text_eq m n)) [
    | inl f ↦
        rw (e, f) (subst (λ k. contains k o ≡ (contains k o || true)) (text_eq_sound m n f) (rw e))
    | inr f ↦ rw (e, f) (ground arith)
  ]
  | inr e ↦ rw e (contains-push n m o)
]

add_backends_keeps :
    (n : Text) (o : List Text) (ds : List DeviceEntry)
    → contains n o ≡ true
    → contains n (add_backends o ds) ≡ true
unfolding add_backends
add_backends_keeps n o [] h = h
add_backends_keeps n o (d ∷ ds) h =
    add_backends_keeps n (push_new o d.backend_name) ds
      (rw (contains-push_new n d.backend_name o, h))

-- Every backend of a device is searched.
add_backends_covers :
    (o : List Text) (ds : List DeviceEntry)
    → All (λ d. contains d.backend_name (add_backends o ds) ≡ true) ds
unfolding add_backends
add_backends_covers o [] = tt
add_backends_covers o (d ∷ ds) = (
  add_backends_keeps d.backend_name (push_new o d.backend_name) ds
      (rw (contains-push_new d.backend_name d.backend_name o, text_eq_refl d.backend_name) or_true),
  add_backends_covers (push_new o d.backend_name) ds,
)
  where
    or_true : (contains d.backend_name o || true) ≡ true
    or_true = ground arith

keep_nil_of :
    (n : Text) (ds : List DeviceEntry) → keep is_online ds ≡ [] → keep (on_backend n) ds ≡ []
unfolding on_backend
keep_nil_of n [] h = refl
keep_nil_of n (d ∷ ds) h = ground (arith, keep_nil_of n ds)

first_pick_quiet :
    (snap : DeviceSnapshot) (ns : List Text)
    → keep is_online snap.devices ≡ []
    → first_pick snap ns ≡ err no_devices
unfolding first_pick pick_one_on_backend one_of
first_pick_quiet snap [] h = refl
first_pick_quiet snap (n ∷ ns) h =
    rw (keep_nil_of n snap.devices h, first_pick) (first_pick_quiet snap ns h)

not-kept :
    (p : DeviceEntry → Bool) (ds : List DeviceEntry) (d : DeviceEntry)
    → IsAmong d ds
    → keep p ds ≡ []
    → p d ≡ false
not-kept p [] d a h = absurd a
not-kept p (e ∷ ds) d (inl x) h = subst (λ z. p z ≡ false) x (ground arith)
not-kept p (e ∷ ds) d (inr x) h = not-kept p ds d x (ground arith)

quiet_device :
    (ds : List DeviceEntry) (d : DeviceEntry)
    → IsAmong d ds
    → keep (on_backend d.backend_name) ds ≡ []
    → is_online d ≡ false
quiet_device ds d a h =
    let off = not-kept (on_backend d.backend_name) ds d a h in
    (unfold on_backend in ground (arith, text_eq_refl d.backend_name, off))

-- If the own backend of each device is quiet, no device is online.
quiet-All :
    (whole ds : List DeviceEntry)
    → ((d : DeviceEntry) → IsAmong d ds → IsAmong d whole)
    → All (λ d. keep (on_backend d.backend_name) whole ≡ []) ds
    → keep is_online ds ≡ []
quiet-All whole [] sub h = refl
quiet-All whole (d ∷ ds) sub (h, hs) =
    rw (quiet_device whole d (sub d (inl refl)) h) (quiet-All whole ds (λ e a. sub e (inr a)) hs)

All-map :
    (P Q : DeviceEntry → Type 0) (ds : List DeviceEntry)
    → ((d : DeviceEntry) → P d → Q d)
    → All P ds
    → All Q ds
All-map P Q [] f h = tt
All-map P Q (d ∷ ds) f (h, hs) = (f d h, All-map P Q ds f hs)

nil_of_length : (ds : List DeviceEntry) → length ds ≡ 0 → ds ≡ []
nil_of_length [] h = refl
nil_of_length (d ∷ ds) h = absurd (omega arith)

-- The refusal that there are no devices is given exactly if no device of the snapshot is online.
pub pick_preferred_nobody :
    (snap : DeviceSnapshot) (backend_order : List Text)
    → (pick_preferred snap backend_order ≡ err no_devices) ↔ (online_count snap ≡ 0)
unfolding pick_preferred online_count search_order
pick_preferred_nobody snap backend_order = (
  λ h. ap length (
      quiet-All snap.devices snap.devices (λ d a. a)
        (All-map (λ d. contains d.backend_name (search_order snap backend_order) ≡ true) _
          snap.devices
          (λ d c. first_pick_nobody snap (search_order snap backend_order) h d.backend_name c)
          (add_backends_covers (add_names (start_order snap backend_order) backend_order)
            snap.devices))),
  λ h.
      first_pick_quiet snap (search_order snap backend_order)
        (nil_of_length (keep is_online snap.devices) h),
)
