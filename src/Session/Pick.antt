-- ===== src/Session/Pick.antt =====
-- The device that is meant when a client names none.
use adbproxy_rs.Base.{
  ◌≡◌, ◌⊎◌, refl, sym, subst, Bool, true, List, [], ◌∷◌, keep, push, any, arith, Bool-cases, inl,
  inr,
}
use adbproxy_rs.Text.{Text, text_eq}
use adbproxy_rs.Text.Equality.{text_eq_sound}
use adbproxy_rs.Io.{ok, err, Result-cases}
use adbproxy_rs.Map.{contains}
use adbproxy_rs.Types.{DeviceEntry, DeviceSnapshot}
use adbproxy_rs.Registry.{is_online}
use adbproxy_rs.Preferred.{
  nobody, many, local_name, on_backend, one_of, pick_one_on_backend, push_new, add_names,
  add_backends, start_order, search_order, too_many, first_pick, pick_preferred,
}

-- The device is one of the list.
abbrev pub IsAmong : DeviceEntry → List DeviceEntry → Type 0
IsAmong d [] = ⊥
IsAmong d (e ∷ es) = (e ≡ d) ⊎ IsAmong d es

pub keep-IsAmong :
    (p : DeviceEntry → Bool) (d : DeviceEntry) (es : List DeviceEntry)
    → IsAmong d (keep p es)
    → IsAmong d es × (p d ≡ true)
keep-IsAmong p d [] h = absurd h
keep-IsAmong p d (e ∷ es) h = elim (Bool-cases (p e)) [
  | inr x ↦ let ih = keep-IsAmong p d es (rw x at h) in (inr ih.0, ih.1)
  | inl x ↦ elim (first (rw x at h)) [
    | inl y ↦ (inl y, subst (λ z. p z ≡ true) y x)
    | inr y ↦ let ih = keep-IsAmong p d es y in (inr ih.0, ih.1)
  ]
]
  where
    first : IsAmong d (e ∷ keep p es) → (e ≡ d) ⊎ IsAmong d (keep p es)
    first z = z

one_of_sound : (ds : List DeviceEntry) (d : DeviceEntry) → one_of ds ≡ ok d → ds ≡ d ∷ []
unfolding one_of
one_of_sound [] d h = ground arith
one_of_sound (x ∷ []) d h = ground arith
one_of_sound (x ∷ y ∷ ds) d h = ground arith

first_pick_sound :
    (snap : DeviceSnapshot) (ns : List Text) (d : DeviceEntry)
    → first_pick snap ns ≡ ok d
    → (n : Text) × (keep (on_backend n) snap.devices ≡ d ∷ [])
unfolding first_pick
first_pick_sound snap [] d h = ground arith
first_pick_sound snap (n ∷ ns) d h = elim (Result-cases (pick_one_on_backend snap n)) [
  | inl (x, e) ↦
      let same : x ≡ d = ground arith in
      (
        n,
        rw (← same)
            (unfold pick_one_on_backend in one_of_sound (keep (on_backend n) snap.devices) x e),
      )
  | inr (nobody, e) ↦ first_pick_sound snap ns d (ground arith)
  | inr (many, e) ↦ ground arith
]

on_backend_parts :
    (n : Text) (d : DeviceEntry)
    → on_backend n d ≡ true
    → (text_eq d.backend_name n ≡ true) × (is_online d ≡ true)
unfolding on_backend
on_backend_parts n d h = ground arith

-- A device that is picked is one of the snapshot, it is online, and it is the only device of its backend
-- that is.
pub pick_preferred_sound :
    (snap : DeviceSnapshot) (backend_order : List Text) (d : DeviceEntry)
    → pick_preferred snap backend_order ≡ ok d
    → IsAmong d snap.devices
      × (is_online d ≡ true)
      × (keep (on_backend d.backend_name) snap.devices ≡ d ∷ [])
unfolding pick_preferred
pick_preferred_sound snap backend_order d h =
    let (n, alone) = first_pick_sound snap (search_order snap backend_order) d h in
    let (among, both) = keep-IsAmong (on_backend n) d snap.devices (rw alone (inl refl)) in
    let (name, online) = on_backend_parts n d both in
    (
      among,
      online,
      subst (λ m. keep (on_backend m) snap.devices ≡ d ∷ [])
          (sym (text_eq_sound d.backend_name n name)) alone,
    )

-- What is put into the order stays behind what stands first.
add_names_first : (x : Text) (o ns : List Text) → (r : List Text) × (add_names (x ∷ o) ns ≡ x ∷ r)
unfolding add_names push_new
add_names_first x o [] = (o, refl)
add_names_first x o (n ∷ ns) = elim (Bool-cases (text_eq n local_name)) [
  | inl e ↦ let (r, ih) = add_names_first x o ns in (r, rw e ih)
  | inr e ↦ elim (Bool-cases (contains n (x ∷ o))) [
    | inl f ↦ let (r, ih) = add_names_first x o ns in (r, rw (e, f) ih)
    | inr f ↦ let (r, ih) = add_names_first x (push o n) ns in (r, rw (e, f) ih)
  ]
]

add_backends_first :
    (x : Text) (o : List Text) (ds : List DeviceEntry)
    → (r : List Text) × (add_backends (x ∷ o) ds ≡ x ∷ r)
unfolding add_backends push_new
add_backends_first x o [] = (o, refl)
add_backends_first x o (d ∷ ds) = elim (Bool-cases (contains d.backend_name (x ∷ o))) [
  | inl f ↦ let (r, ih) = add_backends_first x o ds in (r, rw f ih)
  | inr f ↦ let (r, ih) = add_backends_first x (push o d.backend_name) ds in (r, rw f ih)
]

local_device :
    (ds es : List DeviceEntry) (d : DeviceEntry)
    → keep (on_backend local_name) ds ≡ d ∷ es
    → any (λ (e : DeviceEntry). text_eq e.backend_name local_name) ds ≡ true
unfolding on_backend
local_device [] es d h = ground arith
local_device (x ∷ ds) es d h = ground (arith, local_device ds es d)

start_local :
    (snap : DeviceSnapshot) (backend_order : List Text)
    → any (λ (e : DeviceEntry). text_eq e.backend_name local_name) snap.devices ≡ true
    → start_order snap backend_order ≡ local_name ∷ []
unfolding start_order
start_local snap backend_order h =
    elim (Bool-cases (any (λ n. text_eq n local_name) backend_order)) [
      | inl e ↦ rw e
      | inr e ↦ rw (e, h)
    ]

first_pick_ok :
    (snap : DeviceSnapshot) (n : Text) (ns : List Text) (d : DeviceEntry)
    → keep (on_backend n) snap.devices ≡ d ∷ []
    → first_pick snap (n ∷ ns) ≡ ok d
unfolding first_pick pick_one_on_backend one_of
first_pick_ok snap n ns d h = rw (h, first_pick, pick_one_on_backend)

first_pick_many :
    (snap : DeviceSnapshot) (n : Text) (ns : List Text) (d e : DeviceEntry) (es : List DeviceEntry)
    → keep (on_backend n) snap.devices ≡ d ∷ e ∷ es
    → first_pick snap (n ∷ ns) ≡ err (too_many n)
unfolding first_pick pick_one_on_backend one_of
first_pick_many snap n ns d e es h = rw (h, first_pick, pick_one_on_backend)

-- With a local device that is online, the search starts at the local backend.
local_first :
    (snap : DeviceSnapshot) (backend_order : List Text) (es : List DeviceEntry) (d : DeviceEntry)
    → keep (on_backend local_name) snap.devices ≡ d ∷ es
    → (r : List Text) × (search_order snap backend_order ≡ local_name ∷ r)
unfolding search_order
local_first snap backend_order es d h =
    let (r, p) = add_names_first local_name [] backend_order in
    let (r', q) = add_backends_first local_name r snap.devices in
    (r', rw (start_local snap backend_order (local_device snap.devices es d h)) (rw p q))

-- Where the local backend has one online device, that one is picked, whatever other backends have and in
-- whatever order they are configured; where it has several, none is picked, and the reason names it.
pub pick_preferred-local :
    (snap : DeviceSnapshot) (backend_order : List Text) (d : DeviceEntry) (es : List DeviceEntry)
    → keep (on_backend local_name) snap.devices ≡ d ∷ es
    → pick_preferred snap backend_order
      ≡ elim es [ [] ↦ ok d | e ∷ rest ↦ err (too_many local_name) ]
unfolding pick_preferred
pick_preferred-local snap backend_order d [] h =
    let (r, e) = local_first snap backend_order [] d h in rw e (first_pick_ok snap local_name r d h)
pick_preferred-local snap backend_order d (f ∷ rest) h =
    let (r, e) = local_first snap backend_order (f ∷ rest) d h in
    rw e (first_pick_many snap local_name r d f rest h)
