-- ===== src/Poller/Seed.antt =====
-- The map that the watchers share has a list for every backend from the seed on.
use adbproxy_rs.Base.{ℕ, ◌+◌, ◌≡◌, refl, true, some, List, [], ◌∷◌, all, map, arith, All}
use adbproxy_rs.Text.{Text}
use adbproxy_rs.Text.Equality.{text_eq_refl}
use adbproxy_rs.Map.{contains_key, contains_key-insert}
use adbproxy_rs.Types.{BackendConfig, DeviceSnapshot}
use adbproxy_rs.Registry.{merge_device_lists}
use adbproxy_rs.Backend.{Attempt}
use adbproxy_rs.Poller.{
  Shared, update_from_backend_lists, shared_entry, collect, publish_shared, hear, seed, seeded,
}

-- Where every backend has a list, the lists are collected.
pub IsSeeded : List BackendConfig → Shared → Type 0
IsSeeded order shared = All (λ (b : BackendConfig). contains_key b.name shared ≡ true) order

all_seeded :
    (order : List BackendConfig) (shared : Shared)
    → IsSeeded order shared
    → all (λ b. contains_key b.name shared) order ≡ true
unfolding IsSeeded
all_seeded [] shared h = refl
all_seeded (b ∷ bs) shared (h, hs) = rw h (all_seeded bs shared hs)

pub publish_seeded :
    (order : List BackendConfig) (shared : Shared) (registry : DeviceSnapshot)
    → IsSeeded order shared
    → publish_shared order shared registry ≡ merge_device_lists (map (shared_entry shared) order)
unfolding publish_shared collect update_from_backend_lists
publish_seeded order shared registry h = rw (all_seeded order shared h, publish_shared)

contains_key-hear :
    (name : Text) (b : BackendConfig) (body : Text) (shared : Shared)
    → contains_key name shared ≡ true
    → contains_key name (hear b body shared) ≡ true
unfolding hear
contains_key-hear name b body shared h =
    ground (arith, contains_key-insert b.name name (b, body) shared)

contains_key-heard :
    (b : BackendConfig) (body : Text) (shared : Shared)
    → contains_key b.name (hear b body shared) ≡ true
unfolding hear
contains_key-heard b body shared =
    ground (arith, contains_key-insert b.name b.name (b, body) shared, text_eq_refl b.name)

pub hear-IsSeeded :
    (order : List BackendConfig) (b : BackendConfig) (body : Text) (shared : Shared)
    → IsSeeded order shared
    → IsSeeded order (hear b body shared)
unfolding IsSeeded
hear-IsSeeded [] b body shared h = tt
hear-IsSeeded (x ∷ xs) b body shared (h, hs) =
    (contains_key-hear x.name b body shared h, hear-IsSeeded xs b body shared hs)

-- The lists of a sequence, put into the map.
abbrev pub hear_all : List (BackendConfig × Text) → Shared → Shared
hear_all [] shared = shared
hear_all ((b, body) ∷ us) shared = hear_all us (hear b body shared)

IsThere-seed :
    (name : Text) (compatible : List Text) (asks : ℕ → Attempt) (i : ℕ) (bs : List BackendConfig)
    (shared : Shared)
    → contains_key name shared ≡ true
    → contains_key name (seed compatible asks i bs shared) ≡ true
unfolding seed
IsThere-seed name compatible asks i [] shared h = h
IsThere-seed name compatible asks i (b ∷ bs) shared h =
    IsThere-seed name compatible asks (i + 1) bs _ (contains_key-hear name b _ shared h)

pub seed-IsSeeded :
    (compatible : List Text) (asks : ℕ → Attempt) (i : ℕ) (bs : List BackendConfig)
    (shared : Shared)
    → IsSeeded bs (seed compatible asks i bs shared)
unfolding IsSeeded seed
seed-IsSeeded compatible asks i [] shared = tt
seed-IsSeeded compatible asks i (b ∷ bs) shared = (
  IsThere-seed b.name compatible asks (i + 1) bs _ (contains_key-heard b _ shared),
  seed-IsSeeded compatible asks (i + 1) bs _,
)

-- What the registry is given before the watchers start.
pub publish_start :
    (gate asks : ℕ → Attempt) (order : List BackendConfig) (registry : DeviceSnapshot)
    → publish_shared order (seeded gate asks order) registry
      ≡ merge_device_lists (map (shared_entry (seeded gate asks order)) order)
unfolding seeded
publish_start gate asks order registry =
    publish_seeded order _ registry (seed-IsSeeded _ asks 0 order [])

hear_all-IsSeeded :
    (order : List BackendConfig) (us : List (BackendConfig × Text)) (shared : Shared)
    → IsSeeded order shared
    → IsSeeded order (hear_all us shared)
hear_all-IsSeeded order [] shared h = h
hear_all-IsSeeded order ((b, body) ∷ us) shared h =
    hear_all-IsSeeded order us (hear b body shared) (hear-IsSeeded order b body shared h)

pub collect_seeded :
    (order : List BackendConfig) (shared : Shared)
    → IsSeeded order shared
    → collect order shared ≡ some (map (shared_entry shared) order)
unfolding collect
collect_seeded order shared h = rw (all_seeded order shared h)

-- Behind the seed, lists can always be collected.
seeded-there :
    (gate asks : ℕ → Attempt) (order : List BackendConfig) (us : List (BackendConfig × Text))
    → collect order (hear_all us (seeded gate asks order))
      ≡ some (map (shared_entry (hear_all us (seeded gate asks order))) order)
unfolding seeded
seeded-there gate asks order us =
    collect_seeded order (hear_all us (seeded gate asks order))
      (hear_all-IsSeeded order us _ (seed-IsSeeded _ asks 0 order []))
