-- ===== src/Poller/Latest.antt =====
-- Watchers that are not interrupted: the registry shows the last list of every backend.
use adbproxy_rs.Base.{
  ℕ, ◌+◌, ◌≡◌, ◌∙◌, refl, sym, ap, ap₂, Option, none, some, List, [], ◌∷◌, ◌++◌, map, if◌then◌else◌,
}
use adbproxy_rs.Text.{Text, text_eq}
use adbproxy_rs.Map
use adbproxy_rs.Map.{get-insert, contains_key, contains_key-insert, contains}
use adbproxy_rs.Types.{BackendConfig, DeviceSnapshot}
use adbproxy_rs.Registry.{merge_device_lists}
use adbproxy_rs.Backend.{Attempt, body_or_empty, fetch_devices_l, filter_compatible_backends}
use adbproxy_rs.Poller.{Shared, entry_or, shared_entry, publish_shared, hear, seed, seeded}
use adbproxy_rs.Poller.Seed.{IsSeeded, publish_seeded, hear-IsSeeded, hear_all, seed-IsSeeded}

-- One watcher after the other: each puts its list into the map and publishes.
unfoldable pub serve_updates :
    List BackendConfig
    → List (BackendConfig × Text)
    → Shared × DeviceSnapshot
    → Shared × DeviceSnapshot
serve_updates order [] s = s
serve_updates order ((b, body) ∷ us) (shared, registry) =
    let shared' = hear b body shared in
    serve_updates order us (shared', publish_shared order shared' registry)

-- What a sequence of lists leaves under a name, from what stood there.
unfoldable pub last_heard :
    Text
    → Option (BackendConfig × Text)
    → List (BackendConfig × Text)
    → Option (BackendConfig × Text)
last_heard name start [] = start
last_heard name start ((b, body) ∷ us) =
    last_heard name (if text_eq b.name name then some (b, body) else start) us

-- The specification: the last list under the name of the backend, and an empty one if there is none.
unfoldable pub latest : List (BackendConfig × Text) → BackendConfig → BackendConfig × Text
latest us b = entry_or b (last_heard b.name none us)

-- The lists of the seed, in the order of the configuration.
unfoldable pub seed_log :
    List Text → (ℕ → Attempt) → ℕ → List BackendConfig → List (BackendConfig × Text)
seed_log compatible asks i [] = []
seed_log compatible asks i (b ∷ bs) =
    let body = body_or_empty (fetch_devices_l (asks i) b.pair_code).1 in
    (b, if contains b.name compatible then body else []) ∷ seed_log compatible asks (i + 1) bs

get-hear_all :
    (name : Text) (us : List (BackendConfig × Text)) (shared : Shared)
    → Map.get name (hear_all us shared) ≡ last_heard name (Map.get name shared) us
unfolding last_heard hear
get-hear_all name [] shared = refl
get-hear_all name ((b, body) ∷ us) shared =
    get-hear_all name us (hear b body shared)
    ∙ ap (λ o. last_heard name o us) (get-insert b.name name (b, body) shared)

pub hear_all-append :
    (us vs : List (BackendConfig × Text)) (shared : Shared)
    → hear_all (us ++ vs) shared ≡ hear_all vs (hear_all us shared)
hear_all-append [] vs shared = refl
hear_all-append ((b, body) ∷ us) vs shared = hear_all-append us vs (hear b body shared)

pub seed-hear_all :
    (compatible : List Text) (asks : ℕ → Attempt) (i : ℕ) (bs : List BackendConfig)
    (shared : Shared)
    → seed compatible asks i bs shared ≡ hear_all (seed_log compatible asks i bs) shared
unfolding seed seed_log
seed-hear_all compatible asks i [] shared = refl
seed-hear_all compatible asks i (b ∷ bs) shared = seed-hear_all compatible asks (i + 1) bs _

-- The registry is the merge of what the map holds for each backend.
IsCurrent : List BackendConfig → Shared × DeviceSnapshot → Type 0
IsCurrent order (shared, registry) =
    IsSeeded order shared × (registry ≡ merge_device_lists (map (shared_entry shared) order))

serve_updates-IsCurrent :
    (order : List BackendConfig) (us : List (BackendConfig × Text)) (shared : Shared)
    (registry : DeviceSnapshot)
    → IsCurrent order (shared, registry)
    → IsCurrent order (serve_updates order us (shared, registry))
unfolding IsCurrent serve_updates
serve_updates-IsCurrent order [] shared registry h = h
serve_updates-IsCurrent order ((b, body) ∷ us) shared registry (h, e) =
    let seeded = hear-IsSeeded order b body shared h in
    serve_updates-IsCurrent order us (hear b body shared) _
      (seeded, publish_seeded order (hear b body shared) registry seeded)

serve_updates-hear_all :
    (order : List BackendConfig) (us : List (BackendConfig × Text)) (shared : Shared)
    (registry : DeviceSnapshot)
    → (serve_updates order us (shared, registry)).0 ≡ hear_all us shared
unfolding serve_updates
serve_updates-hear_all order [] shared registry = refl
serve_updates-hear_all order ((b, body) ∷ us) shared registry =
    serve_updates-hear_all order us (hear b body shared) _

pub shared_entry-latest :
    (us : List (BackendConfig × Text)) (order : List BackendConfig)
    → map (shared_entry (hear_all us [])) order ≡ map (latest us) order
unfolding shared_entry latest Map.get
shared_entry-latest us [] = refl
shared_entry-latest us (b ∷ bs) =
    ap₂ (λ e r. entry_or b e ∷ r) (get-hear_all b.name us []) (shared_entry-latest us bs)

-- What the watchers give the registry, one after the other and from the seed on, is the merge of the last list of
-- each configured backend, in the order of the configuration: the map and the publishing of the code implement
-- the function that looks for the last list. The lists may come from any backend in any order, also from
-- backends that share a name.
pub serve_updates-latest :
    (gate asks : ℕ → Attempt) (order : List BackendConfig) (us : List (BackendConfig × Text))
    (registry : DeviceSnapshot)
    → let compatible = map BackendConfig.name (filter_compatible_backends gate 0 order) in
      let shared = seeded gate asks order in
      (serve_updates order us (shared, publish_shared order shared registry)).1
      ≡ merge_device_lists (map (latest (seed_log compatible asks 0 order ++ us)) order)
unfolding seeded IsCurrent
serve_updates-latest gate asks order us registry =
    let compatible = map BackendConfig.name (filter_compatible_backends gate 0 order) in
    let shared : Shared = seed compatible asks 0 order [] in
    let log = seed_log compatible asks 0 order in
    let there = seed-IsSeeded compatible asks 0 order [] in
    let start : IsCurrent order (shared, publish_shared order shared registry) =
      (there, publish_seeded order shared registry there) in
    let (more, current) = serve_updates-IsCurrent order us shared _ start in
    current
    ∙ ap (λ m. merge_device_lists (map (shared_entry m) order))
        (serve_updates-hear_all order us shared _
          ∙ (ap (hear_all us) (seed-hear_all compatible asks 0 order [])
              ∙ sym (hear_all-append log us [])))
    ∙ ap merge_device_lists (shared_entry-latest (log ++ us) order)
