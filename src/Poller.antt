-- ===== src/Poller.antt =====
-- src/backend.rs: the watchers that keep the registry up to date, and what they share.
pub mod Watch
pub mod Seed
pub mod Latest
pub mod Overtaking
use adbproxy_rs.Base.{
  ℕ, suc, ◌+◌, Bool, true, false, not, ◌&&◌, Option, none, some, List, [], ◌∷◌, ◌++◌, all, map,
  length, if◌then◌else◌,
}
use adbproxy_rs.Text.{Text, Bytes, codes, text_eq}
use adbproxy_rs.Text.Utf8.{from_utf8_lossy}
use adbproxy_rs.Io.{Result, ok, err, ◌>>=◌, IoError, io_error, other}
use adbproxy_rs.Map
use adbproxy_rs.Map.{Map, contains, contains_key}
use adbproxy_rs.Types.{BackendConfig, DeviceSnapshot}
use adbproxy_rs.Registry.{merge_device_lists}
use adbproxy_rs.Tenant.{entries_eq}
use adbproxy_rs.Protocol.{read_packet, read_status}
use adbproxy_rs.Backend.{Attempt, body_or_empty, fetch_devices_l, filter_compatible_backends, query}

-- The last list of each backend, by the name of the backend.
abbrev pub Shared : Type 0
Shared = Map (BackendConfig × Text)

-- `DeviceRegistry::update_from_backend_lists`: the new contents, and whether the followers are told.
unfoldable pub update_from_backend_lists :
    DeviceSnapshot → List (BackendConfig × Text) → DeviceSnapshot × Bool
update_from_backend_lists registry lists =
    let merged = merge_device_lists lists in
    (merged, not (entries_eq registry.devices merged.devices))

-- `….expect("checked above")`: where nothing is found the code would stop; the test before it rules that
-- out, and here stands an empty list.
unfoldable pub entry_or : BackendConfig → Option (BackendConfig × Text) → BackendConfig × Text
entry_or b none = (b, [])
entry_or b (some entry) = entry

-- `guard.get(&b.name)`.
unfoldable pub shared_entry : Shared → BackendConfig → BackendConfig × Text
shared_entry shared b = entry_or b (Map.get b.name shared)

-- The lists of `publish_shared`, if every backend of the order has one.
unfoldable pub collect : List BackendConfig → Shared → Option (List (BackendConfig × Text))
collect order shared =
    if all (λ b. contains_key b.name shared) order
    then some (map (shared_entry shared) order)
    else none

unfoldable pub publish_shared : List BackendConfig → Shared → DeviceSnapshot → DeviceSnapshot
publish_shared order shared registry = elim (collect order shared) [
  | none ↦ registry
  | some lists ↦ (update_from_backend_lists registry lists).0
]

-- `guard.insert(backend.name.clone(), (backend.clone(), body))`.
unfoldable pub hear : BackendConfig → Text → Shared → Shared
hear backend body shared = Map.insert backend.name (backend, body) shared

-- The loop of `run_backend_poller` that fills the map. The attempts are numbered from `i` on.
unfoldable pub seed : List Text → (ℕ → Attempt) → ℕ → List BackendConfig → Shared → Shared
seed compatible asks i [] shared = shared
seed compatible asks i (b ∷ bs) shared =
    let body = body_or_empty (fetch_devices_l (asks i) b.pair_code).1 in
    seed compatible asks (i + 1) bs
      (hear b (if contains b.name compatible then body else []) shared)

-- The map that the watchers start from.
unfoldable pub seeded : (ℕ → Attempt) → (ℕ → Attempt) → List BackendConfig → Shared
seeded gate asks backends =
    seed (map BackendConfig.name (filter_compatible_backends gate 0 backends)) asks 0 backends []

-- How a watcher goes on behind `probe_track_support`.
pub data WatchMode : Type 0 where
  tracking polling : WatchMode

unfoldable pub watch_mode : Result IoError Bool → WatchMode
watch_mode (err e) = polling
watch_mode (ok supported) = if supported then tracking else polling

-- One round of a watcher that polls.
unfoldable pub poll_round : BackendConfig → Result IoError Text → Shared → Shared
poll_round backend answer shared = hear backend (body_or_empty answer) shared

-- What is read behind a status that is not OKAY.
unfoldable pub refusal : Bytes → Bytes → Bytes
refusal status rest =
    if text_eq status (codes "FAIL")
    then elim (read_packet rest) [ ok (reason, more) ↦ reason | err e ↦ [] ]
    else status

-- The lists of `watch_track_devices` on fuel, and the error that ends the loop.
unfoldable pub watch_loop : ℕ → Bytes → Option (List Text × IoError)
watch_loop ℕ.zero stream = none
watch_loop (ℕ.suc n) stream = elim (read_packet stream) [
  | err e ↦ some ([], e)
  | ok (body, rest) ↦ elim (watch_loop n rest) [
    | none ↦ none
    | some (texts, e) ↦ some (from_utf8_lossy body ∷ texts, e)
  ]
]

unfoldable pub watch_answer : Bytes → Result IoError Bytes
watch_answer stream = do
  (status, rest) ← read_status stream
  if text_eq status (codes "OKAY")
      then ok rest
      else err (
          io_error other (
            codes "track-devices-l status "
            ++ (from_utf8_lossy status ++ (codes ": " ++ from_utf8_lossy (refusal status rest)))))

-- The connection of `watch_track_devices`: what is sent, and the stream of lists.
unfoldable pub watch_track_devices : Attempt → Option Text → Bytes × Result IoError Bytes
watch_track_devices a pair_code = query a pair_code (codes "host:track-devices-l") watch_answer
