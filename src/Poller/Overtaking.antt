-- ===== src/Poller/Overtaking.antt =====
-- Watchers that interleave: each awaits its own steps, and `publish_shared` lets the map go before it takes the registry.
pub mod Shown
pub mod Late
use adbproxy_rs.Base.{
  ℕ, zero, suc, ◌≡◌, ◌==◌, Option, none, some, List, [], ◌∷◌, ◌++◌, map, if◌then◌else◌,
}
use adbproxy_rs.Text.{Text}
use adbproxy_rs.Types.{BackendConfig, DeviceSnapshot}
use adbproxy_rs.Backend.{Attempt, filter_compatible_backends}
use adbproxy_rs.Poller.{Shared, seeded, update_from_backend_lists, collect, publish_shared, hear}
use adbproxy_rs.Poller.Latest.{seed_log}

-- Where a watcher stands: it waits for a list; it has put one into the map; or it has collected the lists and has not yet
-- given them to the registry.
pub data Phase : Type 0 where
  idle heard : Phase
  holds : List (BackendConfig × Text) → Phase

-- The map, the registry, the watchers by the place of their backend in the configuration, and the lists that came since the
-- seed.
pub record PollerState : Type 0 where
  pub shared : Shared
  pub registry : DeviceSnapshot
  pub phase : ℕ → Phase
  pub log : List (BackendConfig × Text)

-- One watcher moves.
abbrev pub set_phase : ℕ → Phase → (ℕ → Phase) → ℕ → Phase
set_phase i p phase j = if j == i then p else phase j

abbrev pub backend_at : List BackendConfig → ℕ → Option BackendConfig
backend_at [] i = none
backend_at (b ∷ bs) zero = some b
backend_at (b ∷ bs) (suc i) = backend_at bs i

-- One step of a watcher. Each holds one lock.
pub data Step (order : List BackendConfig) : PollerState → PollerState → Type 0 where
  hears :
      (i : ℕ) (b : BackendConfig) (body : Text) (s : PollerState)
      → backend_at order i ≡ some b
      → s.phase i ≡ idle
      → Step order s (record s {
        shared = hear b body s.shared;
        phase = set_phase i heard s.phase;
        log = s.log ++ ((b, body) ∷ []);
      })
  collects :
      (i : ℕ) (lists : List (BackendConfig × Text)) (s : PollerState)
      → s.phase i ≡ heard
      → collect order s.shared ≡ some lists
      → Step order s (record s { phase = set_phase i (holds lists) s.phase })
  skips :
      (i : ℕ) (s : PollerState)
      → s.phase i ≡ heard
      → collect order s.shared ≡ none
      → Step order s (record s { phase = set_phase i idle s.phase })
  publishes :
      (i : ℕ) (lists : List (BackendConfig × Text)) (s : PollerState)
      → s.phase i ≡ holds lists
      → Step order s (record s {
        registry = (update_from_backend_lists s.registry lists).0;
        phase = set_phase i idle s.phase;
      })

pub data Reach (order : List BackendConfig) (s : PollerState) : PollerState → Type 0 where
  here : Reach order s s
  next : {t u : PollerState} → Reach order s t → Step order t u → Reach order s u

-- The state that `run_backend_poller` starts the watchers in.
abbrev pub first_state :
    (ℕ → Attempt) → (ℕ → Attempt) → List BackendConfig → DeviceSnapshot → PollerState
first_state gate asks order registry = record {
  shared = seeded gate asks order;
  registry = publish_shared order (seeded gate asks order) registry;
  phase = λ i. idle;
  log = [];
}

-- The lists of the seed.
abbrev pub seed_lists :
    (ℕ → Attempt) → (ℕ → Attempt) → List BackendConfig → List (BackendConfig × Text)
seed_lists gate asks order =
    seed_log (map BackendConfig.name (filter_compatible_backends gate 0 order)) asks 0 order
