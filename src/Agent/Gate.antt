-- ===== src/Agent/Gate.antt =====
-- src/agent.rs: the cache of the backends that pass the gate of versions.
use adbproxy_rs.Base.{
  ℕ, ◌≡◌, ◌∙◌, refl, sym, ap, subst, false, List, [], ◌∷◌, map, All, if◌then◌else◌,
}
use adbproxy_rs.Text.{Text, text_eq}
use adbproxy_rs.Text.Equality.{text_eq_refl}
use adbproxy_rs.Io.{Result, IoError}
use adbproxy_rs.Map.{contains}
use adbproxy_rs.Types.{BackendConfig}
use adbproxy_rs.Backend.{Attempt, filter_compatible_backends}
use adbproxy_rs.Agent.{backends_fingerprint, poll_lists}

-- `CompatCache`: the backends that were asked, and the names of those that passed.
pub record CompatCache : Type 0 where
  pub fingerprint : Text
  pub names : List Text

unfoldable pub ask_backends : (ℕ → Attempt) → List BackendConfig → CompatCache
ask_backends gate enabled = record {
  fingerprint = backends_fingerprint enabled;
  names = map BackendConfig.name (filter_compatible_backends gate 0 enabled);
}

-- The cache that a round of `refresh_and_publish` leaves; the names in it are those that it uses.
unfoldable pub compatible_names : (ℕ → Attempt) → List BackendConfig → CompatCache → CompatCache
compatible_names gate enabled cache =
    if text_eq cache.fingerprint (backends_fingerprint enabled)
    then cache
    else ask_backends gate enabled

-- What one round meets: the attempts to ask for versions, and the answers of the backends.
pub record Round : Type 0 where
  pub gate : ℕ → Attempt
  pub fetch : BackendConfig → Result IoError Text

-- The cache behind a sequence of rounds.
abbrev pub rounds : List BackendConfig → List Round → CompatCache → CompatCache
rounds enabled [] cache = cache
rounds enabled (r ∷ rs) cache = rounds enabled rs (compatible_names r.gate enabled cache)

asked_before :
    (gate : ℕ → Attempt) (enabled : List BackendConfig) (cache : CompatCache)
    → cache.fingerprint ≡ backends_fingerprint enabled
    → compatible_names gate enabled cache ≡ cache
unfolding compatible_names
asked_before gate enabled cache h = rw (h, text_eq_refl (backends_fingerprint enabled))

first_asked :
    (gate : ℕ → Attempt) (enabled : List BackendConfig) (cache : CompatCache)
    → text_eq cache.fingerprint (backends_fingerprint enabled) ≡ false
    → compatible_names gate enabled cache ≡ ask_backends gate enabled
unfolding compatible_names
first_asked gate enabled cache new = rw new

rounds_asked :
    (enabled : List BackendConfig) (rs : List Round) (cache : CompatCache)
    → cache.fingerprint ≡ backends_fingerprint enabled
    → rounds enabled rs cache ≡ cache
rounds_asked enabled [] cache h = refl
rounds_asked enabled (r ∷ rs) cache h =
    let same = asked_before r.gate enabled cache h in
    ap (rounds enabled rs) same ∙ rounds_asked enabled rs cache h

poll_lists-excluded :
    (names : List Text) (fetch : BackendConfig → Result IoError Text) (bs : List BackendConfig)
    → All
        (λ (l : BackendConfig × Text). contains l.0.name names ≡ false → l.1 ≡ [])
        (poll_lists names fetch bs)
unfolding poll_lists
poll_lists-excluded names fetch [] = tt
poll_lists-excluded names fetch (b ∷ bs) = (λ out. rw out refl, poll_lists-excluded names fetch bs)

-- The gate is asked once for a configuration: when the first round has asked the backends, no later round asks them
-- again, and a backend whose name did not pass then has an empty list in every later round, whatever it and its proxy
-- answer meanwhile.
pub rounds_stuck :
    (enabled : List BackendConfig) (first last : Round) (rs : List Round) (cache : CompatCache)
    → text_eq cache.fingerprint (backends_fingerprint enabled) ≡ false
    → let names = map BackendConfig.name (filter_compatible_backends first.gate 0 enabled) in
      let later = rounds enabled (first ∷ rs) cache in
      (compatible_names last.gate enabled later ≡ later)
      × All
          (λ (l : BackendConfig × Text). contains l.0.name names ≡ false → l.1 ≡ [])
          (poll_lists later.names last.fetch enabled)
unfolding ask_backends
rounds_stuck enabled first last rs cache new =
    let asked : CompatCache = ask_backends first.gate enabled in
    let settled : rounds enabled (first ∷ rs) cache ≡ asked =
      ap (rounds enabled rs) (first_asked first.gate enabled cache new)
      ∙ rounds_asked enabled rs asked refl in
    subst
      (λ (later : CompatCache).
        (compatible_names last.gate enabled later ≡ later)
        × All (λ (l : BackendConfig × Text). contains l.0.name asked.names ≡ false → l.1 ≡ [])
            (poll_lists later.names last.fetch enabled))
      (sym settled)
      (
        asked_before last.gate enabled asked refl,
        poll_lists-excluded asked.names last.fetch enabled,
      )
