-- ===== src/Hub/Start.antt =====
-- The backends that the hub polls and sends clients to.
use adbproxy_rs.Base.{
  ℕ, ◌≡◌, ◌∙◌, subst, refl, ap, Bool, true, false, none, List, [], ◌∷◌, keep, keep-passes, map, All,
  All-keep, arith, inl, inr, if◌then◌else◌,
}
use adbproxy_rs.Text.{Bytes, Text}
use adbproxy_rs.Io.{Result, ok, err, IoError, Result-cases}
use adbproxy_rs.Types.{BackendConfig}
use adbproxy_rs.Config.{HubConfig}
use adbproxy_rs.Backend.{Attempt, fetch_server_version}
use adbproxy_rs.Local.{
  LocalWorld, LocalAdb, prepare, local_addr, launch, started_server, reuse_or_start, find_adb,
  wait_until_ready,
}
use adbproxy_rs.Hub.{
  add_local, local_backend, is_other, with_local, prepare_local, Started, defaults_of, start_hub,
}

-- The backends that go with the defaults.
defaults_of_sound :
    (c : HubConfig) (bs : List BackendConfig) {s : Started}
    → defaults_of c bs ≡ ok s
    → (b : BackendConfig) × (rest : List BackendConfig) × (bs ≡ b ∷ rest)
      × (s.config.backends ≡ bs)
      × (s.default_backend ≡ b.addr)
      × (s.default_pair_code ≡ b.pair_code)
      × (s.backend_order ≡ map BackendConfig.name bs)
unfolding defaults_of
defaults_of_sound c [] h = ground arith
defaults_of_sound c (b ∷ bs) {s} h =
    let same : record {
      config = record c { backends = b ∷ bs };
      default_backend = b.addr;
      default_pair_code = b.pair_code;
      backend_order = map BackendConfig.name (b ∷ bs);
    }
        ≡ s =
      ground arith in
    (b, bs, refl, rw (← same) refl, rw (← same) refl, rw (← same) refl, rw (← same) refl)

-- A server, if there is one, listens at the port.
unfoldable pub IsAt : ℕ → Result IoError LocalAdb → Type 0
IsAt port r = (l : LocalAdb) → r ≡ ok l → l.addr ≡ local_addr port

IsAt-if :
    (port : ℕ) (b : Bool) (x y : Result IoError LocalAdb)
    → IsAt port x
    → IsAt port y
    → IsAt port (if b then x else y)
IsAt-if port true x y hx hy = hx
IsAt-if port false x y hx hy = hy

IsAt-err : (port : ℕ) (e : IoError) → IsAt port (err e)
unfolding IsAt
IsAt-err port e l h = ground arith

started_server-IsAt :
    (w : LocalWorld) (port : ℕ) (path : Text) → IsAt port (started_server w port path)
unfolding started_server IsAt
started_server-IsAt w port path l h = elim (Result-cases (wait_until_ready w (local_addr port))) [
  | inr (e, q) ↦ ground arith
  | inl (u, q) ↦ ground arith
]

launch-IsAt : (w : LocalWorld) (port : ℕ) (path : Text) → IsAt port (launch w port path)
unfolding launch
launch-IsAt w port path = elim (Result-cases w.started) [
  | inr (e, p) ↦ rw (p, launch) (IsAt-err port e)
  | inl ((success, status), p) ↦
      rw (p, launch) (IsAt-if port success _ _ (started_server-IsAt _ port path) (IsAt-err port _))
]

reuse_or_start-IsAt :
    (w : LocalWorld) (port : ℕ) (path : Text) → IsAt port (reuse_or_start w port path)
unfolding reuse_or_start
reuse_or_start-IsAt w port path =
    IsAt-if port w.ready_before _ _ (reused port path) (launch-IsAt w port path)
  where
    reused :
        (port : ℕ) (path : Text)
        → IsAt port (ok (record { addr = local_addr port; adb_path = path; started_by_us = false }))
    reused port path = unfold IsAt in λ l h. ground arith

pub prepare-IsAt : (w : LocalWorld) (port : ℕ) → IsAt port (prepare w port).1
unfolding prepare
prepare-IsAt w port = elim (Result-cases (find_adb w)) [
  | inr (e, p) ↦ rw (p, prepare) (IsAt-err port e)
  | inl (path, p) ↦ rw (p, prepare) (reuse_or_start-IsAt w port path)
]

-- The local server stands first, before backends that are not it.
IsReady : HubConfig → HubConfig → Type 0
IsReady c config =
    (rest : List BackendConfig) × (config.backends
      ≡ local_backend (local_addr c.local_adb_port) ∷ rest)
    × All (λ b. is_other (local_addr c.local_adb_port) b ≡ true) rest

add_local-IsReady :
    (r : Result IoError LocalAdb) (v : Result IoError ℕ) (c : HubConfig) {config : HubConfig}
    → IsAt c.local_adb_port r
    → add_local r v c ≡ ok config
    → IsReady c config
unfolding add_local with_local IsReady IsAt
add_local-IsReady (err e) v c at h = ground arith
add_local-IsReady (ok local) v c {config} at h =
    let there : local.addr ≡ local_addr c.local_adb_port = at local refl in
    let same : with_local local.addr v c ≡ config = ground arith in
    (
      keep (is_other (local_addr c.local_adb_port)) c.backends,
      rw (← same, there) refl,
      keep-passes (is_other (local_addr c.local_adb_port)) c.backends,
    )

enabled-IsReady :
    (c config : HubConfig) {bs : List BackendConfig}
    → IsReady c config
    → bs ≡ keep BackendConfig.enabled config.backends
    → (rest : List BackendConfig) × (bs ≡ local_backend (local_addr c.local_adb_port) ∷ rest)
      × All (λ b. is_other (local_addr c.local_adb_port) b ≡ true) rest
unfolding IsReady local_backend
enabled-IsReady c config (rest, first, others) e = (
  keep BackendConfig.enabled rest,
  e ∙ ap (keep BackendConfig.enabled) first,
  All-keep BackendConfig.enabled (λ b. is_other (local_addr c.local_adb_port) b ≡ true) rest others,
)

prepare_local-IsReady :
    (w : LocalWorld) (message : Bytes → Text) (a : Attempt) (c : HubConfig) {config : HubConfig}
    → prepare_local w message a c ≡ ok config
    → c.include_local ≡ true
    → IsReady c config
unfolding prepare_local
prepare_local-IsReady w message a c {config} h included =
    add_local-IsReady (prepare w c.local_adb_port).1 (fetch_server_version message a none).1 c
      (prepare-IsAt w c.local_adb_port)
      (subst
        (λ b.
          (if b
            then add_local (prepare w c.local_adb_port).1 (fetch_server_version message a none).1 c
            else ok c)
          ≡ ok config)
        included h)

-- A hub that starts polls enabled backends alone, searches them in the order in which it polls them, and sends clients
-- that mean no device to the first of them, with its pair code. If it includes the local server, that is the first
-- one, at the port of the configuration on 127.0.0.1, and no other backend has its name or its address.
pub start_hub_sound :
    (w : LocalWorld) (message : Bytes → Text) (a : Attempt) (c : HubConfig) {s : Started}
    → start_hub w message a c ≡ ok s
    → All (λ (b : BackendConfig). b.enabled ≡ true) s.config.backends
      × (s.backend_order ≡ map BackendConfig.name s.config.backends)
      × ((b : BackendConfig) × (rest : List BackendConfig) × (s.config.backends ≡ b ∷ rest)
          × (s.default_backend ≡ b.addr)
          × (s.default_pair_code ≡ b.pair_code))
      × (c.include_local ≡ true
          → (rest : List BackendConfig) × (s.config.backends
              ≡ local_backend (local_addr c.local_adb_port) ∷ rest)
            × All (λ b. is_other (local_addr c.local_adb_port) b ≡ true) rest)
unfolding start_hub
start_hub_sound w message a c {s} h = elim (Result-cases (prepare_local w message a c)) [
  | inr (e, p) ↦ ground arith
  | inl (config, p) ↦
      let kept = keep BackendConfig.enabled config.backends in
      let (b, rest, front, same, addr, code, names) =
        defaults_of_sound config kept {s = s} (ground arith) in
      (
        rw same (keep-passes BackendConfig.enabled config.backends),
        rw same names,
        (b, rest, same ∙ front, addr, code),
        λ included. enabled-IsReady c config (prepare_local-IsReady w message a c p included) same,
      )
]
