-- ===== src/Daemon/Start/Sound.antt =====
-- What a daemon that starts is set up with.
use adbproxy_rs.Base.{
  ℕ, ◌≡◌, refl, true, Option, none, some, List, [], ◌∷◌, if◌then◌else◌, arith, Bool-cases, inl, inr,
  append-nil, subst,
}
use adbproxy_rs.Map.ByNumber.{get}
use adbproxy_rs.Text.{Text, codes}
use adbproxy_rs.Io.{Result, ok, err, IoError, Result-cases}
use adbproxy_rs.Addr.{v4}
use adbproxy_rs.Types.{BackendConfig, DeviceSnapshot}
use adbproxy_rs.Registry.{merge_device_lists}
use adbproxy_rs.Tenant.{
  Uid, empty_registry, snapshot_for, private_devices, update_shared_from_lists, update_shared,
}
use adbproxy_rs.Local.{LocalWorld, LocalAdb, prepare, local_addr}
use adbproxy_rs.Hub.Start.{IsAt, prepare-IsAt}
use adbproxy_rs.Preferred.{local_name}
use adbproxy_rs.Hub.{local_backend}
use adbproxy_rs.Peercred.{is_loopback}
use adbproxy_rs.Daemon.Agents.{poll_shared_once}
use adbproxy_rs.Daemon.Start.{
  DaemonConfig, DaemonWorld, Running, shared_backend, seed_shared, open_sockets, start_daemon,
}

-- What the local server listed, with its backend.
abbrev pub listed : Result IoError Text → BackendConfig → List (BackendConfig × Text)
listed (ok body) b = (b, body) ∷ []
listed (err e) b = (b, []) ∷ []

-- What every user sees before there are agents.
abbrev pub first_devices : Result IoError Text → Option BackendConfig → DeviceSnapshot
first_devices answer none = record { devices = [] }
first_devices answer (some b) = merge_device_lists (listed answer b)

snapshot_for-seed_shared :
    (w : DaemonWorld) (b : Option BackendConfig) (uid : Uid)
    → (snapshot_for (seed_shared w b).tenants uid).devices ≡ (first_devices w.devices b).devices
unfolding seed_shared poll_shared_once update_shared_from_lists update_shared snapshot_for
    private_devices empty_registry get
snapshot_for-seed_shared w none uid = refl
snapshot_for-seed_shared w (some b) uid = elim (Result-cases w.devices) [
  | inl (body, e) ↦ rw e (append-nil (merge_device_lists (listed (ok body) b)).devices)
  | inr (f, e) ↦ rw e (append-nil (merge_device_lists (listed (err f) b)).devices)
]

open_sockets_sound :
    (w : DaemonWorld) (c : DaemonConfig) (r : Running) {d : Running}
    → open_sockets w c r ≡ ok d
    → r ≡ d
unfolding open_sockets
open_sockets_sound w c r h = elim (Result-cases w.control) [
  | inl (u, e) ↦ elim (Result-cases w.bound) [
    | inl (v, f) ↦ ground arith
    | inr (x, f) ↦ ground arith
  ]
  | inr (x, e) ↦ ground arith
]

-- The daemon with its backend, once the guards are passed.
launched : DaemonWorld → DaemonConfig → ℕ × Option BackendConfig → Running
launched w c (v, backend) = record {
  listen = c.listen;
  adb_version = v;
  backend = backend;
  state = seed_shared w backend;
}

start_daemon_cases :
    (w : DaemonWorld) (c : DaemonConfig) {d : Running}
    → start_daemon w c ≡ ok d
    → (is_loopback c.listen ≡ true)
      × ((x : ℕ × Option BackendConfig) × (shared_backend w c ≡ ok x) × (launched w c x ≡ d))
unfolding start_daemon launched
start_daemon_cases w c h = elim (Bool-cases w.supported) [
  | inr e ↦ ground arith
  | inl e ↦ elim (Bool-cases (is_loopback c.listen)) [
    | inr f ↦ ground arith
    | inl f ↦ elim (Result-cases (shared_backend w c)) [
      | inr (x, g) ↦ ground arith
      | inl (x, g) ↦ (f, (x, g, open_sockets_sound w c (launched w c x) (ground arith)))
    ]
  ]
]

-- The backend by the configuration alone.
abbrev pub backend_at : DaemonConfig → Option BackendConfig
backend_at c =
    if c.include_local
    then some (record {
      name = codes "local";
      addr = v4 127 0 0 1 c.local_adb_port;
      pair_code = none;
      enabled = true;
    })
    else none

prepare_at :
    (w : LocalWorld) (port : ℕ) (l : LocalAdb)
    → (prepare w port).1 ≡ ok l
    → l.addr ≡ v4 127 0 0 1 port
unfolding IsAt local_addr
prepare_at w port l h = prepare-IsAt w port l h

shared_backend_asked :
    (w : DaemonWorld) (c : DaemonConfig) {x : ℕ × Option BackendConfig}
    → shared_backend w c ≡ ok x
    → x.1 ≡ backend_at c
unfolding shared_backend local_backend local_name
shared_backend_asked w c h = elim (Bool-cases c.include_local) [
  | inr e ↦ ground arith
  | inl e ↦ elim (Result-cases (prepare w.local c.local_adb_port).1) [
    | inl (l, f) ↦ ground (arith, prepare_at w.local c.local_adb_port l f)
    | inr (x, f) ↦ ground arith
  ]
]

-- If the daemon starts, it listens on the configured address, which is a loopback address; its backend is the server at the
-- local port of 127.0.0.1, without a pair code, if that was asked for, and there is none otherwise; and before any agent has
-- come every user sees the devices that this backend listed, and no device if it is not there or cannot be asked.
pub start_daemon_sound :
    (w : DaemonWorld) (c : DaemonConfig) {d : Running}
    → start_daemon w c ≡ ok d
    → (d.listen ≡ c.listen)
      × (is_loopback c.listen ≡ true)
      × (d.backend ≡ backend_at c)
      × ((uid : Uid)
          → (snapshot_for d.state.tenants uid).devices
            ≡ (first_devices w.devices d.backend).devices)
unfolding launched
start_daemon_sound w c {d} h =
    let (own, ((v, b), asked, same)) = start_daemon_cases w c h in
    subst
      (λ (r : Running).
        (r.listen ≡ c.listen)
        × (is_loopback c.listen ≡ true)
        × (r.backend ≡ backend_at c)
        × ((uid : Uid)
            → (snapshot_for r.state.tenants uid).devices
              ≡ (first_devices w.devices r.backend).devices))
      same (refl, own, shared_backend_asked w c asked, snapshot_for-seed_shared w b)
