-- ===== src/Backend.antt =====
-- src/backend.rs: what the hub asks a backend, and the lists that the registry is given.
pub mod Proxied
pub mod Once
use adbproxy_rs.Base.{
  ℕ, ◌+◌, Bool, true, false, not, ◌&&◌, ◌||◌, Option, none, some, List, [], ◌∷◌, ◌++◌, any, all,
  push, if◌then◌else◌,
}
use adbproxy_rs.Text.{Text, Bytes, codes, text_eq}
use adbproxy_rs.Text.Utf8.{from_utf8, from_utf8_lossy}
use adbproxy_rs.Text.Whitespace.{trim}
use adbproxy_rs.Text.Number.{from_str_radix}
use adbproxy_rs.Io.{
  Result, ok, err, ◌>>=◌, map_err, IoError, io_error, invalid_input, invalid_data, timed_out, other,
}
use adbproxy_rs.Types.{BackendConfig, DeviceSnapshot}
use adbproxy_rs.Protocol.{read_packet, read_status, read_okay_payload, write_service}
use adbproxy_rs.Auth.{authenticate_stream}
use adbproxy_rs.Compat.{
  ProxyCompat, unknown, evaluate_proxy_version, is_compatible, proxy_version_service, u32_max,
}

-- One attempt to talk to a backend: the result of `TcpStream::connect`, which is all that the backend
-- sends, and which of the three waits of `QUERY_TIMEOUT` are over before their step is.
pub record Attempt : Type 0 where
  pub connect : Result IoError Bytes
  pub connect_late : Bool
  pub auth_late : Bool
  pub read_late : Bool

-- `timeout(QUERY_TIMEOUT, …).await.map_err(…)??`.
unfoldable pub timeout {ℓ} : {A : Type ℓ} → Bool → Text → Result IoError A → Result IoError A
timeout late message r = if late then err (io_error timed_out message) else r

-- What is sent, and the stream.
unfoldable pub connect_backend : Attempt → Option Text → Bytes × Result IoError Bytes
connect_backend a pair_code = elim (timeout a.connect_late (codes "connect timeout") a.connect) [
  | err e ↦ ([], err e)
  | ok stream ↦ elim pair_code [
    | none ↦ ([], ok stream)
    | some code ↦
        let (sent, answer) = authenticate_stream code stream in
        (sent, timeout a.auth_late (codes "auth timeout") answer)
  ]
]

-- A service behind the connection, and what the answer is read as.
unfoldable pub query {ℓ} :
    {A : Type ℓ}
    → Attempt
    → Option Text
    → Text
    → (Bytes → Result IoError A)
    → Bytes × Result IoError A
query a pair_code service read =
    let (sent, connected) = connect_backend a pair_code in
    elim connected [
      | err e ↦ (sent, err e)
      | ok stream ↦ (sent ++ write_service service, read stream)
    ]

-- `read_okay_payload` in time.
unfoldable pub read_body : Attempt → Bytes → Result IoError Bytes
read_body a stream = do
  (body, rest) ← timeout a.read_late (codes "read timeout") (read_okay_payload stream)
  ok body

unfoldable pub fetch_proxy_version : Attempt → Option Text → Bytes × Result IoError Text
fetch_proxy_version a none =
    ([], err (io_error invalid_input (codes "proxy version check requires a pair code")))
fetch_proxy_version a (some code) =
    query a (some code) proxy_version_service
      λ stream. do body ← read_body a stream; ok (trim (from_utf8_lossy body))

unfoldable pub compat_of : Result IoError Text → ProxyCompat
compat_of (ok version) = evaluate_proxy_version version
compat_of (err e) = unknown e.message

unfoldable pub check_proxy_compat : Attempt → Option Text → ProxyCompat
check_proxy_compat a pair_code = compat_of (fetch_proxy_version a pair_code).1

-- The version that the bytes of an answer are. The messages of the standard library are parameters.
unfoldable pub server_version : (Bytes → Text) → Bytes → Result IoError ℕ
server_version message body = elim (from_utf8 body) [
  | none ↦ err (io_error invalid_data (message body))
  | some text ↦ elim (from_str_radix 16 u32_max (trim text)) [
    | none ↦ err (io_error invalid_data (message body))
    | some n ↦ ok n
  ]
]

unfoldable pub fetch_server_version :
    (Bytes → Text) → Attempt → Option Text → Bytes × Result IoError ℕ
fetch_server_version message a pair_code =
    query a pair_code (codes "host:version")
      λ stream. do body ← read_body a stream; server_version message body

unfoldable pub fetch_devices_l : Attempt → Option Text → Bytes × Result IoError Text
fetch_devices_l a pair_code =
    query a pair_code (codes "host:devices-l")
      λ stream. do body ← read_body a stream; ok (from_utf8_lossy body)

-- The backend passes the gate of versions, when the attempt to ask it goes as given.
unfoldable pub passes : Attempt → BackendConfig → Bool
passes a b = elim b.pair_code [
  | none ↦ true
  | some code ↦ is_compatible (check_proxy_compat a (some code))
]

-- The attempts are numbered from `i` on; a backend without a pair code is not asked.
unfoldable pub filter_compatible_backends :
    (ℕ → Attempt) → ℕ → List BackendConfig → List BackendConfig
filter_compatible_backends asks i [] = []
filter_compatible_backends asks i (b ∷ bs) =
    let rest = filter_compatible_backends asks (i + 1) bs in
    if passes (asks i) b then b ∷ rest else rest

-- The body of a backend, which is empty if it cannot be read.
unfoldable pub body_or_empty : Result IoError Text → Text
body_or_empty (ok body) = body
body_or_empty (err e) = []

unfoldable pub fetch_lists : (ℕ → Attempt) → ℕ → List BackendConfig → List (BackendConfig × Text)
fetch_lists asks i [] = []
fetch_lists asks i (b ∷ bs) =
    (b, body_or_empty (fetch_devices_l (asks i) b.pair_code).1) ∷ fetch_lists asks (i + 1) bs

unfoldable pub has_name : Text → List (BackendConfig × Text) → Bool
has_name name lists = any (λ (l : BackendConfig × Text). text_eq l.0.name name) lists

-- The backends whose name is not there yet, with an empty list.
unfoldable pub add_missing :
    List (BackendConfig × Text) → List BackendConfig → List (BackendConfig × Text)
add_missing lists [] = lists
add_missing lists (b ∷ bs) =
    add_missing (if has_name b.name lists then lists else push lists (b, [])) bs

-- The lists that `poll_backends_once` gives the registry. The attempts of the gate and those of the
-- fetch are numbered apart.
unfoldable pub once_lists :
    (ℕ → Attempt) → (ℕ → Attempt) → List BackendConfig → List (BackendConfig × Text)
once_lists gate asks backends =
    add_missing (fetch_lists asks 0 (filter_compatible_backends gate 0 backends)) backends

-- `probe_track_support`.
unfoldable pub track_answer : Bytes → Result IoError Bool
track_answer stream = do (status, rest) ← read_status stream; ok (text_eq status (codes "OKAY"))

unfoldable pub probe_track_support : Attempt → Option Text → Bytes × Result IoError Bool
probe_track_support a pair_code = query a pair_code (codes "host:track-devices-l") track_answer
