-- ===== src/Follow.antt =====
-- src/session.rs and src/daemon.rs: track_devices and track_devices_multi, which are one loop over two sources.
pub mod Unchanged
pub mod Steps
pub mod Current
use adbproxy_rs.Base.{ℕ, Bool, true, false, Option, none, some, List, [], ◌∷◌, ◌++◌, if◌then◌else◌}
use adbproxy_rs.Text.{Text, Bytes}
use adbproxy_rs.Text.Utf8.{as_bytes}
use adbproxy_rs.Io.{Result, ok, err, IoError, is_benign}
use adbproxy_rs.Protocol.{write_okay, write_packet}
use adbproxy_rs.Registry.{format_devices}
use adbproxy_rs.Session.{SessionContext, client_snapshot}
use adbproxy_rs.Tenant.{TenantRegistry, Uid, snapshot_for}

-- What `rx.recv()` returns.
pub data Notice : Type 0 where
  changed lagged closed : Notice

-- A notice, the list when it is taken, and the error of the packet for it, if the client does not take that.
pub record Heard : Type 0 where
  pub notice : Notice
  pub body : Text
  pub refused : Option IoError

-- How the loop stands behind the notices: it waits for the next, or it is over.
pub data FollowEnd : Type 0 where
  waiting ended : FollowEnd
  failed : IoError → FollowEnd

abbrev pub behind : Bytes → Bytes × FollowEnd → Bytes × FollowEnd
behind bs (out, e) = (bs ++ out, e)

unfoldable pub list_packet : Text → Bytes
list_packet body = write_packet (as_bytes body)

unfoldable pub follow_loop : List Heard → Bytes × FollowEnd
follow_loop [] = ([], waiting)
follow_loop (h ∷ hs) = elim h.notice [
  | closed ↦ ([], ended)
  | changed ↦ elim h.refused [
    | none ↦ behind (list_packet h.body) (follow_loop hs)
    | some e ↦ ([], if is_benign e then ended else failed e)
  ]
  | lagged ↦ elim h.refused [
    | none ↦ behind (list_packet h.body) (follow_loop hs)
    | some e ↦ ([], failed e)
  ]
]

-- Behind OKAY and the first list.
unfoldable pub follow : Text → List Heard → Bytes × FollowEnd
follow first hs = behind write_okay (behind (list_packet first) (follow_loop hs))

-- The list of the session's client.
unfoldable pub client_body : Bool → SessionContext → Text
client_body long ctx = format_devices long (client_snapshot ctx)

-- A notice with the state when it is taken.
abbrev pub Moment {ℓ} : Type ℓ → Type ℓ
Moment S = Notice × S × Option IoError

unfoldable pub heard_as {ℓ} : {S : Type ℓ} → (S → Text) → List (Moment S) → List Heard
heard_as body [] = []
heard_as body ((n, s, r) ∷ ms) =
    record { notice = n; body = body s; refused = r } ∷ heard_as body ms

unfoldable pub track_devices :
    SessionContext → Bool → List (Moment SessionContext) → Bytes × FollowEnd
track_devices ctx long moments = follow (client_body long ctx) (heard_as (client_body long) moments)

-- The list of a user of the daemon.
unfoldable pub user_body : Bool → Uid → TenantRegistry → Text
user_body long uid t = format_devices long (snapshot_for t uid)

unfoldable pub track_devices_multi :
    TenantRegistry → Uid → Bool → List (Moment TenantRegistry) → Bytes × FollowEnd
track_devices_multi t uid long moments =
    follow (user_body long uid t) (heard_as (user_body long uid) moments)
