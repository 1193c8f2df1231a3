-- ===== src/Daemon.antt =====
-- src/daemon.rs: what the daemon that all users share answers a client, and where it sends the service.
-- The user that a connection belongs to is what the operating system says of it.
pub mod Start
pub mod Users
pub mod Agents
use adbproxy_rs.Base.{
  ℕ, Bool, true, false, not, ◌&&◌, ◌||◌, Option, none, some, List, [], ◌∷◌, ◌++◌, if◌then◌else◌,
}
use adbproxy_rs.Text.{Text, Bytes, codes, text_eq, starts_with}
use adbproxy_rs.Text.Utf8.{as_bytes, from_utf8}
use adbproxy_rs.Text.Number.{to_hex4}
use adbproxy_rs.Io.{Result, ok, err, ◌>>=◌, IoError, unexpected_eof}
use adbproxy_rs.Addr.{SocketAddr}
use adbproxy_rs.Types.{BackendConfig, DeviceEntry, DeviceSnapshot}
use adbproxy_rs.Registry.{format_devices}
use adbproxy_rs.Protocol.{read_packet, write_okay, write_fail, write_okay_payload}
use adbproxy_rs.Tenant.{Uid, TenantRegistry, snapshot_for}
use adbproxy_rs.Preferred.{pick_preferred, push_new, local_name}
use adbproxy_rs.Rewrite.{Rewrite, rewrite_upstream_service}
use adbproxy_rs.Session.{is_transport}

-- `Route`.
pub data Route : Type 0 where
  to_shared : (addr : SocketAddr) (upstream : Text) → Route
  to_private : (route_id : Text) (upstream : Text) → Route

-- The route to a device that was found: a device of an agent has a route id.
unfoldable pub route_of : DeviceEntry → Text → Route
route_of entry upstream = elim entry.route_id [
  | some route_id ↦ to_private route_id upstream
  | none ↦ to_shared entry.backend_addr upstream
]

-- Where a service goes that names no device.
unfoldable pub default_route : Text → Option BackendConfig → Result Text Route
default_route service (some local) = ok (to_shared local.addr service)
default_route service none = err (codes "no shared local backend")

unfoldable pub route_multi :
    Text → DeviceSnapshot → List Text → Option BackendConfig → Result Text Route
route_multi service snap order local = do
  hit ← rewrite_upstream_service service snap order
  elim hit [
    | some (entry, upstream) ↦ ok (route_of entry upstream)
    | none ↦ default_route service local
  ]

add_backend_names : List Text → List DeviceEntry → List Text
add_backend_names order [] = order
add_backend_names order (d ∷ ds) = add_backend_names (push_new order d.backend_name) ds

unfoldable pub backend_order : DeviceSnapshot → Option BackendConfig → List Text
unfolding add_backend_names
backend_order snap none = add_backend_names [] snap.devices
backend_order snap (some local) = add_backend_names (local_name ∷ []) snap.devices

unfoldable pub is_unsafe_global_host : Text → Bool
is_unsafe_global_host service =
    text_eq service (codes "host:reconnect-offline")
    || (text_eq service (codes "host:resetowninghost") || starts_with (codes "host:kill:") service)

-- The part of the daemon's state that the answer to a client depends on.
pub record DaemonView : Type 0 where
  pub tenants : TenantRegistry
  pub local_backend : Option BackendConfig
  pub adb_version : ℕ

-- How the handling of a client goes on: it is done, with what the client is sent; it ends with an error;
-- it follows the devices; it is answered, and the daemon is told of a kill, which it ignores; it opens a
-- transport to a device of an agent, from which tunnels may start; or it forwards.
pub data Reply : Type 0 where
  closed : Reply
  answered : Bytes → Reply
  failed : IoError → Reply
  tracking : (uid : Uid) (long : Bool) → Reply
  kill_ignored : Bytes → Reply
  transported : (uid : Uid) (route_id : Text) (upstream : Text) (entry : DeviceEntry) → Reply
  shared_forward : (addr : SocketAddr) (upstream : Text) → Reply
  private_forward : (uid : Uid) (route_id : Text) (upstream : Text) → Reply

abbrev pub is_eof : IoError → Bool
is_eof e = elim e.kind [ unexpected_eof ↦ true | _ ↦ false ]

-- The answer to a query about the preferred device.
unfoldable pub preferred_reply : Text → Result Text DeviceEntry → Reply
preferred_reply service (ok entry) = answered (
    write_okay_payload (
      as_bytes
        (if text_eq service (codes "host:get-serialno") then entry.public_serial else entry.state)))
preferred_reply service (err reason) = answered (write_fail reason)

unfoldable pub forward_reply : Uid → Result Text Route → Reply
forward_reply uid (err reason) = answered (write_fail reason)
forward_reply uid (ok r) = elim r [
  | to_shared addr upstream ↦ shared_forward addr upstream
  | to_private route_id upstream ↦ private_forward uid route_id upstream
]

-- A transport to a device of an agent; everything else is routed.
unfoldable pub transport_reply : Uid → Rewrite → Result Text Route → Reply
transport_reply uid (ok (some (entry, upstream))) r = elim entry.route_id [
  | some route_id ↦ transported uid route_id upstream entry
  | none ↦ forward_reply uid r
]
transport_reply uid (ok none) r = forward_reply uid r
transport_reply uid (err e) r = forward_reply uid r

unfoldable pub route_reply : Option BackendConfig → Uid → DeviceSnapshot → Text → Reply
route_reply local uid snap service =
    let order = backend_order snap local in
    let r = route_multi service snap order local in
    if is_transport service
    then transport_reply uid (rewrite_upstream_service service snap order) r
    else forward_reply uid r

-- From the service of a client on.
unfoldable pub serve_user : Option BackendConfig → ℕ → Uid → DeviceSnapshot → Text → Reply
serve_user local version uid snap service =
    if text_eq service (codes "host:devices")
    then answered (write_okay_payload (as_bytes (format_devices false snap)))
    else if text_eq service (codes "host:devices-l")
    then answered (write_okay_payload (as_bytes (format_devices true snap)))
    else if text_eq service (codes "host:track-devices")
    then tracking uid false
    else if text_eq service (codes "host:track-devices-l")
    then tracking uid true
    else if text_eq service (codes "host:kill")
    then kill_ignored write_okay
    else if text_eq service (codes "host:version")
    then answered (write_okay_payload (as_bytes (to_hex4 version)))
    else if text_eq service (codes "host:get-state")
        || (text_eq service (codes "host:get-serialno")
            || text_eq service (codes "host:get-connection-state"))
    then preferred_reply service (pick_preferred snap (backend_order snap local))
    else if is_unsafe_global_host service
    then answered (write_fail (codes "host command not permitted on multi-user daemon"))
    else route_reply local uid snap service

-- The user is what `tcp_peer_uid` finds, if it finds one.
unfoldable pub handle_adb_client : Option Uid → Bytes → DaemonView → Reply
handle_adb_client none stream view = answered (write_fail (codes "unable to identify client user"))
handle_adb_client (some uid) stream view = elim (read_packet stream) [
  | err e ↦ if is_eof e then closed else failed e
  | ok (payload, rest) ↦ elim (from_utf8 payload) [
    | none ↦ answered (write_fail (codes "invalid utf8 service"))
    | some service ↦
        serve_user view.local_backend view.adb_version uid (snapshot_for view.tenants uid) service
  ]
]
