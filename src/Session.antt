-- ===== src/Session.antt =====
-- src/session.rs: which backend gets a host service, and what a client of the hub is answered.
pub mod Pick
pub mod Named
pub mod Route
pub mod Nobody
pub mod Dispatch
use adbproxy_rs.Base.{
  ℕ, Bool, true, false, not, ◌&&◌, ◌||◌, Option, none, some, List, [], ◌∷◌, ◌++◌, keep, push, any,
  if◌then◌else◌,
}
use adbproxy_rs.Text.{Text, Bytes, codes, text_eq, strip_prefix, starts_with, split_once}
use adbproxy_rs.Text.Utf8.{as_bytes, from_utf8}
use adbproxy_rs.Io.{Result, ok, err, ◌>>=◌, IoError, unexpected_eof, is_benign}
use adbproxy_rs.Map.{contains}
use adbproxy_rs.Addr.{SocketAddr, show_addr}
use adbproxy_rs.Types.{BackendConfig, DeviceEntry, DeviceSnapshot}
use adbproxy_rs.Registry.{find_device, is_online, format_devices}
use adbproxy_rs.Config.{HubPolicySnapshot, filter_snapshot}
use adbproxy_rs.Protocol.{read_packet, write_okay, write_fail, write_okay_payload, write_service}
use adbproxy_rs.Auth.{authenticate_stream}
use adbproxy_rs.Preferred.{
  local_name, PickBackendErr, on_backend, one_of, pick_one_on_backend, push_new, add_names,
  add_backends, start_order, search_order, no_devices, too_many, first_pick, pick_preferred, nobody,
  many,
}
use adbproxy_rs.Rewrite.{
  lookup_device, lookup_online, Rewrite, is_any_selector, is_device_request, serial_request,
  tport_service, transport_service, routed, rewrite_serial_request, rewrite_host_request,
  rewrite_features, rewrite_local, rewrite_usb, rewrite_serial, rewrite_transport, rewrite_tport,
  any_service, rewrite_upstream_service,
}

-- The address, the pair code and the service of `route_service`.
abbrev pub Target : Type 0
Target = SocketAddr × Option Text × Text

unfoldable pub route_service :
    Text → DeviceSnapshot → SocketAddr → Option Text → List Text → Result Text Target
route_service service snap default_backend default_pair_code order = do
  hit ← rewrite_upstream_service service snap order
  elim hit [
    | some (d, upstream) ↦ ok (d.backend_addr, d.pair_code, upstream)
    | none ↦ ok (default_backend, default_pair_code, service)
  ]

pub record SessionContext : Type 0 where
  pub registry : DeviceSnapshot
  pub default_backend : SocketAddr
  pub default_pair_code : Option Text
  pub backend_order : List Text
  pub policy : HubPolicySnapshot

unfoldable pub client_snapshot : SessionContext → DeviceSnapshot
client_snapshot ctx = filter_snapshot ctx.policy ctx.registry

-- `tunnel::is_transport`.
unfoldable pub is_transport : Text → Bool
is_transport s = starts_with (codes "host:tport:") s || starts_with (codes "host:transport:") s

-- How `handle_client` goes on: it is done with an answer or none, it ends with an error, it
-- follows the devices, it stops the hub behind its answer, it opens a tunnel, or it forwards.
pub data Outcome : Type 0 where
  closed : Outcome
  answered : Bytes → Outcome
  failed : IoError → Outcome
  tracking : (long : Bool) → Outcome
  killed : Bytes → Outcome
  tunnelled : DeviceEntry → Target → Outcome
  forwarded : Target → Outcome

abbrev is_eof : IoError → Bool
is_eof e = elim e.kind [ unexpected_eof ↦ true | _ ↦ false ]

-- The answer to a query about the preferred device.
unfoldable pub answer_state : Text → Result Text DeviceEntry → Outcome
answer_state service (ok d) = answered (
    write_okay_payload
      (as_bytes (if text_eq service (codes "host:get-serialno") then d.public_serial else d.state)))
answer_state service (err reason) = answered (write_fail reason)

unfoldable pub routed_outcome : Result Text Target → Outcome
routed_outcome (ok t) = forwarded t
routed_outcome (err reason) = answered (write_fail reason)

-- A transport to a device of another machine goes through a tunnel.
unfoldable pub tunnel_or_route : Rewrite → Result Text Target → Outcome
tunnel_or_route (ok (some (d, upstream))) r =
    if not (text_eq d.backend_name local_name)
    then tunnelled d (d.backend_addr, d.pair_code, upstream)
    else routed_outcome r
tunnel_or_route (ok none) r = routed_outcome r
tunnel_or_route (err e) r = routed_outcome r

unfoldable pub route_client : SessionContext → Text → Outcome
route_client ctx service =
    let snap = client_snapshot ctx in
    let r =
      route_service service snap ctx.default_backend ctx.default_pair_code ctx.backend_order in
    if is_transport service
    then tunnel_or_route (rewrite_upstream_service service snap ctx.backend_order) r
    else routed_outcome r

unfoldable pub serve_client : SessionContext → Text → Outcome
serve_client ctx service =
    if text_eq service (codes "host:devices")
    then answered (write_okay_payload (as_bytes (format_devices false (client_snapshot ctx))))
    else if text_eq service (codes "host:devices-l")
    then answered (write_okay_payload (as_bytes (format_devices true (client_snapshot ctx))))
    else if text_eq service (codes "host:track-devices")
    then tracking false
    else if text_eq service (codes "host:track-devices-l")
    then tracking true
    else if text_eq service (codes "host:kill")
    then killed write_okay
    else if text_eq service (codes "host:get-state")
        || (text_eq service (codes "host:get-serialno")
            || text_eq service (codes "host:get-connection-state"))
    then answer_state service (pick_preferred (client_snapshot ctx) ctx.backend_order)
    else route_client ctx service

unfoldable pub handle_client : Bytes → SessionContext → Outcome
handle_client stream ctx = elim (read_packet stream) [
  | err e ↦ if is_eof e then closed else failed e
  | ok (payload, rest) ↦ elim (from_utf8 payload) [
    | none ↦ answered (write_fail (codes "invalid utf8 service"))
    | some service ↦ serve_client ctx service
  ]
]

-- `tunnel::connect_backend`: what the backend is sent, and the stream behind that. The result is that of `TcpStream::connect`.
unfoldable pub connect_tunnel :
    Result IoError Bytes → Option Text → Text → Bytes × Result IoError Bytes
connect_tunnel (err e) code service = ([], err e)
connect_tunnel (ok stream) none service = (write_service service, ok stream)
connect_tunnel (ok stream) (some code) service =
    let (sent, answer) = authenticate_stream code stream in
    elim answer [ err e ↦ (sent, err e) | ok rest ↦ (sent ++ write_service service, ok rest) ]

-- How a transport to a device goes on: the client is refused, or `tunnel::transport` takes over, with the service, the public
-- serial, the stream of the backend, and the selector with which further streams are opened.
pub data TunnelStart : Type 0 where
  refused : Bytes → TunnelStart
  taken_over : (service public_serial : Text) (upstream : Bytes) (selector : Text) → TunnelStart

unfoldable pub open_tunnel : Result IoError Bytes → DeviceEntry → Target → TunnelStart
open_tunnel connect d (addr, code, service) = elim (connect_tunnel connect code service).1 [
  | err e ↦ refused (write_fail (codes "backend " ++ (show_addr addr ++ (codes ": " ++ e.message))))
  | ok upstream ↦ taken_over service d.public_serial upstream (transport_service d)
]

-- What a forwarded session writes: to the client, to the backend, and whether the two are then joined.
pub record Forward : Type 0 where
  pub to_client : Bytes
  pub to_backend : Bytes
  pub joined : Bool

-- The result of `TcpStream::connect`: what the backend sends, or an error.
unfoldable pub forward_session : Result IoError Bytes → SocketAddr → Option Text → Text → Forward
forward_session (err e) addr code service = record {
  to_client = write_fail (codes "backend " ++ (show_addr addr ++ (codes ": " ++ e.message)));
  to_backend = [];
  joined = false;
}
forward_session (ok stream) addr none service = record {
  to_client = [];
  to_backend = write_service service;
  joined = true;
}
forward_session (ok stream) addr (some code) service =
    let (sent, answer) = authenticate_stream code stream in
    elim answer [
      | err e ↦ record {
        to_client =
            write_fail (codes "backend " ++ (show_addr addr ++ (codes " auth: " ++ e.message)));
        to_backend = sent;
        joined = false;
      }
      | ok rest ↦ record {
        to_client = [];
        to_backend = sent ++ write_service service;
        joined = true;
      }
    ]
