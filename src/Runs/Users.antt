-- ===== src/Runs/Users.antt =====
-- src/tenant.rs, src/daemon.rs, src/tunnel.rs and src/compat.rs at concrete inputs.
use adbproxy_rs.Base.{ℕ, ◌≡◌, ◌↔◌, inl, refl, true, some, List, [], ◌∷◌, keep, arith}
use adbproxy_rs.Text.{Bytes, codes}
use adbproxy_rs.Io.{Result, ok, IoError}
use adbproxy_rs.Map.ByNumber
use adbproxy_rs.Compat.{SemVer, parse_version, is_compatible, evaluate_proxy_version}
use adbproxy_rs.Compat.Order.{IsRecent, evaluate_proxy_version_iff}
use adbproxy_rs.Tenant.{empty_registry, snapshot_for}
use adbproxy_rs.Tenant.Isolation.{
  Change, shares, publishes, leaves, apply_all, concerns, snapshot_for_isolated,
}
use adbproxy_rs.Daemon.{DaemonView, handle_adb_client, transported}
use adbproxy_rs.Daemon.Users.{Asked, IsOwn, handle_adb_client_isolated, handle_adb_client-IsOwn}
use adbproxy_rs.Tunnel.{Listener, TunnelManager, owner_eq, transport}
use adbproxy_rs.Tunnel.Owners.{IsBind, transport-foreign}
use adbproxy_rs.Protocol.{read_packet, parse_hex4, read_payload}
use adbproxy_rs.Io.{read_exact}
use adbproxy_rs.Text.{text_eq, starts_with, strip_prefix}
use adbproxy_rs.Text.Utf8.{from_utf8}
use adbproxy_rs.Text.Number.{from_str_radix}
use adbproxy_rs.Daemon.{serve_user, is_unsafe_global_host, route_reply, transport_reply}
use adbproxy_rs.Session.{is_transport}
use adbproxy_rs.Rewrite.{
  rewrite_upstream_service, is_any_selector, rewrite_tport, rewrite_transport, lookup_online,
  lookup_device, transport_service,
}
use adbproxy_rs.Registry.{find_device, is_online}
use adbproxy_rs.Tenant.{private_devices}
use adbproxy_rs.Runs.Data.{same_serial, two_phones, lab, lab_pixel}
use adbproxy_rs.Types.{DeviceEntry}

evaluate_proxy_version_iff_example :
    (is_compatible (evaluate_proxy_version (codes "v0.5.0-rc1")) ≡ true)
    ↔ ((v : SemVer) × (parse_version (codes "v0.5.0-rc1") ≡ some v) × IsRecent v)
evaluate_proxy_version_iff_example = evaluate_proxy_version_iff (codes "v0.5.0-rc1")

abbrev changes : List Change
changes =
    publishes 1000 two_phones ∷ shares same_serial ∷ publishes 1001 two_phones ∷ leaves 1000 ∷ []

snapshot_for_isolated_example :
    snapshot_for (apply_all changes empty_registry) 1001
    ≡ snapshot_for (apply_all (keep (concerns 1001) changes) empty_registry) 1001
snapshot_for_isolated_example = snapshot_for_isolated 1001 changes empty_registry

abbrev view : DaemonView
view = record { tenants = empty_registry; local_backend = some lab; adb_version = 41 }

abbrev devices_request : Bytes
devices_request = codes "000chost:devices"

handle_adb_client_isolated_example :
    handle_adb_client
      (some 1001)
      devices_request
      (record view { tenants = apply_all changes view.tenants })
    ≡ handle_adb_client
        (some 1001)
        devices_request
        (record view { tenants = apply_all (keep (concerns 1001) changes) view.tenants })
handle_adb_client_isolated_example = handle_adb_client_isolated 1001 devices_request changes view

-- A device of the agent of user 1001.
abbrev private_pixel : DeviceEntry
private_pixel = record lab_pixel { route_id = some (codes "lab:PIXEL") }

abbrev private_view : DaemonView
private_view = record view {
  tenants = record empty_registry {
    private = (1001, record { devices = private_pixel ∷ [] }) ∷ [];
  };
}

abbrev transport_request : Bytes
transport_request = codes "0014host:transport:PIXEL"

-- The client is led to the agent of its user.
leads :
    handle_adb_client (some 1001) transport_request private_view
    ≡ transported 1001 (codes "lab:PIXEL") (codes "host:transport:PIXEL") private_pixel
unfolding handle_adb_client codes empty_registry snapshot_for ByNumber.get read_packet parse_hex4
    read_payload read_exact text_eq starts_with strip_prefix from_utf8 from_str_radix serve_user
    is_unsafe_global_host route_reply transport_reply is_transport rewrite_upstream_service
    is_any_selector rewrite_tport rewrite_transport lookup_online lookup_device transport_service
    find_device is_online private_devices
leads = refl

handle_adb_client-IsOwn_example :
    IsOwn private_view.local_backend 1001
      (snapshot_for private_view.tenants 1001)
      (Asked transport_request)
      (handle_adb_client (some 1001) transport_request private_view)
handle_adb_client-IsOwn_example = handle_adb_client-IsOwn 1001 transport_request private_view

-- The system gives the port that is asked for.
abbrev same_port : ℕ → Result IoError ℕ
same_port port = ok port

same_port-IsBind : (m : TunnelManager) → IsBind same_port m
same_port-IsBind m port actual e = inl (ground arith)

abbrev alice : Listener
alice = record { owner = some 1000; serial = codes "PIXEL" }

abbrev listeners : TunnelManager
listeners = (27183, alice) ∷ []

abbrev kill_request : Bytes
kill_request = codes "001ahost:killforward:tcp:27183"

transport-foreign_example :
    ByNumber.get 27183
      (transport same_port
        (codes "PIXEL")
        (some 1001)
        listeners
        (codes "host:transport:PIXEL")
        kill_request
        (codes "OKAY")).manager
    ≡ some alice
unfolding owner_eq ByNumber.get
transport-foreign_example =
    transport-foreign same_port (codes "PIXEL") (some 1001) listeners (codes "host:transport:PIXEL")
      kill_request (codes "OKAY") 27183 alice (same_port-IsBind listeners) refl refl
