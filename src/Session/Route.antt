-- ===== src/Session/Route.antt =====
-- What a service is rewritten to.
use adbproxy_rs.Base.{
  ◌≡◌, ◌∙◌, refl, subst, true, false, none, some, List, [], ◌∷◌, ◌++◌, All, inl, inr,
}
use adbproxy_rs.Text.{Text, codes, text_eq, strip_prefix}
use adbproxy_rs.Text.Equality.{strip_prefix-append}
use adbproxy_rs.Io.{ok}
use adbproxy_rs.Types.{BackendConfig, DeviceEntry, DeviceSnapshot}
use adbproxy_rs.Registry.{is_online, find_device, merge_device_lists, parse_lists}
use adbproxy_rs.Registry.Unique.{IsPlain, find-merge}
use adbproxy_rs.Config.{HubPolicySnapshot, shows, filter_snapshot}
use adbproxy_rs.Rewrite.{
  routed, lookup_device, lookup_online, is_any_selector, tport_service, transport_service,
  rewrite_transport, rewrite_tport, rewrite_upstream_service,
}
use adbproxy_rs.Session.Pick.{IsAmong, keep-IsAmong}
use adbproxy_rs.Session.Named.{Named, Named-rewrite}

-- Whatever the service, a device that it is routed to is one that the policy shows: its backend and the
-- device itself are enabled, and it is a device of the registry.
pub rewrite-filter_snapshot :
    (policy : HubPolicySnapshot) (snap : DeviceSnapshot) (order : List Text) (service : Text)
    (d : DeviceEntry) (upstream : Text)
    → rewrite_upstream_service service (filter_snapshot policy snap) order ≡ ok (some (d, upstream))
    → IsAmong d snap.devices × (shows policy d ≡ true)
unfolding filter_snapshot
rewrite-filter_snapshot policy snap order service d upstream h =
    keep-IsAmong (shows policy) d snap.devices (
      (subst (Named (filter_snapshot policy snap) order) h
        (Named-rewrite (filter_snapshot policy snap) order service)).0)

not_any_transport : (serial : Text) → is_any_selector (codes "host:transport:" ++ serial) ≡ false
unfolding is_any_selector text_eq codes
not_any_transport serial = refl

not_any_tport : (serial : Text) → is_any_selector (codes "host:tport:serial:" ++ serial) ≡ false
unfolding is_any_selector text_eq codes
not_any_tport serial = refl

not_tport_transport :
    (serial : Text)
    → strip_prefix (codes "host:tport:serial:") (codes "host:transport:" ++ serial) ≡ none
unfolding strip_prefix codes
not_tport_transport serial = refl

-- The two services that name a serial select the device of that public serial and no other, whatever the
-- serial is spelled like: it is refused if the device is not there or is not online.
pub rewrite_named :
    (snap : DeviceSnapshot) (order : List Text) (serial : Text)
    → (rewrite_upstream_service (codes "host:transport:" ++ serial) snap order
        ≡ routed transport_service (lookup_online snap serial))
      × (rewrite_upstream_service (codes "host:tport:serial:" ++ serial) snap order
          ≡ routed tport_service (lookup_online snap serial))
unfolding rewrite_upstream_service rewrite_tport rewrite_transport
rewrite_named snap order serial = (
  rw (
    not_any_transport serial,
    not_tport_transport serial,
    strip_prefix-append (codes "host:transport:") serial,
    rewrite_tport,
    rewrite_transport,
  ),
  rw (not_any_tport serial, strip_prefix-append (codes "host:tport:serial:") serial, rewrite_tport),
)

pub found_of :
    (P : DeviceEntry → Type 0) (ds : List DeviceEntry) (d : DeviceEntry)
    → All P ds
    → IsAmong d ds
    → P d
found_of P [] d h a = absurd a
found_of P (e ∷ ds) d (h, hs) (inl x) = subst P x h
found_of P (e ∷ ds) d (h, hs) (inr x) = found_of P ds d hs x

-- From the device lists of the backends to the service that is sent: for an online device of the merge, where no
-- name of a backend and no serial holds a colon, selecting its public serial leads to that very device,
-- and the service names it as its own backend does.
pub rewrite-merge :
    (lists : List (BackendConfig × Text)) (order : List Text) (d : DeviceEntry)
    → All IsPlain (parse_lists lists)
    → IsAmong d (merge_device_lists lists).devices
    → is_online d ≡ true
    → rewrite_upstream_service
        (codes "host:transport:" ++ d.public_serial)
        (merge_device_lists lists)
        order
      ≡ ok (some (d, codes "host:transport:" ++ d.upstream_serial))
unfolding lookup_online lookup_device transport_service
rewrite-merge lists order d plain among online =
    let snap = merge_device_lists lists in
    let found =
      found_of (λ e. find_device snap e.public_serial ≡ some e) snap.devices d
        (find-merge lists plain) among in
    (rewrite_named snap order d.public_serial).0
    ∙ rw (found, lookup_device) (rw (online, lookup_online))
