-- ===== src/Session/Named.antt =====
-- Which device a rewritten service is about.
use adbproxy_rs.Base.{
  ◌≡◌, ◌⊎◌, refl, subst, Bool, true, ◌||◌, none, some, List, [], ◌∷◌, ◌++◌, find, arith, Bool-cases,
  Option-cases, inl, inr,
}
use adbproxy_rs.Text.{Text, codes, text_eq, starts_with, strip_prefix, split_once}
use adbproxy_rs.Io.{Result, ok, err, Result-cases}
use adbproxy_rs.Types.{DeviceEntry, DeviceSnapshot}
use adbproxy_rs.Registry.{is_online, find_device}
use adbproxy_rs.Preferred.{pick_preferred}
use adbproxy_rs.Rewrite.{
  Rewrite, routed, lookup_device, lookup_online, is_any_selector, is_device_request, serial_request,
  tport_service, transport_service, any_service, rewrite_serial_request, rewrite_host_request,
  rewrite_features, rewrite_local, rewrite_usb, rewrite_serial, rewrite_transport, rewrite_tport,
  rewrite_upstream_service,
}
use adbproxy_rs.Session.Pick.{IsAmong, pick_preferred_sound}

find-IsAmong :
    (p : DeviceEntry → Bool) (ds : List DeviceEntry) (d : DeviceEntry)
    → find p ds ≡ some d
    → IsAmong d ds
find-IsAmong p [] d h = ground arith
find-IsAmong p (x ∷ ds) d h = elim (Bool-cases (p x)) [
  | inl e ↦ inl (ground arith)
  | inr e ↦ inr (find-IsAmong p ds d (ground arith))
]

-- A service that is about the device, by its serial on its backend, or the question for the features of one.
abbrev pub IsFor : DeviceEntry → Text → Type 0
IsFor d up =
    (up ≡ codes "host:transport:" ++ d.upstream_serial)
    ⊎ ((up ≡ codes "host:tport:serial:" ++ d.upstream_serial)
        ⊎ (((request : Text) × (up
                ≡ codes "host-serial:" ++ (d.upstream_serial ++ (codes ":" ++ request))))
            ⊎ ((text_eq up (codes "host:features") || text_eq up (codes "host:host-features"))
                ≡ true)))

any_service-IsFor : (service : Text) (d : DeviceEntry) → IsFor d (any_service service d)
unfolding any_service transport_service tport_service
any_service-IsFor service d = elim (Bool-cases (starts_with (codes "host:tport:") service)) [
  | inl e ↦ inr (inl (rw e refl))
  | inr e ↦ inl (rw e refl)
]

transport_service-IsFor : (d : DeviceEntry) → IsFor d (transport_service d)
unfolding transport_service
transport_service-IsFor d = inl refl

tport_service-IsFor : (d : DeviceEntry) → IsFor d (tport_service d)
unfolding tport_service
tport_service-IsFor d = inr (inl refl)

serial_request-IsFor : (request : Text) (d : DeviceEntry) → IsFor d (serial_request request d)
unfolding serial_request
serial_request-IsFor request d = inr (inr (inl (request, refl)))

module _ (snap : DeviceSnapshot) (order : List Text) where
  -- A result that names a device names one of the snapshot.
  abbrev Picked : Result Text DeviceEntry → Type 0
  Picked (ok d) = IsAmong d snap.devices
  Picked (err e) = Unit

  abbrev pub Named : Rewrite → Type 0
  Named (ok (some (d, up))) = IsAmong d snap.devices × IsFor d up
  Named (ok none) = Unit
  Named (err e) = Unit

  Picked-pick : Picked (pick_preferred snap order)
  Picked-pick = elim (Result-cases (pick_preferred snap order)) [
    | inl (d, e) ↦ rw e (pick_preferred_sound snap order d e).0
    | inr (x, e) ↦ rw e tt
  ]

  Picked-lookup : (serial : Text) → Picked (lookup_device snap serial)
  unfolding lookup_device find_device
  Picked-lookup serial = elim (Option-cases (find_device snap serial)) [
    | inl e ↦ rw (e, lookup_device) tt
    | inr (d, e) ↦ rw (e, lookup_device) (find-IsAmong _ snap.devices d e)
  ]

  Named-routed :
      (f : DeviceEntry → Text) (r : Result Text DeviceEntry)
      → ((d : DeviceEntry) → IsFor d (f d))
      → Picked r
      → Named (routed f r)
  Named-routed f (ok d) g h = (h, g d)
  Named-routed f (err e) g h = tt

  Named-serial_request : (rest : Text) → Named (rewrite_serial_request rest snap)
  unfolding rewrite_serial_request
  Named-serial_request rest = elim (Option-cases (split_once b':' rest)) [
    | inl e ↦ rw (e, rewrite_serial_request) tt
    | inr ((serial, request), e) ↦
        rw (e, rewrite_serial_request)
          (Named-routed (serial_request request) (lookup_device snap serial)
            (serial_request-IsFor request) (Picked-lookup serial))
  ]

  Named-host_request : (service : Text) → Named (rewrite_host_request service snap order)
  unfolding rewrite_host_request
  Named-host_request service = elim (Option-cases (strip_prefix (codes "host:") service)) [
    | inl e ↦ rw (e, rewrite_host_request) tt
    | inr (request, e) ↦ elim (Bool-cases (is_device_request request)) [
      | inl f ↦
          rw (e, rewrite_host_request)
            (rw f (
              Named-routed (serial_request request) (pick_preferred snap order)
                (serial_request-IsFor request) Picked-pick))
      | inr f ↦ rw (e, rewrite_host_request) (rw f tt)
    ]
  ]

  Named-features : (service : Text) → Named (rewrite_features service snap order)
  unfolding rewrite_features
  Named-features service =
      elim (Bool-cases
        (text_eq service (codes "host:features") || text_eq service (codes "host:host-features"))) [
          | inr e ↦ rw e (Named-host_request service)
          | inl e ↦ elim (Result-cases (pick_preferred snap order)) [
            | inl (d, f) ↦
                rw (e, f, rewrite_features)
                  ((pick_preferred_sound snap order d f).0, inr (inr (inr e)))
            | inr (x, f) ↦ rw (e, f, rewrite_features) (Named-host_request service)
          ]
        ]

  -- A layer that picks the preferred device for what follows its prefix.
  Named-local : (service : Text) → Named (rewrite_local service snap order)
  unfolding rewrite_local
  Named-local service = elim (Option-cases (strip_prefix (codes "host-local:") service)) [
    | inl e ↦ rw (e, rewrite_local) (Named-features service)
    | inr (request, e) ↦
        rw (e, rewrite_local)
          (Named-routed (serial_request request) (pick_preferred snap order)
            (serial_request-IsFor request) Picked-pick)
  ]

  Named-usb : (service : Text) → Named (rewrite_usb service snap order)
  unfolding rewrite_usb
  Named-usb service = elim (Option-cases (strip_prefix (codes "host-usb:") service)) [
    | inl e ↦ rw (e, rewrite_usb) (Named-local service)
    | inr (request, e) ↦
        rw (e, rewrite_usb)
          (Named-routed (serial_request request) (pick_preferred snap order)
            (serial_request-IsFor request) Picked-pick)
  ]

  Named-serial : (service : Text) → Named (rewrite_serial service snap order)
  unfolding rewrite_serial
  Named-serial service = elim (Option-cases (strip_prefix (codes "host-serial:") service)) [
    | inl e ↦ rw (e, rewrite_serial) (Named-usb service)
    | inr (rest, e) ↦ rw (e, rewrite_serial) (Named-serial_request rest)
  ]

  Picked-online : (serial : Text) → Picked (lookup_online snap serial)
  unfolding lookup_online
  Picked-online serial = elim (Result-cases (lookup_device snap serial)) [
    | inr (x, e) ↦ rw (e, lookup_online) tt
    | inl (d, e) ↦ elim (Bool-cases (is_online d)) [
      | inl f ↦ rw (e, lookup_online) (rw f (subst Picked e (Picked-lookup serial)))
      | inr f ↦ rw (e, lookup_online) (rw f tt)
    ]
  ]

  Named-transport : (service : Text) → Named (rewrite_transport service snap order)
  unfolding rewrite_transport
  Named-transport service = elim (Option-cases (strip_prefix (codes "host:transport:") service)) [
    | inl e ↦ rw (e, rewrite_transport) (Named-serial service)
    | inr (serial, e) ↦
        rw (e, rewrite_transport)
          (Named-routed transport_service (lookup_online snap serial) transport_service-IsFor
            (Picked-online serial))
  ]

  Named-tport : (service : Text) → Named (rewrite_tport service snap order)
  unfolding rewrite_tport
  Named-tport service = elim (Option-cases (strip_prefix (codes "host:tport:serial:") service)) [
    | inl e ↦ rw (e, rewrite_tport) (Named-transport service)
    | inr (serial, e) ↦
        rw (e, rewrite_tport)
          (Named-routed tport_service (lookup_online snap serial) tport_service-IsFor
            (Picked-online serial))
  ]

  pub Named-rewrite : (service : Text) → Named (rewrite_upstream_service service snap order)
  unfolding rewrite_upstream_service
  Named-rewrite service = elim (Bool-cases (is_any_selector service)) [
    | inl e ↦ rw e (
        Named-routed (any_service service) (pick_preferred snap order) (any_service-IsFor service)
          Picked-pick)
    | inr e ↦ rw e (Named-tport service)
  ]
