-- ===== src/Agent/Routes.antt =====
-- That the route that the agent publishes for a device leads back to the device.
use adbproxy_rs.Base.{
  ◌≡◌, ◌≢◌, ◌∙◌, refl, ap, some, List, [], ◌∷◌, All, arith, Bool-cases, inl, inr, ◌⊎◌,
}
use adbproxy_rs.Text.{Text, codes, text_eq}
use adbproxy_rs.Text.Equality.{text_eq_sound, text_eq_refl}
use adbproxy_rs.Map
use adbproxy_rs.Map.{Map, get-insert}
use adbproxy_rs.Types.{DeviceEntry}
use adbproxy_rs.Registry.Unique.{NoColon, split_at_colon}
use adbproxy_rs.Session.Pick.{IsAmong}
use adbproxy_rs.Session.Route.{found_of}
use adbproxy_rs.Agent.{RouteEntry, route_id_of, route_entry, routes_of, sanitize}

-- The address and the code of a device, with a serial.
entry_with : DeviceEntry → Text → RouteEntry
entry_with e serial = record {
  addr = e.backend_addr;
  pair_code = e.pair_code;
  upstream_serial = serial;
}

module _ (r : Text) where
  -- The map leads from the route to a device of the list, the last one that has it; or the list has none.
  abbrev IsRouted : Map RouteEntry → List DeviceEntry → Type 0
  IsRouted m ds =
      ((Map.get r (routes_of m ds) ≡ Map.get r m)
        × ((e : DeviceEntry) → IsAmong e ds → route_id_of e ≢ r))
      ⊎ ((e : DeviceEntry) × IsAmong e ds
          × (route_id_of e ≡ r)
          × (Map.get r (routes_of m ds) ≡ some (route_entry e)))

  routes_of-IsRouted : (m : Map RouteEntry) (ds : List DeviceEntry) → IsRouted m ds
  unfolding routes_of
  routes_of-IsRouted m [] = inl (refl, λ e a p. a)
  routes_of-IsRouted m (d ∷ ds) =
      elim (routes_of-IsRouted (Map.insert (route_id_of d) (route_entry d) m) ds) [
        | inr (e, a, p, q) ↦ inr (e, inr a, p, q)
        | inl (q, other) ↦ elim (Bool-cases (text_eq (route_id_of d) r)) [
          | inl t ↦ inr (
            d,
            inl refl,
            text_eq_sound (route_id_of d) r t,
            q ∙ get-insert (route_id_of d) r (route_entry d) m ∙ rw t refl,
          )
          | inr f ↦ inl (
            q ∙ get-insert (route_id_of d) r (route_entry d) m ∙ rw f refl,
            λ e a p. elim a [
              | inl x ↦ ground (arith, text_eq_refl r, ap route_id_of x)
              | inr y ↦ other e y p
            ],
          )
        ]
      ]

-- If no name of a backend holds a colon, the route id that is published for a device leads, in the routes that the
-- agent keeps, to the address of the backend and the pair code of a device of the same backend with the same serial
-- there, and to that serial.
pub get-sanitize :
    (ds : List DeviceEntry) (d : DeviceEntry)
    → All (λ e. NoColon e.backend_name) ds
    → IsAmong d ds
    → (e : DeviceEntry) × IsAmong e ds
      × (e.backend_name ≡ d.backend_name)
      × (e.upstream_serial ≡ d.upstream_serial)
      × (Map.get (sanitize d).route_id (routes_of [] ds)
          ≡ some (record {
            addr = e.backend_addr;
            pair_code = e.pair_code;
            upstream_serial = d.upstream_serial;
          }))
unfolding sanitize route_id_of codes route_entry entry_with
get-sanitize ds d plain among = elim (routes_of-IsRouted (route_id_of d) [] ds) [
  | inl (q, other) ↦ absurd (other d among refl)
  | inr (e, a, p, q) ↦
      let parts =
        split_at_colon e.backend_name d.backend_name e.upstream_serial d.upstream_serial
          (found_of (λ x. NoColon x.backend_name) ds e plain a)
          (found_of (λ x. NoColon x.backend_name) ds d plain among) p in
      (e, a, parts.0, parts.1, q ∙ ap (λ s. some (entry_with e s)) parts.1)
]
