-- ===== src/Follow/Unchanged.antt =====
-- An update that changes no device changes no list.
use adbproxy_rs.Base.{
  ◌≡◌, refl, sym, ap, ap₂, Bool, true, false, &&-eq-true, Option, none, some, List, [], ◌∷◌, arith,
}
use adbproxy_rs.Text.{Text}
use adbproxy_rs.Text.Equality.{text_eq_sound}
use adbproxy_rs.Addr.{addr_eq_sound}
use adbproxy_rs.Types.{BackendConfig, DeviceEntry, DeviceSnapshot}
use adbproxy_rs.Registry.{format_devices, merge_device_lists}
use adbproxy_rs.Tenant.{optional_eq, entry_eq, entries_eq}
use adbproxy_rs.Config.{HubPolicySnapshot, filter_snapshot}
use adbproxy_rs.Poller.{update_from_backend_lists}

optional_eq_sound : (a b : Option Text) → optional_eq a b ≡ true → a ≡ b
unfolding optional_eq
optional_eq_sound none none h = refl
optional_eq_sound none (some b) h = ground arith
optional_eq_sound (some a) none h = ground arith
optional_eq_sound (some a) (some b) h = ap some (text_eq_sound a b h)

entry_eq_sound : (d e : DeviceEntry) → entry_eq d e ≡ true → d ≡ e
unfolding entry_eq
entry_eq_sound d e h = ground (
  arith,
  text_eq_sound d.public_serial e.public_serial,
  text_eq_sound d.upstream_serial e.upstream_serial,
  text_eq_sound d.state e.state,
  text_eq_sound d.extras e.extras,
  text_eq_sound d.backend_name e.backend_name,
  addr_eq_sound d.backend_addr e.backend_addr,
  optional_eq_sound d.pair_code e.pair_code,
  optional_eq_sound d.route_id e.route_id,
)

entries_eq_sound : (ds es : List DeviceEntry) → entries_eq ds es ≡ true → ds ≡ es
unfolding entries_eq
entries_eq_sound [] [] h = refl
entries_eq_sound [] (e ∷ es) h = ground arith
entries_eq_sound (d ∷ ds) [] h = ground arith
entries_eq_sound (d ∷ ds) (e ∷ es) h =
    let (a, b) = &&-eq-true (entry_eq d e) (entries_eq ds es) h in
    ap₂ (λ x xs. x ∷ xs) (entry_eq_sound d e a) (entries_eq_sound ds es b)

-- What clients are shown of a registry under a policy.
abbrev pub body_of : HubPolicySnapshot → Bool → DeviceSnapshot → Text
body_of p long registry = format_devices long (filter_snapshot p registry)

pub update-body_of :
    (p : HubPolicySnapshot) (long : Bool) (registry : DeviceSnapshot)
    (lists : List (BackendConfig × Text))
    → (update_from_backend_lists registry lists).1 ≡ false
    → body_of p long (update_from_backend_lists registry lists).0 ≡ body_of p long registry
unfolding update_from_backend_lists
update-body_of p long registry lists h =
    let merged = merge_device_lists lists in
    let same : registry.devices ≡ merged.devices =
      entries_eq_sound registry.devices merged.devices (ground arith) in
    ap (body_of p long) (sym (ap (λ ds. record { devices = ds }) same))
