-- ===== src/Daemon/Agents/Codes/Clean.antt =====
-- That the operations of the daemon keep pair codes out of the devices of its users.
use adbproxy_rs.Base.{
  ℕ, ◌≡◌, refl, Bool, true, false, Option, none, some, List, [], ◌∷◌, ◌++◌, ◌+◌, map, All,
  All-append, if◌then◌else◌, ◌==◌, Bool-cases, Option-cases, inl, inr,
}
use adbproxy_rs.Text.{Text, text_eq}
use adbproxy_rs.Text.Whitespace.{lines}
use adbproxy_rs.Io.{Result, ok, err, IoError}
use adbproxy_rs.Map.{Map}
use adbproxy_rs.Map.ByNumber
use adbproxy_rs.Map.ByNumber.{NumberMap, get-remove, get-insert}
use adbproxy_rs.Types.{BackendConfig, DeviceEntry, DeviceSnapshot}
use adbproxy_rs.Registry.{
  Parsed, parse_device_line, parse_lines, parse_lists, count_serials, public_of, entry_of, assign,
  merge_device_lists,
}
use adbproxy_rs.Ipc.{
  IpcMessage, SanitizedDevice, sanitized_entry, sanitized_to_snapshot, protocol_version, registers,
  snapshot, snapshot_changed, opens, opened, carries, closes, pings, pongs,
}
use adbproxy_rs.Tenant.{
  Uid, TenantRegistry, update_shared, update_shared_from_lists, update_agent_devices, remove_agent,
  private_devices,
}
use adbproxy_rs.Daemon.Agents.{
  AgentConn, DaemonState, accept_agent, tenants_after, receive, forget_agent, forget_if_active,
  active_agent, leave, poll_shared_once, open_stream, ask_agent,
}

abbrev pub NoCodes : List DeviceEntry → Type 0
NoCodes = All (λ d. d.pair_code ≡ none)

assign-NoCodes :
    (counts : Map ℕ) (used : List Text) (at : ℕ) (ps : List Parsed)
    → All (λ p. p.backend.pair_code ≡ none) ps
    → NoCodes (assign counts used at ps)
unfolding assign entry_of
assign-NoCodes counts used at [] h = tt
assign-NoCodes counts used at (p ∷ ps) (h, hs) =
    (h, assign-NoCodes counts (public_of counts used at p ∷ used) (at + 1) ps hs)

parse_lines-backend :
    (b : BackendConfig) (ls : List Text)
    → b.pair_code ≡ none
    → All (λ p. p.backend.pair_code ≡ none) (parse_lines b ls)
unfolding parse_lines
parse_lines-backend b [] h = tt
parse_lines-backend b (l ∷ ls) h = elim (Option-cases (parse_device_line l)) [
  | inl e ↦ rw (e, parse_lines) (parse_lines-backend b ls h)
  | inr ((serial, state, extras), e) ↦ rw (e, parse_lines) (h, parse_lines-backend b ls h)
]

merge-NoCodes :
    (b : BackendConfig) (body : Text)
    → b.pair_code ≡ none
    → NoCodes (merge_device_lists ((b, body) ∷ [])).devices
unfolding merge_device_lists parse_lists
merge-NoCodes b body h =
    let ps = parse_lines b (lines body) ++ [] in
    assign-NoCodes (count_serials [] ps) [] 0 ps (
      All-append (λ p. p.backend.pair_code ≡ none) (parse_lines b (lines body)) []
        (parse_lines-backend b (lines body) h) tt)

sanitized-NoCodes : (ds : List SanitizedDevice) → NoCodes (map sanitized_entry ds)
unfolding sanitized_entry
sanitized-NoCodes [] = tt
sanitized-NoCodes (d ∷ ds) = (refl, sanitized-NoCodes ds)

-- No shared device has a pair code, and no device of an agent.
abbrev pub IsClean : TenantRegistry → Type 0
IsClean t =
    NoCodes t.shared.devices × ((u : Uid) → NoCodes (private_devices (ByNumber.get u t.private)))

NoCodes-if :
    (b : Bool) (o o' : Option DeviceSnapshot)
    → NoCodes (private_devices o)
    → NoCodes (private_devices o')
    → NoCodes (private_devices (if b then o else o'))
NoCodes-if true o o' h k = h
NoCodes-if false o o' h k = k

update_agent_devices-IsClean :
    (t : TenantRegistry) (uid : Uid) (ds : List SanitizedDevice)
    → IsClean t
    → IsClean (update_agent_devices t uid (sanitized_to_snapshot ds)).0
unfolding update_agent_devices sanitized_to_snapshot private_devices
update_agent_devices-IsClean t uid ds (h, hs) = (
  h,
  λ u. rw (get-insert uid u (record { devices = map sanitized_entry ds }) t.private) (
      NoCodes-if (uid == u) (some (record { devices = map sanitized_entry ds }))
        (ByNumber.get u t.private) (sanitized-NoCodes ds) (hs u)),
)

remove_agent-IsClean : (t : TenantRegistry) (uid : Uid) → IsClean t → IsClean (remove_agent t uid).0
unfolding remove_agent private_devices
remove_agent-IsClean t uid (h, hs) = (
  h,
  λ u.
      rw (get-remove uid u t.private)
        (NoCodes-if (uid == u) none (ByNumber.get u t.private) tt (hs u)),
)

tenants_after-IsClean :
    (msg : IpcMessage) (uid : Uid) (t : TenantRegistry)
    → IsClean t
    → IsClean (tenants_after msg uid t)
unfolding tenants_after
tenants_after-IsClean (snapshot m) uid t h = update_agent_devices-IsClean t uid m.devices h
tenants_after-IsClean (snapshot_changed m) uid t h = update_agent_devices-IsClean t uid m.devices h
tenants_after-IsClean (registers m) uid t h = h
tenants_after-IsClean (opens m) uid t h = h
tenants_after-IsClean (opened m) uid t h = h
tenants_after-IsClean (carries i bs) uid t h = h
tenants_after-IsClean (closes m) uid t h = h
tenants_after-IsClean pings uid t h = h
tenants_after-IsClean pongs uid t h = h

pub receive-IsClean :
    (number : ℕ) (msg : IpcMessage) (s : DaemonState)
    → IsClean s.tenants
    → IsClean (receive number msg s).tenants
unfolding receive
receive-IsClean number msg s h = elim (Option-cases (ByNumber.get number s.conns)) [
  | inl e ↦ rw (e, receive) h
  | inr (c, e) ↦ rw (e, receive) (tenants_after-IsClean msg c.uid s.tenants h)
]

forget_if_active-IsClean :
    (c : AgentConn) (o : Option AgentConn) (s : DaemonState)
    → IsClean s.tenants
    → IsClean (forget_if_active c o s).tenants
unfolding forget_if_active forget_agent
forget_if_active-IsClean c none s h = h
forget_if_active-IsClean c (some d) s h =
    elim (Bool-cases (text_eq d.instance_token c.instance_token)) [
      | inl e ↦ rw e (remove_agent-IsClean s.tenants c.uid h)
      | inr e ↦ rw e h
    ]

pub leave-IsClean :
    (number : ℕ) (s : DaemonState) → IsClean s.tenants → IsClean (leave number s).tenants
unfolding leave
leave-IsClean number s h = elim (Option-cases (ByNumber.get number s.conns)) [
  | inl e ↦ rw (e, leave) h
  | inr (c, e) ↦ rw (e, leave) (forget_if_active-IsClean c (active_agent c.uid s) s h)
]

pub poll-IsClean :
    (b : BackendConfig) (answer : Result IoError Text) (s : DaemonState)
    → b.pair_code ≡ none
    → IsClean s.tenants
    → IsClean (poll_shared_once b answer s).tenants
unfolding poll_shared_once update_shared_from_lists update_shared
poll-IsClean b (ok body) s none_b (h, hs) = (merge-NoCodes b body none_b, hs)
poll-IsClean b (err e) s none_b (h, hs) = (merge-NoCodes b [] none_b, hs)

pub open_stream_tenants :
    (uid : Uid) (route_id service : Text) (s : DaemonState)
    → (open_stream uid route_id service s).0.tenants ≡ s.tenants
unfolding open_stream ask_agent
open_stream_tenants uid route_id service s = elim (Option-cases (ByNumber.get uid s.agents)) [
  | inl e ↦ rw (e, open_stream) refl
  | inr (number, e) ↦ elim (Option-cases (ByNumber.get number s.conns)) [
    | inl f ↦ rw (e, open_stream) (rw f refl)
    | inr (c, f) ↦ rw (e, open_stream) (rw f refl)
  ]
]

-- A result that is a state has the devices of the given one.
abbrev pub SameTenants : DaemonState → Result IoError DaemonState → Type 0
SameTenants s (ok s') = s'.tenants ≡ s.tenants
SameTenants s (err e) = Unit

pub SameTenants-accept_agent :
    (uid number : ℕ) (msg : IpcMessage) (s : DaemonState)
    → SameTenants s (accept_agent uid number msg s)
unfolding accept_agent
SameTenants-accept_agent uid number (registers reg) s =
    elim (Bool-cases (reg.version == protocol_version)) [ inl e ↦ rw e refl | inr e ↦ rw e tt ]
SameTenants-accept_agent uid number (snapshot m) s = tt
SameTenants-accept_agent uid number (snapshot_changed m) s = tt
SameTenants-accept_agent uid number (opens m) s = tt
SameTenants-accept_agent uid number (opened m) s = tt
SameTenants-accept_agent uid number (carries i bs) s = tt
SameTenants-accept_agent uid number (closes m) s = tt
SameTenants-accept_agent uid number pings s = tt
SameTenants-accept_agent uid number pongs s = tt
