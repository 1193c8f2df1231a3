-- ===== src/Daemon/Agents/Leaving.antt =====
-- What is left of an agent when its connection ends.
use adbproxy_rs.Base.{
  ℕ, ◌≡◌, ◌∙◌, refl, ap, false, none, some, arith, ◌==◌, Bool-cases, inl, inr, if◌then◌else◌,
  append-nil,
}
use adbproxy_rs.Text.{text_eq}
use adbproxy_rs.Text.Equality.{text_eq_refl}
use adbproxy_rs.Map.ByNumber
use adbproxy_rs.Map.ByNumber.{get-remove, get-insert}
use adbproxy_rs.Ipc.{DeviceSnapshotMsg, snapshot_changed, sanitized_to_snapshot}
use adbproxy_rs.Tenant.{
  Uid, TenantRegistry, update_agent_devices, remove_agent, snapshot_for, private_devices,
}
use adbproxy_rs.Daemon.Agents.{
  AgentConn, DaemonState, active_agent, conn_after, tenants_after, receive, forget_agent,
  forget_if_active, leave,
}

snapshot_for-remove_agent :
    (t : TenantRegistry) (v u : Uid)
    → snapshot_for (remove_agent t v).0 u ≡ (if v == u then t.shared else snapshot_for t u)
unfolding snapshot_for remove_agent private_devices
snapshot_for-remove_agent t v u = elim (Bool-cases (v == u)) [
  | inl e ↦
      rw (get-remove v u t.private, e)
        (ap (λ ds. record { devices = ds }) (append-nil t.shared.devices))
  | inr e ↦ rw (get-remove v u t.private, e) refl
]

active_agent_lem :
    (s : DaemonState) (uid number : ℕ)
    → ByNumber.get uid s.agents ≡ some number
    → active_agent uid s ≡ ByNumber.get number s.conns
unfolding active_agent
active_agent_lem s uid number a = rw a refl

-- When the connection ends that is in use for its user, the user is left with the shared devices alone, and what
-- any other user sees does not change.
pub leave-snapshot_for :
    (number : ℕ) (s : DaemonState) (c : AgentConn) (u : Uid)
    → ByNumber.get number s.conns ≡ some c
    → ByNumber.get c.uid s.agents ≡ some number
    → snapshot_for (leave number s).tenants u
      ≡ (if c.uid == u then s.tenants.shared else snapshot_for s.tenants u)
unfolding leave forget_if_active forget_agent
leave-snapshot_for number s c u h a =
    rw (h, leave)
      (rw (active_agent_lem s c.uid number a, h)
        (rw (text_eq_refl c.instance_token) (snapshot_for-remove_agent s.tenants c.uid u)))

-- Where another connection is in use for the user, with another token, the end of a connection changes neither
-- the devices that anyone sees nor the tunnels.
pub leave_stale :
    (number other : ℕ) (s : DaemonState) (c d : AgentConn)
    → ByNumber.get number s.conns ≡ some c
    → ByNumber.get c.uid s.agents ≡ some other
    → ByNumber.get other s.conns ≡ some d
    → text_eq d.instance_token c.instance_token ≡ false
    → ((leave number s).tenants ≡ s.tenants)
      × ((leave number s).agents ≡ s.agents)
      × ((leave number s).tunnels ≡ s.tunnels)
unfolding leave forget_if_active
leave_stale number other s c d h a b ne =
    rw (h, leave) (rw (active_agent_lem s c.uid other a, b) (rw ne (refl, refl, refl)))

leave_orphan :
    (number : ℕ) (s : DaemonState) (c : AgentConn)
    → ByNumber.get number s.conns ≡ some c
    → ByNumber.get c.uid s.agents ≡ none
    → leave number s ≡ record s { conns = ByNumber.remove number s.conns }
unfolding leave forget_if_active active_agent
leave_orphan number s c h a = rw (h, leave) (rw (a, active_agent) refl)

-- The state behind a message that publishes.
abbrev published : ℕ → DaemonState → AgentConn → DeviceSnapshotMsg → DaemonState
published number s c m = record s {
  tenants = tenants_after (snapshot_changed m) c.uid s.tenants;
  conns = ByNumber.insert number (conn_after (snapshot_changed m) c) s.conns;
}

receive-published :
    (number : ℕ) (s : DaemonState) (c : AgentConn) (m : DeviceSnapshotMsg)
    → ByNumber.get number s.conns ≡ some c
    → receive number (snapshot_changed m) s ≡ published number s c m
unfolding receive
receive-published number s c m h = rw (h, receive) refl

-- A connection that was replaced, whose user has no agent any more since the other agent left: what it publishes
-- is shown to the user, and stays when the connection ends, although the user then has no agent.
pub publish_stale :
    (number : ℕ) (s : DaemonState) (c : AgentConn) (m : DeviceSnapshotMsg)
    → ByNumber.get number s.conns ≡ some c
    → ByNumber.get c.uid s.agents ≡ none
    → (ByNumber.get c.uid (leave number (receive number (snapshot_changed m) s)).agents ≡ none)
      × (ByNumber.get c.uid (leave number (receive number (snapshot_changed m) s)).tenants.private
          ≡ some (sanitized_to_snapshot m.devices))
unfolding tenants_after conn_after update_agent_devices
publish_stale number s c m h a =
    let s' = published number s c m in
    let there : ByNumber.get number s'.conns ≡ some c =
      ground (arith, get-insert number number c s.conns) in
    let e : leave number (receive number (snapshot_changed m) s)
        ≡ record s' { conns = ByNumber.remove number s'.conns } =
      ap (leave number) (receive-published number s c m h) ∙ leave_orphan number s' c there a in
    (
      ap (λ (z : DaemonState). ByNumber.get c.uid z.agents) e ∙ a,
      ap (λ (z : DaemonState). ByNumber.get c.uid z.tenants.private) e
          ∙ ground
              (arith, get-insert c.uid c.uid (sanitized_to_snapshot m.devices) s.tenants.private),
    )
