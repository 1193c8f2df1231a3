-- ===== src/Tenant/Isolation.antt =====
-- That the devices of one user do not reach another, over every sequence of operations on the registry.
use adbproxy_rs.Base.{
  ◌≡◌, refl, ap₂, Bool, true, false, List, [], ◌∷◌, ◌++◌, arith, ◌==◌, keep, Bool-cases, inl, inr,
}
use adbproxy_rs.Text.{Text}
use adbproxy_rs.Map.ByNumber
use adbproxy_rs.Map.ByNumber.{NumberMap, get-remove, get-insert}
use adbproxy_rs.Types.{BackendConfig, DeviceSnapshot}
use adbproxy_rs.Tenant.{
  Uid, TenantRegistry, update_shared, update_shared_from_lists, update_agent_devices, remove_agent,
  private_devices, snapshot_for,
}

-- The operations that change the registry.
pub data Change : Type 0 where
  shares : List (BackendConfig × Text) → Change
  publishes : (uid : Uid) (snap : DeviceSnapshot) → Change
  leaves : (uid : Uid) → Change

unfoldable pub apply_change : Change → TenantRegistry → TenantRegistry
apply_change (shares lists) t = (update_shared_from_lists t lists).0
apply_change (publishes uid snap) t = (update_agent_devices t uid snap).0
apply_change (leaves uid) t = (remove_agent t uid).0

unfoldable pub apply_all : List Change → TenantRegistry → TenantRegistry
apply_all [] t = t
apply_all (c ∷ cs) t = apply_all cs (apply_change c t)

-- Whether a user sees the change: the shared devices, and what the user's own agent does.
unfoldable pub concerns : Uid → Change → Bool
concerns u (shares lists) = true
concerns u (publishes uid snap) = uid == u
concerns u (leaves uid) = uid == u

-- Two registries that are one to the user.
abbrev Alike : Uid → TenantRegistry → TenantRegistry → Type 0
Alike u t t' = (t.shared ≡ t'.shared) × (ByNumber.get u t.private ≡ ByNumber.get u t'.private)

apply_change-Alike :
    (u : Uid) (c : Change) (t t' : TenantRegistry)
    → Alike u t t'
    → Alike u (apply_change c t) (apply_change c t')
unfolding apply_change update_shared_from_lists update_shared update_agent_devices remove_agent
apply_change-Alike u (shares lists) t t' (p, q) = (refl, q)
apply_change-Alike u (publishes uid snap) t t' (p, q) =
    (p, ground (arith, get-insert uid u snap t.private, get-insert uid u snap t'.private))
apply_change-Alike u (leaves uid) t t' (p, q) =
    (p, ground (arith, get-remove uid u t.private, get-remove uid u t'.private))

skip_change-Alike :
    (u : Uid) (c : Change) (t t' : TenantRegistry)
    → concerns u c ≡ false
    → Alike u t t'
    → Alike u (apply_change c t) t'
unfolding apply_change update_agent_devices remove_agent concerns
skip_change-Alike u (shares lists) t t' h (p, q) = absurd (ground arith)
skip_change-Alike u (publishes uid snap) t t' h (p, q) =
    (p, ground (arith, get-insert uid u snap t.private))
skip_change-Alike u (leaves uid) t t' h (p, q) = (p, ground (arith, get-remove uid u t.private))

apply_all-Alike :
    (u : Uid) (cs : List Change) (t t' : TenantRegistry)
    → Alike u t t'
    → Alike u (apply_all cs t) (apply_all (keep (concerns u) cs) t')
unfolding apply_all
apply_all-Alike u [] t t' h = h
apply_all-Alike u (c ∷ cs) t t' h = elim (Bool-cases (concerns u c)) [
  | inl e ↦
      rw e (
        apply_all-Alike u cs (apply_change c t) (apply_change c t') (apply_change-Alike u c t t' h))
  | inr e ↦ rw e (apply_all-Alike u cs (apply_change c t) t' (skip_change-Alike u c t t' e h))
]

-- What a user sees after any sequence of operations is what the user sees after those of them alone that
-- change the shared devices or come from the user's own agent: no other user's agent has any effect on it.
pub snapshot_for_isolated :
    (u : Uid) (cs : List Change) (t : TenantRegistry)
    → snapshot_for (apply_all cs t) u ≡ snapshot_for (apply_all (keep (concerns u) cs) t) u
unfolding snapshot_for
snapshot_for_isolated u cs t =
    let (p, q) = apply_all-Alike u cs t t (refl, refl) in
    ap₂ (λ (s : DeviceSnapshot) o. record { devices = s.devices ++ private_devices o }) p q
