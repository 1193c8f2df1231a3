-- ===== src/Daemon/Users.antt =====
-- That what a client is answered depends on its own user alone.
use adbproxy_rs.Base.{
  ℕ, ◌≡◌, refl, ap, subst, Bool, true, false, Option, none, some, List, keep, Bool-cases,
  Option-cases, inl, inr, ◌⊎◌, if◌then◌else◌,
}
use adbproxy_rs.Text.{Text, Bytes}
use adbproxy_rs.Text.Utf8.{from_utf8}
use adbproxy_rs.Io.{Result, ok, err, Result-cases}
use adbproxy_rs.Types.{BackendConfig, DeviceEntry, DeviceSnapshot}
use adbproxy_rs.Protocol.{read_packet}
use adbproxy_rs.Tenant.{Uid, snapshot_for}
use adbproxy_rs.Tenant.Isolation.{Change, apply_all, concerns, snapshot_for_isolated}
use adbproxy_rs.Rewrite.{rewrite_upstream_service}
use adbproxy_rs.Session.Pick.{IsAmong}
use adbproxy_rs.Session.Named.{IsFor, Named, Named-rewrite}
use adbproxy_rs.Daemon.{
  DaemonView, Reply, route_reply, serve_user, handle_adb_client, is_eof, transport_reply,
  forward_reply, route_multi, route_of, default_route, backend_order, answered, tracking,
  kill_ignored, shared_forward, transported, private_forward, preferred_reply,
}

-- A client of a user is answered, and its service is sent on, in one way whatever the agents of other users
-- have done before, whatever the client sends: their operations on the registry may be left out.
pub handle_adb_client_isolated :
    (u : Uid) (stream : Bytes) (cs : List Change) (view : DaemonView)
    → handle_adb_client (some u) stream (record view { tenants = apply_all cs view.tenants })
      ≡ handle_adb_client
          (some u)
          stream
          (record view { tenants = apply_all (keep (concerns u) cs) view.tenants })
unfolding handle_adb_client
handle_adb_client_isolated u stream cs view = elim (Result-cases (read_packet stream)) [
  | inr (e, p) ↦ rw (p, handle_adb_client) refl
  | inl ((payload, rest), p) ↦ elim (Option-cases (from_utf8 payload)) [
    | inl q ↦ rw (p, handle_adb_client) (rw q refl)
    | inr (service, q) ↦
        rw (p, handle_adb_client)
          (rw q (
            ap (λ snap. serve_user view.local_backend view.adb_version u snap service)
              (snapshot_for_isolated u cs view.tenants)))
  ]
]

-- What a user may be led to: the user's own agent, by a route of a device that the user sees, the backend of
-- such a device that is shared, or the local backend.
module _ (local : Option BackendConfig) (u : Uid) (snap : DeviceSnapshot)
    (Sent : Text → Type 0) where
  unfoldable pub IsOwn : Reply → Type 0
  IsOwn (tracking uid long) = uid ≡ u
  IsOwn (transported uid route_id upstream entry) =
      (uid ≡ u)
      × IsAmong entry snap.devices
      × (entry.route_id ≡ some route_id)
      × IsFor entry upstream
  IsOwn (private_forward uid route_id upstream) =
      (uid ≡ u)
      × ((d : DeviceEntry) × IsAmong d snap.devices
          × (d.route_id ≡ some route_id)
          × IsFor d upstream)
  IsOwn (shared_forward addr upstream) =
      ((d : DeviceEntry) × IsAmong d snap.devices
        × (d.route_id ≡ none)
        × (d.backend_addr ≡ addr)
        × IsFor d upstream)
      ⊎ ((b : BackendConfig) × (local ≡ some b) × (b.addr ≡ addr) × Sent upstream)
  IsOwn _ = Unit

  IsOwn-if : (b : Bool) (x y : Reply) → IsOwn x → IsOwn y → IsOwn (if b then x else y)
  IsOwn-if true x y h k = h
  IsOwn-if false x y h k = k

  IsOwn-answered : (bs : Bytes) → IsOwn (answered bs)
  unfolding IsOwn
  IsOwn-answered bs = tt

  IsOwn-kill_ignored : (bs : Bytes) → IsOwn (kill_ignored bs)
  unfolding IsOwn
  IsOwn-kill_ignored bs = tt

  IsOwn-tracking : (long : Bool) → IsOwn (tracking u long)
  unfolding IsOwn
  IsOwn-tracking long = refl

  IsOwn-default :
      (service : Text) → Sent service → IsOwn (forward_reply u (default_route service local))
  unfolding forward_reply default_route IsOwn
  IsOwn-default service s = elim (Option-cases local) [
    | inl e ↦ rw e tt
    | inr (b, e) ↦ rw (e, default_route, forward_reply) (inr (b, refl, refl, s))
  ]

  IsOwn-route_of :
      (d : DeviceEntry) (upstream : Text)
      → IsAmong d snap.devices
      → IsFor d upstream
      → IsOwn (forward_reply u (ok (route_of d upstream)))
  unfolding forward_reply route_of IsOwn
  IsOwn-route_of d upstream among for = elim (Option-cases d.route_id) [
    | inl e ↦ rw (e, route_of, forward_reply) (inl (d, among, e, refl, for))
    | inr (route_id, e) ↦ rw (e, route_of, forward_reply) (refl, (d, among, e, for))
  ]

  IsOwn-forward :
      (service : Text) (order : List Text)
      → Sent service
      → IsOwn (forward_reply u (route_multi service snap order local))
  unfolding route_multi forward_reply IsOwn
  IsOwn-forward service order s =
      elim (Result-cases (rewrite_upstream_service service snap order)) [
        | inr (x, e) ↦ rw (e, route_multi, forward_reply) tt
        | inl (none, e) ↦ rw (e, route_multi) (IsOwn-default service s)
        | inl (some (d, upstream), e) ↦
            rw (e, route_multi)
              (let (among, for) = subst (Named snap order) e (Named-rewrite snap order service) in
                IsOwn-route_of d upstream among for)
      ]

  IsOwn-transport :
      (service : Text) (order : List Text)
      → Sent service
      → IsOwn (
          transport_reply u
            (rewrite_upstream_service service snap order)
            (route_multi service snap order local))
  unfolding transport_reply IsOwn
  IsOwn-transport service order s =
      elim (Result-cases (rewrite_upstream_service service snap order)) [
        | inr (x, e) ↦ rw (e, transport_reply) (IsOwn-forward service order s)
        | inl (none, e) ↦ rw (e, transport_reply) (IsOwn-forward service order s)
        | inl (some (d, upstream), e) ↦ elim (Option-cases d.route_id) [
          | inl g ↦ rw (e, transport_reply) (rw g (IsOwn-forward service order s))
          | inr (route_id, g) ↦
              let (among, for) = subst (Named snap order) e (Named-rewrite snap order service) in
              rw (e, transport_reply) (rw g (refl, among, g, for))
        ]
      ]

  IsOwn-preferred_reply :
      (service : Text) (r : Result Text DeviceEntry) → IsOwn (preferred_reply service r)
  unfolding preferred_reply IsOwn
  IsOwn-preferred_reply service (ok d) = tt
  IsOwn-preferred_reply service (err e) = tt

  IsOwn-route_reply : (service : Text) → Sent service → IsOwn (route_reply local u snap service)
  unfolding route_reply
  IsOwn-route_reply service s =
      IsOwn-if _ _ _ (IsOwn-transport service (backend_order snap local) s)
        (IsOwn-forward service (backend_order snap local) s)

  IsOwn-serve_user :
      (version : ℕ) (service : Text)
      → Sent service
      → IsOwn (serve_user local version u snap service)
  unfolding serve_user
  IsOwn-serve_user version service s =
      search
        (
          IsOwn-if,
          IsOwn-answered,
          IsOwn-tracking,
          IsOwn-kill_ignored,
          IsOwn-preferred_reply service,
          IsOwn-route_reply service s,
        )
        depth 12

-- The service that a client asks for.
abbrev pub Asked : Bytes → Text → Type 0
Asked stream service =
    (payload : Bytes) × (rest : Bytes) × (read_packet stream ≡ ok (payload, rest))
    × (from_utf8 payload ≡ some service)

-- Whatever a client sends, it is led no further than its own user may go: to the agent of that user, by the
-- route of a device that the user sees; to the backend of a shared device that the user sees; or, with the very service
-- that it asked for, to the local backend. What is sent to a device is about that device, by its serial there, or asks for
-- the features. It never reaches the agent or the devices of another user.
pub handle_adb_client-IsOwn :
    (u : Uid) (stream : Bytes) (view : DaemonView)
    → IsOwn view.local_backend u
        (snapshot_for view.tenants u)
        (Asked stream)
        (handle_adb_client (some u) stream view)
unfolding handle_adb_client IsOwn
handle_adb_client-IsOwn u stream view = elim (Result-cases (read_packet stream)) [
  | inr (e, p) ↦ elim (Bool-cases (is_eof e)) [
    | inl q ↦ rw (p, handle_adb_client) (rw q tt)
    | inr q ↦ rw (p, handle_adb_client) (rw q tt)
  ]
  | inl ((payload, rest), p) ↦ elim (Option-cases (from_utf8 payload)) [
    | inl q ↦ rw (p, handle_adb_client) (rw q tt)
    | inr (service, q) ↦
        rw (p, handle_adb_client)
          (rw q (
            IsOwn-serve_user view.local_backend u (snapshot_for view.tenants u) (Asked stream)
              view.adb_version service (payload, rest, p, q)))
  ]
]
