-- ===== src/Session/Dispatch.antt =====
-- Where the service of a client may be sent: from the bytes of the client to the forwarding.
use adbproxy_rs.Base.{
  ◌≡◌, refl, Bool, true, false, none, some, Bool-cases, Option-cases, inl, inr, ◌⊎◌, if◌then◌else◌,
}
use adbproxy_rs.Text.{Text, Bytes, text_eq}
use adbproxy_rs.Text.Utf8.{from_utf8}
use adbproxy_rs.Io.{Result, ok, err, Result-cases}
use adbproxy_rs.Types.{DeviceEntry}
use adbproxy_rs.Protocol.{read_packet}
use adbproxy_rs.Config.{shows}
use adbproxy_rs.Preferred.{local_name}
use adbproxy_rs.Rewrite.{Rewrite, rewrite_upstream_service}
use adbproxy_rs.Session.{
  Target, route_service, SessionContext, client_snapshot, Outcome, answered, tracking, killed,
  tunnelled, forwarded, answer_state, routed_outcome, tunnel_or_route, route_client, serve_client,
  handle_client, is_eof,
}
use adbproxy_rs.Session.Pick.{IsAmong}
use adbproxy_rs.Session.Route.{rewrite-filter_snapshot}

module _ (ctx : SessionContext) where
  -- A device that the clients of the hub are shown.
  abbrev pub IsShown : DeviceEntry → Type 0
  IsShown d = IsAmong d ctx.registry.devices × (shows ctx.policy d ≡ true)

  -- A tunnel leads to a device that is shown and that is not local; a forward leads to the backend of a device
  -- that is shown, with its code, or to the default backend, with its own.
  unfoldable pub IsAllowed : Outcome → Type 0
  IsAllowed (tunnelled d (addr, code, upstream)) =
      IsShown d
      × (text_eq d.backend_name local_name ≡ false)
      × (addr ≡ d.backend_addr)
      × (code ≡ d.pair_code)
  IsAllowed (forwarded (addr, code, upstream)) =
      ((d : DeviceEntry) × IsShown d × (d.backend_addr ≡ addr) × (d.pair_code ≡ code))
      ⊎ ((addr ≡ ctx.default_backend) × (code ≡ ctx.default_pair_code))
  IsAllowed _ = Unit

  IsAllowed-if :
      (b : Bool) (x y : Outcome) → IsAllowed x → IsAllowed y → IsAllowed (if b then x else y)
  IsAllowed-if true x y h k = h
  IsAllowed-if false x y h k = k

  IsAllowed-answered : (bs : Bytes) → IsAllowed (answered bs)
  unfolding IsAllowed
  IsAllowed-answered bs = tt

  IsAllowed-killed : (bs : Bytes) → IsAllowed (killed bs)
  unfolding IsAllowed
  IsAllowed-killed bs = tt

  IsAllowed-tracking : (long : Bool) → IsAllowed (tracking long)
  unfolding IsAllowed
  IsAllowed-tracking long = tt

  IsAllowed-answer_state :
      (service : Text) (r : Result Text DeviceEntry) → IsAllowed (answer_state service r)
  unfolding IsAllowed answer_state
  IsAllowed-answer_state service (ok d) = tt
  IsAllowed-answer_state service (err e) = tt

  abbrev rewritten : Text → Rewrite
  rewritten service = rewrite_upstream_service service (client_snapshot ctx) ctx.backend_order

  abbrev target : Text → Result Text Target
  target service =
      route_service service (client_snapshot ctx) ctx.default_backend ctx.default_pair_code
        ctx.backend_order

  IsShown-rewritten :
      (service : Text) (d : DeviceEntry) (upstream : Text)
      → rewritten service ≡ ok (some (d, upstream))
      → IsShown d
  unfolding client_snapshot
  IsShown-rewritten service d upstream e =
      rewrite-filter_snapshot ctx.policy ctx.registry ctx.backend_order service d upstream e

  IsAllowed-target : (service : Text) → IsAllowed (routed_outcome (target service))
  unfolding IsAllowed routed_outcome route_service
  IsAllowed-target service = elim (Result-cases (rewritten service)) [
    | inr (x, e) ↦ rw (e, route_service) tt
    | inl (none, e) ↦ rw (e, route_service) (inr (refl, refl))
    | inl (some (d, upstream), e) ↦
        rw (e, route_service) (inl (d, IsShown-rewritten service d upstream e, refl, refl))
  ]

  IsAllowed-tunnel_or_route :
      (service : Text) → IsAllowed (tunnel_or_route (rewritten service) (target service))
  unfolding tunnel_or_route IsAllowed
  IsAllowed-tunnel_or_route service = elim (Result-cases (rewritten service)) [
    | inr (x, e) ↦ rw (e, tunnel_or_route) (IsAllowed-target service)
    | inl (none, e) ↦ rw (e, tunnel_or_route) (IsAllowed-target service)
    | inl (some (d, upstream), e) ↦ elim (Bool-cases (text_eq d.backend_name local_name)) [
      | inl f ↦ rw (e, tunnel_or_route) (rw f (IsAllowed-target service))
      | inr f ↦
          rw (e, tunnel_or_route) (rw f (IsShown-rewritten service d upstream e, f, refl, refl))
    ]
  ]

  IsAllowed-route_client : (service : Text) → IsAllowed (route_client ctx service)
  unfolding route_client
  IsAllowed-route_client service =
      IsAllowed-if _ _ _ (IsAllowed-tunnel_or_route service) (IsAllowed-target service)

  IsAllowed-serve_client : (service : Text) → IsAllowed (serve_client ctx service)
  unfolding serve_client
  IsAllowed-serve_client service =
      search
        (
          IsAllowed-if,
          IsAllowed-answered,
          IsAllowed-tracking,
          IsAllowed-killed,
          IsAllowed-answer_state service,
          IsAllowed-route_client service,
        )
        depth 12

-- Whatever bytes a client of the hub sends, it is tunnelled to no device but one of the registry that the policy
-- shows and that is not local, and forwarded to no backend but that of such a device or the default one, in each case
-- with the pair code of that backend.
pub handle_client-IsAllowed :
    (stream : Bytes) (ctx : SessionContext) → IsAllowed ctx (handle_client stream ctx)
unfolding handle_client IsAllowed
handle_client-IsAllowed stream ctx = elim (Result-cases (read_packet stream)) [
  | inr (e, p) ↦ elim (Bool-cases (is_eof e)) [
    | inl q ↦ rw (p, handle_client) (rw q tt)
    | inr q ↦ rw (p, handle_client) (rw q tt)
  ]
  | inl ((payload, rest), p) ↦ elim (Option-cases (from_utf8 payload)) [
    | inl q ↦ rw (p, handle_client) (rw q tt)
    | inr (service, q) ↦ rw (p, handle_client) (rw q (IsAllowed-serve_client ctx service))
  ]
]
