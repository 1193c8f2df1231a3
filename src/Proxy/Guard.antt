-- ===== src/Proxy/Guard.antt =====
-- What has to hold before a proxy sends anything to the adb server.
use adbproxy_rs.Base.{
  suc, length, ◌≡◌, ◌⊎◌, refl, ap, Bool, true, false, Option, none, some, arith, Bool-cases,
  Option-cases, inl, inr, if◌then◌else◌,
}
use adbproxy_rs.Text.{Text, Bytes, text_eq}
use adbproxy_rs.Text.Utf8.{from_utf8, from_utf8_lossy}
use adbproxy_rs.Io.{Result, ok, err, IoError, Result-cases}
use adbproxy_rs.Protocol.{read_packet, read_status, read_okay_payload, write_service}
use adbproxy_rs.Auth.{accept_auth, auth_service}
use adbproxy_rs.Auth.Codes.{IsPairCode}
use adbproxy_rs.Auth.Handshake.{accept_auth_sound}
use adbproxy_rs.Compat.{proxy_version_service}
use adbproxy_rs.Policy.{is_enabled, transport_serial}
use adbproxy_rs.ProxyPolicy.{PolicyCache, refresh, is_enabled_now}
use adbproxy_rs.Proxy.{
  World, Connection, asked, refused_with, track_loop, list_devices, follow_devices, track_devices,
  opaque, serve_connected, forward, serve_enabled, serve_service, serve_packet, proxy_connection,
}

-- No streams are joined, or the client's bytes are with what the server sends.
abbrev pub IsJoined : Bytes → Option (Bytes × Bytes) → Type 0
IsJoined client joined = (joined ≡ none) ⊎ ((up : Bytes) × (joined ≡ some (client, up)))

-- Nothing was sent to the adb server; or the service was, and behind it there are at most the bytes of the client, which are
-- joined to what the server sends.
Asks : Text → Bytes → Connection → Type 0
Asks service client c =
    (c.to_upstream ≡ none)
    ⊎ ((c.to_upstream ≡ some (write_service service)) × IsJoined client c.joined)

module _ (w : World) (service : Text) (client : Bytes) where
  Asks-if :
      (b : Bool) (x y : Connection)
      → Asks service client x
      → Asks service client y
      → Asks service client (if b then x else y)
  Asks-if true x y hx hy = hx
  Asks-if false x y hx hy = hy

  asked-Asks :
      (out : Bytes) (cache : PolicyCache) (r : _)
      → Asks service client (asked w service out cache r)
  unfolding Asks asked
  asked-Asks out cache r = inr (refl, inl refl)

  refused_with-Asks :
      (out : Bytes) (cache : PolicyCache) (r : _) → Asks service client (refused_with w out cache r)
  unfolding Asks refused_with
  refused_with-Asks out cache r = inl refl

  list_devices-Asks :
      (out : Bytes) (cache : PolicyCache) (up : Bytes)
      → Asks service client (list_devices w service out cache up)
  unfolding list_devices
  list_devices-Asks out cache up = elim (Result-cases (read_okay_payload up)) [
    | inl (x, e) ↦ rw (e, list_devices) (asked-Asks _ _ _)
    | inr (x, e) ↦ rw (e, list_devices) (asked-Asks _ _ _)
  ]

  follow_devices-Asks :
      (out : Bytes) (cache : PolicyCache) (up : Bytes)
      → Asks service client (follow_devices w service out cache up)
  unfolding follow_devices
  follow_devices-Asks out cache up =
      elim (Option-cases (track_loop w (suc (length up)) 1 cache up)) [
        | inl e ↦ rw (e, follow_devices) (asked-Asks _ _ _)
        | inr (t, e) ↦ rw (e, follow_devices) (asked-Asks _ _ _)
      ]

  track_devices-Asks :
      (out : Bytes) (cache : PolicyCache) (up : Bytes)
      → Asks service client (track_devices w service out cache up)
  unfolding track_devices
  track_devices-Asks out cache up = elim (Result-cases (read_status up)) [
    | inr (x, e) ↦ rw (e, track_devices) (asked-Asks _ _ _)
    | inl ((status, rest), e) ↦
        rw (e, track_devices)
          (Asks-if _ _ _ (follow_devices-Asks _ _ _)
            (Asks-if _ _ _ (asked-Asks _ _ _) (asked-Asks _ _ _)))
  ]

  opaque-Asks :
      (out : Bytes) (cache : PolicyCache) (up : Bytes)
      → Asks service client (opaque w service out client cache up)
  unfolding Asks opaque asked
  opaque-Asks out cache up = inr (refl, inr (up, refl))

  serve_connected-Asks :
      (out : Bytes) (cache : PolicyCache) (r : Result IoError Bytes)
      → Asks service client (serve_connected w service out client cache r)
  unfolding serve_connected
  serve_connected-Asks out cache (err e) = refused_with-Asks _ _ _
  serve_connected-Asks out cache (ok up) =
      Asks-if _ _ _ (list_devices-Asks _ _ _)
        (Asks-if _ _ _ (track_devices-Asks _ _ _) (opaque-Asks _ _ _))

  forward-Asks :
      (out : Bytes) (cache : PolicyCache) → Asks service client (forward w service out client cache)
  unfolding forward
  forward-Asks out cache = serve_connected-Asks out cache w.connect

  Asks-sent :
      (c : Connection) {sent : Bytes}
      → Asks service client c
      → c.to_upstream ≡ some sent
      → (sent ≡ write_service service) × IsJoined client c.joined
  unfolding Asks
  Asks-sent c (inl e) h = ground arith
  Asks-sent c (inr (e, j)) h = (ground arith, j)

  -- The device of the service, if it names one, is enabled now.
  abbrev IsEnabledNow : PolicyCache → Type 0
  IsEnabledNow cache =
      (serial : Text)
      → transport_serial service ≡ some serial
      → is_enabled (refresh (w.files 0) cache).1 serial ≡ true

  serve_enabled_sound :
      (out : Bytes) (cache : PolicyCache) {sent : Bytes}
      → (serve_enabled w service out client cache).to_upstream ≡ some sent
      → (sent ≡ write_service service)
        × IsJoined client (serve_enabled w service out client cache).joined
        × IsEnabledNow cache
  unfolding serve_enabled is_enabled_now refused_with
  serve_enabled_sound out cache {sent} h = elim (Option-cases (transport_serial service)) [
    | inl e ↦
        let (sent_alone, joins) =
          Asks-sent _ (forward-Asks out cache) (rw (e, serve_enabled) at h) in
        (sent_alone, rw (e, serve_enabled) joins, λ s f. ground arith)
    | inr (serial, e) ↦ elim (Bool-cases (is_enabled (refresh (w.files 0) cache).1 serial)) [
      | inl f ↦
          let (sent_alone, joins) =
            Asks-sent _ (forward-Asks out (refresh (w.files 0) cache).0)
              (rw (e, serve_enabled, f) at h) in
          (
            sent_alone,
            rw (e, serve_enabled, f) joins,
            λ s g. (let same : serial ≡ s = ground arith in rw (← same) f),
          )
      | inr f ↦ absurd (none_some (rw (e, serve_enabled, f) at h))
    ]
  ]
    where
      none_some : {sent : Bytes} → none ≡ some sent → ⊥
      none_some h = ground arith

  serve_service_sound :
      (out : Bytes) (cache : PolicyCache) {sent : Bytes}
      → (serve_service w service out client cache).to_upstream ≡ some sent
      → (sent ≡ write_service service)
        × IsJoined client (serve_service w service out client cache).joined
        × (text_eq service proxy_version_service ≡ false)
        × IsEnabledNow cache
  unfolding serve_service refused_with
  serve_service_sound out cache {sent} h =
      elim (Bool-cases (text_eq service proxy_version_service)) [
        | inl e ↦ ground arith
        | inr e ↦ let (a, j, b) = serve_enabled_sound out cache (rw e at h) in (a, rw e j, e, b)
      ]

-- A proxy sends something to the adb server only for a client whose first packet was the service `auth:` with the pair code of
-- the proxy, which is a valid one. It writes one service, which is what the next packet of the client held; the only other
-- bytes that the server can get are those that the client sends behind that packet, where the two streams are joined. The
-- service is not the question for the version, and a device that it selects by `host:transport:` or `host:tport:serial:` is
-- enabled in the table that the policy has after a reload.
pub proxy_connection_guarded :
    (w : World) (pair_code : Text) (client : Bytes) (cache : PolicyCache) {sent : Bytes}
    → (proxy_connection w pair_code client cache).to_upstream ≡ some sent
    → (frame : Bytes) × (behind : Bytes) × (payload : Bytes) × (rest : Bytes) × (read_packet client
        ≡ ok (frame, behind))
      × (from_utf8 frame ≡ some (auth_service pair_code))
      × IsPairCode pair_code
      × (read_packet behind ≡ ok (payload, rest))
      × (sent ≡ write_service (from_utf8_lossy payload))
      × IsJoined rest (proxy_connection w pair_code client cache).joined
      × (text_eq (from_utf8_lossy payload) proxy_version_service ≡ false)
      × ((serial : Text)
          → transport_serial (from_utf8_lossy payload) ≡ some serial
          → is_enabled (refresh (w.files 0) cache).1 serial ≡ true)
unfolding proxy_connection serve_packet refused_with
proxy_connection_guarded w pair_code client cache {sent} h =
    elim (Result-cases (accept_auth client pair_code).1) [
      | inr (e, p) ↦ absurd (none_some (rw (p, proxy_connection) at h))
      | inl ((false, behind), p) ↦ absurd (none_some (rw (p, proxy_connection) at h))
      | inl ((true, behind), p) ↦ elim (Result-cases (read_packet behind)) [
        | inr (e, q) ↦ absurd (none_some (rw (p, q, proxy_connection, serve_packet) at h))
        | inl ((payload, rest), q) ↦
            let (frame, read, text, valid, okay) =
              accept_auth_sound client pair_code {out = (accept_auth client pair_code).0}
                {after = behind} (ap (λ r. ((accept_auth client pair_code).0, r)) p) in
            let (a, j, b, c) =
              serve_service_sound w (from_utf8_lossy payload) rest _ cache
                (rw (p, q, proxy_connection, serve_packet) at h) in
            (
              frame,
              behind,
              payload,
              rest,
              read,
              text,
              valid,
              q,
              a,
              rw (p, q, proxy_connection, serve_packet) j,
              b,
              c,
            )
      ]
    ]
  where
    none_some : {sent : Bytes} → none ≡ some sent → ⊥
    none_some h = ground arith
