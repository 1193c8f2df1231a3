-- ===== src/Proxy/Tracking.antt =====
-- A client that follows the list of devices through a proxy.
use adbproxy_rs.Base.{
  ℕ, ◌+◌, ◌<◌, ◌≡◌, refl, ap, Option, none, some, List, [], ◌∷◌, ◌++◌, length, All, arith,
  Option-cases, inl, inr,
}
use adbproxy_rs.Text.{Bytes}
use adbproxy_rs.Text.Utf8.{as_bytes, from_utf8_lossy}
use adbproxy_rs.Io.{ok, err, read_exact, Result-cases, is_benign, eof_error}
use adbproxy_rs.Protocol.{read_packet, write_packet}
use adbproxy_rs.Protocol.RoundTrip.{read_packet-write_packet}
use adbproxy_rs.Protocol.Bounds.{length-read_packet_rest}
use adbproxy_rs.Policy.{is_enabled, filter_devices_body}
use adbproxy_rs.ProxyPolicy.{PolicyCache, refresh}
use adbproxy_rs.Proxy.{World, Tracked, track_end, sent_before, track_loop}

sent_before-some :
    (bs : Bytes) {o : Option Tracked} (t : Tracked)
    → o ≡ some t
    → sent_before bs o ≡ some (record t { sent = bs ++ t.sent })
unfolding sent_before
sent_before-some bs t h = ground arith

module _ (w : World) where
  -- The packet for one list: the devices that are enabled when it comes.
  abbrev pub relay : ℕ → PolicyCache → Bytes → Bytes
  relay i cache b = write_packet (
      as_bytes (filter_devices_body (from_utf8_lossy b) (is_enabled (refresh (w.files i) cache).1)))

  -- The loop that follows the devices ends on every stream: fuel for more steps than the stream has bytes is
  -- enough, whatever the stream, the files of the policy and the client do.
  pub track_loop_ends :
      (n i : ℕ) (cache : PolicyCache) (upstream : Bytes)
      → length upstream < n
      → (t : Tracked) × (track_loop w n i cache upstream ≡ some t)
  unfolding track_loop
  track_loop_ends ℕ.zero i cache upstream h = absurd (omega arith)
  track_loop_ends (ℕ.suc n) i cache upstream h = elim (Result-cases (read_packet upstream)) [
    | inr (e, p) ↦ (track_end e cache, rw (p, track_loop) refl)
    | inl ((body, rest), p) ↦ elim (Option-cases (w.refused i)) [
      | inr (e, q) ↦ (track_end e (refresh (w.files i) cache).0, rw (p, q, track_loop) refl)
      | inl q ↦
          let shorter = length-read_packet_rest upstream {payload = body} {rest = rest} p in
          let (t, r) =
            track_loop_ends n (i + 1) (refresh (w.files i) cache).0 rest (omega (arith, shorter)) in
          let out = relay i cache body in
          (record t { sent = out ++ t.sent }, rw (p, q, track_loop) (sent_before-some out t r))
    ]
  ]

read_packet_end : read_packet [] ≡ err eof_error
unfolding read_packet read_exact
read_packet_end = refl

-- What an adb server sends that lists its devices once for each of the bodies.
abbrev pub packets : List Bytes → Bytes
packets [] = []
packets (b ∷ bs) = write_packet b ++ packets bs

module _ (w : World) where
  -- The packets for the lists that come from the `i`-th refresh on.
  abbrev pub relayed : ℕ → PolicyCache → List Bytes → Bytes
  relayed i cache [] = []
  relayed i cache (b ∷ bs) = relay w i cache b ++ relayed (i + 1) (refresh (w.files i) cache).0 bs

  pub track_loop-packets :
      (n i : ℕ) (cache : PolicyCache) (bodies : List Bytes)
      → ((j : ℕ) → w.refused j ≡ none)
      → All (λ b. length b < 65536) bodies
      → length bodies < n
      → (t : Tracked) × (track_loop w n i cache (packets bodies) ≡ some t)
        × (t.sent ≡ relayed i cache bodies)
        × (t.result ≡ ok tt)
  unfolding track_loop
  track_loop-packets ℕ.zero i cache bodies takes short enough = absurd (omega arith)
  track_loop-packets (ℕ.suc n) i cache [] takes short enough = (
    track_end eof_error cache,
    rw (read_packet_end, track_loop) refl,
    unfold track_end in refl,
    unfold track_end is_benign in refl,
  )
  track_loop-packets (ℕ.suc n) i cache (b ∷ bs) takes (h, hs) enough =
      let (t, r, sent, fine) =
        track_loop-packets n (i + 1) (refresh (w.files i) cache).0 bs takes hs
          (omega (arith, enough)) in
      (
        record t { sent = relay w i cache b ++ t.sent },
        rw (read_packet-write_packet b (packets bs) h, takes i, track_loop)
            (sent_before-some (relay w i cache b) t r),
        ap (λ x. relay w i cache b ++ x) sent,
        fine,
      )
