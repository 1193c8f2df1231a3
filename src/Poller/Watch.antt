-- ===== src/Poller/Watch.antt =====
-- The loop over the lists that a backend sends.
use adbproxy_rs.Base.{ℕ, ◌<◌, ◌≡◌, refl, some, List, [], ◌∷◌, length, arith, inl, inr}
use adbproxy_rs.Text.{Text, Bytes}
use adbproxy_rs.Text.Utf8.{from_utf8_lossy}
use adbproxy_rs.Io.{IoError, Result-cases}
use adbproxy_rs.Protocol.{read_packet}
use adbproxy_rs.Protocol.Bounds.{length-read_packet_rest}
use adbproxy_rs.Poller.{watch_loop}

-- The loop over the lists that a backend sends ends on every stream: fuel for more steps than the stream has bytes
-- is enough.
pub watch_loop_ends :
    (n : ℕ) (stream : Bytes)
    → length stream < n
    → (texts : List Text) × (e : IoError) × (watch_loop n stream ≡ some (texts, e))
unfolding watch_loop
watch_loop_ends ℕ.zero stream h = absurd (omega arith)
watch_loop_ends (ℕ.suc n) stream h = elim (Result-cases (read_packet stream)) [
  | inr (e, p) ↦ ([], e, rw (p, watch_loop) refl)
  | inl ((body, rest), p) ↦
      let shorter = length-read_packet_rest stream {payload = body} {rest = rest} p in
      let (texts, e, r) = watch_loop_ends n rest (omega (arith, shorter)) in
      (from_utf8_lossy body ∷ texts, e, rw (p, r, watch_loop) refl)
]
