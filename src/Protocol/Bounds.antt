-- ===== src/Protocol/Bounds.antt =====
-- How long a packet can be that is read.
use adbproxy_rs.Base.{
  ℕ, ◌+◌, ◌≤◌, ◌<◌, ◌≡◌, ◌≢◌, ap, length-append, pos_length, [], ◌++◌, length, arith, Option-cases,
  inl, inr,
}
use adbproxy_rs.Text.{Bytes}
use adbproxy_rs.Text.Utf8.{as_bytes, from_utf8, length-from_utf8}
use adbproxy_rs.Text.Number.{to_hex4, from_str_radix}
use adbproxy_rs.Text.Number.Laws.{from_str_radix-lt-top, top_mono}
use adbproxy_rs.Io.{
  ok, err, read_exact, length-read_exact, length-read_exact_rest, Result-cases, eof_error,
  read_exact_short,
}
use adbproxy_rs.Protocol.RoundTrip.{read_header, parse_hex4-to_hex4}
use adbproxy_rs.Protocol.{usize_max, parse_hex4, read_payload, read_packet, write_packet}

-- The header of four bytes announces fewer than 65536 bytes, whatever it holds.
parse_hex4_bound : (buf : Bytes) {n : ℕ} → length buf ≤ 4 → parse_hex4 buf ≡ ok n → n < 65536
unfolding parse_hex4
parse_hex4_bound buf {n} h e = elim (Option-cases (from_utf8 buf)) [
  | inl p ↦ ground arith
  | inr (s, p) ↦ elim (Option-cases (from_str_radix 16 usize_max s)) [
    | inl q ↦ ground arith
    | inr (m, q) ↦
        let same : m ≡ n = ground arith in
        omega (
          arith,
          same,
          from_str_radix-lt-top usize_max s q,
          top_mono (length s) 4 (omega (arith, length-from_utf8 buf s p)),
        )
  ]
]

length-read_payload :
    (n : ℕ) (s : Bytes) {p rest : Bytes} → read_payload n s ≡ ok (p, rest) → length p ≡ n
unfolding read_payload
length-read_payload n s {p} {rest} h = ground (arith, length-read_exact n s {buf = p} {rest = rest})

-- A packet that is read has fewer than 65536 bytes, whatever the stream holds.
pub length-read_packet :
    (reader : Bytes) {payload rest : Bytes}
    → read_packet reader ≡ ok (payload, rest)
    → length payload < 65536
unfolding read_packet
length-read_packet reader {payload} {rest} h = elim (Result-cases (read_exact 4 reader)) [
  | inr (e, p) ↦ ground arith
  | inl ((buf, r), p) ↦ elim (Result-cases (parse_hex4 buf)) [
    | inr (e, q) ↦ ground arith
    | inl (n, q) ↦ ground (
      arith,
      parse_hex4_bound buf {n = n} (omega (arith, length-read_exact 4 reader p)) q,
      length-read_payload n r {p = payload} {rest = rest},
    )
  ]
]

length-read_payload_rest :
    (n : ℕ) (s : Bytes) {p rest : Bytes}
    → read_payload n s ≡ ok (p, rest)
    → length s ≡ n + length rest
unfolding read_payload
length-read_payload_rest n s {p} {rest} h =
    ground (arith, length-read_exact_rest n s {buf = p} {rest = rest})

-- A packet takes its header and its payload from the stream.
pub length-read_packet_rest :
    (reader : Bytes) {payload rest : Bytes}
    → read_packet reader ≡ ok (payload, rest)
    → length reader ≡ 4 + length payload + length rest
unfolding read_packet
length-read_packet_rest reader {payload} {rest} h = elim (Result-cases (read_exact 4 reader)) [
  | inr (e, p) ↦ ground arith
  | inl ((buf, r), p) ↦ elim (Result-cases (parse_hex4 buf)) [
    | inr (e, q) ↦ ground arith
    | inl (n, q) ↦ ground (
      arith,
      length-read_exact_rest 4 reader {buf = buf} {rest = r},
      length-read_payload n r {p = payload} {rest = rest},
      length-read_payload_rest n r {p = payload} {rest = rest},
    )
  ]
]

-- A payload of 65536 bytes or more is not read back, whatever stands behind its frame: the header that
-- is written for it has more digits than the four that are read.
pub oversize_packet_lost :
    (payload rest : Bytes)
    → 65536 ≤ length payload
    → read_packet (write_packet payload ++ rest) ≢ ok (payload, rest)
oversize_packet_lost payload rest h e =
    omega (arith, length-read_packet (write_packet payload ++ rest) e)

-- A header that has come in whole is not enough: where fewer bytes follow than it announces, reading
-- fails with the end of the stream.
pub read_packet_short :
    (payload cut rest : Bytes)
    → length payload < 65536
    → payload ≡ cut ++ rest
    → rest ≢ []
    → read_packet (as_bytes (to_hex4 (length payload)) ++ cut) ≡ err eof_error
unfolding read_packet read_payload
read_packet_short payload cut rest h e ne =
    let n = length payload in
    let fewer : length cut < n =
      omega (arith, ap length e, length-append cut rest, pos_length rest ne) in
    rw (read_header n cut h, parse_hex4-to_hex4 n h, read_exact_short n cut fewer) (ground arith)
