-- ===== src/Protocol/Oversize.antt =====
-- A packet that is too long for its header.
use adbproxy_rs.Base.{
  ◌+◌, ◌/◌, ◌%◌, ◌≤◌, ◌<◌, ◌≡◌, ◌∙◌, sym, ap, [], ◌∷◌, ◌++◌, length, append_assoc, arith,
}
use adbproxy_rs.Text.{Bytes}
use adbproxy_rs.Text.Utf8.{as_bytes}
use adbproxy_rs.Text.Number.{digit_char, to_hex4}
use adbproxy_rs.Text.Number.Long.{to_hex4_last}
use adbproxy_rs.Io.{ok}
use adbproxy_rs.Protocol.{read_packet, write_packet}
use adbproxy_rs.Protocol.RoundTrip.{header_bytes, read_packet-write_packet}

-- The frame is that of a shorter packet, which starts with the digit of the header that is too many.
oversize_frame :
    (front back rest : Bytes)
    → let payload = front ++ back in
      65536 ≤ length payload
      → length front + 1 ≡ length payload / 16
      → write_packet payload ++ rest
        ≡ write_packet (digit_char (length payload % 16) ∷ front) ++ (back ++ rest)
unfolding write_packet
oversize_frame front back rest long cut =
    let n = length (front ++ back) in
    let header : as_bytes (to_hex4 n) ≡ as_bytes (to_hex4 (n / 16)) ++ (digit_char (n % 16) ∷ []) =
      header_bytes n
      ∙ (to_hex4_last n long
          ∙ ap (λ s. s ++ (digit_char (n % 16) ∷ [])) (sym (header_bytes (n / 16)))) in
    let short : length (digit_char (n % 16) ∷ front) ≡ n / 16 = omega (arith, cut) in
    let same : as_bytes (to_hex4 (length (digit_char (n % 16) ∷ front)))
        ≡ as_bytes (to_hex4 (n / 16)) =
      ap (λ k. as_bytes (to_hex4 k)) short in
    rw (header, same) (simp append_assoc)

-- A payload of 65536 bytes to 1048575 is not read back: its header has five digits, of which the reader takes four for the
-- length. What it reads as one packet is the fifth digit and the bytes of the payload up to a sixteenth of its length, and
-- the other bytes of the payload are left in the stream, where the next packet is looked for.
pub oversize_packet_misread :
    (front back rest : Bytes)
    → 65536 ≤ length (front ++ back)
    → length (front ++ back) < 1048576
    → length front + 1 ≡ length (front ++ back) / 16
    → read_packet (write_packet (front ++ back) ++ rest)
      ≡ ok (digit_char (length (front ++ back) % 16) ∷ front, back ++ rest)
oversize_packet_misread front back rest long most cut =
    ap read_packet (oversize_frame front back rest long cut)
    ∙ read_packet-write_packet (digit_char (length (front ++ back) % 16) ∷ front) (back ++ rest)
        (omega (arith, cut, most))
