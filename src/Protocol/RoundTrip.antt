-- ===== src/Protocol/RoundTrip.antt =====
-- What one side of the smart socket writes, the other side reads.
use adbproxy_rs.Base.{
  ℕ, ◌<◌, ◌≡◌, ◌∙◌, refl, sym, ap, append-nil, false, [], ◌∷◌, ◌++◌, length, All, arith,
  append_assoc, inl,
}
use adbproxy_rs.Text.{Text, Bytes, codes, text_eq}
use adbproxy_rs.Text.Utf8.{
  as_bytes, from_utf8-as_bytes, from_utf8_lossy-as_bytes, as_bytes_ascii, IsScalar,
}
use adbproxy_rs.Text.Number.{to_hex4}
use adbproxy_rs.Text.Number.Laws.{
  IsHexDigit, to_hex4-IsHexDigit, length-to_hex4, from_str_radix-to_hex4,
}
use adbproxy_rs.Text.Equality.{text_eq_refl}
use adbproxy_rs.Io.{ok, err, io_error, other, read_exact, read_exact-append}
use adbproxy_rs.Protocol.{
  usize_max, parse_hex4, read_payload, read_packet, write_packet, read_status, write_okay,
  write_fail, write_okay_payload, read_okay_payload, fail_reason,
}

hex_digits_ascii : (s : Text) → All IsHexDigit s → All (λ c. c < 0x80) s
hex_digits_ascii [] h = tt
hex_digits_ascii (c ∷ s) (h, hs) = (omega arith, hex_digits_ascii s hs)

pub ascii-IsScalar : (s : Text) → All (λ c. c < 0x80) s → All IsScalar s
ascii-IsScalar [] h = tt
ascii-IsScalar (c ∷ s) (h, hs) = (inl (omega arith), ascii-IsScalar s hs)

to_hex4_ascii : (n : ℕ) → All (λ c. c < 0x80) (to_hex4 n)
to_hex4_ascii n = hex_digits_ascii (to_hex4 n) (to_hex4-IsHexDigit n)

-- The header is its own text.
pub header_bytes : (n : ℕ) → as_bytes (to_hex4 n) ≡ to_hex4 n
header_bytes n = as_bytes_ascii (to_hex4 n) (to_hex4_ascii n)

pub parse_hex4-to_hex4 : (n : ℕ) → n < 65536 → parse_hex4 (as_bytes (to_hex4 n)) ≡ ok n
unfolding parse_hex4
parse_hex4-to_hex4 n h = rw (
  from_utf8-as_bytes (to_hex4 n) (ascii-IsScalar (to_hex4 n) (to_hex4_ascii n)),
  from_str_radix-to_hex4 usize_max n (omega arith) h,
  parse_hex4,
)

pub length_header : (n : ℕ) → n < 65536 → length (as_bytes (to_hex4 n)) ≡ 4
length_header n h = rw (header_bytes n) (length-to_hex4 n h)

pub read_header :
    (n : ℕ) (rest : Bytes)
    → n < 65536
    → read_exact 4 (as_bytes (to_hex4 n) ++ rest) ≡ ok (as_bytes (to_hex4 n), rest)
read_header n rest h = rw (← length_header n h) (read_exact-append (as_bytes (to_hex4 n)) rest)

read_payload-append :
    (payload rest : Bytes) → read_payload (length payload) (payload ++ rest) ≡ ok (payload, rest)
unfolding read_payload
read_payload-append [] rest = refl
read_payload-append (x ∷ p) rest = ground (arith, read_exact-append (x ∷ p) rest)

-- A packet of fewer than 65536 bytes is read back whole, and nothing behind it is touched.
pub read_packet-write_packet :
    (payload rest : Bytes)
    → length payload < 65536
    → read_packet (write_packet payload ++ rest) ≡ ok (payload, rest)
unfolding read_packet write_packet
read_packet-write_packet payload rest h =
    let n = length payload in
    simp append_assoc (
      rw (
        read_header n (payload ++ rest) h,
        parse_hex4-to_hex4 n h,
        read_payload-append payload rest,
      ))

pub read_okay : (s : Bytes) → read_status (codes "OKAY" ++ s) ≡ ok (codes "OKAY", s)
unfolding read_status read_exact codes
read_okay s = refl

pub read_okay_end : read_status (codes "OKAY") ≡ ok (codes "OKAY", [])
unfolding read_status read_exact codes
read_okay_end = refl

pub read_fail : (s : Bytes) → read_status (codes "FAIL" ++ s) ≡ ok (codes "FAIL", s)
unfolding read_status read_exact codes
read_fail s = refl

pub fail-ne-okay : text_eq (codes "FAIL") (codes "OKAY") ≡ false
unfolding text_eq codes
fail-ne-okay = refl

-- A payload behind OKAY is read back.
pub okay_payload :
    (payload rest : Bytes)
    → length payload < 65536
    → read_okay_payload (write_okay_payload payload ++ rest) ≡ ok (payload, rest)
unfolding read_okay_payload write_okay_payload write_okay
okay_payload payload rest h = simp append_assoc (
    rw (
      read_okay (write_packet payload ++ rest),
      text_eq_refl (codes "OKAY"),
      read_packet-write_packet payload rest h,
    ))

pub okay_payload_end :
    (payload : Bytes)
    → length payload < 65536
    → read_okay_payload (write_okay_payload payload) ≡ ok (payload, [])
okay_payload_end payload h =
    ap read_okay_payload (sym (append-nil (write_okay_payload payload))) ∙ okay_payload payload [] h

-- The reason of a refusal is read back as the message of an error.
fail_payload :
    (reason : Text) (rest : Bytes)
    → length (as_bytes reason) < 65536
    → All IsScalar reason
    → read_okay_payload (write_fail reason ++ rest) ≡ err (io_error other reason)
unfolding read_okay_payload write_fail fail_reason
fail_payload reason rest h s = simp append_assoc (
    rw (
      read_fail (write_packet (as_bytes reason) ++ rest),
      fail-ne-okay,
      text_eq_refl (codes "FAIL"),
      read_packet-write_packet (as_bytes reason) rest h,
      from_utf8_lossy-as_bytes reason s,
    ))

-- A payload of fewer than 65536 bytes that is written behind OKAY is read back, and so is the reason
-- that is written behind FAIL, as the message of an error, if the reason is that short in bytes.
read_okay_payload_replies :
    (payload rest : Bytes) (reason : Text)
    → length payload < 65536
    → length (as_bytes reason) < 65536
    → All IsScalar reason
    → (read_okay_payload (write_okay_payload payload ++ rest) ≡ ok (payload, rest))
      × (read_okay_payload (write_fail reason ++ rest) ≡ err (io_error other reason))
read_okay_payload_replies payload rest reason h k s =
    (okay_payload payload rest h, fail_payload reason rest k s)
