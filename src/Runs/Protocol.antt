-- ===== src/Runs/Protocol.antt =====
-- src/protocol.rs at concrete inputs.
use adbproxy_rs.Base.{◌%◌, length-append, ◌∙◌, ℕ, ◌≡◌, refl, [], ◌∷◌, ◌++◌, length, arith}
use adbproxy_rs.Text.{Bytes, codes}
use adbproxy_rs.Text.Utf8.{as_bytes, from_utf8}
use adbproxy_rs.Text.Number.{to_hex4, from_str_radix}
use adbproxy_rs.Io.{ok, read_exact}
use adbproxy_rs.Protocol.{read_packet, write_packet, read_payload, parse_hex4}
use adbproxy_rs.Protocol.RoundTrip.{read_packet-write_packet}
use adbproxy_rs.Protocol.Oversize.{oversize_packet_misread}
use adbproxy_rs.Text.Number.{digit_char}

abbrev devices_service : Bytes
devices_service = b'h' ∷ b'o' ∷ b's' ∷ b't' ∷ b':' ∷ b'd' ∷ []

frame : write_packet devices_service ≡ codes "0006host:d"
unfolding write_packet codes as_bytes to_hex4
frame = refl

-- A header with a sign is accepted.
signed_header : read_packet (codes "+001xy") ≡ ok (codes "x", codes "y")
unfolding read_packet read_payload parse_hex4 read_exact codes from_utf8 from_str_radix
signed_header = refl

read_packet-write_packet_example :
    read_packet (write_packet devices_service ++ (1 ∷ [])) ≡ ok (devices_service, 1 ∷ [])
read_packet-write_packet_example = read_packet-write_packet devices_service (1 ∷ []) (omega arith)

-- As many zeros as are asked for.
unfoldable zeros : ℕ → Bytes
zeros ℕ.zero = []
zeros (ℕ.suc n) = 0 ∷ zeros n

length-zeros : (n : ℕ) → length (zeros n) ≡ n
unfolding zeros
length-zeros ℕ.zero = refl
length-zeros (ℕ.suc n) = omega (arith, length-zeros n)

oversize_packet_misread_example :
    read_packet (write_packet (zeros 4095 ++ zeros 61441) ++ (7 ∷ []))
    ≡ ok
        (digit_char (length (zeros 4095 ++ zeros 61441) % 16) ∷ zeros 4095, zeros 61441 ++ (7 ∷ []))
oversize_packet_misread_example =
    let whole : length (zeros 4095 ++ zeros 61441) ≡ 65536 =
      length-append (zeros 4095) (zeros 61441)
      ∙ omega (arith, length-zeros 4095, length-zeros 61441) in
    oversize_packet_misread (zeros 4095) (zeros 61441) (7 ∷ []) (omega (arith, whole))
      (omega (arith, whole)) (omega (arith, whole, length-zeros 4095))
