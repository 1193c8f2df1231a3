-- ===== src/Runs/Auth.antt =====
-- src/auth.rs at concrete inputs.
use adbproxy_rs.Base.{ℕ, ◌≡◌, refl, some, List, [], ◌∷◌, ◌++◌, arith, if◌then◌else◌}
use adbproxy_rs.Text.{Text, Bytes, codes, text_eq, strip_prefix, is_ascii_digit, is_ascii_uppercase}
use adbproxy_rs.Text.Utf8.{as_bytes, byte_len, from_utf8}
use adbproxy_rs.Text.Number.{from_str_radix}
use adbproxy_rs.Io.{ok, err, io_error, permission_denied, read_exact}
use adbproxy_rs.Protocol.{read_packet, read_payload, parse_hex4, write_okay}
use adbproxy_rs.Auth.{
  accept_auth, accept_service, parse_auth_service, validate_pair_code, is_code_byte, codes_match,
  auth_service, auth_prefix, authenticate_stream, authenticate_answer,
}
use adbproxy_rs.Auth.Codes.{IsPairCode}
use adbproxy_rs.Auth.Handshake.{accept_auth_sound, handshake}

abbrev pair_code : Text
pair_code = codes "ABCD1234"

pair_code-IsPairCode : IsPairCode pair_code
unfolding codes
pair_code-IsPairCode = omega arith

abbrev auth_frame : Bytes
auth_frame = codes "000dauth:ABCD1234"

accept_auth_sound_example :
    (payload : Bytes) × (read_packet auth_frame ≡ ok (payload, []))
    × (from_utf8 payload ≡ some (auth_service pair_code))
    × IsPairCode pair_code
    × (write_okay ≡ write_okay)
unfolding accept_auth accept_service parse_auth_service validate_pair_code is_code_byte codes_match
    read_packet read_payload parse_hex4 read_exact codes from_utf8 from_str_radix strip_prefix
    auth_prefix byte_len as_bytes is_ascii_digit is_ascii_uppercase text_eq
accept_auth_sound_example =
    accept_auth_sound auth_frame pair_code {out = write_okay} {after = []} refl

handshake_example :
    let (out, result) =
      accept_auth ((authenticate_stream pair_code []).0 ++ (b'x' ∷ [])) (codes "WXYZ0000") in
    (result ≡ ok (text_eq (codes "WXYZ0000") pair_code, b'x' ∷ []))
    × (authenticate_answer out ≡ (
        if text_eq (codes "WXYZ0000") pair_code
        then ok []
        else err (io_error permission_denied (codes "unauthorized"))))
handshake_example = handshake pair_code (codes "WXYZ0000") (b'x' ∷ []) pair_code-IsPairCode

abbrev indices : List ℕ
indices = 0 ∷ 35 ∷ 7 ∷ 7 ∷ 20 ∷ 1 ∷ 2 ∷ 30 ∷ []
