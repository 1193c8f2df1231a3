-- ===== src/Auth.antt =====
-- src/auth.rs: pair codes, and the frame that opens a connection between hub and proxy. A function that
-- talks to a stream takes the bytes that come in and returns the bytes that go out.
pub mod Codes
pub mod Handshake
use adbproxy_rs.Base.{
  ℕ, Bool, true, false, ◌&&◌, ◌||◌, Option, none, some, List, [], ◌∷◌, ◌++◌, all, ◌==◌,
  if◌then◌else◌,
}
use adbproxy_rs.Text.{Text, Bytes, codes, text_eq, strip_prefix, is_ascii_digit, is_ascii_uppercase}
use adbproxy_rs.Text.Utf8.{as_bytes, byte_len, from_utf8, from_utf8_lossy}
use adbproxy_rs.Text.Number.{to_decimal}
use adbproxy_rs.Io.{
  Result, ok, err, ◌>>=◌, IoError, io_error, ErrorKind, unexpected_eof, invalid_data,
  permission_denied,
}
use adbproxy_rs.Protocol.{
  read_packet, read_status, write_okay, write_fail, write_service, debug_status,
}

abbrev pub pair_code_len : ℕ
pair_code_len = 8

unfoldable pub auth_prefix : Text
auth_prefix = codes "auth:"

pair_alphabet : Bytes
pair_alphabet = codes "ABCDEFGHIJKLMNOPQRSTUVWXYZ0123456789"

-- `bytes[i]`; an index past the end does not occur, and is a zero here.
nth : Bytes → ℕ → ℕ
nth [] i = 0
nth (b ∷ bs) ℕ.zero = b
nth (b ∷ bs) (ℕ.suc i) = nth bs i

-- The code that the random indices give.
unfoldable pub generate_pair_code : List ℕ → Text
unfolding pair_alphabet nth codes
generate_pair_code [] = []
generate_pair_code (i ∷ is) = nth pair_alphabet i ∷ generate_pair_code is

-- `b.is_ascii_uppercase() || b.is_ascii_digit()`.
unfoldable pub is_code_byte : ℕ → Bool
is_code_byte b = is_ascii_uppercase b || is_ascii_digit b

unfoldable pub validate_pair_code : Text → Result Text (Unit {0})
validate_pair_code code =
    if byte_len code == pair_code_len
    then (if all is_code_byte (as_bytes code)
        then ok tt
        else err (codes "pair code must be alphanumeric A-Z0-9"))
    else err (codes "pair code must be 8 characters, got " ++ to_decimal (byte_len code))

unfoldable pub auth_service : Text → Text
auth_service code = auth_prefix ++ code

unfoldable pub parse_auth_service : Text → Result Text Text
parse_auth_service service = elim (strip_prefix auth_prefix service) [
  | none ↦ err (codes "expected auth:<pair-code> as first packet")
  | some code ↦ do valid ← validate_pair_code code; ok code
]

unfoldable pub codes_match : Text → Text → Bool
codes_match expected provided = text_eq expected provided

-- The reason of a refusal, as the error that it becomes.
unfoldable pub denied : Bytes → Result IoError Bytes
denied stream = do
  (reason, rest) ← read_packet stream
  err (io_error permission_denied (from_utf8_lossy reason))

-- What the hub makes of the answer; it has written `write_service (auth_service code)` before.
-- The result is what is left to read.
unfoldable pub authenticate_answer : Bytes → Result IoError Bytes
authenticate_answer stream = do
  (status, rest) ← read_status stream
  if text_eq status (codes "OKAY")
      then ok rest
      else if text_eq status (codes "FAIL")
      then denied rest
      else err (io_error invalid_data (codes "unexpected auth status: " ++ debug_status status))

-- What `authenticate_stream` writes, and what it returns.
unfoldable pub authenticate_stream : Text → Bytes → Bytes × Result IoError Bytes
authenticate_stream code stream = (write_service (auth_service code), authenticate_answer stream)

abbrev is_eof : IoError → Bool
is_eof e = elim e.kind [ unexpected_eof ↦ true | _ ↦ false ]

-- The answer to a service that was read.
unfoldable pub accept_service : Text → Text → Bytes → Bytes × Result IoError (Bool × Bytes)
accept_service expected service rest = elim (parse_auth_service service) [
  | ok code ↦
      if codes_match expected code
      then (write_okay, ok (true, rest))
      else (write_fail (codes "unauthorized"), ok (false, rest))
  | err reason ↦ (write_fail reason, ok (false, rest))
]

-- What the proxy writes, whether it accepts, and what is left to read.
unfoldable pub accept_auth : Bytes → Text → Bytes × Result IoError (Bool × Bytes)
accept_auth stream expected = elim (read_packet stream) [
  | err e ↦ if is_eof e then (write_fail (codes "missing auth"), ok (false, [])) else ([], err e)
  | ok (payload, rest) ↦ elim (from_utf8 payload) [
    | none ↦ (write_fail (codes "invalid auth utf8"), ok (false, rest))
    | some service ↦ accept_service expected service rest
  ]
]
