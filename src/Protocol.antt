-- ===== src/Protocol.antt =====
-- src/protocol.rs: the smart-socket frames of adb. A writer is the list of bytes that it sends, a
-- reader takes what the stream holds and returns the rest. The proofs are in the children.
pub mod RoundTrip
pub mod Bounds
pub mod Oversize
use adbproxy_rs.Base.{
  ℕ, ◌-◌, ◌^◌, Bool, true, Option, none, some, List, [], ◌∷◌, ◌++◌, length, ltb, ◌==◌,
  if◌then◌else◌, leb, ◌&&◌,
}
use adbproxy_rs.Text.{Text, Bytes, codes, text_eq}
use adbproxy_rs.Text.Utf8.{as_bytes, from_utf8, from_utf8_lossy}
use adbproxy_rs.Text.Number.{to_hex4, to_hex, from_str_radix}
use adbproxy_rs.Io.{
  Result, ok, err, ◌>>=◌, map_err, IoError, io_error, invalid_data, other, read_exact,
}

-- The greatest `usize` of a 64-bit target.
abbrev pub usize_max : ℕ
usize_max = 2 ^ 64 - 1

unfoldable pub parse_hex4 : Bytes → Result Text ℕ
parse_hex4 buf = elim (from_utf8 buf) [
  | none ↦ err (codes "hex4 is not utf8")
  | some s ↦ elim (from_str_radix 16 usize_max s) [
    | none ↦ err (codes "invalid hex4 length: " ++ s)
    | some n ↦ ok n
  ]
]

unfoldable pub encode_hex4 : ℕ → Text
encode_hex4 len = to_hex4 len

-- The payload is read only where the length is positive.
unfoldable pub read_payload : ℕ → Bytes → Result IoError (Bytes × Bytes)
read_payload len reader = if ltb 0 len then read_exact len reader else ok ([], reader)

unfoldable pub read_packet : Bytes → Result IoError (Bytes × Bytes)
read_packet reader = do
  (len_buf, rest) ← read_exact 4 reader
  len ← map_err (io_error invalid_data) (parse_hex4 len_buf)
  read_payload len rest

unfoldable pub write_packet : Bytes → Bytes
write_packet payload = as_bytes (to_hex4 (length payload)) ++ payload

unfoldable pub write_service : Text → Bytes
write_service service = write_packet (as_bytes service)

unfoldable pub read_status : Bytes → Result IoError (Bytes × Bytes)
read_status reader = read_exact 4 reader

unfoldable pub write_okay : Bytes
write_okay = codes "OKAY"

unfoldable pub write_fail : Text → Bytes
write_fail reason = codes "FAIL" ++ write_packet (as_bytes reason)

unfoldable pub write_okay_payload : Bytes → Bytes
write_okay_payload payload = write_okay ++ write_packet payload

-- `char::escape_debug` as `{:?}` of a string uses it; a character beyond ASCII is taken as printable.
escape_debug : ℕ → Text
escape_debug c =
    if c == 0
    then codes "\\0"
    else if c == 9
    then codes "\\t"
    else if c == 10
    then codes "\\n"
    else if c == 13
    then codes "\\r"
    else if c == b'"'
    then codes "\\\""
    else if c == b'\\'
    then codes "\\\\"
    else if ltb c 32
    then codes "\\u{" ++ to_hex c ++ codes "}"
    else if c == 127
    then codes "\\u{7f}"
    else c ∷ []

escape_all : Text → Text
escape_all [] = []
escape_all (c ∷ s) = escape_debug c ++ escape_all s

text_or : Text → Option Text → Text
text_or d none = d
text_or d (some s) = s

-- `{:?}` of `std::str::from_utf8(bytes).unwrap_or("?")`.
unfoldable pub debug_status : Bytes → Text
unfolding escape_all escape_debug text_or
debug_status bs = codes "\"" ++ (escape_all (text_or (codes "?") (from_utf8 bs)) ++ codes "\"")

-- The error that the reason of a refusal becomes, once it is read.
unfoldable pub fail_reason : Bytes → Result IoError (Bytes × Bytes)
fail_reason reader = do
  (reason, rest) ← read_packet reader
  err (io_error other (from_utf8_lossy reason))

unfoldable pub read_okay_payload : Bytes → Result IoError (Bytes × Bytes)
read_okay_payload reader = do
  (status, rest) ← read_status reader
  if text_eq status (codes "OKAY")
      then read_packet rest
      else if text_eq status (codes "FAIL")
      then fail_reason rest
      else err (io_error invalid_data (codes "unexpected status: " ++ debug_status status))
