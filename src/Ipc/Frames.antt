-- ===== src/Ipc/Frames.antt =====
-- That a message that is written is read back.
use adbproxy_rs.Base.{
  ℕ, ◌+◌, ◌%◌, ◌^◌, ◌≤◌, ◌<◌, ◌≡◌, ◌∙◌, refl, subst, ap, false, some, ◌∷◌, ◌++◌, length,
  length-append, append_assoc, arith, ltb, ◌==◌, inl, inr,
}
use adbproxy_rs.Text.{Bytes}
use adbproxy_rs.Io.{Result, ok, err, IoError, read_exact, ◌>>=◌, read_exact-append, Result-cases}
use adbproxy_rs.Ipc.{
  MsgType, register_agent, device_snapshot, device_snapshot_changed, open_private_stream,
  open_result, stream_data, stream_close, ping, pong, typed, as_message, IpcMessage, Json, to_u8,
  from_u8, to_be_bytes, from_be_bytes, max_frame, encode_message, decode_data, decode_message,
  decode_body, write_message, read_message, carries, registers, snapshot, snapshot_changed, opens,
  opened, closes, pings, pongs,
}

from_be_bytes-to_be_bytes : (n : ℕ) → n < 4294967296 → from_be_bytes (to_be_bytes n) ≡ n
unfolding to_be_bytes from_be_bytes
from_be_bytes-to_be_bytes n h = omega arith

length-to_be_bytes : (n : ℕ) → length (to_be_bytes n) ≡ 4
unfolding to_be_bytes
length-to_be_bytes n = refl

four_bytes : (n : ℕ) (s : Bytes) → read_exact 4 (to_be_bytes n ++ s) ≡ ok (to_be_bytes n, s)
unfolding to_be_bytes read_exact
four_bytes n s = refl

from_u8-to_u8 : (ty : MsgType) → from_u8 (to_u8 ty) ≡ some ty
unfolding from_u8 to_u8
from_u8-to_u8 register_agent = refl
from_u8-to_u8 device_snapshot = refl
from_u8-to_u8 device_snapshot_changed = refl
from_u8-to_u8 open_private_stream = refl
from_u8-to_u8 open_result = refl
from_u8-to_u8 stream_data = refl
from_u8-to_u8 stream_close = refl
from_u8-to_u8 ping = refl
from_u8-to_u8 pong = refl

-- The JSON text of the message is read as the message, which is what the library promises; for the number of a
-- stream, that it is a `u32`.
abbrev pub IsReadable : Json → IpcMessage → Type 0
IsReadable json (registers m) =
    (bs : Bytes) → json.write_register m ≡ ok bs → json.read_register bs ≡ ok m
IsReadable json (snapshot m) =
    (bs : Bytes) → json.write_snapshot m ≡ ok bs → json.read_snapshot bs ≡ ok m
IsReadable json (snapshot_changed m) =
    (bs : Bytes) → json.write_snapshot m ≡ ok bs → json.read_snapshot bs ≡ ok m
IsReadable json (opens m) = (bs : Bytes) → json.write_open m ≡ ok bs → json.read_open bs ≡ ok m
IsReadable json (opened m) = (bs : Bytes) → json.write_result m ≡ ok bs → json.read_result bs ≡ ok m
IsReadable json (carries stream_id bytes) = stream_id < 4294967296
IsReadable json (closes m) = (bs : Bytes) → json.write_close m ≡ ok bs → json.read_close bs ≡ ok m
IsReadable json pings = Unit
IsReadable json pongs = Unit

-- What was encoded is decoded as the message.
abbrev Decodes : Json → IpcMessage → Result IoError (MsgType × Bytes) → Type 0
Decodes json msg (ok (ty, payload)) = decode_message json ty payload ≡ ok msg
Decodes json msg (err e) = Unit

Decodes-typed :
    (json : Json) (msg : IpcMessage) (ty : MsgType) (w : Result IoError Bytes)
    → ((bs : Bytes) → w ≡ ok bs → decode_message json ty bs ≡ ok msg)
    → Decodes json msg (typed ty w)
Decodes-typed json msg ty (ok bs) h = h bs refl
Decodes-typed json msg ty (err e) h = tt

decode_data_carries :
    (json : Json) (stream_id : ℕ) (bytes : Bytes)
    → stream_id < 4294967296
    → decode_data json (to_be_bytes stream_id ++ bytes) ≡ ok (carries stream_id bytes)
unfolding decode_data
decode_data_carries json stream_id bytes h =
    rw (four_bytes stream_id bytes, decode_data) (rw (from_be_bytes-to_be_bytes stream_id h) refl)

Decodes-encode_message :
    (json : Json) (msg : IpcMessage)
    → IsReadable json msg
    → Decodes json msg (encode_message json msg)
unfolding encode_message decode_message
Decodes-encode_message json (registers m) h =
    Decodes-typed json _ register_agent _ (λ bs p. ap (as_message registers) (h bs p))
Decodes-encode_message json (snapshot m) h =
    Decodes-typed json _ device_snapshot _ (λ bs p. ap (as_message snapshot) (h bs p))
Decodes-encode_message json (snapshot_changed m) h =
    Decodes-typed json _ device_snapshot_changed _
      (λ bs p. ap (as_message snapshot_changed) (h bs p))
Decodes-encode_message json (opens m) h =
    Decodes-typed json _ open_private_stream _ (λ bs p. ap (as_message opens) (h bs p))
Decodes-encode_message json (opened m) h =
    Decodes-typed json _ open_result _ (λ bs p. ap (as_message opened) (h bs p))
Decodes-encode_message json (carries stream_id bytes) h = decode_data_carries json stream_id bytes h
Decodes-encode_message json (closes m) h =
    Decodes-typed json _ stream_close _ (λ bs p. ap (as_message closes) (h bs p))
Decodes-encode_message json pings h = refl
Decodes-encode_message json pongs h = refl

-- A frame that is not too large is read, and nothing behind it.
read_message-frame :
    (json : Json) (msg : IpcMessage) (ty : MsgType) (payload rest : Bytes)
    → 1 + length payload ≤ max_frame
    → decode_message json ty payload ≡ ok msg
    → read_message json
        ((to_be_bytes ((1 + length payload) % 2 ^ 32) ++ (to_u8 ty ∷ payload)) ++ rest)
      ≡ ok (msg, rest)
unfolding read_message decode_body
read_message-frame json msg ty payload rest small e =
    let n = 1 + length payload in
    let same : n % 2 ^ 32 ≡ n = omega arith in
    let next : n ≡ length (to_u8 ty ∷ payload) = omega arith in
    let pos : (n == 0) ≡ false = ground arith in
    let fits : ltb max_frame n ≡ false = ground arith in
    let whole : read_exact n ((to_u8 ty ∷ payload) ++ rest) ≡ ok (to_u8 ty ∷ payload, rest) =
      ap (λ k. read_exact k ((to_u8 ty ∷ payload) ++ rest)) next
      ∙ read_exact-append (to_u8 ty ∷ payload) rest in
    let body : decode_body json (to_u8 ty ∷ payload) ≡ ok msg =
      rw (from_u8-to_u8 ty, decode_body) e in
    rw
      (
        same,
        append_assoc (to_be_bytes n) (to_u8 ty ∷ payload) rest,
        read_message,
        four_bytes n ((to_u8 ty ∷ payload) ++ rest),
      )
      (rw (from_be_bytes-to_be_bytes n (omega arith))
        (rw (pos, fits) (rw whole (ap (λ r. r >>= λ m. ok (m, rest)) body))))

-- A message that is written is read back whole, and nothing behind it is touched, if its frame is not larger
-- than 16 MiB, and if its JSON text, or the number of its stream, is read as what was written.
pub read_message-write_message :
    (json : Json) (msg : IpcMessage) (frame rest : Bytes)
    → IsReadable json msg
    → write_message json msg ≡ ok frame
    → length frame ≤ 4 + max_frame
    → read_message json (frame ++ rest) ≡ ok (msg, rest)
unfolding write_message
read_message-write_message json msg frame rest h w small =
    elim (Result-cases (encode_message json msg)) [
      | inr (x, e) ↦ absurd (ground arith)
      | inl ((ty, payload), e) ↦
          let head = to_be_bytes ((1 + length payload) % 2 ^ 32) in
          let whole : head ++ (to_u8 ty ∷ payload) ≡ frame = ground arith in
          subst (λ f. read_message json (f ++ rest) ≡ ok (msg, rest)) whole
            (read_message-frame json msg ty payload rest
              (omega (
                arith,
                ap length whole,
                length-append head (to_u8 ty ∷ payload),
                length-to_be_bytes ((1 + length payload) % 2 ^ 32),
              ))
              (subst (Decodes json msg) e (Decodes-encode_message json msg h)))
    ]
