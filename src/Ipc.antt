-- ===== src/Ipc.antt =====
-- src/ipc.rs: the messages between agent and daemon, and their frames. JSON is read and written by a library:
-- its answers for each kind of message are a parameter.
pub mod Frames
use adbproxy_rs.Base.{
  ℕ, ◌+◌, ◌*◌, ◌/◌, ◌%◌, ◌^◌, Bool, true, false, Option, none, some, List, [], ◌∷◌, ◌++◌, length,
  map, ltb, ◌==◌, if◌then◌else◌,
}
use adbproxy_rs.Text.{Text, Bytes, codes}
use adbproxy_rs.Text.Number.{to_decimal}
use adbproxy_rs.Io.{Result, ok, err, ◌>>=◌, IoError, io_error, invalid_data, read_exact}
use adbproxy_rs.Addr.{v4}
use adbproxy_rs.Types.{DeviceEntry, DeviceSnapshot}

abbrev pub protocol_version : ℕ
protocol_version = 1

pub data MsgType : Type 0 where
  register_agent device_snapshot device_snapshot_changed open_private_stream open_result : MsgType
  stream_data stream_close ping pong : MsgType

-- The byte of the type, `ty as u8`.
unfoldable pub to_u8 : MsgType → ℕ
to_u8 register_agent = 1
to_u8 device_snapshot = 2
to_u8 device_snapshot_changed = 3
to_u8 open_private_stream = 4
to_u8 open_result = 5
to_u8 stream_data = 6
to_u8 stream_close = 7
to_u8 ping = 8
to_u8 pong = 9

unfoldable pub from_u8 : ℕ → Option MsgType
from_u8 v =
    if v == 1
    then some register_agent
    else if v == 2
    then some device_snapshot
    else if v == 3
    then some device_snapshot_changed
    else if v == 4
    then some open_private_stream
    else if v == 5
    then some open_result
    else if v == 6
    then some stream_data
    else if v == 7
    then some stream_close
    else if v == 8
    then some ping
    else if v == 9
    then some pong
    else none

pub record SanitizedDevice : Type 0 where
  pub public_serial : Text
  pub upstream_serial : Text
  pub state : Text
  pub extras : Text
  pub backend_name : Text
  pub route_id : Text

pub record RegisterAgent : Type 0 where
  pub version : ℕ
  pub capabilities : List Text
  pub instance_token : Text

pub record DeviceSnapshotMsg : Type 0 where
  pub generation : ℕ
  pub devices : List SanitizedDevice

pub record OpenPrivateStream : Type 0 where
  pub stream_id : ℕ
  pub route_id : Text
  pub service : Text

pub record OpenResult : Type 0 where
  pub stream_id : ℕ
  pub success : Bool
  pub fail_reason : Option Text

pub record StreamClose : Type 0 where
  pub stream_id : ℕ
  pub reason : Text

pub data IpcMessage : Type 0 where
  registers : RegisterAgent → IpcMessage
  snapshot : DeviceSnapshotMsg → IpcMessage
  snapshot_changed : DeviceSnapshotMsg → IpcMessage
  opens : OpenPrivateStream → IpcMessage
  opened : OpenResult → IpcMessage
  carries : (stream_id : ℕ) (bytes : Bytes) → IpcMessage
  closes : StreamClose → IpcMessage
  pings pongs : IpcMessage

-- `to_json` and `from_json` at the types that they are used at.
pub record Json : Type 0 where
  pub write_register : RegisterAgent → Result IoError Bytes
  pub write_snapshot : DeviceSnapshotMsg → Result IoError Bytes
  pub write_open : OpenPrivateStream → Result IoError Bytes
  pub write_result : OpenResult → Result IoError Bytes
  pub write_close : StreamClose → Result IoError Bytes
  pub read_register : Bytes → Result IoError RegisterAgent
  pub read_snapshot : Bytes → Result IoError DeviceSnapshotMsg
  pub read_open : Bytes → Result IoError OpenPrivateStream
  pub read_result : Bytes → Result IoError OpenResult
  pub read_close : Bytes → Result IoError StreamClose

-- `u32::to_be_bytes`.
unfoldable pub to_be_bytes : ℕ → Bytes
to_be_bytes n = n / 16777216 % 256 ∷ n / 65536 % 256 ∷ n / 256 % 256 ∷ n % 256 ∷ []

-- `u32::from_be_bytes` of a buffer of four bytes.
unfoldable pub from_be_bytes : Bytes → ℕ
from_be_bytes (a ∷ b ∷ c ∷ d ∷ []) = a * 16777216 + b * 65536 + c * 256 + d
from_be_bytes _ = 0

-- The greatest frame.
abbrev pub max_frame : ℕ
max_frame = 16777216

abbrev typed : MsgType → Result IoError Bytes → Result IoError (MsgType × Bytes)
typed ty r = r >>= λ payload. ok (ty, payload)

abbrev as_message : {A : Type 0} → (A → IpcMessage) → Result IoError A → Result IoError IpcMessage
as_message f r = r >>= λ m. ok (f m)

module _ (json : Json) where
  unfoldable pub encode_message : IpcMessage → Result IoError (MsgType × Bytes)
  encode_message (registers m) = typed register_agent (json.write_register m)
  encode_message (snapshot m) = typed device_snapshot (json.write_snapshot m)
  encode_message (snapshot_changed m) = typed device_snapshot_changed (json.write_snapshot m)
  encode_message (opens m) = typed open_private_stream (json.write_open m)
  encode_message (opened m) = typed open_result (json.write_result m)
  encode_message (carries stream_id bytes) = ok (stream_data, to_be_bytes stream_id ++ bytes)
  encode_message (closes m) = typed stream_close (json.write_close m)
  encode_message pings = ok (ping, [])
  encode_message pongs = ok (pong, [])

  -- The first four bytes are the number of the stream.
  unfoldable pub decode_data : Bytes → Result IoError IpcMessage
  decode_data payload = elim (read_exact 4 payload) [
    | err e ↦ err (io_error invalid_data (codes "StreamData too short"))
    | ok (id_buf, bytes) ↦ ok (carries (from_be_bytes id_buf) bytes)
  ]

  unfoldable pub decode_message : MsgType → Bytes → Result IoError IpcMessage
  decode_message register_agent payload = as_message registers (json.read_register payload)
  decode_message device_snapshot payload = as_message snapshot (json.read_snapshot payload)
  decode_message device_snapshot_changed payload =
      as_message snapshot_changed (json.read_snapshot payload)
  decode_message open_private_stream payload = as_message opens (json.read_open payload)
  decode_message open_result payload = as_message opened (json.read_result payload)
  decode_message stream_data payload = decode_data payload
  decode_message stream_close payload = as_message closes (json.read_close payload)
  decode_message ping payload = ok pings
  decode_message pong payload = ok pongs

  -- What is sent for a message; the length is cut to 32 bits.
  unfoldable pub write_message : IpcMessage → Result IoError Bytes
  write_message msg = do
    (ty, payload) ← encode_message msg
    ok (to_be_bytes ((1 + length payload) % 2 ^ 32) ++ (to_u8 ty ∷ payload))

  -- The body of a frame.
  unfoldable pub decode_body : Bytes → Result IoError IpcMessage
  decode_body [] = err (io_error invalid_data (codes "empty IPC frame"))
  decode_body (b ∷ payload) = elim (from_u8 b) [
    | none ↦ err (io_error invalid_data (codes "unknown IPC type " ++ to_decimal b))
    | some ty ↦ decode_message ty payload
  ]

  unfoldable pub read_message : Bytes → Result IoError (IpcMessage × Bytes)
  read_message stream = do
    (len_buf, rest) ← read_exact 4 stream
    let len = from_be_bytes len_buf
    if len == 0
        then err (io_error invalid_data (codes "empty IPC frame"))
        else if ltb max_frame len
        then err (io_error invalid_data (codes "IPC frame too large: " ++ to_decimal len))
        else do (body, after) ← read_exact len rest; msg ← decode_body body; ok (msg, after)

-- The entries of the registry for the devices of an agent: never with a pair code.
unfoldable pub sanitized_entry : SanitizedDevice → DeviceEntry
sanitized_entry d = record {
  public_serial = d.public_serial;
  upstream_serial = d.upstream_serial;
  state = d.state;
  extras = d.extras;
  backend_name = d.backend_name;
  backend_addr = v4 127 0 0 1 0;
  pair_code = none;
  route_id = some d.route_id;
}

unfoldable pub sanitized_to_snapshot : List SanitizedDevice → DeviceSnapshot
sanitized_to_snapshot ds = record { devices = map sanitized_entry ds }
