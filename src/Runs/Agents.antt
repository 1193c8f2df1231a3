-- ===== src/Runs/Agents.antt =====
-- src/ipc.rs and the agents of src/daemon.rs at concrete inputs.
use adbproxy_rs.Base.{◌≡◌, refl, none, some, [], ◌∷◌, ◌++◌, arith, if◌then◌else◌, ◌==◌}
use adbproxy_rs.Text.{codes}
use adbproxy_rs.Io.{ok, err, io_error, other}
use adbproxy_rs.Map.ByNumber
use adbproxy_rs.Types.{DeviceEntry}
use adbproxy_rs.Map
use adbproxy_rs.Ipc.{
  Json, IpcMessage, OpenPrivateStream, DeviceSnapshotMsg, registers, opens, snapshot_changed,
  sanitized_to_snapshot, write_message, read_message, encode_message, to_be_bytes, to_u8,
}
use adbproxy_rs.Ipc.Frames.{read_message-write_message}
use adbproxy_rs.Tenant.{snapshot_for}
use adbproxy_rs.Daemon.Agents.{AgentConn, DaemonState, new_conn, accept_agent, receive, leave}
use adbproxy_rs.Daemon.Agents.Leaving.{leave-snapshot_for, publish_stale}
use adbproxy_rs.Daemon.Start.{empty_state}
use adbproxy_rs.Daemon.Agents.Codes.Clean.{NoCodes}
use adbproxy_rs.Daemon.Agents.Codes.{here, next, accepts, receives, snapshot_for-NoCodes}
use adbproxy_rs.Base.{inl, inr}
use adbproxy_rs.Session.Pick.{IsAmong}
use adbproxy_rs.Agent.{routes_of, sanitize}
use adbproxy_rs.Agent.Routes.{get-sanitize}
use adbproxy_rs.Runs.Data.{lab, two_phones, lab_pixel}

abbrev request : OpenPrivateStream
request = record {
  stream_id = 7;
  route_id = codes "office:SAME";
  service = codes "host:transport:SAME";
}

-- A library that knows the one request alone.
abbrev one_request : Json
one_request = record {
  write_register = λ m. err (io_error other []);
  write_snapshot = λ m. err (io_error other []);
  write_open = λ m. ok (b'7' ∷ []);
  write_result = λ m. err (io_error other []);
  write_close = λ m. err (io_error other []);
  read_register = λ bs. err (io_error other []);
  read_snapshot = λ bs. err (io_error other []);
  read_open = λ bs. ok request;
  read_result = λ bs. err (io_error other []);
  read_close = λ bs. err (io_error other []);
}

read_message-write_message_example :
    read_message one_request ((0 ∷ 0 ∷ 0 ∷ 2 ∷ 4 ∷ b'7' ∷ []) ++ (9 ∷ []))
    ≡ ok (opens request, 9 ∷ [])
unfolding write_message encode_message to_be_bytes to_u8
read_message-write_message_example =
    read_message-write_message one_request (opens request) (0 ∷ 0 ∷ 0 ∷ 2 ∷ 4 ∷ b'7' ∷ []) (9 ∷ [])
      (λ bs e. refl) refl (omega arith)

abbrev first : AgentConn
first = new_conn 1000 (codes "aa")

abbrev second : AgentConn
second = new_conn 1000 (codes "bb")

-- The first agent of the user was replaced by the second.
abbrev replaced : DaemonState
replaced = record empty_state { agents = (1000, 2) ∷ []; conns = (1, first) ∷ (2, second) ∷ [] }

-- The second agent has left, too.
abbrev abandoned : DaemonState
abandoned = record empty_state { conns = (1, first) ∷ [] }

abbrev phones : DeviceSnapshotMsg
phones = record {
  generation = 3;
  devices =
      record {
        public_serial = codes "PIXEL";
        upstream_serial = codes "PIXEL";
        state = codes "device";
        extras = [];
        backend_name = codes "office";
        route_id = codes "office:PIXEL";
      }
      ∷ [];
}

leave-snapshot_for_example :
    snapshot_for (leave 2 replaced).tenants 1000
    ≡ (if 1000 == 1000 then replaced.tenants.shared else snapshot_for replaced.tenants 1000)
unfolding ByNumber.get new_conn
leave-snapshot_for_example = leave-snapshot_for 2 replaced second 1000 refl refl

publish_stale_example :
    (ByNumber.get 1000 (leave 1 (receive 1 (snapshot_changed phones) abandoned)).agents ≡ none)
    × (ByNumber.get 1000 (leave 1 (receive 1 (snapshot_changed phones) abandoned)).tenants.private
        ≡ some (sanitized_to_snapshot phones.devices))
unfolding ByNumber.get new_conn
publish_stale_example = publish_stale 1 abandoned first phones refl refl

abbrev hello : IpcMessage
hello = registers (record { version = 1; capabilities = []; instance_token = codes "aa" })

abbrev accepted : DaemonState
accepted = record empty_state {
  agents = ByNumber.insert 1000 1 [];
  conns = ByNumber.insert 1 (new_conn 1000 (codes "aa")) [];
}

snapshot_for-NoCodes_example :
    NoCodes (snapshot_for (receive 1 (snapshot_changed phones) accepted).tenants 1000).devices
unfolding accept_agent
snapshot_for-NoCodes_example =
    snapshot_for-NoCodes lab (receive 1 (snapshot_changed phones) accepted) 1000 refl (
      next (next here (accepts 1000 1 hello empty_state accepted refl))
        (receives 1 (snapshot_changed phones) accepted))

get-sanitize_example :
    (e : DeviceEntry) × IsAmong e two_phones.devices
    × (e.backend_name ≡ lab_pixel.backend_name)
    × (e.upstream_serial ≡ lab_pixel.upstream_serial)
    × (Map.get (sanitize lab_pixel).route_id (routes_of [] two_phones.devices)
        ≡ some (record {
          addr = e.backend_addr;
          pair_code = e.pair_code;
          upstream_serial = lab_pixel.upstream_serial;
        }))
unfolding codes
get-sanitize_example = get-sanitize two_phones.devices lab_pixel (omega arith) (inr (inl refl))
