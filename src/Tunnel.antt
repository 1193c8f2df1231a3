-- ===== src/Tunnel.antt =====
-- src/tunnel.rs: the local listeners that scrcpy connects to, and the transport of a client to a device of
-- another machine. The listeners are kept with their owner and serial; the answer of the operating system
-- to a bind is a parameter.
pub mod Owners
use adbproxy_rs.Base.{
  ℕ, Bool, true, false, not, ◌&&◌, Option, none, some, List, [], ◌∷◌, ◌++◌, ◌==◌, if◌then◌else◌,
  ◌>>=◌,
}
use adbproxy_rs.Text.{Text, Bytes, codes, text_eq, strip_prefix, starts_with, split_once}
use adbproxy_rs.Text.Utf8.{as_bytes, from_utf8}
use adbproxy_rs.Text.Number.{to_decimal, from_str_radix}
use adbproxy_rs.Io.{Result, ok, err, IoError, io_error, addr_in_use, read_exact}
use adbproxy_rs.Map.ByNumber
use adbproxy_rs.Map.ByNumber.{NumberMap}
use adbproxy_rs.Protocol.{read_packet, read_status, write_okay, write_fail, write_packet}

pub record Listener : Type 0 where
  pub owner : Option ℕ
  pub serial : Text

-- The listeners by port.
abbrev pub TunnelManager : Type 0
TunnelManager = NumberMap Listener

unfoldable pub owner_eq : Option ℕ → Option ℕ → Bool
owner_eq none none = true
owner_eq (some a) (some b) = a == b
owner_eq none (some b) = false
owner_eq (some a) none = false

unfoldable pub remove_owner : ℕ → TunnelManager → TunnelManager
remove_owner owner m = ByNumber.retain (λ (l : Listener). not (owner_eq l.owner (some owner))) m

-- Whether the listener is the owner's and for the serial.
unfoldable pub is_same : Option ℕ → Text → Listener → Bool
is_same owner serial l = owner_eq l.owner owner && text_eq l.serial serial

-- The part of `add` from the bind on: what the operating system answers to it is given.
unfoldable pub listen_on :
    Result IoError ℕ → Text → Option ℕ → TunnelManager → TunnelManager × Result IoError ℕ
listen_on (err e) serial owner m = (m, err e)
listen_on (ok actual) serial owner m =
    (ByNumber.insert actual (record { owner = owner; serial = serial }) m, ok actual)

-- A listener that the same owner has for the same serial is stopped before.
unfoldable pub add_listener :
    Result IoError ℕ → ℕ → Text → Option ℕ → TunnelManager → TunnelManager × Result IoError ℕ
add_listener bound port serial owner m = elim (ByNumber.get port m) [
  | none ↦ listen_on bound serial owner m
  | some previous ↦
      if is_same owner serial previous
      then listen_on bound serial owner (ByNumber.remove port m)
      else (m, err (io_error addr_in_use (codes "port already used by another device")))
]

unfoldable pub remove_listener : ℕ → Text → Option ℕ → TunnelManager → TunnelManager × Bool
remove_listener port serial owner m = elim (ByNumber.get port m) [
  | none ↦ (m, false)
  | some l ↦ if is_same owner serial l then (ByNumber.remove port m, true) else (m, false)
]

-- How a transport ends: with the connection closed, by joining client and device, or with an error.
pub data End : Type 0 where
  done joined : End
  broken : IoError → End

-- The listeners behind a transport, and what it has sent to the client and to the device.
pub record Transported : Type 0 where
  pub manager : TunnelManager
  pub to_client : Bytes
  pub to_upstream : Bytes
  pub ending : End

abbrev pub ended : TunnelManager → Bytes → Bytes → End → Transported
ended m to_client to_upstream ending = record {
  manager = m;
  to_client = to_client;
  to_upstream = to_upstream;
  ending = ending;
}

unfoldable pub port_number : Text → Option ℕ
port_number s = from_str_radix 10 65535 s

-- The port and the socket of a request to forward a port to scrcpy.
unfoldable pub scrcpy_forward : Text → Option (ℕ × Text)
scrcpy_forward request = do
  rest ← strip_prefix (codes "host:forward:tcp:") request
  (port, socket) ← split_once b';' rest
  if starts_with (codes "localabstract:scrcpy_") socket
      then elim (port_number port) [ none ↦ none | some n ↦ some (n, socket) ]
      else none

unfoldable pub killed_port : Text → Option ℕ
killed_port request = do
  rest ← strip_prefix (codes "host:killforward:tcp:") request
  port_number rest

unfoldable pub text_or_empty : Bytes → Text
text_or_empty request = elim (from_utf8 request) [ none ↦ [] | some s ↦ s ]

-- The answer to a forward: two OKAY, and the port where the system chose it.
unfoldable pub forward_answer : ℕ → Bytes → TunnelManager × Result IoError ℕ → Transported
forward_answer port sent (m, err e) = ended m (sent ++ write_fail e.message) [] done
forward_answer port sent (m, ok actual) =
    let okays = sent ++ (write_okay ++ write_okay) in
    ended m (if port == 0 then okays ++ write_packet (as_bytes (to_decimal actual)) else okays) []
      done

module _ (bind : ℕ → Result IoError ℕ) (serial : Text) (owner : Option ℕ) (m : TunnelManager) where
  -- The request goes to the device, and the two are joined.
  unfoldable pub pass_request : Bytes → Bytes → Transported
  pass_request sent request = ended m sent (write_packet request) joined

  unfoldable pub kill_answer : Bytes → Bytes → TunnelManager × Bool → Transported
  kill_answer sent request (m', removed) =
      if removed
      then ended m' (sent ++ (write_okay ++ write_okay)) [] done
      else pass_request sent request

  unfoldable pub kill_or_pass : Bytes → Bytes → Text → Transported
  kill_or_pass sent request text = elim (killed_port text) [
    | none ↦ pass_request sent request
    | some port ↦ kill_answer sent request (remove_listener port serial owner m)
  ]

  -- From the request of the client on.
  unfoldable pub serve_request : Bytes → Bytes → Transported
  serve_request sent request =
      let text = text_or_empty request in
      if starts_with (codes "reverse:forward:localabstract:scrcpy_") text
      then ended m
          (sent ++ write_fail (codes "remote scrcpy reverse requires a tunnel; use adb forward")) []
          done
      else elim (scrcpy_forward text) [
        | some (port, socket) ↦
            forward_answer port sent (add_listener (bind port) port serial owner m)
        | none ↦ kill_or_pass sent request text
      ]

  unfoldable pub read_request : Bytes → Bytes → Transported
  read_request sent client = elim (read_packet client) [
    | err e ↦ ended m sent [] (broken e)
    | ok (request, rest) ↦ serve_request sent request
  ]

  -- A status other than OKAY goes to the client, with the reason of a FAIL.
  unfoldable pub refuse : Bytes → Bytes → Transported
  refuse status upstream =
      if text_eq status (codes "FAIL")
      then elim (read_packet upstream) [
        | err e ↦ ended m status [] (broken e)
        | ok (reason, rest) ↦ ended m (status ++ write_packet reason) [] done
      ]
      else ended m status [] done

  -- The transport id of a `host:tport:` service goes to the client as well.
  unfoldable pub after_okay : Text → Bytes → Bytes → Bytes → Transported
  after_okay service status upstream client =
      if starts_with (codes "host:tport:") service
      then elim (read_exact 8 upstream) [
        | err e ↦ ended m status [] (broken e)
        | ok (id, rest) ↦ read_request (status ++ id) client
      ]
      else read_request status client

  unfoldable pub transport : Text → Bytes → Bytes → Transported
  transport service client upstream = elim (read_status upstream) [
    | err e ↦ ended m [] [] (broken e)
    | ok (status, rest) ↦
        if text_eq status (codes "OKAY")
        then after_okay service status rest client
        else refuse status rest
  ]
