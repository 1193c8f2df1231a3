-- ===== src/Local.antt =====
-- src/local.rs: the real adb server beside the hub. What the operating system and the program `adb` answer is
-- given; the result is the server, and the commands that were run.
use adbproxy_rs.Base.{ℕ, Bool, true, false, Option, none, some, List, [], ◌∷◌, ◌++◌, if◌then◌else◌}
use adbproxy_rs.Text.{Text, codes}
use adbproxy_rs.Text.Number.{to_decimal}
use adbproxy_rs.Io.{Result, ok, err, IoError, io_error, other, not_found, timed_out}
use adbproxy_rs.Addr.{SocketAddr, v4, port_of, show_addr}

pub record LocalAdb : Type 0 where
  pub addr : SocketAddr
  pub adb_path : Text
  pub started_by_us : Bool

-- What `prepare` meets. `env_adb` is the path in the variable ADB, if it is set, with whether it is a file, and
-- `in_path` the first file `adb` of PATH. A command ends with whether it succeeded and the print of its
-- status. `ready_in_time` is whether a connection succeeds before the five seconds are over.
pub record LocalWorld : Type 0 where
  pub env_adb : Option (Text × Bool)
  pub in_path : Option Text
  pub ready_before : Bool
  pub started : Result IoError (Bool × Text)
  pub ready_in_time : Bool

unfoldable pub from_path : Option Text → Result IoError Text
from_path none = err (io_error not_found (codes "adb not found in PATH (set ADB=/path/to/adb)"))
from_path (some p) = ok p

unfoldable pub find_adb : LocalWorld → Result IoError Text
find_adb w = elim w.env_adb [
  | none ↦ from_path w.in_path
  | some (path, is_file) ↦ if is_file then ok path else from_path w.in_path
]

unfoldable pub local_addr : ℕ → SocketAddr
local_addr port = v4 127 0 0 1 port

unfoldable pub wait_until_ready : LocalWorld → SocketAddr → Result IoError (Unit {0})
wait_until_ready w addr =
    if w.ready_in_time
    then ok tt
    else err (
        io_error timed_out
          (codes "local adb server at " ++ (show_addr addr ++ codes " did not become ready")))

-- A command of the program: the port that it is for, if it names one, and what it says.
pub data Command : Type 0 where
  kill_default : Command
  start_server kill_server : ℕ → Command

unfoldable pub started_server : LocalWorld → ℕ → Text → Result IoError LocalAdb
started_server w port adb_path = elim (wait_until_ready w (local_addr port)) [
  | err e ↦ err e
  | ok u ↦ ok (record { addr = local_addr port; adb_path = adb_path; started_by_us = true })
]

unfoldable pub launch : LocalWorld → ℕ → Text → Result IoError LocalAdb
launch w port adb_path = elim w.started [
  | err e ↦ err e
  | ok (success, status) ↦
      if success
      then started_server w port adb_path
      else err (
          io_error other (
            codes "adb -P " ++ (to_decimal port ++ (codes " start-server failed with " ++ status))))
]

-- Behind the kill of the default server.
unfoldable pub reuse_or_start : LocalWorld → ℕ → Text → Result IoError LocalAdb
reuse_or_start w port adb_path =
    if w.ready_before
    then ok (record { addr = local_addr port; adb_path = adb_path; started_by_us = false })
    else launch w port adb_path

unfoldable pub prepare : LocalWorld → ℕ → List Command × Result IoError LocalAdb
prepare w port = elim (find_adb w) [
  | err e ↦ ([], err e)
  | ok adb_path ↦ (
    kill_default ∷ (if w.ready_before then [] else start_server port ∷ []),
    reuse_or_start w port adb_path,
  )
]

-- The commands of `Drop`.
unfoldable pub drop_local : LocalAdb → List Command
drop_local l = if l.started_by_us then kill_server (port_of l.addr) ∷ [] else []
