-- ===== src/Runs/Proxies.antt =====
-- A proxy and a hub at concrete inputs.
use adbproxy_rs.Base.{
  ◌≡◌, ◌<◌, refl, ap, ◌∙◌, Bool, true, false, none, some, List, [], ◌∷◌, ◌++◌, length, keep, All,
  arith,
}
use adbproxy_rs.Text.{Text, Bytes, codes, text_eq, is_empty, starts_with}
use adbproxy_rs.Text.Utf8.{as_bytes, from_utf8, from_utf8_lossy}
use adbproxy_rs.Text.Whitespace.{lines, trim, split_whitespace}
use adbproxy_rs.Io.{ok}
use adbproxy_rs.Addr.{v4}
use adbproxy_rs.Map
use adbproxy_rs.Registry.{parse_lines}
use adbproxy_rs.Protocol.{read_packet, write_okay, write_okay_payload, write_service}
use adbproxy_rs.Protocol.RoundTrip.{ascii-IsScalar}
use adbproxy_rs.Auth.{auth_service}
use adbproxy_rs.Auth.Codes.{IsPairCode}
use adbproxy_rs.Compat.{proxy_version_service}
use adbproxy_rs.Policy.{
  is_enabled, filter_devices_body, transport_serial, filter_lines, keeps_line, first_word,
}
use adbproxy_rs.Config.{mtime_eq}
use adbproxy_rs.ProxyPolicy.{PolicyFile, PolicyCache, table_or_default, refresh}
use adbproxy_rs.Proxy.{World, Connection, Tracked, asked, done, proxy_connection, track_loop}
use adbproxy_rs.Proxy.Guard.{IsJoined, proxy_connection_guarded}
use adbproxy_rs.Proxy.Tracking.{packets, relayed, track_loop_ends}
use adbproxy_rs.Proxy.Service.{proxy_connection-track, proxy_connection-service, serve_list}
use adbproxy_rs.Backend.{fetch_devices_l}
use adbproxy_rs.Backend.Proxied.{in_time, fetch_devices_l-proxy_connection}
use adbproxy_rs.Runs.Data.{lab}

abbrev shared_code : Text
shared_code = codes "ABCD1234"

shared_code-IsPairCode : IsPairCode shared_code
unfolding codes
shared_code-IsPairCode = omega arith

-- The second device is off.
abbrev policy_file : PolicyFile
policy_file = record {
  mtime = some 7;
  loaded = ok (record { devices = record { entries = (codes "BBB", false) ∷ [] } });
}

abbrev cache : PolicyCache
cache = record { mtime = none; table = record { entries = [] } }

abbrev raw_list : Text
raw_list = codes "AAA\tdevice\nBBB\tdevice\n"

raw_list_ascii : All (λ c. c < 0x80) raw_list
unfolding codes
raw_list_ascii = omega arith

-- A proxy whose adb server sends the bytes.
abbrev world : Bytes → World
world upstream = record {
  client_addr = v4 10 0 0 2 40000;
  target_addr = v4 127 0 0 1 5037;
  connect = ok upstream;
  files = λ i. policy_file;
  refused = λ i. none;
  copy_bidirectional = λ up down. ok (length up, length down);
}

abbrev two_lists : List Bytes
two_lists = as_bytes raw_list ∷ [] ∷ []

raw_list_short : length (as_bytes raw_list) < 65536
unfolding codes as_bytes
raw_list_short = omega arith

track_loop_ends_example :
    (t : Tracked) × (track_loop (world []) 4 0 cache (b'0' ∷ b'0' ∷ []) ≡ some t)
track_loop_ends_example = track_loop_ends (world []) 4 0 cache (b'0' ∷ b'0' ∷ []) (omega arith)

proxy_connection-track_example :
    let c =
      proxy_connection
        (world (write_okay ++ packets two_lists))
        shared_code
        (write_service (auth_service shared_code)
          ++ (write_service (codes "host:track-devices-l") ++ []))
        cache in
    (c.to_client
      ≡ write_okay
        ++ (write_okay ++ relayed (world (write_okay ++ packets two_lists)) 1 cache two_lists))
    × (c.result ≡ done (world (write_okay ++ packets two_lists)))
proxy_connection-track_example =
    proxy_connection-track (world (write_okay ++ packets two_lists)) shared_code cache two_lists []
      shared_code-IsPairCode refl (λ j. refl) (raw_list_short, (omega arith, tt))

abbrev listed : World
listed = world (write_okay_payload (as_bytes raw_list) ++ [])

abbrev enabled : Text → Bool
enabled = is_enabled (refresh policy_file cache).1

kept_short : length (as_bytes (filter_devices_body raw_list enabled)) < 65536
unfolding codes as_bytes filter_devices_body is_enabled refresh lines text_eq Map.get filter_lines
    keeps_line is_empty trim starts_with first_word split_whitespace mtime_eq table_or_default
kept_short = omega arith

fetch_devices_l-proxy_connection_example :
    (sent : Bytes) × (body : Text) × (fetch_devices_l
        (in_time (proxy_connection listed shared_code sent cache).to_client)
        (some shared_code)
      ≡ (sent, ok body))
    × (parse_lines lab (lines body)
        ≡ keep (λ x. enabled x.serial) (parse_lines lab (lines raw_list)))
fetch_devices_l-proxy_connection_example =
    fetch_devices_l-proxy_connection listed shared_code cache raw_list [] lab shared_code-IsPairCode
      (ascii-IsScalar raw_list raw_list_ascii) refl raw_list_short kept_short

abbrev list_service : Text
list_service = codes "host:devices-l"

list_service_ascii : All (λ c. c < 0x80) list_service
unfolding codes
list_service_ascii = omega arith

list_service_short : length (as_bytes list_service) < 65536
unfolding codes as_bytes
list_service_short = omega arith

abbrev client : Bytes
client = write_service (auth_service shared_code) ++ (write_service list_service ++ [])

asks_upstream :
    (proxy_connection listed shared_code client cache).to_upstream
    ≡ some (write_service list_service)
unfolding asked
asks_upstream =
    ap (λ (c : Connection). c.to_upstream)
      (proxy_connection-service listed shared_code shared_code-IsPairCode list_service [] cache
          (ascii-IsScalar list_service list_service_ascii) list_service_short
        ∙ serve_list listed cache [] (as_bytes raw_list) [] refl raw_list_short)

proxy_connection_guarded_example :
    (frame : Bytes) × (behind : Bytes) × (payload : Bytes) × (rest : Bytes) × (read_packet client
      ≡ ok (frame, behind))
    × (from_utf8 frame ≡ some (auth_service shared_code))
    × IsPairCode shared_code
    × (read_packet behind ≡ ok (payload, rest))
    × (write_service list_service ≡ write_service (from_utf8_lossy payload))
    × IsJoined rest (proxy_connection listed shared_code client cache).joined
    × (text_eq (from_utf8_lossy payload) proxy_version_service ≡ false)
    × ((serial : Text)
        → transport_serial (from_utf8_lossy payload) ≡ some serial
        → is_enabled (refresh policy_file cache).1 serial ≡ true)
proxy_connection_guarded_example =
    proxy_connection_guarded listed shared_code client cache {sent = write_service list_service}
      asks_upstream
