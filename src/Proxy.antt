-- ===== src/Proxy.antt =====
-- src/lib.rs: one connection of a client to a proxy.
pub mod Guard
pub mod Tracking
pub mod Service
use adbproxy_rs.Base.{
  ℕ, suc, ◌+◌, Bool, true, false, ◌||◌, Option, none, some, List, [], ◌∷◌, ◌++◌, length,
  if◌then◌else◌,
}
use adbproxy_rs.Text.{Text, Bytes, codes, text_eq}
use adbproxy_rs.Text.Utf8.{as_bytes, from_utf8_lossy}
use adbproxy_rs.Io.{Result, ok, err, ◌>>=◌, IoError, unexpected_eof, is_benign}
use adbproxy_rs.Addr.{SocketAddr}
use adbproxy_rs.Protocol.{
  read_packet, read_status, read_okay_payload, write_packet, write_okay, write_fail,
  write_okay_payload, write_service,
}
use adbproxy_rs.Auth.{accept_auth}
use adbproxy_rs.Compat.{proxy_version_service}
use adbproxy_rs.Policy.{is_enabled, filter_devices_body, transport_serial}
use adbproxy_rs.ProxyPolicy.{PolicyFile, PolicyCache, refresh, is_enabled_now}

-- `VERSION`, which the build takes from Cargo.toml.
unfoldable pub version : Text
version = codes "0.4.5"

-- `ProxyStats`, without the time that passed.
pub record ProxyStats : Type 0 where
  pub client_addr : SocketAddr
  pub target_addr : SocketAddr
  pub bytes_client_to_server : ℕ
  pub bytes_server_to_client : ℕ

pub data ProxyError : Type 0 where
  io : IoError → ProxyError
  port_not_ready : SocketAddr → ProxyError

unfoldable pub is_expected_disconnect : ProxyError → Bool
is_expected_disconnect (io e) = is_benign e
is_expected_disconnect (port_not_ready addr) = false

-- What is outside of a connection: its two ends, the adb server's answer to the attempt to connect (all
-- that it sends, or an error), what the file system shows at each refresh of the policy, the error of a
-- packet of the list that the client does not take, if there is one, and what joining two streams counts.
pub record World : Type 0 where
  pub client_addr : SocketAddr
  pub target_addr : SocketAddr
  pub connect : Result IoError Bytes
  pub files : ℕ → PolicyFile
  pub refused : ℕ → Option IoError
  pub copy_bidirectional : Bytes → Bytes → Result IoError (ℕ × ℕ)

-- What a connection did: what the client was sent, what the adb server was sent if it was connected
-- to, the streams that were joined behind that, and the result.
pub record Connection : Type 0 where
  pub to_client : Bytes
  pub to_upstream : Option Bytes
  pub joined : Option (Bytes × Bytes)
  pub policy : PolicyCache
  pub result : Result ProxyError (Option ProxyStats)

-- The list of devices that is followed: what the client was sent, and whether that ended with an error.
pub record Tracked : Type 0 where
  pub sent : Bytes
  pub policy : PolicyCache
  pub result : Result ProxyError (Unit {0})

abbrev is_eof : IoError → Bool
is_eof e = elim e.kind [ unexpected_eof ↦ true | _ ↦ false ]

-- The end of the loop at an error.
unfoldable pub track_end : IoError → PolicyCache → Tracked
track_end e cache = record {
  sent = [];
  policy = cache;
  result = if is_benign e then ok tt else err (io e);
}

unfoldable pub sent_before : Bytes → Option Tracked → Option Tracked
sent_before bs none = none
sent_before bs (some t) = some (record t { sent = bs ++ t.sent })

-- `reason.unwrap_or_default()`.
unfoldable pub reason_or_empty : Result IoError (Bytes × Bytes) → Bytes
reason_or_empty (ok (reason, rest)) = reason
reason_or_empty (err e) = []

module _ (w : World) where
  -- The loop of `host:track-devices`, on fuel, from the `i`-th refresh on.
  unfoldable pub track_loop : ℕ → ℕ → PolicyCache → Bytes → Option Tracked
  track_loop ℕ.zero i cache upstream = none
  track_loop (ℕ.suc n) i cache upstream = elim (read_packet upstream) [
    | err e ↦ some (track_end e cache)
    | ok (body, rest) ↦
        let (cache', table) = refresh (w.files i) cache in
        let filtered = filter_devices_body (from_utf8_lossy body) (is_enabled table) in
        elim (w.refused i) [
          | some e ↦ some (track_end e cache')
          | none ↦ sent_before (write_packet (as_bytes filtered)) (track_loop n (i + 1) cache' rest)
        ]
  ]

  -- `Some(ProxyStats { … })` with the two counts.
  abbrev stats : ℕ × ℕ → Option ProxyStats
  stats (up, down) = some (record {
    client_addr = w.client_addr;
    target_addr = w.target_addr;
    bytes_client_to_server = up;
    bytes_server_to_client = down;
  })

  abbrev pub done : Result ProxyError (Option ProxyStats)
  done = ok (stats (0, 0))

  -- A connection that ends without the adb server.
  unfoldable pub refused_with :
      Bytes → PolicyCache → Result ProxyError (Option ProxyStats) → Connection
  refused_with out cache r = record {
    to_client = out;
    to_upstream = none;
    joined = none;
    policy = cache;
    result = r;
  }

  -- A connection in which the service was sent to the adb server.
  unfoldable pub asked :
      Text → Bytes → PolicyCache → Result ProxyError (Option ProxyStats) → Connection
  asked service out cache r = record {
    to_client = out;
    to_upstream = some (write_service service);
    joined = none;
    policy = cache;
    result = r;
  }

  unfoldable pub list_devices : Text → Bytes → PolicyCache → Bytes → Connection
  list_devices service out cache upstream = elim (read_okay_payload upstream) [
    | err e ↦ asked service out cache (err (io e))
    | ok (body, rest) ↦
        let (cache', table) = refresh (w.files 1) cache in
        let filtered = filter_devices_body (from_utf8_lossy body) (is_enabled table) in
        asked service (out ++ write_okay_payload (as_bytes filtered)) cache' done
  ]

  -- The loop never runs out of fuel: each packet takes bytes of the stream.
  unfoldable pub follow_devices : Text → Bytes → PolicyCache → Bytes → Connection
  follow_devices service out cache upstream =
      elim (track_loop (suc (length upstream)) 1 cache upstream) [
        | none ↦ asked service (out ++ write_okay) cache done
        | some t ↦
            asked service (out ++ (write_okay ++ t.sent)) t.policy
              (elim t.result [ ok u ↦ done | err e ↦ err e ])
      ]

  unfoldable pub track_devices : Text → Bytes → PolicyCache → Bytes → Connection
  track_devices service out cache upstream = elim (read_status upstream) [
    | err e ↦ asked service out cache (err (io e))
    | ok (status, rest) ↦
        if text_eq status (codes "OKAY")
        then follow_devices service out cache rest
        else if text_eq status (codes "FAIL")
        then asked service (out ++ (status ++ write_packet (reason_or_empty (read_packet rest))))
            cache done
        else asked service (out ++ status) cache done
  ]

  unfoldable pub opaque : Text → Bytes → Bytes → PolicyCache → Bytes → Connection
  opaque service out client cache upstream =
      record (asked service out cache (elim (w.copy_bidirectional client upstream) [
        | err e ↦ err (io e)
        | ok counts ↦ ok (stats counts)
      ])) { joined = some (client, upstream) }

  -- Behind the attempt to connect to the adb server.
  unfoldable pub serve_connected :
      Text → Bytes → Bytes → PolicyCache → Result IoError Bytes → Connection
  serve_connected service out client cache (err e) = refused_with out cache (err (io e))
  serve_connected service out client cache (ok upstream) =
      if text_eq service (codes "host:devices") || text_eq service (codes "host:devices-l")
      then list_devices service out cache upstream
      else if text_eq service (codes "host:track-devices")
          || text_eq service (codes "host:track-devices-l")
      then track_devices service out cache upstream
      else opaque service out client cache upstream

  unfoldable pub forward : Text → Bytes → Bytes → PolicyCache → Connection
  forward service out client cache = serve_connected service out client cache w.connect

  unfoldable pub serve_enabled : Text → Bytes → Bytes → PolicyCache → Connection
  serve_enabled service out client cache = elim (transport_serial service) [
    | none ↦ forward service out client cache
    | some serial ↦
        let (cache', enabled) = is_enabled_now (w.files 0) cache serial in
        if enabled
        then forward service out client cache'
        else refused_with
            (out ++ write_fail (codes "device '" ++ (serial ++ codes "' is disabled"))) cache' done
  ]

  unfoldable pub serve_service : Text → Bytes → Bytes → PolicyCache → Connection
  serve_service service out client cache =
      if text_eq service proxy_version_service
      then refused_with (out ++ write_okay_payload (as_bytes version)) cache done
      else serve_enabled service out client cache

  -- Behind the handshake.
  unfoldable pub serve_packet : Bytes → Bytes → PolicyCache → Connection
  serve_packet out client cache = elim (read_packet client) [
    | err e ↦ refused_with out cache (if is_eof e then done else err (io e))
    | ok (payload, rest) ↦ serve_service (from_utf8_lossy payload) out rest cache
  ]

  unfoldable pub proxy_connection : Text → Bytes → PolicyCache → Connection
  proxy_connection pair_code client cache =
      let (out, accepted) = accept_auth client pair_code in
      elim accepted [
        | err e ↦ refused_with out cache (err (io e))
        | ok (accepts, rest) ↦
            if accepts then serve_packet out rest cache else refused_with out cache (ok none)
      ]
