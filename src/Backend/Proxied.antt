-- ===== src/Backend/Proxied.antt =====
-- The hub's questions to a backend that is a proxy with the same pair code, end to end.
use adbproxy_rs.Base.{
  ◌<◌, ◌≡◌, ◌∙◌, refl, sym, ap, Bool, false, some, [], ◌++◌, length, keep, All, arith, inl,
  append-nil,
}
use adbproxy_rs.Text.{Text, Bytes, codes}
use adbproxy_rs.Text.Equality.{text_eq_refl}
use adbproxy_rs.Text.Utf8.{IsScalar, as_bytes, as_bytes_ascii, from_utf8_lossy-as_bytes}
use adbproxy_rs.Text.Whitespace.{lines}
use adbproxy_rs.Io.{Result, ok}
use adbproxy_rs.Types.{BackendConfig}
use adbproxy_rs.Registry.{parse_lines}
use adbproxy_rs.Protocol.{write_okay, write_okay_payload, write_service}
use adbproxy_rs.Protocol.RoundTrip.{okay_payload_end, read_okay, ascii-IsScalar}
use adbproxy_rs.Auth.{auth_service, authenticate_stream, authenticate_answer}
use adbproxy_rs.Auth.Codes.{IsPairCode}
use adbproxy_rs.Policy.{is_enabled, filter_devices_body}
use adbproxy_rs.Policy.Body.{parse-filter_devices_body}
use adbproxy_rs.Policy.Chars.{All-filter_devices_body}
use adbproxy_rs.ProxyPolicy.{PolicyCache, refresh}
use adbproxy_rs.Proxy.{World, Connection, asked, proxy_connection}
use adbproxy_rs.Proxy.Service.{proxy_connection-service, serve_list}
use adbproxy_rs.Text.Whitespace.{trim}
use adbproxy_rs.Compat.{
  compatible, evaluate_proxy_version, min_proxy_version, parse_version, version_of, judge, before,
  without_v, number_of, version_le, proxy_version_service,
}
use adbproxy_rs.Text.{split, split_once, strip_prefix}
use adbproxy_rs.Text.Number.{from_str_radix}
use adbproxy_rs.Proxy.{version, serve_service, refused_with}
use adbproxy_rs.Backend.{
  Attempt, timeout, connect_backend, query, read_body, fetch_proxy_version, compat_of,
  check_proxy_compat, fetch_devices_l,
}

-- An attempt that connects, on the stream, and waits for nothing too long.
abbrev pub in_time : Bytes → Attempt
in_time stream = record {
  connect = ok stream;
  connect_late = false;
  auth_late = false;
  read_late = false;
}

-- The frames of a hub that asks for the service.
abbrev pub frames : Text → Text → Bytes
frames code service = write_service (auth_service code) ++ write_service service

authenticate-okay : (s : Bytes) → authenticate_answer (write_okay ++ s) ≡ ok s
unfolding authenticate_answer write_okay
authenticate-okay s = rw (read_okay s, text_eq_refl (codes "OKAY"))

query-okay :
    {A : Type 0} (code service : Text) (s : Bytes) (read : Bytes → Result _ A)
    → query (in_time (write_okay ++ s)) (some code) service read ≡ (frames code service, read s)
unfolding query connect_backend timeout authenticate_stream
query-okay code service s read = rw (authenticate-okay s, query, connect_backend, timeout)

fetch_devices_l-okay :
    (code : Text) (text : Text)
    → All IsScalar text
    → length (as_bytes text) < 65536
    → fetch_devices_l (in_time (write_okay ++ write_okay_payload (as_bytes text))) (some code)
      ≡ (frames code (codes "host:devices-l"), ok text)
unfolding fetch_devices_l read_body timeout
fetch_devices_l-okay code text scalar short =
    query-okay code (codes "host:devices-l") (write_okay_payload (as_bytes text)) _
    ∙ rw (okay_payload_end (as_bytes text) short, from_utf8_lossy-as_bytes text scalar)

list_service_ascii : All (λ c. c < 0x80) (codes "host:devices-l")
unfolding codes
list_service_ascii = omega arith

list_service_short : length (as_bytes (codes "host:devices-l")) < 65536
list_service_short =
    rw (as_bytes_ascii (codes "host:devices-l") list_service_ascii) (unfold codes in omega arith)

-- What a proxy answers the frames of a hub that asks for the devices.
list_reply :
    (w : World) (code : Text) (cache : PolicyCache) (raw : Text) (behind : Bytes)
    → IsPairCode code
    → All IsScalar raw
    → w.connect ≡ ok (write_okay_payload (as_bytes raw) ++ behind)
    → length (as_bytes raw) < 65536
    → (proxy_connection w code (frames code (codes "host:devices-l")) cache).to_client
      ≡ write_okay
        ++ write_okay_payload
            (as_bytes (filter_devices_body raw (is_enabled (refresh (w.files 1) cache).1)))
unfolding asked
list_reply w code cache raw behind valid scalar connects short =
    let list = codes "host:devices-l" in
    let served =
      proxy_connection-service w code valid list [] cache (ascii-IsScalar list list_service_ascii)
        list_service_short
      ∙ serve_list w cache [] (as_bytes raw) behind connects short in
    ap (λ s. (proxy_connection w code (write_service (auth_service code) ++ s) cache).to_client)
      (sym (append-nil (write_service list)))
    ∙ (ap Connection.to_client served ∙ rw (from_utf8_lossy-as_bytes raw scalar))

-- A hub that asks a proxy for its devices gets those of the adb server behind it that are enabled there: the
-- proxy takes the two frames that the hub sends, and what the hub then parses are the devices that the server
-- listed, in their order and with nothing else changed, less those that the policy of the proxy disables after a
-- reload. The hub has the valid pair code of the proxy, and the lists fit into packets.
pub fetch_devices_l-proxy_connection :
    (w : World) (code : Text) (cache : PolicyCache) (raw : Text) (behind : Bytes)
    (b : BackendConfig)
    → IsPairCode code
    → All IsScalar raw
    → w.connect ≡ ok (write_okay_payload (as_bytes raw) ++ behind)
    → length (as_bytes raw) < 65536
    → let enabled = is_enabled (refresh (w.files 1) cache).1 in
      length (as_bytes (filter_devices_body raw enabled)) < 65536
      → (sent : Bytes) × (body : Text) × (fetch_devices_l
            (in_time (proxy_connection w code sent cache).to_client)
            (some code)
          ≡ (sent, ok body))
        × (parse_lines b (lines body) ≡ keep (λ x. enabled x.serial) (parse_lines b (lines raw)))
fetch_devices_l-proxy_connection w code cache raw behind b valid scalar connects short fits =
    let enabled : Text → Bool = is_enabled (refresh (w.files 1) cache).1 in
    let kept = filter_devices_body raw enabled in
    (
      frames code (codes "host:devices-l"),
      kept,
      ap (λ s. fetch_devices_l (in_time s) (some code))
            (list_reply w code cache raw behind valid scalar connects short)
          ∙ fetch_devices_l-okay code kept
              (All-filter_devices_body IsScalar enabled (inl (omega arith)) raw scalar) fits,
      parse-filter_devices_body b raw enabled,
    )

version_reported : evaluate_proxy_version (trim version) ≡ compatible version
unfolding version evaluate_proxy_version parse_version version_of judge codes trim before without_v
    strip_prefix split split_once from_str_radix number_of version_le min_proxy_version
version_reported = refl

version_ascii : All (λ c. c < 0x80) version
unfolding version codes
version_ascii = omega arith

version_short : length (as_bytes version) < 65536
version_short = rw (as_bytes_ascii version version_ascii) (unfold version codes in omega arith)

version_service_ascii : All (λ c. c < 0x80) proxy_version_service
unfolding proxy_version_service codes
version_service_ascii = omega arith

version_service_short : length (as_bytes proxy_version_service) < 65536
version_service_short =
    rw (as_bytes_ascii proxy_version_service version_service_ascii)
      (unfold proxy_version_service codes in omega arith)

version_reply :
    (w : World) (code : Text) (cache : PolicyCache)
    → IsPairCode code
    → (proxy_connection w code (frames code proxy_version_service) cache).to_client
      ≡ write_okay ++ write_okay_payload (as_bytes version)
unfolding serve_service refused_with
version_reply w code cache valid =
    let served =
      proxy_connection-service w code valid proxy_version_service [] cache
        (ascii-IsScalar proxy_version_service version_service_ascii) version_service_short in
    ap (λ s. (proxy_connection w code (write_service (auth_service code) ++ s) cache).to_client)
      (sym (append-nil (write_service proxy_version_service)))
    ∙ (ap Connection.to_client served ∙ rw (text_eq_refl proxy_version_service, serve_service))

fetch_proxy_version-okay :
    (code : Text)
    → fetch_proxy_version
        (in_time (write_okay ++ write_okay_payload (as_bytes version)))
        (some code)
      ≡ (frames code proxy_version_service, ok (trim version))
unfolding fetch_proxy_version read_body timeout
fetch_proxy_version-okay code =
    query-okay code proxy_version_service (write_okay_payload (as_bytes version)) _
    ∙ rw (
      okay_payload_end (as_bytes version) version_short,
      from_utf8_lossy-as_bytes version (ascii-IsScalar version version_ascii),
    )

-- A hub lets a proxy of this release through its gate of versions, with every pair code that they share and
-- whatever the adb server behind the proxy does: the proxy answers for itself.
pub check_proxy_compat-proxy_connection :
    (w : World) (code : Text) (cache : PolicyCache)
    → IsPairCode code
    → check_proxy_compat
        (in_time (proxy_connection w code (frames code proxy_version_service) cache).to_client)
        (some code)
      ≡ compatible version
unfolding check_proxy_compat compat_of
check_proxy_compat-proxy_connection w code cache valid =
    ap (λ s. check_proxy_compat (in_time s) (some code)) (version_reply w code cache valid)
    ∙ (rw (fetch_proxy_version-okay code, compat_of) version_reported)
