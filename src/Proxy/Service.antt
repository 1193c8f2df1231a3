-- ===== src/Proxy/Service.antt =====
-- What a proxy makes of a client that it lets in: a service behind the handshake, the list of the devices, and
-- the lists that follow.
use adbproxy_rs.Base.{
  suc, ◌≤◌, ◌<◌, ◌≡◌, ◌∙◌, refl, sym, subst, ap, true, none, List, [], ◌∷◌, ◌++◌, length,
  length-append, All, arith, ℕ,
}
use adbproxy_rs.Text.{Text, Bytes, codes, text_eq, strip_prefix}
use adbproxy_rs.Text.Equality.{text_eq_refl}
use adbproxy_rs.Text.Utf8.{
  IsScalar, as_bytes, as_bytes_ascii, from_utf8_lossy, from_utf8_lossy-as_bytes,
}
use adbproxy_rs.Text.Number.{to_hex4}
use adbproxy_rs.Io.{ok}
use adbproxy_rs.Protocol.{write_packet, write_okay, write_okay_payload, write_service, read_status}
use adbproxy_rs.Protocol.RoundTrip.{
  length_header, okay_payload, read_packet-write_packet, read_okay, ascii-IsScalar, okay_payload,
}
use adbproxy_rs.Auth.{accept_auth, auth_service}
use adbproxy_rs.Auth.Codes.{IsPairCode}
use adbproxy_rs.Auth.Handshake.{accept_auth-authenticate}
use adbproxy_rs.Compat.{proxy_version_service}
use adbproxy_rs.Policy.{is_enabled, filter_devices_body, transport_serial}
use adbproxy_rs.ProxyPolicy.{PolicyCache, refresh}
use adbproxy_rs.Proxy.{
  World, Connection, asked, done, serve_connected, follow_devices, list_devices, track_devices,
  forward, serve_enabled, serve_service, serve_packet, proxy_connection,
}
use adbproxy_rs.Proxy.Tracking.{packets, relayed, track_loop-packets}

module _ (w : World) (pair_code : Text) (valid : IsPairCode pair_code) where
  -- Behind a frame with the pair code, the next packet is the service that is served.
  pub proxy_connection-service :
      (service : Text) (rest : Bytes) (cache : PolicyCache)
      → All IsScalar service
      → length (as_bytes service) < 65536
      → proxy_connection w pair_code
          (write_service (auth_service pair_code) ++ (write_service service ++ rest))
          cache
        ≡ serve_service w service write_okay rest cache
  unfolding proxy_connection serve_packet write_service
  proxy_connection-service service rest cache scalar short =
      let behind = write_service service ++ rest in
      let accepted : accept_auth (write_service (auth_service pair_code) ++ behind) pair_code
          ≡ (write_okay, ok (true, behind)) =
        rw (accept_auth-authenticate pair_code pair_code behind valid, text_eq_refl pair_code)
          refl in
      rw (
        accepted,
        read_packet-write_packet (as_bytes service) rest short,
        from_utf8_lossy-as_bytes service scalar,
        proxy_connection,
        serve_packet,
        accepted,
      )

read_okay_bytes : (s : Bytes) → read_status (write_okay ++ s) ≡ ok (codes "OKAY", s)
unfolding write_okay
read_okay_bytes s = read_okay s

length-write_packet : (b : Bytes) → length b < 65536 → 4 ≤ length (write_packet b)
unfolding write_packet
length-write_packet b h =
    omega (arith, length-append (as_bytes (to_hex4 (length b))) b, length_header (length b) h)

-- Each packet has a header.
length-packets :
    (bodies : List Bytes)
    → All (λ b. length b < 65536) bodies
    → length bodies < suc (length (packets bodies))
length-packets [] h = omega arith
length-packets (b ∷ bs) (h, hs) =
    let packet = length-append (write_packet b) (packets bs) in
    omega (arith, length-packets bs hs, packet, length-write_packet b h)

module _ (w : World) where
  forward-connected :
      (service : Text) (out client : Bytes) (cache : PolicyCache) {upstream : Bytes}
      → w.connect ≡ ok upstream
      → forward w service out client cache
        ≡ serve_connected w service out client cache (ok upstream)
  unfolding forward
  forward-connected service out client cache connects =
      ap (serve_connected w service out client cache) connects

  -- The list of the devices, of an adb server that sends one.
  pub serve_list :
      (cache : PolicyCache) (client raw behind : Bytes)
      → w.connect ≡ ok (write_okay_payload raw ++ behind)
      → length raw < 65536
      → serve_service w (codes "host:devices-l") write_okay client cache
        ≡ asked w
            (codes "host:devices-l")
            (write_okay
              ++ write_okay_payload (
                  as_bytes (
                    filter_devices_body
                      (from_utf8_lossy raw)
                      (is_enabled (refresh (w.files 1) cache).1))))
            (refresh (w.files 1) cache).0
            (done w)
  unfolding codes text_eq strip_prefix proxy_version_service transport_serial serve_service
      serve_enabled serve_connected list_devices
  serve_list cache client raw behind connects short =
      forward-connected (codes "host:devices-l") write_okay client cache connects
      ∙ rw (okay_payload raw behind short, list_devices)

  track_devices-okay :
      (service : Text) (out : Bytes) (cache : PolicyCache) (s : Bytes)
      → track_devices w service out cache (write_okay ++ s) ≡ follow_devices w service out cache s
  unfolding track_devices
  track_devices-okay service out cache s =
      rw (read_okay_bytes s, text_eq_refl (codes "OKAY"), track_devices)

  follow_devices-packets :
      (service : Text) (out : Bytes) (cache : PolicyCache) (bodies : List Bytes)
      → ((j : ℕ) → w.refused j ≡ none)
      → All (λ b. length b < 65536) bodies
      → let c = follow_devices w service out cache (packets bodies) in
        (c.to_client ≡ out ++ (write_okay ++ relayed w 1 cache bodies)) × (c.result ≡ done w)
  unfolding follow_devices asked
  follow_devices-packets service out cache bodies takes short =
      let (t, r, sent, fine) =
        track_loop-packets w (suc (length (packets bodies))) 1 cache bodies takes short
          (length-packets bodies short) in
      rw (r, follow_devices) (rw sent refl, rw fine refl)

  -- The service of a client that follows the devices, to an adb server that follows them.
  serve_track :
      (cache : PolicyCache) (client : Bytes) (bodies : List Bytes)
      → w.connect ≡ ok (write_okay ++ packets bodies)
      → serve_service w (codes "host:track-devices-l") write_okay client cache
        ≡ follow_devices w (codes "host:track-devices-l") write_okay cache (packets bodies)
  unfolding codes text_eq strip_prefix proxy_version_service transport_serial serve_service
      serve_enabled serve_connected
  serve_track cache client bodies connects =
      forward-connected (codes "host:track-devices-l") write_okay client cache connects
      ∙ track_devices-okay (codes "host:track-devices-l") write_okay cache (packets bodies)

service_ascii : (s : Text) → All (λ c. c < 0x80) s → length s < 65536 → length (as_bytes s) < 65536
service_ascii s h short = rw (as_bytes_ascii s h) short

track_service_ascii : All (λ c. c < 0x80) (codes "host:track-devices-l")
unfolding codes
track_service_ascii = omega arith

track_service_short : length (codes "host:track-devices-l") < 65536
unfolding codes
track_service_short = omega arith

-- A client with the pair code of the proxy that follows the devices gets every list that the adb server sends,
-- in the order of the server and as one packet each, without the devices that are disabled when the list comes,
-- and the connection ends without an error. The adb server accepts the service, its lists have fewer than 65536
-- bytes, and the client takes all packets.
pub proxy_connection-track :
    (w : World) (pair_code : Text) (cache : PolicyCache) (bodies : List Bytes) (rest : Bytes)
    → IsPairCode pair_code
    → w.connect ≡ ok (write_okay ++ packets bodies)
    → ((j : ℕ) → w.refused j ≡ none)
    → All (λ b. length b < 65536) bodies
    → let c =
        proxy_connection w pair_code
          (write_service (auth_service pair_code)
            ++ (write_service (codes "host:track-devices-l") ++ rest))
          cache in
      (c.to_client ≡ write_okay ++ (write_okay ++ relayed w 1 cache bodies)) × (c.result ≡ done w)
proxy_connection-track w pair_code cache bodies rest valid connects takes short =
    let served =
      proxy_connection-service w pair_code valid (codes "host:track-devices-l") rest cache
        (ascii-IsScalar (codes "host:track-devices-l") track_service_ascii)
        (service_ascii (codes "host:track-devices-l") track_service_ascii track_service_short) in
    subst
      (λ (c : Connection).
        (c.to_client ≡ write_okay ++ (write_okay ++ relayed w 1 cache bodies))
        × (c.result ≡ done w))
      (sym (served ∙ serve_track w cache rest bodies connects))
      (follow_devices-packets w (codes "host:track-devices-l") write_okay cache bodies takes short)
