-- ===== src/Auth/Handshake.antt =====
-- Hub and proxy agree on who may connect.
use adbproxy_rs.Base.{
  ◌<◌, ◌≡◌, ◌∙◌, refl, sym, ap, true, false, some, [], ◌++◌, All, All-append, length, length-append,
  arith, append-nil, Bool-cases, Option-cases, inl, inr, if◌then◌else◌,
}
use adbproxy_rs.Text.{Text, Bytes, codes, text_eq, strip_prefix}
use adbproxy_rs.Text.Equality.{text_eq_refl, text_eq_sound, strip_prefix-append, strip_prefix_sound}
use adbproxy_rs.Text.Utf8.{
  as_bytes, as_bytes_ascii, from_utf8, from_utf8-as_bytes, from_utf8_lossy-as_bytes,
}
use adbproxy_rs.Io.{ok, err, io_error, permission_denied, Result-cases}
use adbproxy_rs.Protocol.{read_packet, write_packet, write_okay, write_fail, write_service}
use adbproxy_rs.Protocol.RoundTrip.{
  read_packet-write_packet, read_okay_end, read_fail, fail-ne-okay, ascii-IsScalar,
}
use adbproxy_rs.Auth.{
  auth_prefix, auth_service, parse_auth_service, validate_pair_code, codes_match, denied,
  authenticate_answer, authenticate_stream, accept_service, accept_auth, is_eof,
}
use adbproxy_rs.Auth.Codes.{IsPairCode, code_ascii, validate_pair_code_iff}

parse_auth_service-auth_service :
    (code : Text) → IsPairCode code → parse_auth_service (auth_service code) ≡ ok code
unfolding parse_auth_service auth_service
parse_auth_service-auth_service code h =
    rw (strip_prefix-append auth_prefix code, (validate_pair_code_iff code).1 h, parse_auth_service)

prefix_ascii : All (λ c. c < 0x80) auth_prefix
unfolding auth_prefix codes
prefix_ascii = omega arith

length_prefix : length auth_prefix ≡ 5
unfolding auth_prefix codes
length_prefix = refl

module _ (code : Text) (valid : IsPairCode code) where
  service_ascii : All (λ c. c < 0x80) (auth_service code)
  unfolding auth_service
  service_ascii = All-append (λ c. c < 0x80) auth_prefix code prefix_ascii (code_ascii code valid.1)

  service_bytes : as_bytes (auth_service code) ≡ auth_service code
  service_bytes = as_bytes_ascii (auth_service code) service_ascii

  service_short : length (as_bytes (auth_service code)) < 65536
  service_short =
      rw service_bytes (
        unfold auth_service in
        omega (arith, length-append auth_prefix code, length_prefix, valid.0))

  service_read :
      (rest : Bytes)
      → read_packet (write_service (auth_service code) ++ rest)
        ≡ ok (as_bytes (auth_service code), rest)
  unfolding write_service
  service_read rest = read_packet-write_packet (as_bytes (auth_service code)) rest service_short

  service_text : from_utf8 (as_bytes (auth_service code)) ≡ some (auth_service code)
  service_text =
      from_utf8-as_bytes (auth_service code) (ascii-IsScalar (auth_service code) service_ascii)

-- What the proxy makes of the frame of a hub.
pub accept_auth-authenticate :
    (code expected : Text) (rest : Bytes)
    → IsPairCode code
    → accept_auth (write_service (auth_service code) ++ rest) expected ≡ (
        if text_eq expected code
        then (write_okay, ok (true, rest))
        else (write_fail (codes "unauthorized"), ok (false, rest)))
unfolding accept_auth accept_service codes_match
accept_auth-authenticate code expected rest valid = rw (
  service_read code valid rest,
  service_text code valid,
  parse_auth_service-auth_service code valid,
  accept_auth,
  accept_service,
)

answer_okay : authenticate_answer write_okay ≡ ok []
unfolding authenticate_answer write_okay
answer_okay = rw (read_okay_end, text_eq_refl (codes "OKAY"), authenticate_answer)

unauthorized_ascii : All (λ c. c < 0x80) (codes "unauthorized")
unfolding codes
unauthorized_ascii = omega arith

unauthorized_short : length (as_bytes (codes "unauthorized")) < 65536
unauthorized_short =
    rw (as_bytes_ascii (codes "unauthorized") unauthorized_ascii) (unfold codes in omega arith)

read_unauthorized :
    read_packet (write_packet (as_bytes (codes "unauthorized")))
    ≡ ok (as_bytes (codes "unauthorized"), [])
read_unauthorized =
    rw (sym (append-nil (write_packet (as_bytes (codes "unauthorized")))))
      (read_packet-write_packet (as_bytes (codes "unauthorized")) [] unauthorized_short)

answer_unauthorized :
    authenticate_answer (write_fail (codes "unauthorized"))
    ≡ err (io_error permission_denied (codes "unauthorized"))
unfolding authenticate_answer write_fail denied
answer_unauthorized = rw (
  read_fail (write_packet (as_bytes (codes "unauthorized"))),
  fail-ne-okay,
  text_eq_refl (codes "FAIL"),
  read_unauthorized,
  from_utf8_lossy-as_bytes (codes "unauthorized")
      (ascii-IsScalar (codes "unauthorized") unauthorized_ascii),
  authenticate_answer,
  denied,
)

-- A hub with a valid pair code and a proxy come to one verdict: if the code is the proxy's, the proxy
-- accepts and the hub goes on; if it is another, the proxy refuses and the hub stops with the error of a
-- refused permission. Either way the proxy has read the frame and nothing behind it.
pub handshake :
    (code expected : Text) (rest : Bytes)
    → IsPairCode code
    → let (out, result) = accept_auth ((authenticate_stream code []).0 ++ rest) expected in
      (result ≡ ok (text_eq expected code, rest))
      × (authenticate_answer out ≡ (
          if text_eq expected code
          then ok []
          else err (io_error permission_denied (codes "unauthorized"))))
unfolding authenticate_stream
handshake code expected rest valid =
    rw (accept_auth-authenticate code expected rest valid)
      (elim (Bool-cases (text_eq expected code)) [
        | inl e ↦ rw e (refl, answer_okay)
        | inr e ↦ rw e (refl, answer_unauthorized)
      ])

parse_auth_service_sound :
    (service : Text) {code : Text}
    → parse_auth_service service ≡ ok code
    → (service ≡ auth_service code) × IsPairCode code
unfolding parse_auth_service auth_service
parse_auth_service_sound service {code} h = elim (Option-cases (strip_prefix auth_prefix service)) [
  | inl e ↦ ground arith
  | inr (c, e) ↦ elim (Result-cases (validate_pair_code c)) [
    | inr (x, f) ↦ ground arith
    | inl (u, f) ↦
        let same : c ≡ code = ground arith in
        (
          rw (← same) (strip_prefix_sound auth_prefix service e),
          (validate_pair_code_iff code).0 (rw (← same) (f ∙ ap ok (Unit_eta u))),
        )
  ]
]
  where
    Unit_eta : (u : Unit {0}) → u ≡ tt
    Unit_eta tt = refl

accept_service_sound :
    (expected service : Text) (rest : Bytes) {out after : Bytes}
    → accept_service expected service rest ≡ (out, ok (true, after))
    → (service ≡ auth_service expected) × IsPairCode expected × (out ≡ write_okay) × (after ≡ rest)
unfolding accept_service codes_match
accept_service_sound expected service rest {out} {after} h =
    elim (Result-cases (parse_auth_service service)) [
      | inr (r, e) ↦ ground arith
      | inl (code, e) ↦ elim (Bool-cases (text_eq expected code)) [
        | inr f ↦ ground arith
        | inl f ↦
            let same = text_eq_sound expected code f in
            let (frame, valid) = parse_auth_service_sound service e in
            (rw same frame, rw same valid, ground arith, ground arith)
      ]
    ]

-- If the proxy accepts, its answer is OKAY, and the client's first packet was the service `auth:` with the
-- code that the proxy expects, which is a valid pair code. No other stream is accepted.
pub accept_auth_sound :
    (stream : Bytes) (expected : Text) {out after : Bytes}
    → accept_auth stream expected ≡ (out, ok (true, after))
    → (payload : Bytes) × (read_packet stream ≡ ok (payload, after))
      × (from_utf8 payload ≡ some (auth_service expected))
      × IsPairCode expected
      × (out ≡ write_okay)
unfolding accept_auth
accept_auth_sound stream expected {out} {after} h = elim (Result-cases (read_packet stream)) [
  | inr (e, p) ↦ elim (Bool-cases (is_eof e)) [ inl q ↦ ground arith | inr q ↦ ground arith ]
  | inl ((payload, rest), p) ↦ elim (Option-cases (from_utf8 payload)) [
    | inl q ↦ ground arith
    | inr (service, q) ↦
        let (frame, valid, okay, same) =
          accept_service_sound expected service rest {out = out} {after = after} (ground arith) in
        (payload, rw same p, q ∙ ap some frame, valid, okay)
  ]
]
