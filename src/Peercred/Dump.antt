-- ===== src/Peercred/Dump.antt =====
-- The users that are found in a dump of the kernel.
use adbproxy_rs.Base.{
  ltb, leb, ◌/◌, ◌%◌, ℕ, suc, ◌+◌, ◌≤◌, ◌<◌, ◌≡◌, ◌∙◌, refl, sym, ap, append_assoc, Bool, true,
  false, some, List, [], ◌∷◌, ◌++◌, keep, map, length, length-append, All, arith, if◌then◌else◌,
}
use adbproxy_rs.Text.{Bytes}
use adbproxy_rs.Io.{Result, ok, IoError}
use adbproxy_rs.Addr.{SocketAddr}
use adbproxy_rs.Tenant.{Uid}
use adbproxy_rs.Peercred.{
  Ends, word16, word32, byte_at, align, drop_bytes, matches, uid_of, matched, put_before, scan,
  recv_size, received, one_user, header_size, msg_size, parse_inet_diag_uid, fill_addrs,
  tcp_peer_uid,
}
use adbproxy_rs.Peercred.Words.{drop_exact, matches-append, uid_of-append}

-- A message of a dump: the rest of its header, its body, the attributes that the kernel adds to it, and what stands behind
-- them up to the next message.
pub record Message : Type 0 where
  pub other : Bytes
  pub body : Bytes
  pub attributes : Bytes
  pub padding : Bytes

-- The length that stands in the header. It does not count the padding.
abbrev pub size_of : Message → ℕ
size_of m = 88 + length m.attributes

-- Messages start at multiples of four.
abbrev pub IsMessage : Message → Type 0
IsMessage m =
    (length m.other ≡ 10)
    × (length m.body ≡ msg_size)
    × (length m.padding < 4)
    × ((size_of m + length m.padding) % 4 ≡ 0)
    × (size_of m < 65536)

-- A header with a length below 65536 and a type of one byte.
abbrev pub header : ℕ → ℕ → Bytes → Bytes
header len kind more = len % 256 ∷ len / 256 ∷ 0 ∷ 0 ∷ kind ∷ 0 ∷ more

-- The messages of `SOCK_DIAG_BY_FAMILY`, with the end of the dump behind them, or without it, where the kernel sends that
-- apart.
abbrev pub dump : Bool → List Message → Bytes
dump true [] = header 16 3 (0 ∷ 0 ∷ 0 ∷ 0 ∷ 0 ∷ 0 ∷ 0 ∷ 0 ∷ 0 ∷ 0 ∷ [])
dump false [] = []
dump done (m ∷ ms) =
    header (size_of m) 20 (m.other ++ (m.body ++ (m.attributes ++ (m.padding ++ dump done ms))))

drop_header :
    (len : ℕ) (o rest : Bytes)
    → length o ≡ 10
    → drop_bytes header_size (header len 20 (o ++ rest)) ≡ rest
unfolding drop_bytes
drop_header len o rest h = drop_exact 10 o rest h

read_length : (len kind : ℕ) (more : Bytes) → len < 65536 → word32 0 (header len kind more) ≡ len
unfolding word32 word16 byte_at
read_length len kind more h = omega (arith, h)

module _ (e : Ends) (m : Message) (rest : Bytes) (fits : IsMessage m) where
  abbrev framed : Bytes
  framed = header (size_of m) 20 (m.other ++ (m.body ++ (m.attributes ++ (m.padding ++ rest))))

  length-framed : length framed ≡ size_of m + length m.padding + length rest
  length-framed = omega (
    arith,
    fits,
    length-append m.other (m.body ++ (m.attributes ++ (m.padding ++ rest))),
    length-append m.body (m.attributes ++ (m.padding ++ rest)),
    length-append m.attributes (m.padding ++ rest),
    length-append m.padding rest,
  )

  matched-framed :
      matched e (size_of m) framed ≡ (if matches e m.body then uid_of m.body ∷ [] else [])
  unfolding matched
  matched-framed =
      let behind = m.attributes ++ (m.padding ++ rest) in
      let wide : leb (header_size + msg_size) (size_of m) ≡ true = ground arith in
      rw (
        drop_header (size_of m) m.other (m.body ++ behind) fits.0,
        matches-append e m.body behind fits.1,
        uid_of-append m.body behind fits.1,
        wide,
      )

  aligned : align (size_of m) ≡ size_of m + length m.padding
  unfolding align
  aligned = omega (arith, fits)

  drop_framed : drop_bytes (align (size_of m)) framed ≡ rest
  drop_framed =
      let front = header (size_of m) 20 (m.other ++ (m.body ++ (m.attributes ++ m.padding))) in
      let parts : front ++ rest ≡ framed = simp append_assoc in
      let whole : length front ≡ align (size_of m) = omega (
        arith,
        fits,
        aligned,
        length-append m.other (m.body ++ (m.attributes ++ m.padding)),
        length-append m.body (m.attributes ++ m.padding),
        length-append m.attributes m.padding,
      ) in
      ap (drop_bytes (align (size_of m))) (sym parts)
      ∙ drop_exact (align (size_of m)) front rest whole

  scan-framed :
      (n : ℕ)
      → scan e (suc n) framed
        ≡ put_before (if matches e m.body then uid_of m.body ∷ [] else []) (scan e n rest)
  unfolding scan
  scan-framed n =
      let kind : word16 4 framed ≡ 20 = unfold word16 byte_at in refl in
      let long : ltb (length framed) header_size ≡ false = ground (arith, length-framed) in
      let here : ltb (length framed) (size_of m) ≡ false = ground (arith, length-framed) in
      let some_bytes : ltb (size_of m) header_size ≡ false = ground arith in
      rw
        (
          read_length (size_of m) 20 _ fits.4,
          long,
          here,
          some_bytes,
          kind,
          matched-framed,
          drop_framed,
        )
        refl

-- The users of the messages that match, in their order.
abbrev pub matching : Ends → List Message → List Uid
matching e ms = map (λ (m : Message). uid_of m.body) (keep (λ (m : Message). matches e m.body) ms)

put_matching :
    (b : Bool) (u : Uid) (us : List Uid)
    → put_before (if b then u ∷ [] else []) (some (ok us)) ≡ some (ok (if b then u ∷ us else us))
unfolding put_before
put_matching true u us = refl
put_matching false u us = refl

matching-cons :
    (e : Ends) (m : Message) (ms : List Message)
    → matching e (m ∷ ms)
      ≡ (if matches e m.body then uid_of m.body ∷ matching e ms else matching e ms)
matching-cons e m ms = ground arith

scan-dump :
    (e : Ends) (n : ℕ) (done : Bool) (ms : List Message)
    → All IsMessage ms
    → length ms < n
    → scan e n (dump done ms) ≡ some (ok (matching e ms))
scan-dump e ℕ.zero done ms h k = absurd (omega arith)
scan-dump e (ℕ.suc n) true [] h k = unfold scan word32 word16 byte_at in refl
scan-dump e (ℕ.suc n) false [] h k = unfold scan in refl
scan-dump e (ℕ.suc n) done (m ∷ ms) (h, hs) k =
    scan-framed e m (dump done ms) h n
    ∙ (ap (put_before (if matches e m.body then uid_of m.body ∷ [] else []))
          (scan-dump e n done ms hs (omega (arith, k)))
        ∙ (put_matching (matches e m.body) (uid_of m.body) (matching e ms)
            ∙ ap (λ us. some (ok us)) (sym (matching-cons e m ms))))

length-dump :
    (e : Ends) (done : Bool) (ms : List Message)
    → All IsMessage ms
    → length ms ≤ length (dump done ms)
length-dump e true [] h = omega arith
length-dump e false [] h = omega arith
length-dump e done (m ∷ ms) (h, hs) =
    omega (arith, length-dump e done ms hs, length-framed e m (dump done ms) h)

parse_inet_diag_uid-dump :
    (e : Ends) (done : Bool) (ms : List Message)
    → All IsMessage ms
    → parse_inet_diag_uid (dump done ms) e ≡ one_user (matching e ms)
unfolding parse_inet_diag_uid
parse_inet_diag_uid-dump e done ms h =
    let enough : length ms < suc (length (dump done ms)) = omega (arith, length-dump e done ms h) in
    rw (scan-dump e (suc (length (dump done ms))) done ms h enough, parse_inet_diag_uid)

received_all : (n : ℕ) (s : Bytes) → length s ≤ n → received n s ≡ s
unfolding received
received_all ℕ.zero [] h = refl
received_all ℕ.zero (b ∷ s) h = absurd (omega arith)
received_all (ℕ.suc n) [] h = refl
received_all (ℕ.suc n) (b ∷ s) h = ap (λ r. b ∷ r) (received_all n s (omega arith))

-- If the first answer of the kernel is a dump that fits into the 8192 bytes of the buffer, with its end or without it, the user
-- of a connection is found if exactly one message of it is about a socket of its family with its two ports and its two
-- addresses: then it is the user of that message. If there is none, or there are several, the lookup is an error. The
-- messages may have attributes of any length behind their bodies, and are padded to a multiple of four.
pub tcp_peer_uid-dump :
    (kernel : Ends → Result IoError Bytes) (local peer : SocketAddr) (e : Ends) (done : Bool)
    (ms : List Message)
    → All IsMessage ms
    → fill_addrs peer local ≡ ok e
    → kernel e ≡ ok (dump done ms)
    → length (dump done ms) ≤ recv_size
    → tcp_peer_uid kernel local peer ≡ one_user (matching e ms)
unfolding tcp_peer_uid
tcp_peer_uid-dump kernel local peer e done ms h ends answer fits =
    rw (ends, answer, tcp_peer_uid, received_all recv_size (dump done ms) fits)
      (parse_inet_diag_uid-dump e done ms h)
