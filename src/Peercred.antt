-- ===== src/Peercred.antt =====
-- src/peercred.rs: the user at the other end of a connection, from the answer of the kernel. The kernel and the
-- memory of the program are little-endian here; on both sides of each comparison stand words that were read alike.
pub mod Scan
pub mod Words
pub mod Dump
use adbproxy_rs.Base.{
  ℕ, suc, ◌+◌, ◌*◌, ◌/◌, ◌%◌, Bool, true, false, ◌&&◌, ◌||◌, Option, none, some, List, [], ◌∷◌,
  ◌++◌, length, ltb, leb, ◌==◌, if◌then◌else◌,
}
use adbproxy_rs.Text.{Text, Bytes, codes, text_eq}
use adbproxy_rs.Io.{Result, ok, err, ◌>>=◌, IoError, io_error, invalid_input, not_found, other}
use adbproxy_rs.Addr.{SocketAddr, v4, v6}
use adbproxy_rs.Tenant.{Uid}

-- The first byte of the address in an address of the sixth version that holds one of the fourth.
unfoldable pub mapped_first : List ℕ → Option ℕ
mapped_first (a ∷ b ∷ c ∷ d ∷ e ∷ f ∷ hi ∷ lo ∷ []) =
    if text_eq (a ∷ b ∷ c ∷ d ∷ e ∷ f ∷ []) (0 ∷ 0 ∷ 0 ∷ 0 ∷ 0 ∷ 0xFFFF ∷ [])
    then some (hi / 256)
    else none
mapped_first _ = none

unfoldable pub is_127 : Option ℕ → Bool
is_127 none = false
is_127 (some n) = n == 127

unfoldable pub is_loopback : SocketAddr → Bool
is_loopback (v4 a b c d port) = a == 127
is_loopback (v6 segments port flow scope) =
    text_eq segments (0 ∷ 0 ∷ 0 ∷ 0 ∷ 0 ∷ 0 ∷ 0 ∷ 1 ∷ []) || is_127 (mapped_first segments)

abbrev pub af_inet : ℕ
af_inet = 2

abbrev pub af_inet6 : ℕ
af_inet6 = 10

-- The byte at an index; no index that is used lies behind the end, where this is a zero.
unfoldable pub byte_at : ℕ → Bytes → ℕ
byte_at i [] = 0
byte_at ℕ.zero (b ∷ bs) = b
byte_at (ℕ.suc i) (b ∷ bs) = byte_at i bs

-- `u16` and `u32` as they stand in memory.
unfoldable pub word16 : ℕ → Bytes → ℕ
word16 i s = byte_at i s + 256 * byte_at (i + 1) s

unfoldable pub word32 : ℕ → Bytes → ℕ
word32 i s = word16 i s + 65536 * word16 (i + 2) s

unfoldable pub words32 : ℕ → Bytes → List ℕ
words32 i s = word32 i s ∷ word32 (i + 4) s ∷ word32 (i + 8) s ∷ word32 (i + 12) s ∷ []

-- The two bytes of each segment.
unfoldable pub octets : List ℕ → Bytes
octets [] = []
octets (s ∷ ss) = s / 256 ∷ s % 256 ∷ octets ss

-- `port.to_be()`.
unfoldable pub to_be : ℕ → ℕ
to_be port = port / 256 % 256 + 256 * (port % 256)

-- One end of the connection that is looked for: its port and its address as they stand in a message.
pub record Ends : Type 0 where
  pub family : ℕ
  pub sport : ℕ
  pub dport : ℕ
  pub src : List ℕ
  pub dst : List ℕ

-- The family of `query_inet_diag_uid`, with `fill_addrs`.
unfoldable pub fill_addrs : SocketAddr → SocketAddr → Result IoError Ends
fill_addrs (v4 a b c d sport) (v4 a' b' c' d' dport) = ok (record {
  family = af_inet;
  sport = to_be sport;
  dport = to_be dport;
  src = word32 0 (a ∷ b ∷ c ∷ d ∷ []) ∷ 0 ∷ 0 ∷ 0 ∷ [];
  dst = word32 0 (a' ∷ b' ∷ c' ∷ d' ∷ []) ∷ 0 ∷ 0 ∷ 0 ∷ [];
})
fill_addrs (v6 s sport flow scope) (v6 d dport flow' scope') = ok (record {
  family = af_inet6;
  sport = to_be sport;
  dport = to_be dport;
  src = words32 0 (octets s);
  dst = words32 0 (octets d);
})
fill_addrs _ _ = err (io_error invalid_input (codes "src/dst address family mismatch"))

unfoldable pub head_word : List ℕ → ℕ
head_word [] = 0
head_word (w ∷ ws) = w

unfoldable pub addrs_equal : List ℕ → List ℕ → ℕ → Bool
addrs_equal a b family = if family == af_inet then head_word a == head_word b else text_eq a b

-- The tests on an `InetDiagMsg`, which stands at the start of the bytes.
unfoldable pub matches : Ends → Bytes → Bool
matches e msg =
    byte_at 0 msg == e.family
    && (word16 4 msg == e.sport
        && (word16 6 msg == e.dport
            && (addrs_equal (words32 8 msg) e.src e.family
                && addrs_equal (words32 24 msg) e.dst e.family)))

-- `msg.idiag_uid`.
unfoldable pub uid_of : Bytes → Uid
uid_of msg = word32 64 msg

-- The sizes of `NlMsgHdr` and `InetDiagMsg`.
abbrev pub header_size : ℕ
header_size = 16

abbrev pub msg_size : ℕ
msg_size = 72

-- `NLMSG_ALIGN(len)`.
unfoldable pub align : ℕ → ℕ
align len = (len + 3) / 4 * 4

unfoldable pub drop_bytes : ℕ → Bytes → Bytes
drop_bytes ℕ.zero s = s
drop_bytes (ℕ.suc n) [] = []
drop_bytes (ℕ.suc n) (b ∷ s) = drop_bytes n s

-- The users of the matching message at the start, if it is long enough to hold one.
unfoldable pub matched : Ends → ℕ → Bytes → List Uid
matched e len buf =
    let msg = drop_bytes header_size buf in
    if leb (header_size + msg_size) len && matches e msg then uid_of msg ∷ [] else []

unfoldable pub put_before :
    List Uid → Option (Result IoError (List Uid)) → Option (Result IoError (List Uid))
put_before us none = none
put_before us (some (err e)) = some (err e)
put_before us (some (ok vs)) = some (ok (us ++ vs))

-- The loop, on fuel, over what stands from the offset on.
unfoldable pub scan : Ends → ℕ → Bytes → Option (Result IoError (List Uid))
scan e ℕ.zero buf = none
scan e (ℕ.suc n) buf =
    let len = word32 0 buf in
    let next = scan e n (drop_bytes (align len) buf) in
    if ltb (length buf) header_size
    then some (ok [])
    else if ltb len header_size || ltb (length buf) len
    then some (ok [])
    else if word16 4 buf == 3
    then some (ok [])
    else if word16 4 buf == 2
    then some (err (io_error other (codes "netlink sock_diag error")))
    else put_before (matched e len buf) next

unfoldable pub one_user : List Uid → Result IoError Uid
one_user (uid ∷ []) = ok uid
one_user [] = err (io_error not_found (codes "no matching TCP socket for peer UID lookup"))
one_user (u ∷ v ∷ us) = err (io_error other (codes "ambiguous TCP peer UID (multiple matches)"))

-- The fuel is enough: a message has a header.
unfoldable pub parse_inet_diag_uid : Bytes → Ends → Result IoError Uid
parse_inet_diag_uid buf e = elim (scan e (suc (length buf)) buf) [
  | none ↦ one_user []
  | some r ↦ elim r [ err x ↦ err x | ok us ↦ one_user us ]
]

-- `recv` into the buffer: what of the kernel's first answer is behind that is lost.
abbrev pub recv_size : ℕ
recv_size = 8192

unfoldable pub received : ℕ → Bytes → Bytes
received ℕ.zero s = []
received (ℕ.suc n) [] = []
received (ℕ.suc n) (b ∷ s) = b ∷ received n s

-- `tcp_peer_uid`: the first message that the kernel sends back to the request is a parameter.
unfoldable pub tcp_peer_uid :
    (Ends → Result IoError Bytes) → SocketAddr → SocketAddr → Result IoError Uid
tcp_peer_uid kernel local peer = do
  e ← fill_addrs peer local
  buf ← kernel e
  parse_inet_diag_uid (received recv_size buf) e
