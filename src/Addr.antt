-- ===== src/Addr.antt =====
-- `std::net::SocketAddr`, its `Display` and its comparison.
use adbproxy_rs.Base.{
  ℕ, zero, suc, ◌+◌, ◌/◌, ◌%◌, ◌≡◌, Bool, true, false, ◌&&◌, List, [], ◌∷◌, ◌++◌, map, ltb, ◌==◌,
  if◌then◌else◌, arith,
}
use adbproxy_rs.Text.{Text, codes, text_eq, join}
use adbproxy_rs.Text.Equality.{text_eq_sound, text_eq_refl}
use adbproxy_rs.Text.Number.{to_decimal, to_hex}

-- The four bytes and the port, or the eight segments of sixteen bits, the port, the flow and the scope.
pub data SocketAddr : Type 0 where
  v4 : (a b c d port : ℕ) → SocketAddr
  v6 : (segments : List ℕ) (port flow scope : ℕ) → SocketAddr

unfoldable pub port_of : SocketAddr → ℕ
port_of (v4 a b c d port) = port
port_of (v6 s port flow scope) = port

unfoldable pub addr_eq : SocketAddr → SocketAddr → Bool
addr_eq (v4 a b c d p) (v4 a' b' c' d' p') =
    a == a' && (b == b' && (c == c' && (d == d' && p == p')))
addr_eq (v6 s p f o) (v6 s' p' f' o') = text_eq s s' && (p == p' && (f == f' && o == o'))
addr_eq x y = false

pub addr_eq_sound : (x y : SocketAddr) → addr_eq x y ≡ true → x ≡ y
unfolding addr_eq
addr_eq_sound (v4 a b c d p) (v4 a' b' c' d' p') h = ground arith
addr_eq_sound (v6 s p f o) (v6 s' p' f' o') h = ground (arith, text_eq_sound s s')
addr_eq_sound (v4 a b c d p) (v6 s' p' f' o') h = ground arith
addr_eq_sound (v6 s p f o) (v4 a' b' c' d' p') h = ground arith

pub addr_eq_refl : (x : SocketAddr) → addr_eq x x ≡ true
unfolding addr_eq
addr_eq_refl (v4 a b c d p) = ground arith
addr_eq_refl (v6 s p f o) = ground (arith, text_eq_refl s)

-- `addr.ip()` of the first kind.
unfoldable pub show_v4 : ℕ → ℕ → ℕ → ℕ → Text
show_v4 a b c d =
    to_decimal a
    ++ (codes "." ++ (to_decimal b ++ (codes "." ++ (to_decimal c ++ (codes "." ++ to_decimal d)))))

-- The longest run of zero segments, the first of those: where it starts and how long it is. The
-- arguments are the position, the run that goes on and the longest so far.
longest_run : ℕ → ℕ × ℕ → ℕ × ℕ → List ℕ → ℕ × ℕ
longest_run i cur best [] = best
longest_run i (at, len) best (s ∷ rest) =
    let cur : ℕ × ℕ = if s == 0 then (if len == 0 then i else at, len + 1) else (0, 0) in
    longest_run (i + 1) cur (if ltb best.1 cur.1 then cur else best) rest

first_of_list : ℕ → List ℕ → List ℕ
first_of_list zero s = []
first_of_list (suc n) [] = []
first_of_list (suc n) (x ∷ s) = x ∷ first_of_list n s

without_first : ℕ → List ℕ → List ℕ
without_first zero s = s
without_first (suc n) [] = []
without_first (suc n) (x ∷ s) = without_first n s

hex_groups : List ℕ → Text
hex_groups s = join (codes ":") (map to_hex s)

show_v6_plain : List ℕ → Text
show_v6_plain s =
    let (at, len) = longest_run 0 (0, 0) (0, 0) s in
    if ltb 1 len
    then hex_groups (first_of_list at s) ++ (codes "::" ++ hex_groups (without_first (at + len) s))
    else hex_groups s

-- `Display` of an `Ipv6Addr`; an IPv4 address that is mapped keeps its dots.
unfoldable pub show_v6 : List ℕ → Text
unfolding longest_run first_of_list without_first hex_groups show_v6_plain show_v4
show_v6 (zero ∷ zero ∷ zero ∷ zero ∷ zero ∷ m ∷ x ∷ y ∷ []) =
    if m == 0xFFFF
    then codes "::ffff:" ++ show_v4 (x / 256) (x % 256) (y / 256) (y % 256)
    else show_v6_plain (0 ∷ 0 ∷ 0 ∷ 0 ∷ 0 ∷ m ∷ x ∷ y ∷ [])
show_v6 s = show_v6_plain s

scope_suffix : ℕ → Text
scope_suffix scope = if scope == 0 then [] else codes "%" ++ to_decimal scope

-- `Display` of a `SocketAddr`.
unfoldable pub show_addr : SocketAddr → Text
unfolding show_v4 show_v6 scope_suffix
show_addr (v4 a b c d port) = show_v4 a b c d ++ (codes ":" ++ to_decimal port)
show_addr (v6 s port flow scope) =
    codes "[" ++ (show_v6 s ++ (scope_suffix scope ++ (codes "]:" ++ to_decimal port)))
