-- ===== src/Peercred/Words.antt =====
-- What is read from the front of a list of bytes does not depend on what stands behind it.
use adbproxy_rs.Base.{ℕ, ◌+◌, ◌<◌, ◌≡◌, refl, subst, [], ◌∷◌, ◌++◌, length, arith}
use adbproxy_rs.Text.{Bytes}
use adbproxy_rs.Peercred.{
  Ends, word16, word32, byte_at, drop_bytes, matches, words32, uid_of, msg_size,
}

drop_bytes-append : (xs ys : Bytes) → drop_bytes (length xs) (xs ++ ys) ≡ ys
unfolding drop_bytes
drop_bytes-append [] ys = refl
drop_bytes-append (x ∷ xs) ys = drop_bytes-append xs ys

pub drop_exact : (n : ℕ) (xs ys : Bytes) → length xs ≡ n → drop_bytes n (xs ++ ys) ≡ ys
drop_exact n xs ys h = subst (λ k. drop_bytes k (xs ++ ys) ≡ ys) h (drop_bytes-append xs ys)

byte_at-append : (i : ℕ) (xs ys : Bytes) → i < length xs → byte_at i (xs ++ ys) ≡ byte_at i xs
unfolding byte_at
byte_at-append i [] ys h = absurd (omega arith)
byte_at-append ℕ.zero (x ∷ xs) ys h = refl
byte_at-append (ℕ.suc i) (x ∷ xs) ys h = byte_at-append i xs ys (omega arith)

word16-append : (i : ℕ) (xs ys : Bytes) → i + 1 < length xs → word16 i (xs ++ ys) ≡ word16 i xs
unfolding word16
word16-append i xs ys h = rw (byte_at-append i xs ys (omega arith), byte_at-append (i + 1) xs ys h)

word32-append : (i : ℕ) (xs ys : Bytes) → i + 3 < length xs → word32 i (xs ++ ys) ≡ word32 i xs
unfolding word32
word32-append i xs ys h =
    rw (word16-append i xs ys (omega arith), word16-append (i + 2) xs ys (omega arith))

words32-append : (i : ℕ) (xs ys : Bytes) → i + 15 < length xs → words32 i (xs ++ ys) ≡ words32 i xs
unfolding words32
words32-append i xs ys h = rw (
  word32-append i xs ys (omega arith),
  word32-append (i + 4) xs ys (omega arith),
  word32-append (i + 8) xs ys (omega arith),
  word32-append (i + 12) xs ys (omega arith),
)

-- The tests on a message read nothing behind it.
pub matches-append :
    (e : Ends) (msg rest : Bytes) → length msg ≡ msg_size → matches e (msg ++ rest) ≡ matches e msg
unfolding matches
matches-append e msg rest h = rw (
  byte_at-append 0 msg rest (omega arith),
  word16-append 4 msg rest (omega arith),
  word16-append 6 msg rest (omega arith),
  words32-append 8 msg rest (omega arith),
  words32-append 24 msg rest (omega arith),
)

pub uid_of-append : (msg rest : Bytes) → length msg ≡ msg_size → uid_of (msg ++ rest) ≡ uid_of msg
unfolding uid_of
uid_of-append msg rest h = word32-append 64 msg rest (omega arith)
