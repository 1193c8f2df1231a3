-- ===== src/Text/Number.antt =====
-- Numbers as text: `{:04x}`, the decimal `Display`, `from_str_radix` and `str::parse`.
pub mod Laws
pub mod Long
use adbproxy_rs.Base.{
  ℕ, zero, suc, ◌+◌, ◌-◌, ◌*◌, ◌/◌, ◌%◌, ◌^◌, ◌<◌, ◌≤◌, ◌≡◌, Bool, true, false, ◌&&◌, Option, none,
  some, List, [], ◌∷◌, ◌++◌, length, ltb, leb, ◌==◌, if◌then◌else◌, arith, ◌>>=◌,
}
use adbproxy_rs.Text.{Text}

-- A digit below sixteen, in lower case.
pub digit_char : ℕ → ℕ
digit_char d = if ltb d 10 then b'0' + d else b'a' + (d - 10)

-- The digits of a number in a base, before what is written already; the fuel bounds their number.
pub digits_loop : ℕ → ℕ → ℕ → Text → Text
digits_loop zero base n out = out
digits_loop (suc fuel) base n out =
    let rest = digits_loop fuel base (n / base) (digit_char (n % base) ∷ out) in
    if n == 0 then out else rest

-- `Display` of an unsigned integer; `n` rounds are enough, since each of them divides `n`.
unfoldable pub to_decimal : ℕ → Text
unfolding digits_loop digit_char
to_decimal n = if n == 0 then b'0' ∷ [] else digits_loop n 10 n []

-- `format!("{:x}")`.
pub to_hex : ℕ → Text
unfolding digits_loop digit_char
to_hex n = if n == 0 then b'0' ∷ [] else digits_loop n 16 n []

pub pad : ℕ → Text → Text
pad zero s = s
pad (suc k) s = b'0' ∷ pad k s

-- `format!("{:04x}")`: at least four digits, and more where the number needs them.
unfoldable pub to_hex4 : ℕ → Text
unfolding to_hex pad
to_hex4 n = pad (4 - length (to_hex n)) (to_hex n)

-- `char::to_digit(radix)`, for the radixes 10 and 16.
pub digit_value : ℕ → ℕ → Option ℕ
digit_value radix c =
    let v =
      if leb b'0' c && leb c b'9'
      then some (c - b'0')
      else if leb b'a' c && leb c b'f'
      then some (c - b'a' + 10)
      else if leb b'A' c && leb c b'F'
      then some (c - b'A' + 10)
      else none in
    elim v [ none ↦ none | some d ↦ if ltb d radix then some d else none ]

-- The digits after what is read already; `none` on another character or past the bound.
pub read_digits : ℕ → ℕ → ℕ → Text → Option ℕ
read_digits radix bound n [] = some n
read_digits radix bound n (c ∷ s) = elim (digit_value radix c) [
  | none ↦ none
  | some d ↦ elim (leb (n * radix + d) bound) [
    | true ↦ read_digits radix bound (n * radix + d) s
    | false ↦ none
  ]
]

-- `uN::from_str_radix(s, radix).ok()` for an unsigned type with the given greatest value: no
-- text is empty, one leading `+` is allowed, and it may not stand alone.
unfoldable pub from_str_radix : ℕ → ℕ → Text → Option ℕ
unfolding read_digits digit_value
from_str_radix radix bound [] = none
from_str_radix radix bound (c ∷ []) = if c == b'+' then none else read_digits radix bound 0 (c ∷ [])
from_str_radix radix bound (c ∷ d ∷ s) =
    if c == b'+' then read_digits radix bound 0 (d ∷ s) else read_digits radix bound 0 (c ∷ d ∷ s)
