-- ===== src/Text/Number/Laws.antt =====
-- A printed number is read back, and has as many digits as it needs.
use adbproxy_rs.Base.{
  ℕ, zero, suc, ◌+◌, ◌-◌, ◌*◌, ◌/◌, ◌%◌, ◌<◌, ◌≤◌, ◌≡◌, ◌≢◌, ◌⊎◌, ◌∙◌, refl, ap, false, some, [],
  ◌∷◌, length, All, ◌==◌, arith, Bool-cases, Option-cases, inl, inr,
}
use adbproxy_rs.Text.{Text}
use adbproxy_rs.Text.Number.{
  digit_char, digits_loop, to_decimal, to_hex, to_hex4, pad, digit_value, read_digits,
  from_str_radix,
}

-- A digit in lower case.
abbrev pub IsHexDigit : ℕ → Type 0
IsHexDigit c = ((b'0' ≤ c) × (c ≤ b'9')) ⊎ ((b'a' ≤ c) × (c ≤ b'f'))

digit_char-IsHexDigit : (d : ℕ) → d < 16 → IsHexDigit (digit_char d)
unfolding digit_char
digit_char-IsHexDigit d h = ground arith

digit_value-digit_char :
    (radix d : ℕ) → d < radix → radix ≤ 16 → digit_value radix (digit_char d) ≡ some d
unfolding digit_char digit_value
digit_value-digit_char radix d h k = ground arith

module _ (radix bound : ℕ) (two : 2 ≤ radix) (most : radix ≤ 16) where
  read_digit :
      (n d : ℕ) (out : Text)
      → d < radix
      → n * radix + d ≤ bound
      → read_digits radix bound n (digit_char d ∷ out) ≡ read_digits radix bound (n * radix + d) out
  unfolding read_digits
  read_digit n d out h fits = ground (arith, digit_value-digit_char radix d h most)

  div_mod : (n : ℕ) → n / radix * radix + n % radix ≡ n
  div_mod n = grind arith

  div_less : (n fuel : ℕ) → n ≤ suc fuel → n / radix ≤ fuel
  div_less n fuel h = grind arith

  div_le : (n : ℕ) → n / radix ≤ n
  div_le n = grind arith

  mod_less : (n : ℕ) → n % radix < radix
  mod_less n = grind arith

  -- Reading what the loop wrote gives the number, and goes on behind it.
  read_digits-digits_loop :
      (fuel n : ℕ) (out : Text)
      → n ≤ fuel
      → n ≤ bound
      → read_digits radix bound 0 (digits_loop fuel radix n out) ≡ read_digits radix bound n out
  unfolding digits_loop
  read_digits-digits_loop zero n out h fits = ap (λ k. read_digits radix bound k out) (omega arith)
  read_digits-digits_loop (suc fuel) n out h fits = elim (Bool-cases (n == 0)) [
    | inl e ↦ rw e (ap (λ k. read_digits radix bound k out) (ground arith))
    | inr e ↦ rw e (
        read_digits-digits_loop fuel (n / radix) (digit_char (n % radix) ∷ out) (div_less n fuel h)
          (omega (arith, div_le n))
        ∙ read_digit (n / radix) (n % radix) out (mod_less n) (omega (arith, div_mod n))
        ∙ ap (λ k. read_digits radix bound k out) (div_mod n))
  ]

-- What starts with no `+` is read from its first digit.
from_str_radix-read_digits :
    (radix bound c : ℕ) (s : Text)
    → c ≢ b'+'
    → from_str_radix radix bound (c ∷ s) ≡ read_digits radix bound 0 (c ∷ s)
unfolding from_str_radix
from_str_radix-read_digits radix bound c [] h = ground arith
from_str_radix-read_digits radix bound c (d ∷ s) h = ground arith

pub from_str_radix_digits :
    (radix bound : ℕ) (s : Text)
    → s ≢ []
    → All IsHexDigit s
    → from_str_radix radix bound s ≡ read_digits radix bound 0 s
from_str_radix_digits radix bound [] h a = absurd (h refl)
from_str_radix_digits radix bound (c ∷ s) h a =
    from_str_radix-read_digits radix bound c s (omega (arith, a.0))

digits_loop-IsHexDigit :
    (fuel base n : ℕ) (out : Text)
    → 1 ≤ base
    → base ≤ 16
    → All IsHexDigit out
    → All IsHexDigit (digits_loop fuel base n out)
unfolding digits_loop
digits_loop-IsHexDigit zero base n out b c h = h
digits_loop-IsHexDigit (suc fuel) base n out b c h = elim (Bool-cases (n == 0)) [
  | inl e ↦ rw e h
  | inr e ↦ rw e (
      digits_loop-IsHexDigit fuel base (n / base) (digit_char (n % base) ∷ out) b c
        (digit_char-IsHexDigit (n % base) (grind arith), h))
]

digits_loop-ne-nil : (fuel base n : ℕ) (out : Text) → out ≢ [] → digits_loop fuel base n out ≢ []
unfolding digits_loop
digits_loop-ne-nil zero base n out h = h
digits_loop-ne-nil (suc fuel) base n out h = elim (Bool-cases (n == 0)) [
  | inl e ↦ rw e h
  | inr e ↦ rw e (digits_loop-ne-nil fuel base (n / base) (digit_char (n % base) ∷ out) cc)
]

pos_test : (n : ℕ) → (suc n == 0) ≡ false
pos_test n = ground arith

-- The print of a positive number is not empty.
digits_loop_pos : (base n : ℕ) → digits_loop (suc n) base (suc n) [] ≢ []
unfolding digits_loop
digits_loop_pos base n =
    rw (pos_test n) (digits_loop-ne-nil n base (suc n / base) (digit_char (suc n % base) ∷ []) cc)

to_decimal-digits_loop : (m : ℕ) → to_decimal (suc m) ≡ digits_loop (suc m) 10 (suc m) []
unfolding to_decimal
to_decimal-digits_loop m = rw (pos_test m)

read_nothing : (radix bound n : ℕ) → read_digits radix bound n [] ≡ some n
unfolding read_digits
read_nothing radix bound n = refl

-- The decimal print of a number is read back.
pub from_str_radix-to_decimal :
    (bound n : ℕ) → n ≤ bound → from_str_radix 10 bound (to_decimal n) ≡ some n
from_str_radix-to_decimal bound zero h = unfold to_decimal from_str_radix in ground arith
from_str_radix-to_decimal bound (suc m) h = rw (to_decimal-digits_loop m) (
    from_str_radix_digits 10 bound _ (digits_loop_pos 10 m)
      (digits_loop-IsHexDigit (suc m) 10 (suc m) [] (omega arith) (omega arith) tt)
    ∙ read_digits-digits_loop 10 bound (omega arith) (omega arith) (suc m) (suc m) [] (omega arith)
        h
    ∙ read_nothing 10 bound (suc m))

-- Two numbers with one decimal print are one.
pub to_decimal-injective : (a b : ℕ) → to_decimal a ≡ to_decimal b → a ≡ b
to_decimal-injective a b e = cc (
  ap (from_str_radix 10 (a + b)) e,
  from_str_radix-to_decimal (a + b) a (omega arith),
  from_str_radix-to_decimal (a + b) b (omega arith),
)

-- Sixteen to the power of the first argument.
abbrev pub top : ℕ → ℕ
top zero = 1
top (suc k) = 16 * top k

length-digits_loop :
    (k fuel n : ℕ) (out : Text) → n < top k → length (digits_loop fuel 16 n out) ≤ k + length out
unfolding digits_loop
length-digits_loop k zero n out h = omega arith
length-digits_loop zero (suc fuel) n out h = elim (Bool-cases (n == 0)) [
  | inl e ↦ rw e (omega arith)
  | inr e ↦ absurd (ground arith)
]
length-digits_loop (suc k) (suc fuel) n out h = elim (Bool-cases (n == 0)) [
  | inl e ↦ rw e (omega arith)
  | inr e ↦
      rw e (
        omega (arith, length-digits_loop k fuel (n / 16) (digit_char (n % 16) ∷ out) (omega arith)))
]

length-pad : (k : ℕ) (s : Text) → length (pad k s) ≡ k + length s
unfolding pad
length-pad zero s = omega arith
length-pad (suc k) s = omega (arith, length-pad k s)

pad-IsHexDigit : (k : ℕ) (s : Text) → All IsHexDigit s → All IsHexDigit (pad k s)
unfolding pad
pad-IsHexDigit zero s h = h
pad-IsHexDigit (suc k) s h = (omega arith, pad-IsHexDigit k s h)

read_zero : (bound : ℕ) (s : Text) → read_digits 16 bound 0 (b'0' ∷ s) ≡ read_digits 16 bound 0 s
unfolding read_digits digit_value
read_zero bound s = ground arith

read_digits-pad :
    (bound k : ℕ) (s : Text) → read_digits 16 bound 0 (pad k s) ≡ read_digits 16 bound 0 s
unfolding pad
read_digits-pad bound zero s = refl
read_digits-pad bound (suc k) s = read_zero bound (pad k s) ∙ read_digits-pad bound k s

to_hex-digits_loop : (m : ℕ) → to_hex (suc m) ≡ digits_loop (suc m) 16 (suc m) []
unfolding to_hex
to_hex-digits_loop m = rw (pos_test m)

to_hex-IsHexDigit : (n : ℕ) → All IsHexDigit (to_hex n)
to_hex-IsHexDigit zero = unfold to_hex in omega arith
to_hex-IsHexDigit (suc m) =
    rw (to_hex-digits_loop m)
      (digits_loop-IsHexDigit (suc m) 16 (suc m) [] (omega arith) (omega arith) tt)

length-to_hex : (n : ℕ) → n < 65536 → length (to_hex n) ≤ 4
length-to_hex zero h = unfold to_hex in omega arith
length-to_hex (suc m) h =
    rw (to_hex-digits_loop m) (omega (arith, length-digits_loop 4 (suc m) (suc m) [] h))

read_digits-to_hex : (bound n : ℕ) → n ≤ bound → read_digits 16 bound 0 (to_hex n) ≡ some n
read_digits-to_hex bound zero h = unfold to_hex read_digits digit_value in ground arith
read_digits-to_hex bound (suc m) h = rw (to_hex-digits_loop m) (
    read_digits-digits_loop 16 bound (omega arith) (omega arith) (suc m) (suc m) [] (omega arith) h
    ∙ read_nothing 16 bound (suc m))

pub to_hex4-IsHexDigit : (n : ℕ) → All IsHexDigit (to_hex4 n)
unfolding to_hex4
to_hex4-IsHexDigit n = pad-IsHexDigit (4 - length (to_hex n)) (to_hex n) (to_hex-IsHexDigit n)

-- Below 65536 the number takes four digits exactly.
pub length-to_hex4 : (n : ℕ) → n < 65536 → length (to_hex4 n) ≡ 4
unfolding to_hex4
length-to_hex4 n h = omega (arith, length-pad (4 - length (to_hex n)) (to_hex n), length-to_hex n h)

ne-nil_of_length : (s : Text) → 0 < length s → s ≢ []
ne-nil_of_length [] h = absurd (omega arith)
ne-nil_of_length (c ∷ s) h = cc

read_digits-to_hex4 :
    (bound n : ℕ) → read_digits 16 bound 0 (to_hex4 n) ≡ read_digits 16 bound 0 (to_hex n)
unfolding to_hex4
read_digits-to_hex4 bound n = read_digits-pad bound (4 - length (to_hex n)) (to_hex n)

pub from_str_radix-to_hex4 :
    (bound n : ℕ) → n ≤ bound → n < 65536 → from_str_radix 16 bound (to_hex4 n) ≡ some n
from_str_radix-to_hex4 bound n h k =
    from_str_radix_digits 16 bound (to_hex4 n)
      (ne-nil_of_length (to_hex4 n) (omega (arith, length-to_hex4 n k))) (to_hex4-IsHexDigit n)
    ∙ read_digits-to_hex4 bound n
    ∙ read_digits-to_hex bound n h

digit_value_lt : (radix c d : ℕ) → digit_value radix c ≡ some d → d < radix
unfolding digit_value
digit_value_lt radix c d h = ground arith

read_step : (n d t k : ℕ) → d < 16 → t + 1 ≤ (n * 16 + d + 1) * k → t + 1 ≤ (n + 1) * (16 * k)
read_step n d t k h e = grind arith

-- What hexadecimal digits can spell behind a number.
read_digits_bound :
    (bound n : ℕ) (s : Text) {r : ℕ}
    → read_digits 16 bound n s ≡ some r
    → r + 1 ≤ (n + 1) * top (length s)
unfolding read_digits
read_digits_bound bound n [] h = ground arith
read_digits_bound bound n (c ∷ s) {r} h = elim (Option-cases (digit_value 16 c)) [
  | inl e ↦ ground arith
  | inr (d, e) ↦
      read_step n d r (top (length s)) (digit_value_lt 16 c d e)
        (ground (arith, read_digits_bound bound (n * 16 + d) s {r = r}))
]

pub top_mono : (j k : ℕ) → j ≤ k → top j ≤ top k
top_mono zero zero h = omega arith
top_mono zero (suc k) h = omega (arith, top_mono zero k (omega arith))
top_mono (suc j) zero h = absurd (omega arith)
top_mono (suc j) (suc k) h = omega (arith, top_mono j k (omega arith))

-- A number that is read from a text in base sixteen is below sixteen to the length of the text.
pub from_str_radix-lt-top :
    (bound : ℕ) (s : Text) {r : ℕ} → from_str_radix 16 bound s ≡ some r → r < top (length s)
from_str_radix-lt-top bound [] h = unfold from_str_radix in cc
from_str_radix-lt-top bound (c ∷ []) {r} h =
    unfold from_str_radix in ground (arith, read_digits_bound bound 0 (c ∷ []) {r = r})
from_str_radix-lt-top bound (c ∷ d ∷ s) {r} h =
    unfold from_str_radix in
    ground (
      arith,
      read_digits_bound bound 0 (c ∷ d ∷ s) {r = r},
      read_digits_bound bound 0 (d ∷ s) {r = r},
    )
