-- ===== src/Text/Number/Long.antt =====
-- Hexadecimal prints of more than four digits.
use adbproxy_rs.Base.{
  ℕ, zero, suc, ◌+◌, ◌-◌, ◌/◌, ◌%◌, ◌<◌, ◌≤◌, ◌≡◌, ◌∙◌, refl, ap, sym, false, [], ◌∷◌, ◌++◌, length,
  length-append, ◌==◌, arith,
}
use adbproxy_rs.Text.{Text}
use adbproxy_rs.Text.Number.{digit_char, digits_loop, to_hex, pad, to_hex4}

digits_loop_none : (fuel : ℕ) (out : Text) → digits_loop fuel 16 0 out ≡ out
unfolding digits_loop
digits_loop_none zero out = refl
digits_loop_none (suc fuel) out = refl

digits_loop_step :
    (fuel n : ℕ) (out : Text)
    → 0 < n
    → digits_loop (suc fuel) 16 n out ≡ digits_loop fuel 16 (n / 16) (digit_char (n % 16) ∷ out)
unfolding digits_loop
digits_loop_step fuel n out h = let there : (n == 0) ≡ false = ground arith in rw there refl

-- What is written already stays behind the digits.
digits_loop-append :
    (fuel n : ℕ) (out more : Text)
    → digits_loop fuel 16 n (out ++ more) ≡ digits_loop fuel 16 n out ++ more
unfolding digits_loop
digits_loop-append zero n out more = refl
digits_loop-append (suc fuel) zero out more = refl
digits_loop-append (suc fuel) (suc n) out more =
    digits_loop_step fuel (suc n) (out ++ more) (omega arith)
    ∙ (digits_loop-append fuel (suc n / 16) (digit_char (suc n % 16) ∷ out) more
        ∙ ap (λ s. s ++ more) (sym (digits_loop_step fuel (suc n) out (omega arith))))

-- More fuel than the number makes no difference.
digits_loop_fuel :
    (f g n : ℕ) (out : Text) → n ≤ f → n ≤ g → digits_loop f 16 n out ≡ digits_loop g 16 n out
digits_loop_fuel f g zero out h k = digits_loop_none f out ∙ sym (digits_loop_none g out)
digits_loop_fuel zero g (suc n) out h k = absurd (omega arith)
digits_loop_fuel (suc f) zero (suc n) out h k = absurd (omega arith)
digits_loop_fuel (suc f) (suc g) (suc n) out h k =
    digits_loop_step f (suc n) out (omega arith)
    ∙ (digits_loop_fuel f g (suc n / 16) (digit_char (suc n % 16) ∷ out) (omega arith) (omega arith)
        ∙ sym (digits_loop_step g (suc n) out (omega arith)))

to_hex_loop : (n : ℕ) → 0 < n → to_hex n ≡ digits_loop n 16 n []
unfolding to_hex
to_hex_loop n h = let there : (n == 0) ≡ false = ground arith in rw there refl

-- The last digit of a number of more than one digit.
to_hex_last : (n : ℕ) → 16 ≤ n → to_hex n ≡ to_hex (n / 16) ++ (digit_char (n % 16) ∷ [])
to_hex_last zero h = absurd (omega arith)
to_hex_last (suc m) h =
    to_hex_loop (suc m) (omega arith)
    ∙ (digits_loop_step m (suc m) [] (omega arith)
        ∙ (digits_loop-append m (suc m / 16) [] (digit_char (suc m % 16) ∷ [])
            ∙ ap (λ s. s ++ (digit_char (suc m % 16) ∷ []))
                (digits_loop_fuel m (suc m / 16) (suc m / 16) [] (omega arith) (omega arith)
                  ∙ sym (to_hex_loop (suc m / 16) (omega arith)))))

length-to_hex_last : (n : ℕ) → 16 ≤ n → length (to_hex n) ≡ length (to_hex (n / 16)) + 1
length-to_hex_last n h =
    ap length (to_hex_last n h) ∙ length-append (to_hex (n / 16)) (digit_char (n % 16) ∷ [])

length-to_hex_pos : (n : ℕ) → 0 < length (to_hex n)
length-to_hex_pos zero = unfold to_hex in omega arith
length-to_hex_pos (suc m) =
    let shown : to_hex (suc m)
        ≡ digits_loop m 16 (suc m / 16) [] ++ (digit_char (suc m % 16) ∷ []) =
      to_hex_loop (suc m) (omega arith)
      ∙ (digits_loop_step m (suc m) [] (omega arith)
          ∙ digits_loop-append m (suc m / 16) [] (digit_char (suc m % 16) ∷ [])) in
    omega (
      arith,
      ap length shown,
      length-append (digits_loop m 16 (suc m / 16) []) (digit_char (suc m % 16) ∷ []),
    )

-- The last digit of a number of five digits or more, behind the print of the others with four digits at least.
pub to_hex4_last : (n : ℕ) → 65536 ≤ n → to_hex4 n ≡ to_hex4 (n / 16) ++ (digit_char (n % 16) ∷ [])
unfolding to_hex4 pad
to_hex4_last n h =
    let a = length-to_hex_last n (omega arith) in
    let b = length-to_hex_last (n / 16) (omega arith) in
    let c = length-to_hex_last (n / 16 / 16) (omega arith) in
    let d = length-to_hex_last (n / 16 / 16 / 16) (omega arith) in
    let e = length-to_hex_pos (n / 16 / 16 / 16 / 16) in
    let whole : 4 - length (to_hex n) ≡ 0 = omega (arith, a, b, c, d, e) in
    let most : 4 - length (to_hex (n / 16)) ≡ 0 = omega (arith, b, c, d, e) in
    rw (whole, most) (to_hex_last n (omega arith))
