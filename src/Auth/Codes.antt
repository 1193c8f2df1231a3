-- ===== src/Auth/Codes.antt =====
-- Which pair codes are valid.
use adbproxy_rs.Base.{
  ℕ, suc, ◌≤◌, ◌<◌, ◌≡◌, ◌∙◌, ◌⊎◌, ◌↔◌, refl, ap, Bool, true, false, List, [], ◌∷◌, ◌++◌, All, all,
  length, arith, ◌==◌, ltb, Bool-cases, inl, inr, ◌&&◌, &&-eq-true, sym, all_below, all_below_sound,
}
use adbproxy_rs.Text.{Text, codes, is_ascii_digit, is_ascii_uppercase}
use adbproxy_rs.Text.Utf8.{as_bytes, byte_len, encode_char, as_bytes_ascii}
use adbproxy_rs.Io.{ok}
use adbproxy_rs.Auth.{
  pair_code_len, is_code_byte, validate_pair_code, generate_pair_code, pair_alphabet, nth,
}

-- A letter from A to Z or a digit.
abbrev pub IsCodeChar : ℕ → Type 0
IsCodeChar c = ((b'A' ≤ c) × (c ≤ b'Z')) ⊎ ((b'0' ≤ c) × (c ≤ b'9'))

abbrev pub IsPairCode : Text → Type 0
IsPairCode s = (length s ≡ 8) × All IsCodeChar s

pub code_ascii : (s : Text) → All IsCodeChar s → All (λ c. c < 0x80) s
code_ascii [] h = tt
code_ascii (c ∷ s) (h, hs) = (omega arith, code_ascii s hs)

all_code_bytes : (s : Text) → All IsCodeChar s → all is_code_byte s ≡ true
unfolding is_code_byte is_ascii_digit is_ascii_uppercase
all_code_bytes [] h = refl
all_code_bytes (c ∷ s) (h, hs) = ground (arith, all_code_bytes s hs)

validate_complete : (s : Text) → IsPairCode s → validate_pair_code s ≡ ok tt
unfolding validate_pair_code byte_len
validate_complete s (n, h) = rw (as_bytes_ascii s (code_ascii s h), n, all_code_bytes s h)

-- The bytes of a character beyond ASCII are none of a code.
encode_wide : (c : ℕ) → ltb c 0x80 ≡ false → all is_code_byte (encode_char c) ≡ false
unfolding encode_char is_code_byte is_ascii_digit is_ascii_uppercase
encode_wide c h = ground arith

all-append : (p : ℕ → Bool) (xs ys : List ℕ) → all p (xs ++ ys) ≡ (all p xs && all p ys)
all-append p [] ys = refl
all-append p (x ∷ xs) ys = ground (arith, all-append p xs ys)

IsCodeChar-sound : (c : ℕ) → all is_code_byte (encode_char c) ≡ true → IsCodeChar c
unfolding encode_char is_code_byte is_ascii_digit is_ascii_uppercase
IsCodeChar-sound c h = ground arith

code_bytes_sound : (s : Text) → all is_code_byte (as_bytes s) ≡ true → All IsCodeChar s
unfolding as_bytes
code_bytes_sound [] h = tt
code_bytes_sound (c ∷ s) h =
    let parts = &&-eq-true _ _ (sym (all-append is_code_byte (encode_char c) (as_bytes s)) ∙ h) in
    (IsCodeChar-sound c parts.0, code_bytes_sound s parts.1)

validate_sound : (s : Text) → validate_pair_code s ≡ ok tt → IsPairCode s
unfolding validate_pair_code byte_len
validate_sound s h = elim (Bool-cases (length (as_bytes s) == pair_code_len)) [
  | inr e ↦ ground arith
  | inl e ↦ elim (Bool-cases (all is_code_byte (as_bytes s))) [
    | inr f ↦ ground arith
    | inl f ↦
        let chars = code_bytes_sound s f in
        let same = ap length (as_bytes_ascii s (code_ascii s chars)) in (ground arith, chars)
  ]
]

-- A pair code is valid exactly if it has eight characters, each a letter from A to Z or a digit.
pub validate_pair_code_iff : (s : Text) → (validate_pair_code s ≡ ok tt) ↔ IsPairCode s
validate_pair_code_iff s = (validate_sound s, validate_complete s)

alphabet_table : all_below 36 (λ i. is_code_byte (nth pair_alphabet i)) ≡ true
unfolding is_code_byte is_ascii_digit is_ascii_uppercase nth pair_alphabet codes
alphabet_table = refl

code_byte_sound : (c : ℕ) → is_code_byte c ≡ true → IsCodeChar c
unfolding is_code_byte is_ascii_digit is_ascii_uppercase
code_byte_sound c h = ground arith

length-generate : (is : List ℕ) → length (generate_pair_code is) ≡ length is
unfolding generate_pair_code
length-generate [] = refl
length-generate (i ∷ is) = ap suc (length-generate is)

generate_chars : (is : List ℕ) → All (λ i. i < 36) is → All IsCodeChar (generate_pair_code is)
unfolding generate_pair_code
generate_chars [] h = tt
generate_chars (i ∷ is) (h, hs) = (
  code_byte_sound _
      (all_below_sound 36 (λ j. is_code_byte (nth pair_alphabet j)) i alphabet_table h),
  generate_chars is hs,
)

-- Eight random indices into the alphabet, whatever they are, give a valid pair code.
pub validate-generate_pair_code :
    (is : List ℕ)
    → length is ≡ 8
    → All (λ i. i < 36) is
    → validate_pair_code (generate_pair_code is) ≡ ok tt
validate-generate_pair_code is n h =
    validate_complete (generate_pair_code is) (length-generate is ∙ n, generate_chars is h)
