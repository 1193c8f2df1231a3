-- ===== src/Text/Utf8.antt =====
-- `as_bytes`, `String::from_utf8` and `String::from_utf8_lossy`.
use adbproxy_rs.Base.{
  ℕ, zero, suc, ◌+◌, ◌-◌, ◌*◌, ◌/◌, ◌%◌, ◌<◌, ◌≤◌, ◌≡◌, refl, ◌⊎◌, ◌&&◌, Option, none, some, [],
  ◌∷◌, ◌++◌, ap, subst, ◌∙◌, inl, inr, Bool-cases, All, length, ltb, leb, ◌==◌, if◌then◌else◌,
  arith,
}
use adbproxy_rs.Text.{Text, Bytes}

-- A Unicode scalar value: what a `char` can be.
abbrev pub IsScalar : ℕ → Type 0
IsScalar c = (c < 0xD800) ⊎ ((0xDFFF < c) × (c < 0x110000))

unfoldable pub encode_char : ℕ → Bytes
encode_char c =
    if ltb c 0x80
    then c ∷ []
    else if ltb c 0x800
    then (0xC0 + c / 64) ∷ (0x80 + c % 64) ∷ []
    else if ltb c 0x10000
    then (0xE0 + c / 4096) ∷ (0x80 + c / 64 % 64) ∷ (0x80 + c % 64) ∷ []
    else (0xF0 + c / 262144) ∷ (0x80 + c / 4096 % 64) ∷ (0x80 + c / 64 % 64) ∷ (0x80 + c % 64) ∷ []

-- `s.as_bytes()`.
unfoldable pub as_bytes : Text → Bytes
unfolding encode_char
as_bytes [] = []
as_bytes (c ∷ s) = encode_char c ++ as_bytes s

-- `s.len()`, which counts bytes.
unfoldable pub byte_len : Text → ℕ
unfolding as_bytes
byte_len s = length (as_bytes s)

-- Where the decoder stands: before a character, or in one that lacks `suc more` bytes, of which
-- the next lies between `lo` and `hi`.
pub data State : Type 0 where
  start : State
  inside : (more acc lo hi : ℕ) → State

-- What a byte does: it ends a character, it leads to a state, or no character goes on with it.
pub data Move : Type 0 where
  emit : ℕ → Move
  go : State → Move
  bad : Move

-- Table 3-7 of the Unicode standard, by first bytes.
pub begin : ℕ → Move
begin b =
    if ltb b 0x80
    then emit b
    else if leb 0xC2 b && leb b 0xDF
    then go (inside 0 (b - 0xC0) 0x80 0xBF)
    else if b == 0xE0
    then go (inside 1 0 0xA0 0xBF)
    else if b == 0xED
    then go (inside 1 0xD 0x80 0x9F)
    else if leb 0xE1 b && leb b 0xEF
    then go (inside 1 (b - 0xE0) 0x80 0xBF)
    else if b == 0xF0
    then go (inside 2 0 0x90 0xBF)
    else if leb 0xF1 b && leb b 0xF3
    then go (inside 2 (b - 0xF0) 0x80 0xBF)
    else if b == 0xF4
    then go (inside 2 4 0x80 0x8F)
    else bad

pub continue : State → ℕ → Move
unfolding begin
continue start b = begin b
continue (inside more acc lo hi) b =
    let acc' = acc * 64 + (b - 0x80) in
    if leb lo b && leb b hi
    then elim more [ zero ↦ emit acc' | suc m ↦ go (inside m acc' 0x80 0xBF) ]
    else bad

prepend : ℕ → Option Text → Option Text
prepend c none = none
prepend c (some s) = some (c ∷ s)

-- What follows a first byte. A malformed sequence becomes the replacement, or fails if there is none.
after : Option ℕ → Move → (State → Option Text) → Option Text
after repl (emit c) next = prepend c (next start)
after repl (go st) next = next st
after repl bad next = elim repl [ none ↦ none | some r ↦ prepend r (next start) ]

-- What follows a later byte: the byte that shows an error is read again as a first byte.
within : Option ℕ → ℕ → Move → (State → Option Text) → Option Text
within repl b (emit c) next = prepend c (next start)
within repl b (go st) next = next st
within repl b bad next = elim repl [
  | none ↦ none
  | some r ↦ prepend r (after (some r) (begin b) next)
]

-- The decoder, in one pass.
pub decode : Option ℕ → State → Bytes → Option Text
unfolding after within
decode repl start [] = some []
decode repl (inside more acc lo hi) [] = elim repl [ none ↦ none | some r ↦ some (r ∷ []) ]
decode repl start (b ∷ bs) = after repl (begin b) (λ st. decode repl st bs)
decode repl (inside more acc lo hi) (b ∷ bs) =
    within repl b (continue (inside more acc lo hi) b) (λ st. decode repl st bs)

-- `String::from_utf8(bytes).ok()`.
unfoldable pub from_utf8 : Bytes → Option Text
unfolding decode prepend continue begin
from_utf8 bs = decode none start bs

-- `String::from_utf8_lossy(bytes)`: each maximal malformed part becomes U+FFFD.
unfoldable pub from_utf8_lossy : Bytes → Text
unfolding decode prepend continue begin
from_utf8_lossy bs = elim (decode (some 0xFFFD) start bs) [ none ↦ [] | some s ↦ s ]

begin_two : (h : ℕ) → 2 ≤ h → h < 32 → begin (0xC0 + h) ≡ go (inside 0 h 0x80 0xBF)
unfolding begin
begin_two h a b = ground arith

-- The bounds on the second byte rule out the long forms and the surrogates.
low_after : ℕ → ℕ
low_after h = if h == 0 then 0xA0 else 0x80

high_after : ℕ → ℕ
high_after h = if h == 0xD then 0x9F else 0xBF

begin_three : (h : ℕ) → h < 16 → begin (0xE0 + h) ≡ go (inside 1 h (low_after h) (high_after h))
unfolding begin low_after high_after
begin_three h a = ground arith

low_after_four : ℕ → ℕ
low_after_four h = if h == 0 then 0x90 else 0x80

high_after_four : ℕ → ℕ
high_after_four h = if h == 4 then 0x8F else 0xBF

begin_four :
    (h : ℕ) → h < 5 → begin (0xF0 + h) ≡ go (inside 2 h (low_after_four h) (high_after_four h))
unfolding begin low_after_four high_after_four
begin_four h a = ground arith

continue_last :
    (acc lo hi x : ℕ)
    → lo ≤ 0x80 + x
    → 0x80 + x ≤ hi
    → continue (inside 0 acc lo hi) (0x80 + x) ≡ emit (acc * 64 + x)
unfolding continue
continue_last acc lo hi x a b = ground arith

continue_more :
    (more acc lo hi x : ℕ)
    → lo ≤ 0x80 + x
    → 0x80 + x ≤ hi
    → continue (inside (suc more) acc lo hi) (0x80 + x) ≡ go (inside more (acc * 64 + x) 0x80 0xBF)
unfolding continue
continue_more more acc lo hi x a b = ground arith

module _ (r : Option ℕ) (rest : Bytes) where
  decode_last :
      (acc lo hi x : ℕ)
      → lo ≤ 0x80 + x
      → 0x80 + x ≤ hi
      → decode r (inside 0 acc lo hi) ((0x80 + x) ∷ rest)
        ≡ prepend (acc * 64 + x) (decode r start rest)
  unfolding decode
  decode_last acc lo hi x a b = rw (continue_last acc lo hi x a b, decode)

  decode_more :
      (more acc lo hi x : ℕ)
      → lo ≤ 0x80 + x
      → 0x80 + x ≤ hi
      → decode r (inside (suc more) acc lo hi) ((0x80 + x) ∷ rest)
        ≡ decode r (inside more (acc * 64 + x) 0x80 0xBF) rest
  unfolding decode
  decode_more more acc lo hi x a b = rw (continue_more more acc lo hi x a b, decode)

  decode_go : (b : ℕ) (st : State) → begin b ≡ go st → decode r start (b ∷ rest) ≡ decode r st rest
  unfolding decode
  decode_go b st e = rw (e, decode)

  decode_ascii : (c : ℕ) → c < 0x80 → decode r start (c ∷ rest) ≡ prepend c (decode r start rest)
  unfolding decode begin
  decode_ascii c h = ground arith

module _ (r : Option ℕ) (rest : Bytes) where
  decode_two :
      (h x : ℕ)
      → 2 ≤ h
      → h < 32
      → x < 64
      → decode r start ((0xC0 + h) ∷ (0x80 + x) ∷ rest) ≡ prepend (h * 64 + x) (decode r start rest)
  decode_two h x a b c =
      decode_go r ((0x80 + x) ∷ rest) (0xC0 + h) _ (begin_two h a b)
      ∙ decode_last r rest h 0x80 0xBF x (omega arith) (omega arith)

  decode_three :
      (h x y : ℕ)
      → h < 16
      → x < 64
      → y < 64
      → low_after h ≤ 0x80 + x
      → 0x80 + x ≤ high_after h
      → decode r start ((0xE0 + h) ∷ (0x80 + x) ∷ (0x80 + y) ∷ rest)
        ≡ prepend ((h * 64 + x) * 64 + y) (decode r start rest)
  decode_three h x y a b c lo hi =
      decode_go r ((0x80 + x) ∷ (0x80 + y) ∷ rest) (0xE0 + h) _ (begin_three h a)
      ∙ decode_more r ((0x80 + y) ∷ rest) 0 h _ _ x lo hi
      ∙ decode_last r rest (h * 64 + x) 0x80 0xBF y (omega arith) (omega arith)

  decode_four :
      (h x y z : ℕ)
      → h < 5
      → y < 64
      → z < 64
      → low_after_four h ≤ 0x80 + x
      → 0x80 + x ≤ high_after_four h
      → decode r start ((0xF0 + h) ∷ (0x80 + x) ∷ (0x80 + y) ∷ (0x80 + z) ∷ rest)
        ≡ prepend (((h * 64 + x) * 64 + y) * 64 + z) (decode r start rest)
  decode_four h x y z a b c lo hi =
      decode_go r ((0x80 + x) ∷ (0x80 + y) ∷ (0x80 + z) ∷ rest) (0xF0 + h) _ (begin_four h a)
      ∙ decode_more r ((0x80 + y) ∷ (0x80 + z) ∷ rest) 1 h _ _ x lo hi
      ∙ decode_more r ((0x80 + z) ∷ rest) 0 (h * 64 + x) 0x80 0xBF y (omega arith) (omega arith)
      ∙ decode_last r rest ((h * 64 + x) * 64 + y) 0x80 0xBF z (omega arith) (omega arith)

-- The bounds that the decoder sets are met by the bytes of a scalar value.
second_of_three :
    (c : ℕ)
    → IsScalar c
    → 0x800 ≤ c
    → c < 0x10000
    → (low_after (c / 4096) ≤ 0x80 + c / 64 % 64) × (0x80 + c / 64 % 64 ≤ high_after (c / 4096))
unfolding low_after high_after
second_of_three c s a b = ground arith

second_of_four :
    (c : ℕ)
    → c < 0x110000
    → 0x10000 ≤ c
    → (low_after_four (c / 262144) ≤ 0x80 + c / 4096 % 64)
      × (0x80 + c / 4096 % 64 ≤ high_after_four (c / 262144))
unfolding low_after_four high_after_four
second_of_four c a b = ground arith

below_top : (c : ℕ) → IsScalar c → c < 0x110000
below_top c s = omega arith

decode-encode_char :
    (r : Option ℕ) (c : ℕ) (rest : Bytes)
    → IsScalar c
    → decode r start (encode_char c ++ rest) ≡ prepend c (decode r start rest)
unfolding encode_char
decode-encode_char r c rest h = elim (Bool-cases (ltb c 0x80)) [
  | inl e ↦ rw e (decode_ascii r rest c (ground arith))
  | inr e ↦ elim (Bool-cases (ltb c 0x800)) [
    | inl f ↦
        rw (e, f)
          (decode_two r rest (c / 64) (c % 64) (ground arith) (ground arith) (omega arith)
            ∙ ap (λ k. prepend k (decode r start rest)) (omega arith))
    | inr f ↦ elim (Bool-cases (ltb c 0x10000)) [
      | inl g ↦
          let (lo, hi) = second_of_three c h (ground arith) (ground arith) in
          rw (e, f, g)
            (decode_three r rest (c / 4096) (c / 64 % 64) (c % 64) (ground arith) (omega arith)
                (omega arith) lo hi
              ∙ ap (λ k. prepend k (decode r start rest)) (omega arith))
      | inr g ↦
          let (lo, hi) = second_of_four c (below_top c h) (ground arith) in
          rw (e, f, g)
            (decode_four r rest (c / 262144) (c / 4096 % 64) (c / 64 % 64) (c % 64)
                (omega (arith, below_top c h)) (omega arith) (omega arith) lo hi
              ∙ ap (λ k. prepend k (decode r start rest)) (omega arith))
    ]
  ]
]

decode-as_bytes : (r : Option ℕ) (s : Text) → All IsScalar s → decode r start (as_bytes s) ≡ some s
unfolding as_bytes
decode-as_bytes r [] h = unfold decode in refl
decode-as_bytes r (c ∷ s) h =
    rw (decode-encode_char r c (as_bytes s) h.0)
      (rw (decode-as_bytes r s h.1) (unfold prepend in refl))

-- The bytes of a text are read back as the text.
pub from_utf8-as_bytes : (s : Text) → All IsScalar s → from_utf8 (as_bytes s) ≡ some s
from_utf8-as_bytes s h = unfold from_utf8 in decode-as_bytes none s h

pub from_utf8_lossy-as_bytes : (s : Text) → All IsScalar s → from_utf8_lossy (as_bytes s) ≡ s
unfolding from_utf8_lossy
from_utf8_lossy-as_bytes s h = rw (decode-as_bytes (some 0xFFFD) s h, from_utf8_lossy)

-- Text in ASCII is its own encoding.
pub as_bytes_ascii : (s : Text) → All (λ c. c < 0x80) s → as_bytes s ≡ s
unfolding as_bytes encode_char
as_bytes_ascii [] h = refl
as_bytes_ascii (c ∷ s) (h, hs) = ground (arith, as_bytes_ascii s hs)

-- A text that was read has at most the given number of characters.
abbrev Fits : ℕ → Option Text → Type 0
Fits n none = Unit
Fits n (some t) = length t ≤ n

Fits-prepend : (n c : ℕ) (o : Option Text) → Fits n o → Fits (suc n) (prepend c o)
unfolding prepend
Fits-prepend n c none h = tt
Fits-prepend n c (some t) h = omega arith

Fits-suc : (n : ℕ) (o : Option Text) → Fits n o → Fits (suc n) o
Fits-suc n none h = tt
Fits-suc n (some t) h = omega arith

Fits-after :
    (n : ℕ) (v : Move) (next : State → Option Text)
    → ((st : State) → Fits n (next st))
    → Fits (suc n) (after none v next)
unfolding after
Fits-after n (emit c) next h = Fits-prepend n c (next start) (h start)
Fits-after n (go st) next h = Fits-suc n (next st) (h st)
Fits-after n bad next h = tt

Fits-within :
    (n b : ℕ) (v : Move) (next : State → Option Text)
    → ((st : State) → Fits n (next st))
    → Fits (suc n) (within none b v next)
unfolding within
Fits-within n b (emit c) next h = Fits-prepend n c (next start) (h start)
Fits-within n b (go st) next h = Fits-suc n (next st) (h st)
Fits-within n b bad next h = tt

Fits-decode : (st : State) (bs : Bytes) → Fits (length bs) (decode none st bs)
unfolding decode
Fits-decode start [] = omega arith
Fits-decode (inside m a l h) [] = tt
Fits-decode start (b ∷ bs) =
    Fits-after (length bs) (begin b) (λ st. decode none st bs) (λ st. Fits-decode st bs)
Fits-decode (inside m a l h) (b ∷ bs) =
    Fits-within (length bs) b (continue (inside m a l h) b) (λ st. decode none st bs)
      (λ st. Fits-decode st bs)

-- A text has at most as many characters as bytes.
pub length-from_utf8 : (bs : Bytes) (t : Text) → from_utf8 bs ≡ some t → length t ≤ length bs
unfolding from_utf8
length-from_utf8 bs t e = subst (Fits (length bs)) e (Fits-decode start bs)
