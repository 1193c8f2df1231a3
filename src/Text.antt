-- ===== src/Text.antt =====
-- Rust's `String` and `str` as lists of Unicode code points, with the methods of the standard
-- library that the program calls. The children hold the encodings of text as bytes and of numbers as text.
pub mod Equality
pub mod Utf8
pub mod Number
pub mod Whitespace
use Prim.Native.Char.{code}
use adbproxy_rs.Base.{
  ℕ, ◌≡◌, refl, String, Bool, true, false, ◌&&◌, ◌||◌, Option, none, some, List, [], ◌∷◌, ◌++◌,
  ◌==◌, leb, if◌then◌else◌,
}

abbrev pub Text : Type 0
Text = List ℕ

abbrev pub Bytes : Type 0
Bytes = List ℕ

-- The code points of a literal.
unfoldable pub codes : String → Text
codes String.[] = []
codes (String.◌∷◌ c s) = code c ∷ codes s

-- `a == b` on strings and on byte slices.
unfoldable pub text_eq : Text → Text → Bool
text_eq [] [] = true
text_eq [] (y ∷ ys) = false
text_eq (x ∷ xs) [] = false
text_eq (x ∷ xs) (y ∷ ys) = x == y && text_eq xs ys

-- `s.strip_prefix(p)`, with the prefix first.
unfoldable pub strip_prefix : Text → Text → Option Text
strip_prefix [] s = some s
strip_prefix (p ∷ ps) [] = none
strip_prefix (p ∷ ps) (c ∷ s) = let rest = strip_prefix ps s in if p == c then rest else none

-- `s.starts_with(p)`, with the prefix first.
unfoldable pub starts_with : Text → Text → Bool
starts_with [] s = true
starts_with (p ∷ ps) [] = false
starts_with (p ∷ ps) (c ∷ s) = p == c && starts_with ps s

before_first : ℕ → Option (Text × Text) → Option (Text × Text)
before_first c none = none
before_first c (some (a, b)) = some (c ∷ a, b)

-- `s.split_once(c)`.
unfoldable pub split_once : ℕ → Text → Option (Text × Text)
unfolding before_first
split_once sep [] = none
split_once sep (c ∷ s) =
    let rest = before_first c (split_once sep s) in if c == sep then some ([], s) else rest

onto_first : ℕ → List Text → List Text
onto_first c [] = []
onto_first c (p ∷ ps) = (c ∷ p) ∷ ps

-- `s.split(c)` collected: the parts, of which there is at least one.
unfoldable pub split : ℕ → Text → List Text
unfolding onto_first
split sep [] = [] ∷ []
split sep (c ∷ s) = let parts = split sep s in if c == sep then [] ∷ parts else onto_first c parts

-- `parts.join(sep)`.
unfoldable pub join : Text → List Text → Text
join sep [] = []
join sep (p ∷ []) = p
join sep (p ∷ q ∷ ps) = p ++ (sep ++ join sep (q ∷ ps))

-- `str::is_empty`.
unfoldable pub is_empty : Text → Bool
is_empty [] = true
is_empty (c ∷ s) = false

-- `u8::is_ascii_digit`.
unfoldable pub is_ascii_digit : ℕ → Bool
is_ascii_digit c = leb b'0' c && leb c b'9'

-- `u8::is_ascii_uppercase`.
unfoldable pub is_ascii_uppercase : ℕ → Bool
is_ascii_uppercase c = leb b'A' c && leb c b'Z'
