-- ===== src/Text/Whitespace.antt =====
-- `trim`, `split_whitespace` and `lines`.
pub mod Laws
pub mod Chars
use adbproxy_rs.Base.{ℕ, Bool, ◌&&◌, ◌||◌, List, [], ◌∷◌, push, ◌==◌, leb, if◌then◌else◌}
use adbproxy_rs.Text.{Text}

-- `char::is_whitespace`: the property White_Space of Unicode.
unfoldable pub is_whitespace : ℕ → Bool
is_whitespace c =
    (leb 9 c && leb c 13)
    || c == 0x20
    || c == 0x85
    || c == 0xA0
    || c == 0x1680
    || (leb 0x2000 c && leb c 0x200A)
    || c == 0x2028
    || c == 0x2029
    || c == 0x202F
    || c == 0x205F
    || c == 0x3000

pub trim_start : Text → Text
trim_start [] = []
trim_start (c ∷ s) = let rest = trim_start s in if is_whitespace c then rest else c ∷ s

-- A space is dropped where nothing but spaces follows it.
pub trim_end : Text → Text
trim_end [] = []
trim_end (c ∷ s) = elim (trim_end s) [
  | [] ↦ if is_whitespace c then [] else c ∷ []
  | d ∷ r ↦ c ∷ d ∷ r
]

unfoldable pub trim : Text → Text
unfolding trim_start trim_end is_whitespace
trim s = trim_end (trim_start s)

-- A part that is not empty is put before the others.
flush : Text → List Text → List Text
flush [] parts = parts
flush (c ∷ s) parts = (c ∷ s) ∷ parts

-- The second argument is the word that is being read.
pub words_from : Text → Text → List Text
words_from cur [] = flush cur []
words_from cur (c ∷ s) =
    let next = flush cur (words_from [] s) in
    let more = words_from (push cur c) s in if is_whitespace c then next else more

-- `split_whitespace` collected: the parts between runs of white space.
unfoldable pub split_whitespace : Text → List Text
unfolding words_from flush is_whitespace
split_whitespace s = words_from [] s

-- `line.strip_suffix('\r').unwrap_or(line)`.
pub strip_cr : Text → Text
strip_cr [] = []
strip_cr (c ∷ []) = if c == 13 then [] else c ∷ []
strip_cr (c ∷ d ∷ s) = c ∷ strip_cr (d ∷ s)

pub lines_from : Text → Text → List Text
lines_from cur [] = flush cur []
lines_from cur (c ∷ s) =
    let next = strip_cr cur ∷ lines_from [] s in
    let more = lines_from (push cur c) s in if c == 10 then next else more

-- `lines` collected: a line ends at `\n`, before which one `\r` is dropped.
unfoldable pub lines : Text → List Text
unfolding lines_from flush strip_cr
lines s = lines_from [] s
