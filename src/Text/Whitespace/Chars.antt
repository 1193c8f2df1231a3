-- ===== src/Text/Whitespace/Chars.antt =====
-- The lines of a text hold only characters of the text.
use adbproxy_rs.Base.{ℕ, [], ◌∷◌, push, All, All-append, ◌==◌, Bool-cases, inl, inr}
use adbproxy_rs.Text.{Text}
use adbproxy_rs.Text.Whitespace.{flush, lines, lines_from, strip_cr}

module _ (P : ℕ → Type 0) where
  All-strip_cr : (l : Text) → All P l → All P (strip_cr l)
  unfolding strip_cr
  All-strip_cr [] h = tt
  All-strip_cr (c ∷ []) h = elim (Bool-cases (c == 13)) [ inl e ↦ rw e tt | inr e ↦ rw e h ]
  All-strip_cr (c ∷ d ∷ s) (h, hs) = (h, All-strip_cr (d ∷ s) hs)

  All-lines_from : (cur s : Text) → All P cur → All P s → All (All P) (lines_from cur s)
  unfolding lines_from flush
  All-lines_from [] [] h hs = tt
  All-lines_from (c ∷ cur) [] h hs = (h, tt)
  All-lines_from cur (c ∷ s) h (hc, hs) = elim (Bool-cases (c == 10)) [
    | inl e ↦ rw e (All-strip_cr cur h, All-lines_from [] s tt hs)
    | inr e ↦ rw e (All-lines_from (push cur c) s (All-append P cur (c ∷ []) h (hc, tt)) hs)
  ]

  pub All-lines : (s : Text) → All P s → All (All P) (lines s)
  unfolding lines
  All-lines s h = All-lines_from [] s tt h
