-- ===== src/Text/Whitespace/Laws.antt =====
-- Lines and words: a line that is written with a line break is read back, and a carriage return at
-- the end of a line does not matter to `trim`.
use adbproxy_rs.Base.{
  ℕ, ◌≡◌, ◌≢◌, ◌∙◌, refl, sym, ap, true, ◌⊎◌, List, [], ◌∷◌, ◌++◌, push, All, All-append, arith,
  ◌==◌, append_assoc, append-nil, Bool-cases, inl, inr,
}
use adbproxy_rs.Text.{Text}
use adbproxy_rs.Text.Whitespace.{
  is_whitespace, trim, trim_start, trim_end, split_whitespace, words_from, flush, lines, lines_from,
  strip_cr,
}

-- No line break in the text.
abbrev pub NoBreak : Text → Type 0
NoBreak = All (λ c. c ≢ b'\n')

abbrev AllLines : (Text → Type 0) → List Text → Type 0
AllLines P ls = All P ls

lines_from-append :
    (cur l rest : Text)
    → NoBreak l
    → lines_from cur (l ++ (b'\n' ∷ rest)) ≡ strip_cr (cur ++ l) ∷ lines_from [] rest
unfolding lines_from
lines_from-append cur [] rest h = rw append-nil
lines_from-append cur (c ∷ l) rest (h, hs) =
    ground (arith, lines_from-append (push cur c) l rest hs, append_assoc cur (c ∷ []) l)

-- A line with its break is the first line of what it starts.
pub lines-append :
    (l rest : Text) → NoBreak l → lines (l ++ (b'\n' ∷ rest)) ≡ strip_cr l ∷ lines rest
unfolding lines
lines-append l rest h = lines_from-append [] l rest h

NoBreak-strip_cr : (l : Text) → NoBreak l → NoBreak (strip_cr l)
unfolding strip_cr
NoBreak-strip_cr [] h = tt
NoBreak-strip_cr (c ∷ []) h = ground arith
NoBreak-strip_cr (c ∷ d ∷ s) (h, hs) = (h, NoBreak-strip_cr (d ∷ s) hs)

NoBreak-push : (cur : Text) (c : ℕ) → NoBreak cur → c ≢ b'\n' → NoBreak (push cur c)
NoBreak-push cur c h k = All-append (λ x. x ≢ b'\n') cur (c ∷ []) h (k, tt)

NoBreak-lines_from : (cur s : Text) → NoBreak cur → All NoBreak (lines_from cur s)
unfolding lines_from
NoBreak-lines_from [] [] h = unfold flush in tt
NoBreak-lines_from (c ∷ cur) [] h = unfold flush in (h, tt)
NoBreak-lines_from cur (c ∷ s) h = elim (Bool-cases (c == 10)) [
  | inl e ↦ rw e (NoBreak-strip_cr cur h, NoBreak-lines_from [] s tt)
  | inr e ↦ rw e (NoBreak-lines_from (push cur c) s (NoBreak-push cur c h (ground arith)))
]

-- No line holds a line break.
pub NoBreak-lines : (s : Text) → All NoBreak (lines s)
unfolding lines
NoBreak-lines s = NoBreak-lines_from [] s tt

trim_end-push : (s : Text) (w : ℕ) → is_whitespace w ≡ true → trim_end (push s w) ≡ trim_end s
unfolding trim_end
trim_end-push [] w h = rw h
trim_end-push (c ∷ s) w h = ground (arith, trim_end-push s w h)

trim-push : (s : Text) (w : ℕ) → is_whitespace w ≡ true → trim (push s w) ≡ trim s
unfolding trim trim_start
trim-push [] w h = rw h
trim-push (c ∷ s) w h = elim (Bool-cases (is_whitespace c)) [
  | inl e ↦ rw e (trim-push s w h)
  | inr e ↦ rw e (trim_end-push (c ∷ s) w h)
]

-- One carriage return is dropped, or nothing.
strip_cr-cases : (s : Text) → (strip_cr s ≡ s) ⊎ (s ≡ push (strip_cr s) 13)
unfolding strip_cr
strip_cr-cases [] = inl refl
strip_cr-cases (c ∷ []) = ground arith
strip_cr-cases (c ∷ d ∷ s) = elim (strip_cr-cases (d ∷ s)) [
  | inl e ↦ inl (ap (λ r. c ∷ r) e)
  | inr e ↦ inr (ap (λ r. c ∷ r) e)
]

cr_white : is_whitespace 13 ≡ true
unfolding is_whitespace
cr_white = refl

-- `trim` does not see the carriage return that `lines` drops.
pub trim-strip_cr : (s : Text) → trim (strip_cr s) ≡ trim s
trim-strip_cr s = elim (strip_cr-cases s) [
  | inl e ↦ ap trim e
  | inr e ↦ sym (ap trim e ∙ trim-push (strip_cr s) 13 cr_white)
]

words_from_nonempty : (cur s : Text) → All (λ w. w ≢ []) (words_from cur s)
unfolding words_from
words_from_nonempty [] [] = unfold flush in tt
words_from_nonempty (c ∷ cur) [] = unfold flush in (cc, tt)
words_from_nonempty cur (c ∷ s) = elim (Bool-cases (is_whitespace c)) [
  | inl e ↦ rw e (flush_nonempty cur (words_from [] s) (words_from_nonempty [] s))
  | inr e ↦ rw e (words_from_nonempty (push cur c) s)
]
  where
    flush_nonempty :
        (w : Text) (ws : List Text) → All (λ x. x ≢ []) ws → All (λ x. x ≢ []) (flush w ws)
    flush_nonempty [] ws h = unfold flush in h
    flush_nonempty (x ∷ w) ws h = unfold flush in (cc, h)

-- No word is empty.
pub split_whitespace_nonempty : (s : Text) → All (λ w. w ≢ []) (split_whitespace s)
unfolding split_whitespace
split_whitespace_nonempty s = words_from_nonempty [] s
