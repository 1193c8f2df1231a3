-- ===== src/Policy/Body.antt =====
-- The filter of a device list, read again by the parser of src/registry.rs.
use adbproxy_rs.Base.{
  ◌≡◌, ◌≢◌, ◌∙◌, refl, sym, ap, Bool, not, ◌||◌, some, List, [], ◌∷◌, keep, All, arith, Bool-cases,
  Option-cases, inl, inr,
}
use adbproxy_rs.Text.{Text, codes, is_empty, starts_with}
use adbproxy_rs.Text.Whitespace.{trim, split_whitespace, lines, strip_cr}
use adbproxy_rs.Text.Whitespace.Laws.{
  NoBreak, lines-append, NoBreak-lines, trim-strip_cr, split_whitespace_nonempty,
}
use adbproxy_rs.Policy.{first_word, keeps_line, filter_lines, filter_devices_body}
use adbproxy_rs.Types.{BackendConfig}
use adbproxy_rs.Registry.{parse_device_line, parse_lines, words_of_line}

parse_device_line-strip_cr : (l : Text) → parse_device_line (strip_cr l) ≡ parse_device_line l
unfolding parse_device_line
parse_device_line-strip_cr l = rw (trim-strip_cr l)

-- The test on a line that has a serial and a state, over its words.
keeps_words :
    (p : Text → Bool) (ws : List Text) (s st ex : Text)
    → All (λ w. w ≢ []) ws
    → words_of_line ws ≡ some (s, st, ex)
    → not (is_empty (first_word ws) || not (p (first_word ws))) ≡ p s
unfolding words_of_line first_word is_empty
keeps_words p [] s st ex h e = ground arith
keeps_words p (w ∷ []) s st ex h e = ground arith
keeps_words p ([] ∷ v ∷ ws) s st ex h e = absurd (h.0 refl)
keeps_words p ((c ∷ w) ∷ v ∷ ws) s st ex h e =
    let same : c ∷ w ≡ s = ground arith in rw (← same) (ground arith)

-- A line that names a device is kept exactly if the device is enabled.
keeps_line-parse :
    (p : Text → Bool) (l s st ex : Text)
    → parse_device_line l ≡ some (s, st, ex)
    → keeps_line p l ≡ p s
unfolding parse_device_line keeps_line
keeps_line-parse p l s st ex h =
    let t = trim l in
    elim (Bool-cases (is_empty t)) [
      | inl e ↦ ground arith
      | inr e ↦ elim (Bool-cases (starts_with (codes "*") t || starts_with (codes "List of") t)) [
        | inl f ↦ ground arith
        | inr f ↦
            rw (e, f)
              (keeps_words p (split_whitespace t) s st ex (split_whitespace_nonempty t)
                (ground arith))
      ]
    ]

module _ (b : BackendConfig) (p : Text → Bool) where
  parse_lines-filter_lines :
      (ls : List Text)
      → All NoBreak ls
      → parse_lines b (lines (filter_lines p ls)) ≡ keep (λ x. p x.serial) (parse_lines b ls)
  unfolding filter_lines parse_lines
  parse_lines-filter_lines [] h = unfold lines in refl
  parse_lines-filter_lines (l ∷ ls) (h, hs) = elim (Bool-cases (keeps_line p l)) [
    | inl e ↦ elim (Option-cases (parse_device_line l)) [
      | inl n ↦
          rw (e, lines-append l (filter_lines p ls) h, parse_device_line-strip_cr l, n, parse_lines)
            (parse_lines-filter_lines ls hs)
      | inr ((s, st, ex), y) ↦
          rw
            (
              e,
              lines-append l (filter_lines p ls) h,
              parse_device_line-strip_cr l,
              y,
              sym (keeps_line-parse p l s st ex y) ∙ e,
              parse_lines,
            )
            (ap (λ r. record { backend = b; serial = s; state = st; extras = ex } ∷ r)
              (parse_lines-filter_lines ls hs))
    ]
    | inr e ↦ elim (Option-cases (parse_device_line l)) [
      | inl n ↦ rw (e, n, parse_lines) (parse_lines-filter_lines ls hs)
      | inr ((s, st, ex), y) ↦
          rw (e, y, sym (keeps_line-parse p l s st ex y) ∙ e, parse_lines)
            (parse_lines-filter_lines ls hs)
    ]
  ]

-- Parsing the filtered body gives the devices of the raw body that are enabled, in their order and with
-- nothing else changed, whatever the raw body holds.
pub parse-filter_devices_body :
    (b : BackendConfig) (raw : Text) (enabled : Text → Bool)
    → parse_lines b (lines (filter_devices_body raw enabled))
      ≡ keep (λ x. enabled x.serial) (parse_lines b (lines raw))
unfolding filter_devices_body
parse-filter_devices_body b raw enabled =
    parse_lines-filter_lines b enabled (lines raw) (NoBreak-lines raw)
