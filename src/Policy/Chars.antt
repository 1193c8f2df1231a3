-- ===== src/Policy/Chars.antt =====
-- The filter of a device list brings in no characters but line breaks.
use adbproxy_rs.Base.{ℕ, Bool, List, [], ◌∷◌, All, All-append, Bool-cases, inl, inr}
use adbproxy_rs.Text.{Text}
use adbproxy_rs.Text.Whitespace.{lines}
use adbproxy_rs.Text.Whitespace.Chars.{All-lines}
use adbproxy_rs.Policy.{keeps_line, filter_lines, filter_devices_body}

module _ (P : ℕ → Type 0) where
  module _ (enabled : Text → Bool) (break : P b'\n') where
    All-filter_lines : (ls : List Text) → All (All P) ls → All P (filter_lines enabled ls)
    unfolding filter_lines
    All-filter_lines [] h = tt
    All-filter_lines (l ∷ ls) (h, hs) = elim (Bool-cases (keeps_line enabled l)) [
      | inl e ↦
          rw e (All-append P l (b'\n' ∷ filter_lines enabled ls) h (break, All-filter_lines ls hs))
      | inr e ↦ rw e (All-filter_lines ls hs)
    ]

    pub All-filter_devices_body : (raw : Text) → All P raw → All P (filter_devices_body raw enabled)
    unfolding filter_devices_body
    All-filter_devices_body raw h = All-filter_lines (lines raw) (All-lines P raw h)
