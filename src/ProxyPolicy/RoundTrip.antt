-- ===== src/ProxyPolicy/RoundTrip.antt =====
-- The configuration of a proxy, written and read again, and the policy after a reload.
use adbproxy_rs.Base.{◌≡◌, refl, true, List, [], ◌∷◌, arith, Bool-cases, inl, inr}
use adbproxy_rs.Text.{Text}
use adbproxy_rs.Io.{Result, ok, Result-cases}
use adbproxy_rs.Policy.{DevicePolicyEntry, to_disabled_entries, is_enabled}
use adbproxy_rs.Policy.Table.{IsMap, from_entries-to_disabled_entries}
use adbproxy_rs.ProxyPolicy.{
  TomlFile, ProxyFileConfig, holds, no_entries, from_toml_str, load_file, to_toml_string,
  table_or_default,
}

no_entries_sound : (es : List DevicePolicyEntry) → no_entries es ≡ true → es ≡ []
unfolding no_entries
no_entries_sound [] h = refl
no_entries_sound (e ∷ es) h = ground arith

module _ (from_str : Text → Result Text TomlFile)
    (to_string_pretty : TomlFile → Result Text Text) where
  -- The text that is written is read as the file that it was written from.
  loaded_back :
      (c : ProxyFileConfig) (text : Text)
      → ((f : TomlFile) (s : Text) → to_string_pretty f ≡ ok s → from_str s ≡ ok f)
      → from_str [] ≡ ok (record { device = [] })
      → to_toml_string from_str to_string_pretty c ≡ ok text
      → from_str text ≡ ok (record { device = to_disabled_entries c.devices })
  unfolding to_toml_string
  loaded_back c text reads empty h =
      elim (Bool-cases (no_entries (to_disabled_entries c.devices))) [
        | inl e ↦
            let none : to_disabled_entries c.devices ≡ [] = no_entries_sound _ e in
            let same : text ≡ [] = ground arith in rw (same, none) empty
        | inr e ↦
            elim (Result-cases
              (to_string_pretty (record { device = to_disabled_entries c.devices }))) [
                | inr (x, f) ↦ ground arith
                | inl (s, f) ↦
                    let same : s ≡ text = ground arith in
                    rw (← same) (reads (record { device = to_disabled_entries c.devices }) s f)
              ]
      ]

  -- If the TOML library reads back what it prints, and reads the empty text as a file without entries, then the
  -- configuration of a proxy that is written and loaded again enables the same devices as before.
  pub load_file-to_toml_string :
      (c : ProxyFileConfig) (text serial : Text)
      → ((f : TomlFile) (s : Text) → to_string_pretty f ≡ ok s → from_str s ≡ ok f)
      → from_str [] ≡ ok (record { device = [] })
      → IsMap c.devices.entries
      → to_toml_string from_str to_string_pretty c ≡ ok text
      → is_enabled (table_or_default (load_file from_str to_string_pretty (holds text))) serial
        ≡ is_enabled c.devices serial
  unfolding load_file from_toml_str table_or_default
  load_file-to_toml_string c text serial reads empty apart h =
      rw (loaded_back c text reads empty h)
        (from_entries-to_disabled_entries c.devices serial apart)
