-- ===== src/Config/RoundTrip.antt =====
-- A configuration that is saved is loaded again, and what is loaded is valid.
use adbproxy_rs.Base.{
  ℕ, ◌+◌, ◌≡◌, refl, false, not, ◌&&◌, Option, none, some, List, [], ◌∷◌, map, ltb, ◌==◌, All,
}
use adbproxy_rs.Text.{Text}
use adbproxy_rs.Io.{Result, ok}
use adbproxy_rs.Addr.{SocketAddr, port_of, show_addr}
use adbproxy_rs.Types.{BackendConfig}
use adbproxy_rs.Auth.Codes.{IsPairCode, validate_pair_code_iff}
use adbproxy_rs.Policy.{is_enabled, from_entries, to_disabled_entries}
use adbproxy_rs.Policy.Table.{IsMap, from_entries-to_disabled_entries}
use adbproxy_rs.Config.{
  HubConfig, backend_of, backends_of, from_toml_file, check_code, no_backend, name_or,
}
use adbproxy_rs.Config.File.{to_toml_backend, to_toml_file}

-- Every pair code has the form of one.
abbrev pub IsCode : Option Text → Type 0
IsCode none = Unit
IsCode (some code) = IsPairCode code

-- What a configuration has to keep to be loaded.
abbrev pub IsValid : HubConfig → Type 0
IsValid c =
    ((c.local_adb_port == 0) ≡ false)
    × ((port_of c.listen == c.local_adb_port) ≡ false)
    × ((no_backend c.backends && not c.include_local) ≡ false)
    × (ltb c.poll_interval 100 ≡ false)
    × All (λ (b : BackendConfig). IsCode b.pair_code) c.backends

check_code-IsCode : (i : ℕ) (o : Option Text) → IsCode o → check_code i o ≡ ok tt
unfolding check_code
check_code-IsCode i none h = refl
check_code-IsCode i (some code) h = rw ((validate_pair_code_iff code).1 h)

module _ (parse_addr : Text → Result Text SocketAddr) where
  -- The address is read back from its text.
  abbrev pub ReadsBack : SocketAddr → Type 0
  ReadsBack a = parse_addr (show_addr a) ≡ ok a

  backend_of-to_toml_backend :
      (i : ℕ) (b : BackendConfig)
      → ReadsBack b.addr
      → IsCode b.pair_code
      → backend_of parse_addr i (to_toml_backend b) ≡ ok b
  unfolding backend_of to_toml_backend name_or
  backend_of-to_toml_backend i b reads valid = rw (reads, check_code-IsCode i b.pair_code valid)

  backends_of-map :
      (i : ℕ) (bs : List BackendConfig)
      → All (λ (b : BackendConfig). ReadsBack b.addr) bs
      → All (λ (b : BackendConfig). IsCode b.pair_code) bs
      → backends_of parse_addr i (map to_toml_backend bs) ≡ ok bs
  unfolding backends_of
  backends_of-map i [] h v = refl
  backends_of-map i (b ∷ bs) (h, hs) (v, vs) =
      rw (backend_of-to_toml_backend i b h v, backends_of-map (i + 1) bs hs vs)

  -- A valid configuration that is saved and loaded again is the same but for its path, and it enables the same
  -- devices, if the addresses in it are read back from their text.
  pub from_toml_file-to_toml_file :
      (c : HubConfig)
      → IsValid c
      → ReadsBack c.listen
      → All (λ (b : BackendConfig). ReadsBack b.addr) c.backends
      → IsMap c.devices.entries
      → (from_toml_file parse_addr (to_toml_file c)
          ≡ ok (record c {
            devices = from_entries (to_disabled_entries c.devices);
            config_path = none;
          }))
        × ((serial : Text)
            → is_enabled (from_entries (to_disabled_entries c.devices)) serial
              ≡ is_enabled c.devices serial)
  unfolding from_toml_file to_toml_file
  from_toml_file-to_toml_file c (port, differs, some_backend, slow, valid) listens reads apart = (
    rw (listens, port, differs, backends_of-map 0 c.backends reads valid, some_backend, slow),
    λ serial. from_entries-to_disabled_entries c.devices serial apart,
  )
