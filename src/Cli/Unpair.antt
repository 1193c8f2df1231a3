-- ===== src/Cli/Unpair.antt =====
-- A configuration that `adb-hub unpair` saves.
use adbproxy_rs.Base.{◌≡◌, ◌≢◌, ap, arith, refl, false, Option, some, [], ◌∷◌}
use adbproxy_rs.Text.{Text, Bytes, codes}
use adbproxy_rs.Text.Equality.{text_eq_refl}
use adbproxy_rs.Io.{Result, ok, err, IoError, map_err}
use adbproxy_rs.Addr.{SocketAddr}
use adbproxy_rs.Types.{BackendConfig}
use adbproxy_rs.Config.{HubConfig, from_toml_file, backends_of}
use adbproxy_rs.Config.File.{to_toml_file}
use adbproxy_rs.Config.RoundTrip.{IsValid, ReadsBack}
use adbproxy_rs.Backend.{Attempt}
use adbproxy_rs.Cli.{
  run_unpair, retained, load_or_empty, shown, ConfigFile, DeviceAction, NodeAction, run_device,
  run_node, run_pair, save_pair,
}

abbrev pub needs_backend : Text
needs_backend = codes "at least one [[backend]] is required when include_local = false"

-- What the commands find where the configuration was saved.
abbrev pub file_of : (Text → Result Text SocketAddr) → HubConfig → ConfigFile
file_of parse_addr saved = some (map_err shown (from_toml_file parse_addr (to_toml_file saved)))

module _ {m : Text} where
  device_refused :
      (file : ConfigFile) (action : DeviceAction)
      → file ≡ some (err m)
      → run_device file action ≡ err m
  unfolding run_device load_or_empty
  device_refused file (DeviceAction.enable serial) h = rw h refl
  device_refused file (DeviceAction.disable serial) h = rw h refl

  unpair_refused :
      (file : ConfigFile) (name : Text) → file ≡ some (err m) → run_unpair file name ≡ err m
  unfolding run_unpair load_or_empty
  unpair_refused file name h = rw h refl

  node_refused :
      (file : ConfigFile) (action : NodeAction) → file ≡ some (err m) → run_node file action ≡ err m
  unfolding run_node load_or_empty
  node_refused file (NodeAction.enable name) h = rw h refl
  node_refused file (NodeAction.disable name) h = rw h refl

  save_refused :
      (file : ConfigFile) (addr : SocketAddr) (code : Text) (name : Option Text)
      → file ≡ some (err m)
      → save_pair file addr code name ≡ err m
  unfolding save_pair load_or_empty
  save_refused file addr code name h = rw h refl

  pair_refused :
      (connect : Result IoError Bytes) (attempt : Attempt) (file : ConfigFile) (addr : SocketAddr)
      (code : Text) (name : Option Text) (config : HubConfig)
      → file ≡ some (err m)
      → run_pair connect attempt file addr code name ≢ ok config
  unfolding run_pair
  pair_refused connect attempt file addr code name config h e =
      ground (arith, save_refused file addr code name h)

-- If the hub does not include the local server, `unpair` of the only backend saves a configuration that is not
-- loaded again: with that file, `unpair`, `device` and `node` end with the error of the reading, whatever they are given,
-- and `pair` never saves a configuration, whatever the proxy answers.
pub run_unpair_unloadable :
    (parse_addr : Text → Result Text SocketAddr) (c : HubConfig) (b : BackendConfig)
    → IsValid c
    → ReadsBack parse_addr c.listen
    → c.include_local ≡ false
    → c.backends ≡ b ∷ []
    → (saved : HubConfig) × (run_unpair (some (ok c)) b.name ≡ ok saved)
      × (from_toml_file parse_addr (to_toml_file saved) ≡ err needs_backend)
      × ((name : Text) → run_unpair (file_of parse_addr saved) name ≡ err (shown needs_backend))
      × ((action : DeviceAction)
          → run_device (file_of parse_addr saved) action ≡ err (shown needs_backend))
      × ((action : NodeAction)
          → run_node (file_of parse_addr saved) action ≡ err (shown needs_backend))
      × ((connect : Result IoError Bytes) (attempt : Attempt) (addr : SocketAddr) (code : Text)
            (name : Option Text) (config : HubConfig)
          → run_pair connect attempt (file_of parse_addr saved) addr code name ≢ ok config)
unfolding run_unpair retained load_or_empty from_toml_file to_toml_file backends_of
run_unpair_unloadable parse_addr c b (port, differs, some_backend, slow, valid) reads local only = (
  record c { backends = [] },
  rw (only, text_eq_refl b.name, retained) refl,
  lost,
  λ name. unpair_refused _ name file,
  λ action. device_refused _ action file,
  λ action. node_refused _ action file,
  λ connect attempt addr code name config.
      pair_refused connect attempt _ addr code name config file,
)
  where
    lost : from_toml_file parse_addr (to_toml_file (record c { backends = [] })) ≡ err needs_backend
    lost = rw (reads, port, differs, local) refl

    file : file_of parse_addr (record c { backends = [] }) ≡ some (err (shown needs_backend))
    file = ap (λ r. some (map_err shown r)) lost
