-- ===== src/Runs/Hubs.antt =====
-- The configuration and the start of a hub, and the user of a connection, at concrete inputs.
use adbproxy_rs.Base.{
  ◌≢◌, arith, Option, ℕ, ◌≡◌, refl, true, false, none, some, List, [], ◌∷◌, ◌++◌, map, keep, All,
}
use adbproxy_rs.Text.{Text, Bytes, codes, text_eq}
use adbproxy_rs.Io.{IoError, Result, ok, err}
use adbproxy_rs.Addr.{SocketAddr, v4, port_of, addr_eq}
use adbproxy_rs.Map
use adbproxy_rs.Types.{BackendConfig}
use adbproxy_rs.Policy.{is_enabled, from_entries, to_disabled_entries}
use adbproxy_rs.Config.{HubConfig, from_toml_file, no_backend}
use adbproxy_rs.Config.File.{to_toml_file}
use adbproxy_rs.Config.RoundTrip.{IsValid, from_toml_file-to_toml_file}
use adbproxy_rs.Backend.{Attempt, fetch_server_version, query, connect_backend, timeout}
use adbproxy_rs.Preferred.{local_name}
use adbproxy_rs.Local.{prepare, find_adb, from_path, reuse_or_start, local_addr}
use adbproxy_rs.Hub.{
  Started, prepare_local, add_local, with_local, version_or, defaults_of, start_hub, local_backend,
  is_other,
}
use adbproxy_rs.Hub.Start.{start_hub_sound}
use adbproxy_rs.Cli.{
  shown, DeviceAction, NodeAction, run_device, run_node, run_pair, Args, Places, with_local_flags,
  number_or, addr_or, poll_or, max_ms, last_of_each, first_of_each, reverse, reverse_onto,
  apply_args, base_config, build_config, run_unpair,
}
use adbproxy_rs.Cli.Unique.{named, find_last, to_list, build_config-named}
use adbproxy_rs.Cli.Unpair.{needs_backend, file_of, run_unpair_unloadable}
use adbproxy_rs.Peercred.{
  Ends, word32, word16, words32, byte_at, to_be, matches, uid_of, addrs_equal, head_word,
  tcp_peer_uid, fill_addrs, one_user,
}
use adbproxy_rs.Peercred.Dump.{Message, dump, matching, tcp_peer_uid-dump}
use adbproxy_rs.Runs.Data.{world, silent, office, lab}

abbrev listens : SocketAddr
listens = v4 127 0 0 1 5037

-- Every address is this one.
abbrev parse_addr : Text → Result Text SocketAddr
parse_addr s = ok listens

abbrev office_here : BackendConfig
office_here = record office { addr = listens }

abbrev saved : HubConfig
saved = record {
  listen = listens;
  poll_interval = 1000;
  backends = office_here ∷ [];
  adb_version = 41;
  include_local = false;
  local_adb_port = 5039;
  devices = record { entries = (codes "BBB", false) ∷ [] };
  config_path = none;
}

saved-IsValid : IsValid saved
unfolding port_of no_backend
saved-IsValid = (refl, refl, refl, refl, (tt, tt))

from_toml_file-to_toml_file_example :
    (from_toml_file parse_addr (to_toml_file saved)
      ≡ ok (record saved {
        devices = from_entries (to_disabled_entries saved.devices);
        config_path = none;
      }))
    × ((serial : Text)
        → is_enabled (from_entries (to_disabled_entries saved.devices)) serial
          ≡ is_enabled saved.devices serial)
unfolding Map.get
from_toml_file-to_toml_file_example =
    from_toml_file-to_toml_file parse_addr saved saved-IsValid refl (refl, tt) (refl, tt)

run_unpair_unloadable_example :
    (kept : HubConfig) × (run_unpair (some (ok saved)) (codes "office") ≡ ok kept)
    × (from_toml_file parse_addr (to_toml_file kept) ≡ err needs_backend)
    × ((name : Text) → run_unpair (file_of parse_addr kept) name ≡ err (shown needs_backend))
    × ((action : DeviceAction)
        → run_device (file_of parse_addr kept) action ≡ err (shown needs_backend))
    × ((action : NodeAction)
        → run_node (file_of parse_addr kept) action ≡ err (shown needs_backend))
    × ((connect : Result IoError Bytes) (attempt : Attempt) (addr : SocketAddr) (code : Text)
          (name : Option Text) (c : HubConfig)
        → run_pair connect attempt (file_of parse_addr kept) addr code name ≢ ok c)
run_unpair_unloadable_example =
    run_unpair_unloadable parse_addr saved office_here saved-IsValid refl refl refl

abbrev config : HubConfig
config = record saved {
  include_local = true;
  backends = office ∷ record lab { enabled = false } ∷ [];
}

abbrev started : Started
started = record {
  config = record config { backends = local_backend (local_addr 5039) ∷ office ∷ [] };
  default_backend = local_addr 5039;
  default_pair_code = none;
  backend_order = codes "local" ∷ codes "office" ∷ [];
}

starts : start_hub world (λ s. []) silent config ≡ ok started
unfolding start_hub prepare_local add_local with_local version_or is_other local_backend defaults_of
    prepare find_adb from_path reuse_or_start local_addr local_name text_eq codes addr_eq
    fetch_server_version query connect_backend timeout
starts = refl

start_hub_sound_example :
    All (λ (b : BackendConfig). b.enabled ≡ true) started.config.backends
    × (started.backend_order ≡ map BackendConfig.name started.config.backends)
    × ((b : BackendConfig) × (rest : List BackendConfig) × (started.config.backends ≡ b ∷ rest)
        × (started.default_backend ≡ b.addr)
        × (started.default_pair_code ≡ b.pair_code))
    × (config.include_local ≡ true
        → (rest : List BackendConfig) × (started.config.backends
            ≡ local_backend (local_addr 5039) ∷ rest)
          × All (λ b. is_other (local_addr 5039) b ≡ true) rest)
start_hub_sound_example = start_hub_sound world (λ s. []) silent config starts

abbrev args : Args
args = record {
  listen = none;
  config = some (ok (record config { backends = office ∷ lab ∷ office_here ∷ [] }));
  backends = [];
  poll_interval_ms = some 50;
  no_local = true;
  local_port = none;
}

abbrev places : Places
places = record { path = none; old = none; same_as_old = true; legacy = none; shown = [] }

abbrev built : HubConfig
built = record config {
  include_local = false;
  poll_interval = 100;
  backends = lab ∷ office_here ∷ [];
}

builds : build_config parse_addr args places ≡ ok built
unfolding build_config base_config apply_args with_local_flags number_or addr_or poll_or max_ms
    last_of_each first_of_each reverse reverse_onto text_eq codes Map.contains
builds = refl

build_config-named_example :
    (base : HubConfig) × (base_config parse_addr args places ≡ ok base)
    × ((name : Text)
        → keep (named name) built.backends ≡ to_list (find_last (named name) base.backends))
build_config-named_example = build_config-named parse_addr args places builds

abbrev zeros : ℕ → Bytes
zeros ℕ.zero = []
zeros (ℕ.suc n) = 0 ∷ zeros n

-- The socket of user 1000 from port 40000 to port 5037 of 127.0.0.1.
abbrev socket : Message
socket = record {
  other = zeros 10;
  attributes = zeros 5;
  padding = zeros 3;
  body =
      2 ∷ 1 ∷ 0 ∷ 0 ∷ 0x9C ∷ 0x40 ∷ 0x13 ∷ 0xAD ∷ 127 ∷ 0 ∷ 0 ∷ 1 ∷ zeros 12
      ++ (127 ∷ 0 ∷ 0 ∷ 1 ∷ zeros 36 ++ (0xE8 ∷ 3 ∷ zeros 6));
}

abbrev ends : Ends
ends = record {
  family = 2;
  sport = 0x409C;
  dport = 0xAD13;
  src = 0x0100007F ∷ 0 ∷ 0 ∷ 0 ∷ [];
  dst = 0x0100007F ∷ 0 ∷ 0 ∷ 0 ∷ [];
}

-- A socket that is not the one, without attributes.
abbrev unrelated : Message
unrelated = record { other = zeros 10; attributes = []; padding = []; body = zeros 72 }

abbrev sockets : List Message
sockets = socket ∷ unrelated ∷ []

tcp_peer_uid-dump_example :
    tcp_peer_uid (λ e. ok (dump true sockets)) listens (v4 127 0 0 1 40000)
    ≡ one_user (matching ends sockets)
unfolding fill_addrs word32 word16 byte_at to_be
tcp_peer_uid-dump_example =
    tcp_peer_uid-dump (λ e. ok (dump true sockets)) listens (v4 127 0 0 1 40000) ends true sockets
      (omega arith) refl refl (omega arith)

-- The user is found.
found : one_user (matching ends (sockets)) ≡ ok 1000
unfolding one_user matches uid_of word32 word16 words32 byte_at addrs_equal head_word
found = refl
