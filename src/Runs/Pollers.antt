-- ===== src/Runs/Pollers.antt =====
-- The poll of the backends, at concrete inputs.
use adbproxy_rs.Base.{none, refl, ap, ℕ, ◌≡◌, true, false, some, List, [], ◌∷◌, ◌++◌, map, All}
use adbproxy_rs.Text.{Text, codes, text_eq, join, is_empty, starts_with}
use adbproxy_rs.Io.{ok, err, eof_error}
use adbproxy_rs.Types.{BackendConfig}
use adbproxy_rs.Registry.{
  merge_device_lists, assign, parse_lists, parse_lines, parse_device_line, words_of_line, entry_of,
  public_of, count_of, count_serials, first_public, is_conflict,
}
use adbproxy_rs.Tenant.{entries_eq, entry_eq, optional_eq}
use adbproxy_rs.Addr.{addr_eq}
use adbproxy_rs.Text.Whitespace.{lines, trim, split_whitespace}
use adbproxy_rs.Text.Number.{to_decimal}
use adbproxy_rs.Protocol.{write_okay_payload}
use adbproxy_rs.Backend.{Attempt, filter_compatible_backends, fetch_lists, has_name, once_lists}
use adbproxy_rs.Backend.Once.{Selected, merge-once_lists}
use adbproxy_rs.Poller.{update_from_backend_lists, publish_shared, seeded}
use adbproxy_rs.Poller.Latest.{latest, seed_log, serve_updates, serve_updates-latest}
use adbproxy_rs.Poller.Overtaking.{PollerState, Reach, here, next, hears, first_state, seed_lists}
use adbproxy_rs.Poller.Overtaking.Shown.{Reach-IsPast}
use adbproxy_rs.Follow.{changed, waiting, follow, list_packet}
use adbproxy_rs.Follow.Unchanged.{body_of}
use adbproxy_rs.Text.{Bytes}
use adbproxy_rs.Map.{contains, get, insert, remove}
use adbproxy_rs.Agent.{backends_fingerprint, poll_lists}
use adbproxy_rs.Agent.Gate.{Round, CompatCache, compatible_names, rounds, rounds_stuck}
use adbproxy_rs.Follow.Steps
use adbproxy_rs.Follow.Steps.{told, Follower, subscribed, writes, notifies, takes, answers, begins}
use adbproxy_rs.Follow.Current.{Reach-current}
use adbproxy_rs.Runs.Data.{no_lab, office, lab, two_phones}

-- The first attempt fails, the others find one device.
abbrev asks : ℕ → Attempt
asks ℕ.zero = record {
  connect = err eof_error;
  connect_late = false;
  auth_late = false;
  read_late = false;
}
asks (ℕ.suc i) = record {
  connect = ok (write_okay_payload (codes "P1\tdevice\n"));
  connect_late = false;
  auth_late = false;
  read_late = false;
}

abbrev coded_lab : BackendConfig
coded_lab = record lab { pair_code = some (codes "ABCD1234") }

abbrev order : List BackendConfig
order = office ∷ coded_lab ∷ []

merge-once_lists_example :
    All (λ (b : BackendConfig). has_name b.name (once_lists asks asks order) ≡ true) order
    × ((kept : List BackendConfig) × Selected asks 0 order kept
        × (merge_device_lists (once_lists asks asks order)
            ≡ merge_device_lists (fetch_lists asks 0 kept)))
merge-once_lists_example = merge-once_lists asks asks order

abbrev updates : List (BackendConfig × Text)
updates =
    (lab, codes "A\tdevice\n") ∷ (office, codes "B\tdevice\n") ∷ (lab, codes "C\toffline\n") ∷ []

serve_updates-latest_example :
    let compatible = map BackendConfig.name (filter_compatible_backends asks 0 order) in
    let shared = seeded asks asks order in
    (serve_updates order updates (shared, publish_shared order shared two_phones)).1
    ≡ merge_device_lists (map (latest (seed_log compatible asks 0 order ++ updates)) order)
serve_updates-latest_example = serve_updates-latest asks asks order updates two_phones

abbrev state : PollerState
state = first_state asks asks order two_phones

Reach-IsPast_example :
    (past : List (BackendConfig × Text)) × (later : List (BackendConfig × Text)) × ((
      coded_lab,
      codes "A\tdevice\n",
    )
        ∷ []
      ≡ past ++ later)
    × (state.registry
        ≡ merge_device_lists (map (latest (seed_lists asks asks order ++ past)) order))
Reach-IsPast_example =
    Reach-IsPast asks asks order two_phones
      (next here (hears 1 coded_lab (codes "A\tdevice\n") state refl refl))

abbrev first_list : List (BackendConfig × Text)
first_list = (office, codes "A\tdevice\n") ∷ []

abbrev second_list : List (BackendConfig × Text)
second_list = (office, codes "A\toffline\n") ∷ []

-- The device goes offline behind the first list, and the notice of that is taken.
changes : (update_from_backend_lists (merge_device_lists first_list) second_list).1 ≡ true
unfolding update_from_backend_lists entries_eq merge_device_lists assign parse_lists parse_lines
    lines codes parse_device_line is_empty trim starts_with words_of_line split_whitespace entry_eq
    text_eq entry_of public_of addr_eq contains get insert remove count_of count_serials
    first_public is_conflict optional_eq to_decimal join
changes = refl

-- The first list, the change, its notice, and the list behind it.
abbrev listed_again : Follower
listed_again = record {
  registry = merge_device_lists second_list;
  unsent = 0;
  notices = 0;
  taken = none;
  first = some (body_of no_lab true (merge_device_lists first_list));
  heard =
      record {
        notice = changed;
        body = body_of no_lab true (merge_device_lists second_list);
        refused = none;
      }
      ∷ [];
}

follows : Steps.Reach no_lab true (subscribed (merge_device_lists first_list) 0) listed_again
unfolding update_from_backend_lists
follows =
    let begun = Steps.next Steps.here (begins _ refl) in
    let written = Steps.next begun (writes second_list _) in
    let sent = Steps.next written (notifies 0 _ (ap (λ b. told b 0) changes)) in
    let woken = Steps.next sent (takes 0 _ _ refl refl refl) in
    Steps.next woken (answers changed _ refl)

Reach-current_example :
    (out : Bytes) × (follow (body_of no_lab true (merge_device_lists first_list)) listed_again.heard
      ≡ (out ++ list_packet (body_of no_lab true listed_again.registry), waiting))
Reach-current_example =
    Reach-current no_lab true (merge_device_lists first_list) 0
      (body_of no_lab true (merge_device_lists first_list)) follows refl refl refl refl

abbrev late : Round
late = record { gate = asks; fetch = λ b. ok (codes "P1\tdevice\n") }

abbrev asked : List Text
asked = map BackendConfig.name (filter_compatible_backends asks 0 order)

abbrev empty_cache : CompatCache
empty_cache = record { fingerprint = []; names = [] }

rounds_stuck_example :
    (compatible_names late.gate order (rounds order (late ∷ late ∷ []) empty_cache)
      ≡ rounds order (late ∷ late ∷ []) empty_cache)
    × All
        (λ (l : BackendConfig × Text). contains l.0.name asked ≡ false → l.1 ≡ [])
        (poll_lists (rounds order (late ∷ late ∷ []) empty_cache).names late.fetch order)
unfolding text_eq backends_fingerprint codes join
rounds_stuck_example = rounds_stuck order late late (late ∷ []) empty_cache refl
