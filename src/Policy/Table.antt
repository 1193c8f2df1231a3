-- ===== src/Policy/Table.antt =====
-- The table of disabled devices, its updates and what is written to the configuration.
use adbproxy_rs.Base.{
  ◌≡◌, ◌∙◌, refl, ap, Bool, true, false, not, ◌||◌, Option, none, some, List, [], ◌∷◌, any,
  if◌then◌else◌, arith, Bool-cases, inl, inr,
}
use adbproxy_rs.Text.{Text, text_eq}
use adbproxy_rs.Text.Equality.{text_eq_iff, text_eq_sound}
use adbproxy_rs.Map
use adbproxy_rs.Map.{Map, get-remove, get-insert}
use adbproxy_rs.Policy.{
  DevicePolicyEntry, DevicePolicyTable, insert_all, from_entries, enabled_or, is_enabled,
  set_enabled, disabled_of, text_le, insert_sorted, sort_entries, to_disabled_entries,
}

-- Enabling or disabling one device sets what the table says of it, and leaves every other device as it was.
pub is_enabled-set_enabled :
    (t : DevicePolicyTable) (s s' : Text) (b : Bool)
    → is_enabled (set_enabled t s b) s' ≡ (if text_eq s s' then b else is_enabled t s')
unfolding is_enabled set_enabled enabled_or
is_enabled-set_enabled t s s' true = ground (arith, get-remove s s' t.entries)
is_enabled-set_enabled t s s' false = ground (arith, get-insert s s' false t.entries)

-- No key stands twice, as in every `HashMap`.
abbrev pub IsMap : Map Bool → Type 0
IsMap [] = Unit
IsMap ((k, v) ∷ m) = (Map.get k m ≡ none) × IsMap m

remove-IsMap : (k : Text) (m : Map Bool) → IsMap m → IsMap (Map.remove k m)
unfolding Map.remove
remove-IsMap k [] h = tt
remove-IsMap k ((j, v) ∷ m) (h, hs) = elim (Bool-cases (text_eq j k)) [
  | inl e ↦ rw e (remove-IsMap k m hs)
  | inr e ↦ rw e (ground (arith, get-remove k j m), remove-IsMap k m hs)
]

pub insert-IsMap : (k : Text) (v : Bool) (m : Map Bool) → IsMap m → IsMap (Map.insert k v m)
insert-IsMap k v m h =
    unfold Map.insert in (ground (arith, get-remove k k m, text_eq_iff k k), remove-IsMap k m h)

-- The map of a table keeps its keys apart under every update.
pub set_enabled-IsMap :
    (t : DevicePolicyTable) (s : Text) (b : Bool)
    → IsMap t.entries
    → IsMap (set_enabled t s b).entries
unfolding set_enabled
set_enabled-IsMap t s true h = remove-IsMap s t.entries h
set_enabled-IsMap t s false h = insert-IsMap s false t.entries h

-- Some entry has the serial.
abbrev has : Text → List DevicePolicyEntry → Bool
has s = any (λ e. text_eq e.serial s)

has-insert_sorted :
    (s : Text) (e : DevicePolicyEntry) (es : List DevicePolicyEntry)
    → has s (insert_sorted e es) ≡ (text_eq e.serial s || has s es)
unfolding insert_sorted
has-insert_sorted s e [] = refl
has-insert_sorted s e (f ∷ fs) = ground (arith, has-insert_sorted s e fs)

has-sort_entries : (s : Text) (es : List DevicePolicyEntry) → has s (sort_entries es) ≡ has s es
unfolding sort_entries
has-sort_entries s [] = refl
has-sort_entries s (e ∷ es) =
    ground (arith, has-insert_sorted s e (sort_entries es), has-sort_entries s es)

abbrev AllFalse : List DevicePolicyEntry → Type 0
AllFalse [] = Unit
AllFalse (e ∷ es) = (e.enabled ≡ false) × AllFalse es

AllFalse-insert_sorted :
    (e : DevicePolicyEntry) (es : List DevicePolicyEntry)
    → e.enabled ≡ false
    → AllFalse es
    → AllFalse (insert_sorted e es)
unfolding insert_sorted
AllFalse-insert_sorted e [] h hs = (h, tt)
AllFalse-insert_sorted e (f ∷ fs) h (hf, hs) = elim (Bool-cases (text_le e.serial f.serial)) [
  | inl p ↦ rw p (h, (hf, hs))
  | inr p ↦ rw p (hf, AllFalse-insert_sorted e fs h hs)
]

AllFalse-sort_entries : (es : List DevicePolicyEntry) → AllFalse es → AllFalse (sort_entries es)
unfolding sort_entries
AllFalse-sort_entries [] h = tt
AllFalse-sort_entries (e ∷ es) (h, hs) =
    AllFalse-insert_sorted e (sort_entries es) h (AllFalse-sort_entries es hs)

AllFalse-disabled_of : (m : Map Bool) → AllFalse (disabled_of m)
unfolding disabled_of
AllFalse-disabled_of [] = tt
AllFalse-disabled_of ((s, true) ∷ m) = AllFalse-disabled_of m
AllFalse-disabled_of ((s, false) ∷ m) = (refl, AllFalse-disabled_of m)

get-insert_all :
    (s : Text) (m : Map Bool) (es : List DevicePolicyEntry)
    → AllFalse es
    → Map.get s (insert_all m es) ≡ (if has s es then some false else Map.get s m)
unfolding insert_all
get-insert_all s m [] h = refl
get-insert_all s m (e ∷ es) (h, hs) = ground (
  arith,
  get-insert_all s (Map.insert e.serial e.enabled m) es hs,
  get-insert e.serial s e.enabled m,
)

has-disabled_of :
    (s : Text) (m : Map Bool) → IsMap m → has s (disabled_of m) ≡ not (enabled_or (Map.get s m))
unfolding disabled_of enabled_or Map.get
has-disabled_of s [] h = refl
has-disabled_of s ((k, true) ∷ m) (h, hs) =
    ground (arith, has-disabled_of s m hs, text_eq_sound k s)
has-disabled_of s ((k, false) ∷ m) (h, hs) = ground (arith, has-disabled_of s m hs)

enabled_of_disabled :
    (b : Bool) (o : Option Bool)
    → b ≡ not (enabled_or o)
    → enabled_or (if b then some false else none) ≡ enabled_or o
unfolding enabled_or
enabled_of_disabled b o h = ground arith

-- The entries that are written to the configuration, read again, enable the same devices as before, whatever
-- devices the table names, if no key of its map stands twice.
pub from_entries-to_disabled_entries :
    (t : DevicePolicyTable) (s : Text)
    → IsMap t.entries
    → is_enabled (from_entries (to_disabled_entries t)) s ≡ is_enabled t s
unfolding is_enabled from_entries to_disabled_entries Map.get
from_entries-to_disabled_entries t s h =
    let es = disabled_of t.entries in
    ap enabled_or (
      get-insert_all s [] (sort_entries es)
        (AllFalse-sort_entries es (AllFalse-disabled_of t.entries)))
    ∙ enabled_of_disabled (has s (sort_entries es)) (Map.get s t.entries)
        (has-sort_entries s es ∙ has-disabled_of s t.entries h)
