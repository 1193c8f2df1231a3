-- ===== src/Follow/Steps.antt =====
-- A client that follows the devices of the hub, beside the updates of the registry, in small steps.
use adbproxy_rs.Base.{
  ℕ, suc, ◌+◌, if◌then◌else◌, ◌≡◌, Bool, Option, none, some, List, [], ◌∷◌, ◌++◌,
}
use adbproxy_rs.Text.{Text}
use adbproxy_rs.Types.{BackendConfig, DeviceSnapshot}
use adbproxy_rs.Config.{HubPolicySnapshot}
use adbproxy_rs.Poller.{update_from_backend_lists}
use adbproxy_rs.Follow.{Notice, changed, lagged, Heard}
use adbproxy_rs.Follow.Unchanged.{body_of}

-- A registry; the changes that were written to it and of which the notice is not sent yet; the notices that wait for a
-- follower; the one that it has taken and not yet answered; the first list that it was sent, if any; and the lists behind.
pub record Follower : Type 0 where
  pub registry : DeviceSnapshot
  pub unsent : ℕ
  pub notices : ℕ
  pub taken : Option Notice
  pub first : Option Text
  pub heard : List Heard

-- One change more, if the devices changed.
abbrev pub told : Bool → ℕ → ℕ
told differs n = if differs then suc n else n

-- The list of the present registry, which the client takes.
abbrev pub answer : HubPolicySnapshot → Bool → Follower → Notice → Heard
answer p long s n = record { notice = n; body = body_of p long s.registry; refused = none }

pub data Step (p : HubPolicySnapshot) (long : Bool) : Follower → Follower → Type 0 where
  -- `update_from_backend_lists` until its lock is dropped.
  writes :
      (lists : List (BackendConfig × Text)) (s : Follower)
      → Step p long s (record s {
        registry = (update_from_backend_lists s.registry lists).0;
        unsent = told (update_from_backend_lists s.registry lists).1 s.unsent;
      })
  -- Its `notify.send`.
  notifies :
      (left : ℕ) (s : Follower)
      → s.unsent ≡ suc left
      → Step p long s (record s { unsent = left; notices = suc s.notices })
  -- The first list, behind `subscribe`.
  begins :
      (s : Follower)
      → s.first ≡ none
      → Step p long s (record s { first = some (body_of p long s.registry) })
  takes :
      (left : ℕ) (s : Follower) (t : Text)
      → s.first ≡ some t
      → s.taken ≡ none
      → s.notices ≡ suc left
      → Step p long s (record s { notices = left; taken = some changed })
  -- The follower is behind, and some notices are lost.
  lags :
      (lost left : ℕ) (s : Follower) (t : Text)
      → s.first ≡ some t
      → s.taken ≡ none
      → s.notices ≡ suc lost + left
      → Step p long s (record s { notices = left; taken = some lagged })
  -- The list behind a notice.
  answers :
      (n : Notice) (s : Follower)
      → s.taken ≡ some n
      → Step p long s (record s { taken = none; heard = s.heard ++ (answer p long s n ∷ []) })

pub data Reach (p : HubPolicySnapshot) (long : Bool) (s : Follower) : Follower → Type 0 where
  here : Reach p long s s
  next : {t u : Follower} → Reach p long s t → Step p long t u → Reach p long s u

-- A client that was sent nothing yet. Changes from before may still be told.
abbrev pub subscribed : DeviceSnapshot → ℕ → Follower
subscribed registry unsent = record {
  registry = registry;
  unsent = unsent;
  notices = 0;
  taken = none;
  first = none;
  heard = [];
}
