-- ===== src/Poller/Overtaking/Late.antt =====
-- A list that is published behind a later one.
use adbproxy_rs.Base.{ℕ, ◌≡◌}
use adbproxy_rs.Text.{Text}
use adbproxy_rs.Poller.Overtaking.{Phase, idle}

abbrev pub IsAllIdle : (ℕ → Phase) → Type 0
IsAllIdle phase = (k : ℕ) → phase k ≡ idle
