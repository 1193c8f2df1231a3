-- ===== src/Service/Ends.antt =====
-- The end of the service: no task is left behind.
use adbproxy_rs.Base.{Bool, true, false, not, ◌&&◌, ◌||◌, ◌≡◌, refl, List, [], ◌∷◌, arith}
use adbproxy_rs.Io.{Result, ok, err}
use adbproxy_rs.Agent.Start.{AgentError}
use adbproxy_rs.Daemon.Start
use adbproxy_rs.Daemon.Start.{DaemonError, bind}
use adbproxy_rs.Service.{
  ServiceError, hub, daemon, agent, io, Task, result_of, is_in_use, Event, shutdown, agent_ends,
  daemon_ends, Phase, choosing, continuing, waiting, returned, Tasks, spawned, choose,
  continue_alone, await_tasks, select_arm, on_event, run_tasks, lost_port,
}

abbrev pub is_returned : Phase → Bool
is_returned (returned r) = true
is_returned choosing = false
is_returned continuing = false
is_returned (waiting a d r) = false

abbrev pub is_shutdown : Event → Bool
is_shutdown shutdown = true
is_shutdown (agent_ends r) = false
is_shutdown (daemon_ends r) = false

abbrev pub asks_shutdown : List Event → Bool
asks_shutdown [] = false
asks_shutdown (e ∷ es) = is_shutdown e || asks_shutdown es

-- A phase behind the two `select!`.
abbrev is_closing : Phase → Bool
is_closing (returned r) = true
is_closing choosing = false
is_closing continuing = false
is_closing (waiting a d r) = true

-- The phase says which tasks run.
sound : Phase → Bool → Bool → Bool → Bool → Bool
sound choosing agent_told daemon_told agent_ended daemon_ended = not agent_ended && not daemon_ended
sound continuing agent_told daemon_told agent_ended daemon_ended = not agent_ended && daemon_ended
sound (waiting for_agent for_daemon r) agent_told daemon_told agent_ended daemon_ended =
    ((for_agent || agent_ended) && (for_daemon || daemon_ended))
    && ((agent_ended || agent_told) && (daemon_ended || daemon_told))
    && not (agent_ended && daemon_ended)
sound (returned r) agent_told daemon_told agent_ended daemon_ended = agent_ended && daemon_ended

abbrev is_sound : Tasks → Bool
is_sound s = sound s.phase s.agent_told s.daemon_told s.agent_ended s.daemon_ended

step_sound :
    (e : Event) (p : Phase) (at dt ae de : Bool)
    → let s : Tasks = record {
      phase = p;
      agent_told = at;
      daemon_told = dt;
      agent_ended = ae;
      daemon_ended = de;
    } in
      is_sound s ≡ true
      → (is_sound (on_event e s) ≡ true)
        × ((is_shutdown e || is_closing p) ≡ true → is_closing (on_event e s).phase ≡ true)
unfolding sound on_event select_arm await_tasks choose continue_alone
step_sound shutdown choosing at dt ae de h = ground arith
step_sound shutdown continuing at dt ae de h = ground arith
step_sound shutdown (waiting a d r) at dt ae de h = ground arith
step_sound shutdown (returned r) at dt ae de h = ground arith
step_sound (agent_ends x) choosing at dt ae de h = ground arith
step_sound (agent_ends x) continuing at dt ae de h = ground arith
step_sound (agent_ends x) (waiting a d r) at dt ae de h = ground arith
step_sound (agent_ends x) (returned r) at dt ae de h = ground arith
step_sound (daemon_ends x) choosing at dt ae de h = ground arith
step_sound (daemon_ends x) continuing at dt ae de h = ground arith
step_sound (daemon_ends x) (waiting a d r) at dt ae de h = ground arith
step_sound (daemon_ends x) (returned r) at dt ae de h = ground arith

on_event_sound :
    (e : Event) (s : Tasks)
    → is_sound s ≡ true
    → (is_sound (on_event e s) ≡ true)
      × ((is_shutdown e || is_closing s.phase) ≡ true → is_closing (on_event e s).phase ≡ true)
on_event_sound e s = step_sound e s.phase s.agent_told s.daemon_told s.agent_ended s.daemon_ended

run_tasks_sound :
    (es : List Event) (s : Tasks)
    → is_sound s ≡ true
    → (is_sound (run_tasks es s) ≡ true)
      × ((asks_shutdown es || is_closing s.phase) ≡ true → is_closing (run_tasks es s).phase ≡ true)
unfolding run_tasks
run_tasks_sound [] s h = (h, λ c. c)
run_tasks_sound (e ∷ es) s h =
    let (kept, closes) = on_event_sound e s h in
    let (end, closed) = run_tasks_sound es (on_event e s) kept in
    (end, λ c. closed (later (is_shutdown e) (asks_shutdown es) (is_closing s.phase) c closes))
  where
    later :
        {d : Bool} (a b c : Bool)
        → ((a || b) || c) ≡ true
        → ((a || c) ≡ true → d ≡ true)
        → (b || d) ≡ true
    later a b c h f = ground arith

closed_ends :
    (p : Phase) (at dt ae de : Bool)
    → sound p at dt ae de ≡ true
    → (is_returned p ≡ (ae && de)) × (is_closing p ≡ true → ((ae || at) && (de || dt)) ≡ true)
unfolding sound
closed_ends choosing at dt ae de h = ground arith
closed_ends continuing at dt ae de h = ground arith
closed_ends (waiting a d r) at dt ae de h = ground arith
closed_ends (returned r) at dt ae de h = ground arith

-- The error of a listen port that another hub holds.
abbrev pub is_lost : Result ServiceError (Unit {0}) → Bool
is_lost (err (daemon (bind addr source))) = is_in_use source
is_lost (err (daemon (Start.io e))) = false
is_lost (err (daemon (Start.local_adb e))) = false
is_lost (err (daemon Start.unsupported_platform)) = false
is_lost (err (hub e)) = false
is_lost (err (agent e)) = false
is_lost (err (io e)) = false
is_lost (ok u) = false

-- A phase with that error as its result.
abbrev pub fails_lost : Phase → Bool
fails_lost (returned r) = is_lost r
fails_lost (waiting a d r) = is_lost r
fails_lost choosing = false
fails_lost continuing = false

daemon_result : (r : Task DaemonError) → lost_port r ≡ false → is_lost (result_of daemon r) ≡ false
unfolding lost_port result_of
daemon_result (ok (ok u)) h = refl
daemon_result (ok (err (bind addr source))) h = h
daemon_result (ok (err (Start.io e))) h = refl
daemon_result (ok (err (Start.local_adb e))) h = refl
daemon_result (ok (err Start.unsupported_platform)) h = refl
daemon_result (err m) h = refl

agent_result : (r : Task AgentError) → is_lost (result_of agent r) ≡ false
unfolding result_of
agent_result (ok (ok u)) = refl
agent_result (ok (err e)) = refl
agent_result (err m) = refl

step_lost :
    (e : Event) (p : Phase) (at dt ae de : Bool)
    → fails_lost p ≡ false
    → fails_lost
        (on_event e (record {
          phase = p;
          agent_told = at;
          daemon_told = dt;
          agent_ended = ae;
          daemon_ended = de;
        })).phase
      ≡ false
unfolding on_event select_arm await_tasks choose continue_alone
step_lost shutdown choosing at dt ae de h = ground arith
step_lost shutdown continuing at dt ae de h = ground arith
step_lost shutdown (waiting a d r) at dt ae de h = ground arith
step_lost shutdown (returned r) at dt ae de h = ground arith
step_lost (agent_ends x) choosing at dt ae de h = ground (arith, agent_result x)
step_lost (agent_ends x) continuing at dt ae de h = ground (arith, agent_result x)
step_lost (agent_ends x) (waiting a d r) at dt ae de h = ground arith
step_lost (agent_ends x) (returned r) at dt ae de h = ground arith
step_lost (daemon_ends x) choosing at dt ae de h = ground (arith, daemon_result x)
step_lost (daemon_ends x) continuing at dt ae de h = ground arith
step_lost (daemon_ends x) (waiting a d r) at dt ae de h = ground arith
step_lost (daemon_ends x) (returned r) at dt ae de h = ground arith

run_tasks_lost :
    (es : List Event) (s : Tasks)
    → fails_lost s.phase ≡ false
    → fails_lost (run_tasks es s).phase ≡ false
unfolding run_tasks
run_tasks_lost [] s h = h
run_tasks_lost (e ∷ es) s h =
    run_tasks_lost es (on_event e s)
      (step_lost e s.phase s.agent_told s.daemon_told s.agent_ended s.daemon_ended h)

-- In whatever order the shutdown is asked for and the agent and the daemon end, the service has returned exactly if
-- both of them have ended, so that it leaves no task behind and waits for no more than them; if the shutdown was asked
-- for, each of the two has ended or was told to stop; and the result is never the daemon's error of a listen port that is
-- in use.
pub run_tasks_ends :
    (es : List Event)
    → let s = run_tasks es spawned in
      (is_returned s.phase ≡ (s.agent_ended && s.daemon_ended))
      × ((not (asks_shutdown es)
            || ((s.agent_ended || s.agent_told) && (s.daemon_ended || s.daemon_told)))
          ≡ true)
      × (fails_lost s.phase ≡ false)
unfolding sound
run_tasks_ends es =
    let s = run_tasks es spawned in
    let (kept, closed) = run_tasks_sound es spawned refl in
    let (ends, told) =
      closed_ends s.phase s.agent_told s.daemon_told s.agent_ended s.daemon_ended kept in
    (
      ends,
      implied (asks_shutdown es) (λ h. told (closed (rw h refl))),
      run_tasks_lost es spawned refl,
    )
  where
    implied : {b : Bool} (a : Bool) → (a ≡ true → b ≡ true) → (not a || b) ≡ true
    implied a f = ground arith
