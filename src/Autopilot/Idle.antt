-- ===== src/Autopilot/Idle.antt =====
-- `_idle` of freshet/autopilot/__main__.py: what the autopilot does between messages, with the throttle
-- of the drain in freshet/autopilot/consumer.py and freshet/autopilot/maintenance.py. `monotonic` is a
-- function of the number of the reading, from the first `_next` on.
pub mod Paced
use freshet.Prelude.{
  ℕ, zero, suc, ◌+◌, ◌*◌, Bool, true, false, Option, none, some, List, ◌∷◌, ltb, if◌then◌else◌,
}
use freshet.Prelude.Exec.{Result, ok, err, Exec, pure, other, ◌>>◌}
use freshet.Common.Time.{second, minute}
use freshet.Common.Heartbeat.{Beats, prune_log}
use freshet.Rag.Budget.{Budget, prune}
use freshet.Autopilot.Agent
use freshet.Autopilot.Agent.{Agent}
use freshet.Autopilot.Drain.{drain_due_briefs, drain_limit}
use freshet.Autopilot.Threads
use freshet.Autopilot.Threads.{Threads, Ending, next_thread, returned, limited, failed, poll}

-- DRAIN_INTERVAL_S, MAINTENANCE_INTERVAL_S
abbrev pub drain_interval : ℕ
drain_interval = 5 * second

abbrev pub maintenance_interval : ℕ
maintenance_interval = 60 * minute

-- The collaborators of the autopilot, Slack where it is configured, the clock, and the answers to
-- the statements of `prune` and of `prune_log`.
pub record World : Type 0 where
  pub agent : Agent.World
  pub slack : Option Threads.World
  pub monotonic : (reading : ℕ) → ℕ
  pub prune : (reading : ℕ) → Result (Unit {0})
  pub prune_log : (reading : ℕ) → Result (Unit {0})

pub record Idle : Type 0 where
  pub agent : Agent
  pub threads : Threads
  pub budget : Budget
  pub beats : Beats
  -- `_next` of the drain and of the maintenance
  pub next_drain : ℕ
  pub next_pass : ℕ
  pub readings : ℕ
  -- the readings of the clock when a drain and a maintenance pass were called, newest first
  pub drains : List ℕ
  pub passes : List ℕ

-- `if self._now() < self._next: return`, and the next time: whether the run begins, the next time
-- and the number of the next reading.
unfoldable pub throttle : ℕ → (ℕ → ℕ) → (reading : ℕ) → ℕ → Bool × ℕ × ℕ
throttle interval clock i next_at =
    if ltb (clock i) next_at
    then (false, next_at, suc i)
    else (true, clock (suc i) + interval, suc (suc i))

abbrev pub without_count : Result ℕ → Result (Unit {0})
without_count (ok n) = ok tt
without_count (err e) = err e

-- The call of `drain_due_briefs`, at a reading of the clock.
unfoldable pub call_drain : World → ℕ → Exec Idle Unit
call_drain w at s =
    let (r, a) = drain_due_briefs w.agent drain_limit s.agent in
    (without_count r, record s { agent = a; drains = at ∷ s.drains })

abbrev pub run_drain : World → ℕ → Bool → Exec Idle Unit
run_drain w at false s = (ok tt, s)
run_drain w at true s = call_drain w at s

-- `DrainThrottle.__call__`
unfoldable pub drain : World → Exec Idle Unit
drain w s =
    let (due, t, i) = throttle drain_interval w.monotonic s.readings s.next_drain in
    run_drain w (w.monotonic s.readings) due (record s { next_drain = t; readings = i })

abbrev pub of_ending : Ending → Result (Unit {0})
of_ending (next_thread n) = ok tt
of_ending (returned n) = ok tt
of_ending limited = ok tt
of_ending failed = err other

-- `threads()`, where Slack is configured
abbrev pub answer_threads : Option Threads.World → Exec Idle Unit
answer_threads none s = (ok tt, s)
answer_threads (some w) s = let (e, t) = poll w s.threads in (of_ending e, record s { threads = t })

-- The `try` of a maintenance pass: the first error ends it, and is told in a log only.
abbrev pub after_prune : World → Result (Unit {0}) → Idle → Idle
after_prune w (err e) s = s
after_prune w (ok _) s = record s { beats = prune_log s.budget.clock s.beats }

abbrev pub pass : World → Result (Unit {0}) → Idle → Idle
pass w (err e) s = s
pass w (ok _) s = after_prune w (w.prune_log s.readings) (record s { budget = prune s.budget })

-- The calls of `prune` and `prune_log`, at a reading of the clock.
unfoldable pub call_pass : World → ℕ → Idle → Idle
call_pass w at s = pass w (w.prune s.readings) (record s { passes = at ∷ s.passes })

abbrev pub run_pass : World → ℕ → Bool → Idle → Idle
run_pass w at false s = s
run_pass w at true s = call_pass w at s

-- `Maintenance.__call__`
unfoldable pub maintain : World → Exec Idle Unit
maintain w s =
    let (due, t, i) = throttle maintenance_interval w.monotonic s.readings s.next_pass in
    (ok tt, run_pass w (w.monotonic s.readings) due (record s { next_pass = t; readings = i }))

-- `_idle`
unfoldable pub idle : World → Exec Idle Unit
idle w = drain w >> answer_threads w.slack >> maintain w

-- So many idle ticks, up to one that raises.
unfoldable pub idles : World → ℕ → Exec Idle Unit
idles w zero = pure tt
idles w (suc n) = idle w >> idles w n
