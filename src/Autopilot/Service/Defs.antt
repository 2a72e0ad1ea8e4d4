-- ===== src/Autopilot/Service/Defs.antt =====
-- The life of one autopilot process and its restarts: what `consume_loop` calls for each message and
-- each idle poll (freshet/autopilot/__main__.py), one after the other. A raise ends the process;
-- the next one goes on from what is stored.
use freshet.Prelude.{ℕ, ◌+◌, List, [], ◌∷◌}
use freshet.Prelude.Table.{Table}
use freshet.Pipeline.Lifecycle.{JsonValue}
use freshet.Autopilot.Agent.{World, Agent}
use freshet.Autopilot.Drain.{handle_and_drain, drain_due_briefs, drain_limit}

-- What wakes the process, and how long after it was last done.
pub data Input : Type 0 where
  message : (after : ℕ) → Table JsonValue → Input
  idle : (after : ℕ) → Input

abbrev pub wait : ℕ → Agent → Agent
wait d s = record s { clock = s.clock + d }

unfoldable pub step : World → ℕ → Input → Agent → Agent
step w window (message d m) s = (handle_and_drain w window m (wait d s)).1
step w window (idle d) s = (drain_due_briefs w drain_limit (wait d s)).1

unfoldable pub serve : World → ℕ → List Input → Agent → Agent
unfolding step
serve w window [] s = s
serve w window (x ∷ xs) s = serve w window xs (step w window x s)

-- An empty database.
abbrev pub start : ℕ → Agent
start now = record {
  tables = record { incidents = []; services = [] };
  clock = now;
  calls = 0;
  ledger = record { posts = []; unmarked = [] };
}
