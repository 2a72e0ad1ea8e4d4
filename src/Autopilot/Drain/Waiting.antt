-- ===== src/Autopilot/Drain/Waiting.antt =====
-- The rows and the ledger through `wait_for_index`.
use freshet.Prelude.{ℕ, zero, suc, ◌+◌, ◌/◌, inl, inr, String, ◌||◌, Bool-cases, ltb, leb}
use freshet.Prelude.Table.{Table}
use freshet.Common.Incidents.{Incident}
use freshet.Autopilot.Agent.{World, Agent, Ledger}
use freshet.Autopilot.Drain.{wait_loop, wait_for_index, index_poll}

module _ (P : Table Incident → Ledger → Type 0) (w : World) (i : String) where
  wait_loop_keeps :
      (deadline fuel : ℕ) (s : Agent)
      → P s.incidents s.ledger
      → P (wait_loop w i deadline fuel s).1.incidents (wait_loop w i deadline fuel s).1.ledger
  unfolding wait_loop
  wait_loop_keeps deadline zero s h = h
  wait_loop_keeps deadline (suc fuel) s h =
      elim (Bool-cases (ltb 0 (w.indexed_count s.calls i) || leb deadline s.clock)) [
        | inl done ↦ rw done h
        | inr more ↦ rw more (wait_loop_keeps deadline fuel _ h)
      ]

  pub wait_for_index_keeps :
      (timeout : ℕ) (s : Agent)
      → P s.incidents s.ledger
      → P (wait_for_index w i timeout s).1.incidents (wait_for_index w i timeout s).1.ledger
  unfolding wait_for_index
  wait_for_index_keeps timeout s h =
      wait_loop_keeps (s.clock + timeout) (timeout / index_poll + 2) s h
