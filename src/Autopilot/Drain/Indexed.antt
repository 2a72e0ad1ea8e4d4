-- ===== src/Autopilot/Drain/Indexed.antt =====
-- How the wait for an incident's first indexed chunk ends.
use freshet.Prelude.{
  ℕ, zero, suc, ◌+◌, ◌*◌, ◌/◌, ◌<◌, ◌≤◌, ◌≡◌, String, true, false, ◌||◌, ltb, leb, arith,
  Bool-cases, ◌⊎◌, inl, inr,
}
use freshet.Prelude.Exec.{Result, ok, err}
use freshet.Autopilot.Agent.{World, Agent}
use freshet.Autopilot.Drain.{index_poll, wait_loop, wait_for_index}

-- The wait gives a number of chunks, which is positive unless the deadline has come.
abbrev pub IsOver : ℕ → Result ℕ → Agent → Type 0
IsOver deadline (ok n) s = (0 < n) ⊎ (deadline ≤ s.clock)
IsOver deadline (err e) s = ⊥

over :
    (n deadline clock : ℕ) → (ltb 0 n || leb deadline clock) ≡ true → (0 < n) ⊎ (deadline ≤ clock)
over n deadline clock h = ground arith

early : (n deadline clock : ℕ) → (ltb 0 n || leb deadline clock) ≡ false → clock < deadline
early n deadline clock h = ground arith

more :
    (fuel clock deadline : ℕ)
    → deadline + index_poll ≤ clock + suc fuel * index_poll
    → clock < deadline
    → 0 < fuel
more fuel clock deadline h h' = omega arith

wait_loop-IsOver :
    (w : World) (i : String) (deadline fuel : ℕ) (s : Agent)
    → deadline + index_poll ≤ s.clock + fuel * index_poll
    → 0 < fuel
    → IsOver deadline (wait_loop w i deadline fuel s).0 (wait_loop w i deadline fuel s).1
unfolding wait_loop
wait_loop-IsOver w i deadline zero s enough pos = omega (arith, pos)
wait_loop-IsOver w i deadline (suc fuel) s enough pos =
    elim (Bool-cases (ltb 0 (w.indexed_count s.calls i) || leb deadline s.clock)) [
      | inl done ↦ rw done (over (w.indexed_count s.calls i) deadline s.clock done)
      | inr waiting ↦ rw waiting (
          wait_loop-IsOver w i deadline fuel
            (record s { clock = s.clock + index_poll; calls = suc s.calls }) (omega arith)
            (more fuel s.clock deadline enough
              (early (w.indexed_count s.calls i) deadline s.clock waiting)))
    ]

-- `wait_for_index` returns, whatever the counts are: with a positive count, or at its deadline or
-- after it. It never runs out of fuel and never raises.
pub wait_for_index-IsOver :
    (w : World) (i : String) (timeout : ℕ) (s : Agent)
    → IsOver (s.clock + timeout) (wait_for_index w i timeout s).0 (wait_for_index w i timeout s).1
unfolding wait_for_index
wait_for_index-IsOver w i timeout s =
    wait_loop-IsOver w i (s.clock + timeout) (timeout / index_poll + 2) s (omega arith)
      (omega arith)
