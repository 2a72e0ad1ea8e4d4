-- ===== src/Autopilot/Idle/Paced.antt =====
-- The times of the drains and of the maintenance passes.
use freshet.Prelude.{
  ℕ, zero, suc, ◌+◌, ◌≤◌, Bool, true, false, Option, none, some, List, [], ◌∷◌, ltb, arith,
  Bool-cases, inl, inr,
}
use freshet.Prelude.Exec.{Result, ok, err, Exec, bind_ind, ◌>>◌}
use freshet.Autopilot.Threads
use freshet.Autopilot.Idle.{
  World, Idle, drain_interval, maintenance_interval, throttle, call_drain, call_pass, run_drain,
  drain, answer_threads, after_prune, pass, run_pass, maintain, idle, idles, prune,
}

-- Each run began an interval or more after the one before it, and so will the next.
abbrev pub IsApart : ℕ → ℕ → List ℕ → Type 0
IsApart interval next_at [] = Unit
IsApart interval next_at (at ∷ earlier) = (at + interval ≤ next_at) × IsApart interval at earlier

IsApart-later :
    (interval next_at now : ℕ) (runs : List ℕ)
    → next_at ≤ now
    → IsApart interval next_at runs
    → IsApart interval now runs
IsApart-later interval next_at now [] h a = tt
IsApart-later interval next_at now (at ∷ earlier) h (apart, rest) = (omega arith, rest)

-- With the run at this reading, where there is one, they are apart before the next time.
with_run : Bool → ℕ → List ℕ → List ℕ
with_run false at runs = runs
with_run true at runs = at ∷ runs

throttle-IsApart :
    (interval : ℕ) (clock : ℕ → ℕ) (i next_at : ℕ) (runs : List ℕ)
    → clock i ≤ clock (suc i)
    → IsApart interval next_at runs
    → (let (due, next, j) = throttle interval clock i next_at in
        IsApart interval next (with_run due (clock i) runs))
unfolding throttle with_run
throttle-IsApart interval clock i next_at runs steady h =
    elim (Bool-cases (ltb (clock i) next_at)) [
      | inl early ↦ rw early h
      | inr due ↦
          rw due
            (omega arith, IsApart-later interval next_at (clock i) runs (ground (arith, due)) h)
    ]

-- The drains and the maintenance passes of a process.
pub record IsPaced (s : Idle) : Type 0 where
  pub drains_apart : IsApart drain_interval s.next_drain s.drains
  pub passes_apart : IsApart maintenance_interval s.next_pass s.passes

run_drain-IsPaced :
    (w : World) (at : ℕ) (due : Bool) (s : Idle)
    → IsApart drain_interval s.next_drain (with_run due at s.drains)
    → IsApart maintenance_interval s.next_pass s.passes
    → IsPaced (run_drain w at due s).1
unfolding with_run call_drain
run_drain-IsPaced w at false s d p = record { drains_apart = d; passes_apart = p }
run_drain-IsPaced w at true s d p = record { drains_apart = d; passes_apart = p }

answer_threads-IsPaced :
    (w : Option Threads.World) (s : Idle) → IsPaced s → IsPaced (answer_threads w s).1
answer_threads-IsPaced none s h = h
answer_threads-IsPaced (some w) s h = record {
  drains_apart = h.drains_apart;
  passes_apart = h.passes_apart;
}

after_prune-IsPaced :
    (w : World) (r : Result (Unit {0})) (s : Idle) → IsPaced s → IsPaced (after_prune w r s)
after_prune-IsPaced w (err e) s h = h
after_prune-IsPaced w (ok _) s h = record {
  drains_apart = h.drains_apart;
  passes_apart = h.passes_apart;
}

pass-IsPaced : (w : World) (r : Result (Unit {0})) (s : Idle) → IsPaced s → IsPaced (pass w r s)
pass-IsPaced w (err e) s h = h
pass-IsPaced w (ok _) s h =
    after_prune-IsPaced w (w.prune_log s.readings) (record s { budget = prune s.budget })
      (record { drains_apart = h.drains_apart; passes_apart = h.passes_apart })

run_pass-IsPaced :
    (w : World) (at : ℕ) (due : Bool) (s : Idle)
    → IsApart drain_interval s.next_drain s.drains
    → IsApart maintenance_interval s.next_pass (with_run due at s.passes)
    → IsPaced (run_pass w at due s)
unfolding with_run call_pass
run_pass-IsPaced w at false s d p = record { drains_apart = d; passes_apart = p }
run_pass-IsPaced w at true s d p =
    pass-IsPaced w (w.prune s.readings) (record s { passes = at ∷ s.passes })
      (record { drains_apart = d; passes_apart = p })

module _ (w : World) (steady : (i : ℕ) → w.monotonic i ≤ w.monotonic (suc i)) where
  drain-IsPaced : (s : Idle) → IsPaced s → IsPaced (drain w s).1
  unfolding drain
  drain-IsPaced s h =
      let (due, t, i) = throttle drain_interval w.monotonic s.readings s.next_drain in
      run_drain-IsPaced w (w.monotonic s.readings) due (record s { next_drain = t; readings = i })
        (throttle-IsApart drain_interval w.monotonic s.readings s.next_drain s.drains
          (steady s.readings) h.drains_apart)
        h.passes_apart

  maintain-IsPaced : (s : Idle) → IsPaced s → IsPaced (maintain w s).1
  unfolding maintain
  maintain-IsPaced s h =
      let (due, t, i) = throttle maintenance_interval w.monotonic s.readings s.next_pass in
      run_pass-IsPaced w (w.monotonic s.readings) due (record s { next_pass = t; readings = i })
        h.drains_apart
        (throttle-IsApart maintenance_interval w.monotonic s.readings s.next_pass s.passes
          (steady s.readings) h.passes_apart)

  -- A rule for a pair of actions that each keep the pace.
  then-IsPaced :
      (m n : Exec Idle Unit)
      → ((s : Idle) → IsPaced s → IsPaced (m s).1)
      → ((s : Idle) → IsPaced s → IsPaced (n s).1)
      → (s : Idle) → IsPaced s
      → IsPaced ((m >> n) s).1
  then-IsPaced m n first second s h =
      bind_ind (λ _ t. IsPaced t) (λ _ t. IsPaced t) m (λ _. n) s (first s h) (λ _. second)
        (λ e t h'. h')

  idle-IsPaced : (s : Idle) → IsPaced s → IsPaced (idle w s).1
  unfolding idle
  idle-IsPaced =
      then-IsPaced (drain w >> answer_threads w.slack) (maintain w)
        (then-IsPaced (drain w) (answer_threads w.slack) drain-IsPaced
          (answer_threads-IsPaced w.slack))
        maintain-IsPaced

  -- For a clock that does not go back, and where it is so before: however many idle ticks there are
  -- and whatever the drain, the threads and the pruning come to, two calls of the drain are at least
  -- five seconds apart and two maintenance passes at least an hour, and the next is not before its
  -- time.
  pub idles-IsPaced : (n : ℕ) (s : Idle) → IsPaced s → IsPaced (idles w n s).1
  unfolding idles
  idles-IsPaced zero s h = h
  idles-IsPaced (suc n) s h = then-IsPaced (idle w) (idles w n) idle-IsPaced (idles-IsPaced n) s h
