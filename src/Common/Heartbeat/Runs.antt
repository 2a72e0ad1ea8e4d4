-- ===== src/Common/Heartbeat/Runs.antt =====
-- What `continuous_run_start` finds, and when a heartbeat writes.
use freshet.Prelude.{
  ℕ, ◌+◌, ◌-◌, ◌≤◌, ◌<◌, ◌≡◌, refl, inl, inr, true, false, some, List, [], ◌∷◌, ◌++◌, arith, ltb,
  if◌then◌else◌, Bool-cases,
}
use freshet.Common.Heartbeat.{Beats, Heartbeat, beat, run_start, continuous_run_start}

-- Every two neighbours are within the tolerance.
abbrev pub Unbroken : ℕ → ℕ → List ℕ → Type 0
Unbroken tolerance from [] = Unit
Unbroken tolerance from (t ∷ rest) = (from - t ≤ tolerance) × Unbroken tolerance t rest

-- The last of a run.
abbrev pub last_of : ℕ → List ℕ → ℕ
last_of from [] = from
last_of from (t ∷ rest) = last_of t rest

-- The beat before the run, if there is one, is further away than the tolerance.
abbrev pub Ended : ℕ → ℕ → List ℕ → Type 0
Ended tolerance start [] = Unit
Ended tolerance start (t ∷ rest) = tolerance < start - t

-- The beats split into the current run and what came before it.
pub record IsRun (tolerance newest : ℕ) (beats : List ℕ) (start : ℕ) : Type 0 where
  pub run : List ℕ
  pub before : List ℕ
  pub split : beats ≡ run ++ before
  pub unbroken : Unbroken tolerance newest run
  pub first : last_of newest run ≡ start
  pub ended : Ended tolerance start before

run_start-IsRun :
    (tolerance newest : ℕ) (beats : List ℕ)
    → IsRun tolerance newest beats (run_start tolerance newest beats)
unfolding run_start
run_start-IsRun tolerance newest [] = record {
  run = [];
  before = [];
  split = refl;
  unbroken = tt;
  first = refl;
  ended = tt;
}
run_start-IsRun tolerance newest (t ∷ rest) = elim (Bool-cases (ltb tolerance (newest - t))) [
  | inl gap ↦ rw gap (record {
    run = [];
    before = t ∷ rest;
    split = refl;
    unbroken = tt;
    first = refl;
    ended = ground arith;
  })
  | inr near ↦
      let r = run_start-IsRun tolerance t rest in
      rw near (record {
        run = t ∷ r.run;
        before = r.before;
        split = rw (← r.split);
        unbroken = (ground arith, r.unbroken);
        first = r.first;
        ended = r.ended;
      })
]

-- The start that is found is the oldest beat of the run that ends at the newest beat: the beats split
-- into a run with no gap above the tolerance, whose last is the start, and older beats, of which the
-- first is further from the start than the tolerance.
pub continuous_run_start-IsRun :
    (tolerance newest : ℕ) (beats : List ℕ) (start : ℕ)
    → continuous_run_start tolerance (newest ∷ beats) ≡ some start
    → IsRun tolerance newest beats start
unfolding continuous_run_start
continuous_run_start-IsRun tolerance newest beats start e =
    let e' : run_start tolerance newest beats ≡ start = cc in
    rw (← e') (run_start-IsRun tolerance newest beats)

-- Once a heartbeat has written, a beat at that instant or later writes exactly if the interval has
-- passed since.
pub beat_throttled :
    (now now' wall wall' : ℕ) (h : Heartbeat) (db db' : Beats)
    → (beat now wall h db).0 ≡ true
    → now ≤ now'
    → (beat now' wall' (beat now wall h db).1 db').0
      ≡ (if ltb now' (now + h.interval) then false else true)
unfolding beat
beat_throttled now now' wall wall' h db db' e le = ground arith
