-- ===== src/Pipeline/IndexStats/Recent.antt =====
-- How old a centroid may be that a search uses.
use freshet.Prelude.{
  ℕ, suc, ◌+◌, ◌≤◌, ◌<◌, ◌≡◌, refl, sym, subst, ap, String, true, false, Option, none, some, List,
  [], ◌∷◌, str_eq, arith, eq_iff, Bool-cases, inl, inr,
}
use freshet.Prelude.Table.{Table, find, put, find-put}
use freshet.Pipeline.IndexStats.{
  World, State, start, next, clear_cache, centroid_ttl, store_mean, refresh_centroid, is_fresh,
  cached_value, get_at, get_centroid,
}

-- What the process does with the cache.
pub data Step : Type 0 where
  lookup refresh : (model : String) → Step

abbrev pub step : World → Step → State → State
step w (lookup model) s = (get_centroid w model s).1
step w (refresh model) s = (refresh_centroid w model s).1

unfoldable pub run : World → List Step → State → State
run w [] s = s
run w (a ∷ steps) s = run w steps (step w a s)

-- A value that the table held at a time that is not over, and less than the time to live ago.
pub record IsRecent (w : World) (model : String) (time : ℕ) (value : Option String) : Type 0 where
  pub read_at : ℕ
  pub past : read_at ≤ time
  pub recent : time < read_at + centroid_ttl
  pub held : w.stored read_at model ≡ value

module _ (w : World) (forward : (call : ℕ) → w.now call ≤ w.now (suc call)) where
  -- An entry that the cache has was read from the table, not after the next reading of the clock.
  abbrev IsRead : ℕ → String → Option (ℕ × Option String) → Type 0
  IsRead time model none = Unit
  IsRead time model (some (read_at, value)) = (read_at ≤ time) × (w.stored read_at model ≡ value)

  abbrev IsSound : State → Type 0
  IsSound s = (model : String) → IsRead (w.now s.calls) model (find model s.cache)

  IsRead-later :
      (time later : ℕ) (model : String) (o : Option (ℕ × Option String))
      → time ≤ later
      → IsRead time model o
      → IsRead later model o
  IsRead-later time later model none le h = tt
  IsRead-later time later model (some (read_at, value)) le h = (omega (arith, le, h.0), h.1)

  next-IsSound : (s : State) → IsSound s → IsSound (next s)
  next-IsSound s h model =
      IsRead-later (w.now s.calls) (w.now (suc s.calls)) model (find model s.cache)
        (forward s.calls) (h model)

  put-IsRead :
      (model other : String) (time later : ℕ) (cache : Table (ℕ × Option String))
      → time ≤ later
      → IsRead later other (find other cache)
      → IsRead later other (find other (put model (time, w.stored time model) cache))
  put-IsRead model other time later cache le h =
      subst (IsRead later other) (sym (find-put model other (time, w.stored time model) cache))
        (elim (Bool-cases (str_eq model other)) [
          | inl same ↦ rw same (le, ap (w.stored time) (ground (arith, same, eq_iff model other)))
          | inr different ↦ rw different h
        ])

  get_at-IsSound :
      (model : String) (time : ℕ) (s : State)
      → time ≤ w.now s.calls
      → IsSound s
      → IsSound (get_at w model time s).1
  get_at-IsSound model time s le h = elim (Bool-cases (is_fresh time (find model s.cache))) [
    | inl fresh ↦ rw fresh h
    | inr stale ↦
        rw stale (λ other. put-IsRead model other time (w.now s.calls) s.cache le (h other))
  ]

  get-IsSound : (model : String) (s : State) → IsSound s → IsSound (get_centroid w model s).1
  unfolding get_centroid
  get-IsSound model s h = elim (Bool-cases (str_eq model "")) [
    | inl blank ↦ rw blank h
    | inr named ↦
        rw named
          (get_at-IsSound model (w.now s.calls) (next s) (forward s.calls) (next-IsSound s h))
  ]

  stored-IsSound :
      (model : String) (o : Option (String × ℕ)) (s : State)
      → IsSound s
      → IsSound (store_mean model o s).1
  unfolding clear_cache find
  stored-IsSound model none s h = h
  stored-IsSound model (some (centroid, n)) s h = λ other. tt

  refresh-IsSound :
      (model : String) (s : State) → IsSound s → IsSound (refresh_centroid w model s).1
  unfolding refresh_centroid
  refresh-IsSound model s h =
      stored-IsSound model (w.mean s.calls model) (next s) (next-IsSound s h)

  run-IsSound : (steps : List Step) (s : State) → IsSound s → IsSound (run w steps s)
  unfolding run
  run-IsSound [] s h = h
  run-IsSound (lookup model ∷ steps) s h =
      run-IsSound steps (get_centroid w model s).1 (get-IsSound model s h)
  run-IsSound (refresh model ∷ steps) s h =
      run-IsSound steps (refresh_centroid w model s).1 (refresh-IsSound model s h)

  cached-IsRecent :
      (model : String) (time : ℕ) (o : Option (ℕ × Option String))
      → is_fresh time o ≡ true
      → IsRead time model o
      → IsRecent w model time (cached_value o)
  cached-IsRecent model time none fresh h = cc
  cached-IsRecent model time (some (read_at, value)) fresh h = record {
    read_at = read_at;
    past = h.0;
    recent = ground (arith, fresh);
    held = h.1;
  }

  get_at-IsRecent :
      (model : String) (time : ℕ) (s : State)
      → IsRead time model (find model s.cache)
      → IsRecent w model time (get_at w model time s).0
  get_at-IsRecent model time s h = elim (Bool-cases (is_fresh time (find model s.cache))) [
    | inl fresh ↦ rw fresh (cached-IsRecent model time (find model s.cache) fresh h)
    | inr stale ↦
        rw stale (record { read_at = time; past = omega arith; recent = omega arith; held = refl })
  ]

  -- For a clock that does not go back: from an empty cache, after any lookups and refreshes and
  -- whatever other processes write meanwhile, the centroid that a lookup gives for a named model is
  -- one that the table held less than five minutes before.
  pub get_centroid-IsRecent :
      (steps : List Step) (model : String)
      → str_eq model "" ≡ false
      → IsRecent w model
          (w.now (run w steps start).calls)
          (get_centroid w model (run w steps start)).0
  unfolding get_centroid
  get_centroid-IsRecent steps model named =
      let s = run w steps start in
      rw named (
        get_at-IsRecent model (w.now s.calls) (next s)
          (run-IsSound steps start (λ other. unfold find in tt) model))
