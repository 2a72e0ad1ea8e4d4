-- ===== src/Ops/Supervisor/Restarts.antt =====
-- What a round of the supervisor does to each child, and how the supervisor ends.
use mathlib.Core.List.{append_assoc}
use freshet.Prelude.{
  ℕ, zero, suc, ◌+◌, ◌-◌, ltb, ◌≤◌, ◌<◌, ◌≡◌, refl, subst, ap, ◌∙◌, ◌≢◌, ◌⊎◌, inl, inr, String,
  true, false, List, [], ◌∷◌, ◌++◌, map, arith, Bool-cases, All, All-map,
}
use freshet.Ops.Supervisor.{
  Settings, started, Child, World, Supervisor, start, stop, shutdown, throttled, count_death,
  is_outage, restart, die, Outcome, running, halted, round, End, stopped, dependency_down,
  supervise_from, supervise,
}

abbrev pub names : List Child → List String
names = map (λ (c : Child). c.name)

-- Told to stop, and gone or killed.
abbrev pub IsStopped : Child → Type 0
IsStopped c = c.proc ≢ started

-- The same children, each of them stopped.
abbrev pub AreStopped : List String → List Child → Type 0
AreStopped all cs = (names cs ≡ all) × All IsStopped cs

shutdown-AreStopped : (w : World) (cs : List Child) → AreStopped (names cs) (shutdown w cs)
unfolding shutdown stop
shutdown-AreStopped w [] = (refl, tt)
shutdown-AreStopped w (c ∷ cs) =
    let (same, gone) = shutdown-AreStopped w cs in (ap (λ l. c.name ∷ l) same, (ground arith, gone))

abbrev pub children_of : End → List Child
children_of (stopped cs) = cs
children_of (dependency_down cs) = cs

append-none : (cs : List Child) → cs ≡ cs ++ []
append-none [] = refl
append-none (c ∷ cs) = ap (λ l. c ∷ l) (append-none cs)

names-snoc :
    (done rest : List Child) (c c' : Child)
    → c'.name ≡ c.name
    → names ((done ++ c' ∷ []) ++ rest) ≡ names (done ++ c ∷ rest)
names-snoc [] rest c c' same = ap (λ n. n ∷ names rest) same
names-snoc (d ∷ done) rest c c' same = ap (λ l. d.name ∷ l) (names-snoc done rest c c' same)

-- The last child before the rest, with another of its name in its place.
names-swap :
    (done rest : List Child) (c c' : Child)
    → c'.name ≡ c.name
    → names (done ++ c' ∷ rest) ≡ names (done ++ c ∷ rest)
names-swap [] rest c c' same = ap (λ n. n ∷ names rest) same
names-swap (d ∷ done) rest c c' same = ap (λ l. d.name ∷ l) (names-swap done rest c c' same)

restart-name : (k : Settings) (c : Child) (at : ℕ) → (restart k c at).name ≡ c.name
unfolding restart start
restart-name k c at = refl

restart-started :
    (k : Settings) (c : Child) (at : ℕ) → (restart k c at).started_at ≡ throttled k c at
unfolding restart start
restart-started k c at = refl

throttled-ge : (k : Settings) (c : Child) (at : ℕ) → at ≤ throttled k c at
unfolding throttled
throttled-ge k c at = ground arith

outage-fast :
    (k : Settings) (c : Child) (at : ℕ)
    → c.started_at ≤ at
    → is_outage k c at ≡ true
    → (at < c.started_at + k.fast_death) × (k.max_fast_deaths ≤ suc c.fast_deaths)
unfolding is_outage
outage-fast k c at past h = (ground (arith, h), ground (arith, h))

module _ (w : World) (k : Settings) where
  abbrev Keeps : List String → Outcome → Type 0
  Keeps all (running s cs) = names cs ≡ all
  Keeps all (halted cs) = AreStopped all cs

  Keeps-names : (all all' : List String) (o : Outcome) → all ≡ all' → Keeps all o → Keeps all' o
  Keeps-names all all' (running s cs) e h = h ∙ e
  Keeps-names all all' (halted cs) e h = (h.0 ∙ e, h.1)

  round-Keeps :
      (s : Supervisor) (done pending : List Child)
      → Keeps (names (done ++ pending)) (round w k s done pending)
  unfolding round
  round-Keeps s done [] = ap names (append-none done)
  round-Keeps s done (c ∷ rest) = elim (Bool-cases (w.has_exited s.calls c.name)) [
    | inl dead ↦ elim (Bool-cases (is_outage k c s.clock)) [
      | inl outage ↦
          rw (dead, outage)
            (Keeps-names _ _ (halted (shutdown w (done ++ die k c s.clock ∷ rest)))
              (names-swap done rest c (die k c s.clock) (unfold die in refl))
              (shutdown-AreStopped w (done ++ die k c s.clock ∷ rest)))
      | inr restartable ↦
          rw (dead, restartable)
            (Keeps-names _ _
              (round w k (record { clock = throttled k c s.clock; calls = suc s.calls })
                (done ++ restart k c s.clock ∷ []) rest)
              (names-snoc done rest c (restart k c s.clock) (restart-name k c s.clock))
              (round-Keeps (record { clock = throttled k c s.clock; calls = suc s.calls })
                (done ++ restart k c s.clock ∷ []) rest))
    ]
    | inr alive ↦ rw alive (
        Keeps-names _ _ (round w k (record s { calls = suc s.calls }) (done ++ c ∷ []) rest)
          (names-snoc done rest c c refl)
          (round-Keeps (record s { calls = suc s.calls }) (done ++ c ∷ []) rest))
  ]

  supervise_from-AreStopped :
      (rounds : ℕ) (all : List String) (o : Outcome)
      → Keeps all o
      → AreStopped all (children_of (supervise_from w k rounds o))
  unfolding supervise_from
  supervise_from-AreStopped zero all (halted cs) h = h
  supervise_from-AreStopped (suc rounds) all (halted cs) h = h
  supervise_from-AreStopped zero all (running s cs) h =
      let (same, gone) = shutdown-AreStopped w cs in (same ∙ h, gone)
  supervise_from-AreStopped (suc rounds) all (running s cs) h =
      let s' : Supervisor = record s { clock = s.clock + k.poll } in
      supervise_from-AreStopped rounds all (round w k s' [] cs)
        (Keeps-names (names cs) all (round w k s' [] cs) h (round-Keeps s' [] cs))

start-names : (now : ℕ) (cs : List Child) → names (map (start now) cs) ≡ names cs
unfolding start
start-names now [] = refl
start-names now (c ∷ cs) = ap (λ l. c.name ∷ l) (start-names now cs)

-- However many rounds there are and whichever children die: when `supervise` returns and when it
-- raises `DependencyDown`, every child that it was given, and no other, was told to stop and is gone
-- or killed.
pub supervise-AreStopped :
    (w : World) (k : Settings) (rounds now : ℕ) (cs : List Child)
    → AreStopped (names cs) (children_of (supervise w k rounds now cs))
unfolding supervise
supervise-AreStopped w k rounds now cs =
    supervise_from-AreStopped w k rounds (names cs) _ (start-names now cs)

-- A child that was found dead, restarted: an interval after its last start at the earliest, with
-- the restart counted, and a fast death counted or the count begun anew.
pub record IsRestarted (k : Settings) (at : ℕ) (c c' : Child) : Type 0 where
  pub name : c'.name ≡ c.name
  pub proc : c'.proc ≡ started
  pub waited : c.started_at + k.backoff ≤ c'.started_at
  pub restarts : c'.restarts ≡ suc c.restarts
  pub fast_deaths :
      ((at < c.started_at + k.fast_death)
        × (c'.fast_deaths ≡ suc c.fast_deaths)
        × (suc c.fast_deaths < k.max_fast_deaths))
      ⊎ ((c.started_at + k.fast_death ≤ at) × (c'.fast_deaths ≡ 0))

module _ (w : World) (k : Settings) where
  -- What a look at a child comes to, and the clock after it.
  abbrev pub Lasts : (call now : ℕ) → (c c' : Child) → (later : ℕ) → Type 0
  Lasts call now c c' later =
      ((w.has_exited call c.name ≡ false) × (c' ≡ c) × (later ≡ now))
      ⊎ ((w.has_exited call c.name ≡ true)
          × IsRestarted k now c c'
          × (now ≤ later)
          × (c'.started_at ≡ later))

  -- Each child in its turn.
  abbrev pub Rounded : (call now : ℕ) → (before after : List Child) → Type 0
  Rounded call now [] [] = Unit
  Rounded call now [] (c' ∷ after) = ⊥
  Rounded call now (c ∷ before) [] = ⊥
  Rounded call now (c ∷ before) (c' ∷ after) =
      (later : ℕ) × Lasts call now c c' later × Rounded (suc call) later before after

  -- Some child was found dead, too fast and once too often.
  abbrev pub Halts : (call now : ℕ) → List Child → Type 0
  Halts call now [] = ⊥
  Halts call now (c ∷ before) =
      ((w.has_exited call c.name ≡ true)
        × (now < c.started_at + k.fast_death)
        × (k.max_fast_deaths ≤ suc c.fast_deaths))
      ⊎ ((c' : Child) × (later : ℕ) × Lasts call now c c' later × Halts (suc call) later before)

  abbrev pub IsRound : Supervisor → (done pending : List Child) → Outcome → Type 0
  IsRound s done pending (running t cs) =
      (after : List Child) × (cs ≡ done ++ after) × Rounded s.calls s.clock pending after
  IsRound s done pending (halted cs) = Halts s.calls s.clock pending

  past-later :
      (now later : ℕ) (cs : List Child)
      → now ≤ later
      → All (λ (c : Child). c.started_at ≤ now) cs
      → All (λ (c : Child). c.started_at ≤ later) cs
  past-later now later cs le h =
      All-map (λ (c : Child). c.started_at ≤ now) (λ (c : Child). c.started_at ≤ later) cs
        (λ c h'. omega arith) h

  restart-IsRestarted :
      (at : ℕ) (c : Child)
      → c.started_at ≤ at
      → is_outage k c at ≡ false
      → IsRestarted k at c (restart k c at)
  unfolding restart start throttled count_death is_outage
  restart-IsRestarted at c past ok' = record {
    name = refl;
    proc = refl;
    waited = ground arith;
    restarts = refl;
    fast_deaths = elim (Bool-cases (ltb (at - c.started_at) k.fast_death)) [
      | inl soon ↦ rw soon (inl (ground (arith, soon), refl, ground (arith, soon, ok')))
      | inr late ↦ rw late (inr (ground (arith, late), refl))
    ];
  }

  -- One more child that was looked at, before the rest of the round.
  look-IsRound :
      (s t : Supervisor) (done rest : List Child) (c c' : Child) (o : Outcome)
      → t.calls ≡ suc s.calls
      → Lasts s.calls s.clock c c' t.clock
      → IsRound t (done ++ c' ∷ []) rest o
      → IsRound s done (c ∷ rest) o
  look-IsRound s t done rest c c' (running u cs) call lasts (after, e, r) = (
    c' ∷ after,
    e ∙ append_assoc done (c' ∷ []) after,
    (t.clock, lasts, subst (λ n. Rounded n t.clock rest after) call r),
  )
  look-IsRound s t done rest c c' (halted cs) call lasts h =
      inr (c', t.clock, lasts, subst (λ n. Halts n t.clock rest) call h)

  round-IsRound :
      (s : Supervisor) (done pending : List Child)
      → All (λ (c : Child). c.started_at ≤ s.clock) pending
      → IsRound s done pending (round w k s done pending)
  unfolding round
  round-IsRound s done [] past = ([], append-none done, tt)
  round-IsRound s done (c ∷ rest) past = elim (Bool-cases (w.has_exited s.calls c.name)) [
    | inl dead ↦ elim (Bool-cases (is_outage k c s.clock)) [
      | inl outage ↦
          rw (dead, outage)
            (inl (
              dead,
              (outage-fast k c s.clock past.0 outage).0,
              (outage-fast k c s.clock past.0 outage).1,
            ))
      | inr restartable ↦
          let t : Supervisor = record { clock = throttled k c s.clock; calls = suc s.calls } in
          let c' = restart k c s.clock in
          rw (dead, restartable)
            (look-IsRound s t done rest c c' (round w k t (done ++ c' ∷ []) rest) refl
              (inr (
                dead,
                restart-IsRestarted s.clock c past.0 restartable,
                throttled-ge k c s.clock,
                restart-started k c s.clock,
              ))
              (round-IsRound t (done ++ c' ∷ []) rest
                (past-later s.clock t.clock rest (throttled-ge k c s.clock) past.1)))
    ]
    | inr alive ↦
        let t : Supervisor = record s { calls = suc s.calls } in
        rw alive (
          look-IsRound s t done rest c c (round w k t (done ++ c ∷ []) rest) refl
            (inl (alive, refl, refl)) (round-IsRound t (done ++ c ∷ []) rest past.1))
  ]

  -- A round of the loop over children that were started in the past. If it goes on, then of the
  -- children, looked at in their order, each that had not exited is as before, and each that had is
  -- restarted, a backoff interval after its last start at the earliest, with the restart counted, and
  -- with a fast death counted, still below the limit, or the count begun anew after a slow one. It
  -- is halted only where it finds a child that died fast as often as the limit.
  pub round-IsLasting :
      (s : Supervisor) (cs : List Child)
      → All (λ (c : Child). c.started_at ≤ s.clock) cs
      → IsRound s [] cs (round w k s [] cs)
  round-IsLasting s cs past = round-IsRound s [] cs past
