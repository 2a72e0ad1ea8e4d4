-- ===== src/Ops/Supervisor.antt =====
-- freshet/ops/supervisor.py. Log lines are left out. What the processes do comes from outside.
pub mod Restarts
use freshet.Prelude.{
  ℕ, zero, suc, ◌+◌, ◌-◌, ◌*◌, String, Bool, false, List, [], ◌∷◌, ◌++◌, map, ltb, leb,
  if◌then◌else◌,
}
use freshet.Common.Time.{second}

pub record Settings : Type 0 where
  pub backoff : ℕ
  pub poll : ℕ
  pub fast_death : ℕ
  pub max_fast_deaths : ℕ

-- RESTART_BACKOFF_S, POLL_INTERVAL_S, FAST_DEATH_S, MAX_FAST_DEATHS
abbrev pub defaults : Settings
defaults = record {
  backoff = 30 * second;
  poll = second;
  fast_death = 15 * second;
  max_fast_deaths = 6;
}

-- What the supervisor did last to a child's process.
pub data Proc : Type 0 where
  started : Proc
  exited_after_term : Proc
  killed : Proc

-- `Child`, without its command line and its log.
pub record Child : Type 0 where
  pub name : String
  pub proc : Proc
  pub started_at : ℕ
  pub restarts : ℕ
  pub fast_deaths : ℕ

-- `proc.poll() is not None` at a call, whether `proc.wait(timeout=20)` returns after `terminate`.
pub record World : Type 0 where
  pub has_exited : (call : ℕ) (name : String) → Bool
  pub obeys_term : (name : String) → Bool

pub record Supervisor : Type 0 where
  pub clock : ℕ
  pub calls : ℕ

-- `_start`; spawning takes no time
unfoldable pub start : ℕ → Child → Child
start now c = record c { proc = started; started_at = now }

-- `_shutdown`: terminate, wait, and kill what does not exit
unfoldable pub stop : World → Child → Child
stop w c = record c { proc = if w.obeys_term c.name then exited_after_term else killed }

unfoldable pub shutdown : World → List Child → List Child
shutdown w children = map (stop w) children

-- The clock after the wait before a restart.
unfoldable pub throttled : Settings → Child → ℕ → ℕ
throttled k c now =
    if ltb (now - c.started_at) k.backoff then now + (k.backoff - (now - c.started_at)) else now

-- `child.fast_deaths` after a death
unfoldable pub count_death : Settings → Child → ℕ → ℕ
count_death k c now = if ltb (now - c.started_at) k.fast_death then suc c.fast_deaths else 0

-- A fast death that is one too many.
unfoldable pub is_outage : Settings → Child → ℕ → Bool
is_outage k c now =
    if ltb (now - c.started_at) k.fast_death
    then leb k.max_fast_deaths (suc c.fast_deaths)
    else false

-- A dead child, restarted.
unfoldable pub restart : Settings → Child → ℕ → Child
restart k c now =
    start (throttled k c now)
      (record c { restarts = suc c.restarts; fast_deaths = count_death k c now })

-- The child that is one fast death over the limit.
unfoldable pub die : Settings → Child → ℕ → Child
die k c now = record c { fast_deaths = count_death k c now }

-- After a round: the loop goes on, or `DependencyDown` was raised and the children are as they
-- were left.
pub data Outcome : Type 0 where
  running : Supervisor → List Child → Outcome
  halted : List Child → Outcome

-- The `for` loop of one round; `done` are the children that it has passed.
unfoldable pub round : World → Settings → Supervisor → List Child → List Child → Outcome
round w k s done [] = running s done
round w k s done (c ∷ rest) =
    let kept = round w k (record s { calls = suc s.calls }) (done ++ c ∷ []) rest in
    let restarted =
      round w k (record { clock = throttled k c s.clock; calls = suc s.calls })
        (done ++ restart k c s.clock ∷ []) rest in
    if w.has_exited s.calls c.name
    then (if is_outage k c s.clock
        then halted (shutdown w (done ++ die k c s.clock ∷ rest))
        else restarted)
    else kept

pub data End : Type 0 where
  stopped : List Child → End
  dependency_down : List Child → End

-- The `while` loop: `rounds` is how often `should_stop` says no.
unfoldable pub supervise_from : World → Settings → (rounds : ℕ) → Outcome → End
supervise_from w k rounds (halted children) = dependency_down children
supervise_from w k zero (running s children) = stopped (shutdown w children)
supervise_from w k (suc rounds) (running s children) =
    supervise_from w k rounds (round w k (record s { clock = s.clock + k.poll }) [] children)

-- `supervise`
unfoldable pub supervise : World → Settings → ℕ → ℕ → List Child → End
supervise w k rounds now children =
    supervise_from w k rounds
      (running (record { clock = now; calls = 0 }) (map (start now) children))
