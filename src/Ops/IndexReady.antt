-- ===== src/Ops/IndexReady.antt =====
-- freshet/ops/index_ready.py: `wait_ready`. What a group's lag is comes from outside; a message
-- that is printed is left out.
pub mod Settled
use freshet.Prelude.{
  ℕ, zero, suc, ◌+◌, ◌-◌, ◌*◌, min, String, Bool, true, false, ◌&&◌, not, List, [], ◌∷◌, leb, ◌==◌,
  if◌then◌else◌,
}
use freshet.Prelude.Table.{Table, put}
use freshet.Common.Time.{second}

-- `reader(group)`; the error is a `RuntimeError`.
pub data Reading : Type 0 where
  lag : ℕ → Reading
  unreadable : Reading

pub record World : Type 0 where
  pub read : (call : ℕ) → (group : String) → Reading
  pub elapsed : (call : ℕ) → ℕ

pub record Clock : Type 0 where
  pub now : ℕ
  pub calls : ℕ

-- `last`, and whether `errors` has an entry.
pub record Snapshot : Type 0 where
  pub last : Table ℕ
  pub failed : Bool

abbrev pub note : String → Reading → Snapshot → Snapshot
note group (lag n) r = record r { last = put group n r.last }
note group unreadable r = record r { failed = true }

-- The `for` loop over the groups.
unfoldable pub read_all : World → List String → Snapshot → Clock → Snapshot × Clock
read_all w [] r s = (r, s)
read_all w (group ∷ groups) r s =
    read_all w groups (note group (w.read s.calls group) r)
      (record { now = s.now + w.elapsed s.calls; calls = suc s.calls })

-- `all(lag == 0 for lag in last.values())`
unfoldable pub all_zero : Table ℕ → Bool
all_zero [] = true
all_zero ((_, n) ∷ rest) = n == 0 && all_zero rest

abbrev pub caught_up : Snapshot → Bool
caught_up r = not r.failed && all_zero r.last

-- `ready`: the snapshot is returned; `timed_out`: `TimeoutError`; `unfinished`: out of fuel.
pub data Verdict : Type 0 where
  ready : Table ℕ → Verdict
  timed_out unfinished : Verdict

-- The `while` loop, on fuel.
unfoldable pub wait : World → List String → ℕ → ℕ → ℕ → Clock → Verdict × Clock
wait w groups interval deadline zero s = (unfinished, s)
wait w groups interval deadline (suc fuel) s =
    let (r, s') = read_all w groups (record { last = []; failed = false }) s in
    let again =
      wait w groups interval deadline fuel
        (record s' { now = s'.now + min interval (deadline - s'.now) }) in
    if caught_up r
    then (ready r.last, s')
    else if leb deadline s'.now
    then (timed_out, s')
    else again

-- DEFAULT_TIMEOUT_S, DEFAULT_INTERVAL_S, GROUPS
abbrev pub default_timeout : ℕ
default_timeout = 300 * second

abbrev pub default_interval : ℕ
default_interval = 5 * second

abbrev pub default_groups : List String
default_groups = "freshet-stream" ∷ "embedder" ∷ []

unfoldable pub wait_ready : World → List String → (timeout interval : ℕ) → Clock → Verdict × Clock
wait_ready w groups timeout interval s = wait w groups interval (s.now + timeout) (timeout + 1) s
