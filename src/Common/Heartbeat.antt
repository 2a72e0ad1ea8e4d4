-- ===== src/Common/Heartbeat.antt =====
-- freshet/common/heartbeat.py. A clock reads from -10⁹ seconds, the `_last` of a new `Heartbeat`, so
-- that the reading 0 is that instant.
pub mod Runs
use freshet.Prelude.{
  ℕ, ◌-◌, ◌*◌, ◌/◌, String, Bool, true, false, ◌&&◌, Option, none, some, List, [], ◌∷◌, ltb, ◌==◌,
  str_eq, if◌then◌else◌, select, leb, ◌+◌,
}
use freshet.Prelude.Table.{Table, put}
use freshet.Common.Time.{second, minute, day}

-- BEAT_INTERVAL_S, GAP_TOLERANCE_S
abbrev pub beat_interval : ℕ
beat_interval = 30 * second

abbrev pub gap_tolerance : ℕ
gap_tolerance = 300 * second

-- `pipeline_heartbeat` and `pipeline_heartbeat_log`.
pub record Beats : Type 0 where
  pub latest : Table ℕ
  pub log : List (String × ℕ)

pub record Heartbeat : Type 0 where
  pub component : String
  pub interval : ℕ
  pub last : ℕ

abbrev pub new_heartbeat : String → Heartbeat
new_heartbeat component = record { component = component; interval = beat_interval; last = 0 }

-- `ON CONFLICT DO NOTHING`
unfoldable pub add_beat : String → ℕ → List (String × ℕ) → List (String × ℕ)
add_beat c at [] = (c, at) ∷ []
add_beat c at ((d, t) ∷ rest) =
    if str_eq d c && (t == at) then (d, t) ∷ rest else (d, t) ∷ add_beat c at rest

-- `beat`: `now` is the process's clock and `wall` the database's.
unfoldable pub beat : ℕ → ℕ → Heartbeat → Beats → Bool × Heartbeat × Beats
beat now wall h db = if ltb (now - h.last) h.interval then (false, h, db) else (
  true,
  record h { last = now },
  record {
    latest = put h.component wall db.latest;
    log = add_beat h.component (wall / minute * minute) db.log;
  },
)

-- HEARTBEAT_RETENTION_DAYS
abbrev pub heartbeat_retention : ℕ
heartbeat_retention = 30 * day

-- `prune_log`
unfoldable pub prune_log : ℕ → Beats → Beats
prune_log now db = record db {
  log = select (λ (b : String × ℕ). leb now (b.1 + heartbeat_retention)) db.log;
}

-- The loop of `continuous_run_start`, over the beats that are older than `start`, newest first.
unfoldable pub run_start : ℕ → ℕ → List ℕ → ℕ
run_start tolerance start [] = start
run_start tolerance start (earlier ∷ rest) =
    let further = run_start tolerance earlier rest in
    if ltb tolerance (start - earlier) then start else further

-- `continuous_run_start`, on the rows that its query gives.
unfoldable pub continuous_run_start : ℕ → List ℕ → Option ℕ
continuous_run_start tolerance [] = none
continuous_run_start tolerance (newest ∷ rest) = some (run_start tolerance newest rest)
