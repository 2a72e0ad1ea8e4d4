-- ===== src/Ingest/Backoff.antt =====
-- freshet/ingest/poller.py: `HostBackoff`. Its keys are hosts: `host_of` is `urlsplit`'s work.
pub mod Delays
pub mod Restart
use freshet.Prelude.{
  ℕ, ◌+◌, ◌-◌, ◌*◌, ◌^◌, min, String, Bool, Option, none, some, [], ◌∷◌, ltb, get_or, if◌then◌else◌,
  select, length,
}
use freshet.Prelude.Table.{Table, find, put, remove}
use freshet.Common.Time.{second}

pub record HostBackoff : Type 0 where
  pub until : Table ℕ
  pub failures : Table ℕ

abbrev pub empty : HostBackoff
empty = record { until = []; failures = [] }

-- MAX_BACKOFF_S
abbrev pub max_backoff : ℕ
max_backoff = 300 * second

-- `skip`; `host` is the host of the URL here and below
unfoldable pub skip : String → ℕ → HostBackoff → Bool
skip host now b = ltb now (get_or (find host b.until) 0)

-- The interval that `failed` chooses at the n-th failure in a row.
unfoldable pub delay : ℕ → Option ℕ → ℕ
delay n none = min max_backoff (2 ^ min n 10 * second)
delay n (some retry_after) =
    if ltb 0 retry_after
    then min max_backoff retry_after
    else min max_backoff (2 ^ min n 10 * second)

abbrev pub failure_count : String → HostBackoff → ℕ
failure_count host b = get_or (find host b.failures) 0

-- `failed`: the new state and the delay
unfoldable pub failed : String → Option ℕ → ℕ → HostBackoff → HostBackoff × ℕ
failed host retry_after now b =
    let n = failure_count host b + 1 in
    let d = delay n retry_after in
    (record { until = put host (now + d) b.until; failures = put host n b.failures }, d)

-- `succeeded`
unfoldable pub succeeded : String → HostBackoff → HostBackoff
succeeded host b = record { until = remove host b.until; failures = remove host b.failures }

-- `active_count`
unfoldable pub active_count : ℕ → HostBackoff → ℕ
active_count now b = length (select (λ (e : String × ℕ). ltb now e.1) b.until)

-- What `snapshot` gives and `restore` takes.
pub record Snapshot : Type 0 where
  pub failures : Table ℕ
  pub deadlines : Table ℕ

unfoldable pub deadlines : ℕ → ℕ → Table ℕ → Table ℕ
deadlines now wall [] = []
deadlines now wall ((u, t) ∷ rest) =
    let others = deadlines now wall rest in
    if ltb 0 (t - now) then (u, wall + (t - now)) ∷ others else others

unfoldable pub snapshot : ℕ → ℕ → HostBackoff → Snapshot
snapshot now wall b = record { failures = b.failures; deadlines = deadlines now wall b.until }

-- The loop of `restore`.
unfoldable pub restore_until : ℕ → ℕ → Table ℕ → Table ℕ → Table ℕ
restore_until now wall [] until = until
restore_until now wall ((u, deadline) ∷ rest) until =
    restore_until now wall rest
      (if ltb 0 (deadline - wall) then put u (now + (deadline - wall)) until else until)

unfoldable pub restore : ℕ → ℕ → Snapshot → HostBackoff → HostBackoff
restore now wall data' b = record {
  until = restore_until now wall data'.deadlines b.until;
  failures = data'.failures;
}
