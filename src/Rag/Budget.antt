-- ===== src/Rag/Budget.antt =====
-- freshet/rag/budget.py: the counter of LLM calls in `llm_budget`, and the two caps.
pub mod Limits
pub mod Pruned
use freshet.Prelude.{
  ℕ, suc, ◌+◌, ◌*◌, ◌/◌, ◌||◌, Option, none, some, List, [], ◌∷◌, ltb, leb, ◌==◌, if◌then◌else◌,
  select,
}
use freshet.Prelude.Exec.{ok, err, budget_exhausted, Exec, ◌>>◌}
use freshet.Common.Time.{hour, day}

-- A row of `llm_budget`.
pub record Window : Type 0 where
  pub start : ℕ
  pub calls : ℕ

pub record Budget : Type 0 where
  pub windows : List Window
  pub clock : ℕ

pub record Caps : Type 0 where
  pub hourly_cap : ℕ
  pub daily_cap : ℕ

-- DEFAULT_HOURLY_CAP, DEFAULT_DAILY_CAP
abbrev pub default_caps : Caps
default_caps = record { hourly_cap = 60; daily_cap = 500 }

-- `date_trunc('hour', now())`
abbrev pub hour_of : ℕ → ℕ
hour_of now = now / hour * hour

-- `_SPEND_SQL`: the new table, or `none` where the guard fails and no row is returned.
unfoldable pub spend_row : ℕ → ℕ → List Window → Option (List Window)
spend_row start cap [] = some (record { start = start; calls = 1 } ∷ [])
spend_row start cap (x ∷ rest) =
    if x.start == start
    then (if ltb x.calls cap then some (record x { calls = suc x.calls } ∷ rest) else none)
    else elim (spend_row start cap rest) [ none ↦ none | some rest' ↦ some (x ∷ rest') ]

-- `_DAY_SQL`: the windows that began in the last 24 hours
unfoldable pub day_calls : ℕ → List Window → ℕ
day_calls now [] = 0
day_calls now (x ∷ rest) =
    let others = day_calls now rest in if ltb now (x.start + day) then x.calls + others else others

abbrev pub Action : Type 0 → Type 0
Action A = Exec Budget A

spend_hour : Option (List Window) → Action Unit
spend_hour none s = (err budget_exhausted, s)
spend_hour (some windows) s = (ok tt, record s { windows = windows })

-- `_spend`
unfoldable pub spend : Caps → Action Unit
unfolding spend_hour
spend caps s =
    if leb caps.hourly_cap 0 || leb caps.daily_cap 0
    then (err budget_exhausted, s)
    else if leb caps.daily_cap (day_calls s.clock s.windows)
    then (err budget_exhausted, s)
    else spend_hour (spend_row (hour_of s.clock) caps.hourly_cap s.windows) s

-- `compose`: what the inner composer does is its own
unfoldable pub compose : {A : Type 0} → Caps → Action A → Action A
compose caps inner = spend caps >> inner

-- `prune`
unfoldable pub prune : Budget → Budget
prune s = record s { windows = select (λ x. leb s.clock (x.start + 7 * day)) s.windows }
