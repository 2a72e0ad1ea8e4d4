-- ===== src/Eval/Freshness/Reports.antt =====
-- Which rows are scored, and what a report of an empty run holds.
use freshet.Prelude.{
  ℕ, ◌≡◌, refl, String, Bool, true, false, Option, none, some, List, [], ◌∷◌, ltb, str_eq, is_none,
  coalesce, if◌then◌else◌, arith, eq_iff, Bool-cases, inl, inr,
}
use freshet.Prelude.Table.{
  Table, find, put, remove, find-put, find-remove, DistinctKeys, put-DistinctKeys,
}
use freshet.Eval.Freshness.{
  ChunkRow, set_default, collect, distinct_updates, Value, text, empty_run_keys, remove_all,
  count_of, finalize_report,
}

-- The times of the first row of an update.
unfoldable pub first_row : String → List ChunkRow → Option (ℕ × ℕ)
first_row e [] = none
first_row e (r ∷ rows) =
    if str_eq r.event_id e then some (r.posted, r.queryable) else first_row e rows

find-set_default :
    (e k : String) (v : ℕ × ℕ) (seen : Table (ℕ × ℕ))
    → find e (set_default k v seen) ≡ coalesce (find e seen) (if str_eq k e then some v else none)
find-set_default e k v seen = ground (arith, eq_iff k e, find-put k e v seen)

set_default-DistinctKeys :
    (k : String) (v : ℕ × ℕ) (seen : Table (ℕ × ℕ))
    → DistinctKeys seen
    → DistinctKeys (set_default k v seen)
set_default-DistinctKeys k v seen h = elim (Bool-cases (is_none (find k seen))) [
  | inl new ↦ rw new (put-DistinctKeys k v seen h)
  | inr old ↦ rw old h
]

find-collect :
    (e : String) (rows : List ChunkRow) (seen : Table (ℕ × ℕ))
    → find e (collect rows seen) ≡ coalesce (find e seen) (first_row e rows)
unfolding collect first_row
find-collect e [] seen = ground arith
find-collect e (r ∷ rows) seen = ground (
  arith,
  find-collect e rows (set_default r.event_id (r.posted, r.queryable) seen),
  find-set_default e r.event_id (r.posted, r.queryable) seen,
)

collect-DistinctKeys :
    (rows : List ChunkRow) (seen : Table (ℕ × ℕ))
    → DistinctKeys seen
    → DistinctKeys (collect rows seen)
unfolding collect
collect-DistinctKeys [] seen h = h
collect-DistinctKeys (r ∷ rows) seen h =
    collect-DistinctKeys rows (set_default r.event_id (r.posted, r.queryable) seen)
      (set_default-DistinctKeys r.event_id (r.posted, r.queryable) seen h)

-- However many chunks an update has, it is scored once, with the times of its first row; an update
-- without a row is not scored.
pub distinct_updates-first :
    (rows : List ChunkRow)
    → DistinctKeys (distinct_updates rows)
      × ((e : String) → find e (distinct_updates rows) ≡ first_row e rows)
unfolding distinct_updates find
distinct_updates-first rows = (collect-DistinctKeys rows [] tt, λ e. find-collect e rows [])

-- A key of a list.
unfoldable pub is_among : String → List String → Bool
is_among k [] = false
is_among k (j ∷ js) = if str_eq j k then true else is_among k js

find-remove_all :
    (k : String) (ks : List String) (report : Table Value)
    → find k (remove_all ks report) ≡ (if is_among k ks then none else find k report)
unfolding remove_all is_among
find-remove_all k [] report = refl
find-remove_all k (j ∷ js) report =
    ground (arith, find-remove_all k js (remove j report), find-remove j k report)

-- A report of a run that scored nothing has none of the numbers of a run, says that it was not
-- measured, and is otherwise as it was; a report of any other run is as it was.
pub finalize_report-find :
    (explanation k : String) (report : Table Value)
    → find k (finalize_report explanation report) ≡ (
        if ltb 0 (count_of (find "n" report))
        then find k report
        else if is_among k empty_run_keys
        then none
        else if str_eq "explanation" k
        then some (text explanation)
        else if str_eq "status" k
        then some (text "not yet measured")
        else find k report)
unfolding finalize_report
finalize_report-find explanation k report = elim (Bool-cases (ltb 0 (count_of (find "n" report)))) [
  | inl scored ↦ rw scored refl
  | inr empty ↦
      rw
        (
          empty,
          find-remove_all k empty_run_keys (
              put "explanation" (text explanation) (put "status" (text "not yet measured") report)),
          find-put "explanation" k (text explanation)
              (put "status" (text "not yet measured") report),
          find-put "status" k (text "not yet measured") report,
        )
        refl
]
