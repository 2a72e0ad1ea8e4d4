-- ===== src/Autopilot/Investigate/Scope.antt =====
-- Which updates a brief is made of.
use freshet.Prelude.{
  ℕ, ◌≡◌, refl, ap, ◌∙◌, String, Bool, true, false, ◌&&◌, ◌||◌, Option, none, some, List, [], ◌∷◌,
  ◌++◌, map, str_eq, get_or, is_some, if◌then◌else◌, select, All, All-append, arith, eq_iff,
  Bool-cases, inl, inr,
}
use freshet.Prelude.Sort.{All-sort_by}
use freshet.Prelude.Sort.Laws.{IsSorted, count, count-sort_by, sort_by-IsSorted}
use freshet.Prelude.Table.{Table, find, put, find-put, DistinctKeys, put-DistinctKeys}
use freshet.Autopilot.Investigate.{
  Row, Update, in_time, in_scope, group, newest, update_of, newer, fetch_incident_updates, Meta,
  cutoff, opening_updates,
}

-- Some row of an event is in scope.
unfoldable pub has_row : String → Option ℕ → String → List Row → Bool
has_row incident_id as_of e [] = false
has_row incident_id as_of e (r ∷ rows) =
    (in_scope incident_id as_of r && str_eq r.event_id e) || has_row incident_id as_of e rows

unfoldable has_event : String → List Row → Bool
has_event e [] = false
has_event e (r ∷ rows) = str_eq r.event_id e || has_event e rows

has_event-select :
    (i e : String) (as_of : Option ℕ) (rows : List Row)
    → has_event e (select (in_scope i as_of) rows) ≡ has_row i as_of e rows
unfolding has_event has_row select
has_event-select i e as_of [] = refl
has_event-select i e as_of (r ∷ rows) = elim (Bool-cases (in_scope i as_of r)) [
  | inl inside ↦ rw inside (ground (arith, has_event-select i e as_of rows))
  | inr outside ↦ rw outside (has_event-select i e as_of rows)
]

is_some-group :
    (e : String) (rows : List Row) (groups : Table (List Row))
    → is_some (find e (group rows groups)) ≡ (is_some (find e groups) || has_event e rows)
unfolding group has_event
is_some-group e [] groups = ground arith
is_some-group e (r ∷ rows) groups =
    let grown = get_or (find r.event_id groups) [] ++ r ∷ [] in
    ground (
      arith,
      is_some-group e rows (put r.event_id grown groups),
      find-put r.event_id e grown groups,
      eq_iff r.event_id e,
    )

group-DistinctKeys :
    (rows : List Row) (groups : Table (List Row))
    → DistinctKeys groups
    → DistinctKeys (group rows groups)
unfolding group
group-DistinctKeys [] groups h = h
group-DistinctKeys (r ∷ rows) groups h =
    group-DistinctKeys rows _
      (put-DistinctKeys r.event_id (get_or (find r.event_id groups) [] ++ r ∷ []) groups h)

-- How often an event is among the updates.
abbrev pub times_used : String → List Update → ℕ
times_used e us = count (λ u. str_eq u.event_id e) us

used_once :
    (least : List String → String) (e : String) (groups : Table (List Row))
    → DistinctKeys groups
    → times_used e (map (update_of least) groups) ≡ (if is_some (find e groups) then 1 else 0)
unfolding count find update_of
used_once least e [] h = refl
used_once least e ((k, rows) ∷ groups) h = elim (Bool-cases (str_eq k e)) [
  | inl same ↦ rw same (ground (arith, used_once least e groups h.1, h.0, eq_iff k e))
  | inr other ↦ rw other (ground (arith, used_once least e groups h.1))
]

-- Every row of every group is in time.
abbrev InTime : Option ℕ → Table (List Row) → Type 0
InTime as_of groups =
    All (λ (g : String × List Row). All (λ (r : Row). in_time as_of r.ts ≡ true) g.1) groups

newest-in_time :
    (as_of : Option ℕ) (rows : List Row)
    → All (λ (r : Row). in_time as_of r.ts ≡ true) rows
    → in_time as_of (newest rows) ≡ true
unfolding newest
newest-in_time none rows h = refl
newest-in_time (some c) [] h = ground arith
newest-in_time (some c) (r ∷ rows) h = ground (arith, h.0, newest-in_time (some c) rows h.1)

module _ (as_of : Option ℕ) where
  abbrev RowInTime : Row → Type 0
  RowInTime r = in_time as_of r.ts ≡ true

  find-InTime :
      (e : String) (groups : Table (List Row))
      → InTime as_of groups
      → All RowInTime (get_or (find e groups) [])
  unfolding find
  find-InTime e [] h = tt
  find-InTime e ((k, rows) ∷ groups) h = elim (Bool-cases (str_eq k e)) [
    | inl same ↦ rw same h.0
    | inr other ↦ rw other (find-InTime e groups h.1)
  ]

  put-InTime :
      (e : String) (rows : List Row) (groups : Table (List Row))
      → All RowInTime rows
      → InTime as_of groups
      → InTime as_of (put e rows groups)
  unfolding put
  put-InTime e rows [] p h = (p, tt)
  put-InTime e rows ((k, old) ∷ groups) p h = elim (Bool-cases (str_eq k e)) [
    | inl same ↦ rw same (p, h.1)
    | inr other ↦ rw other (h.0, put-InTime e rows groups p h.1)
  ]

  group-InTime :
      (rows : List Row) (groups : Table (List Row))
      → All RowInTime rows
      → InTime as_of groups
      → InTime as_of (group rows groups)
  unfolding group
  group-InTime [] groups p h = h
  group-InTime (r ∷ rows) groups p h =
      group-InTime rows (put r.event_id (get_or (find r.event_id groups) [] ++ r ∷ []) groups) p.1 (
        put-InTime r.event_id (get_or (find r.event_id groups) [] ++ r ∷ []) groups
          (All-append RowInTime (get_or (find r.event_id groups) []) (r ∷ [])
            (find-InTime r.event_id groups h) (p.0, tt))
          h)

  select-InTime : (i : String) (rows : List Row) → All RowInTime (select (in_scope i as_of) rows)
  unfolding select
  select-InTime i [] = tt
  select-InTime i (r ∷ rows) = elim (Bool-cases (in_scope i as_of r)) [
    | inl inside ↦ rw inside (ground (arith, inside), select-InTime i rows)
    | inr outside ↦ rw outside (select-InTime i rows)
  ]

  updates-InTime :
      (least : List String → String) (groups : Table (List Row))
      → InTime as_of groups
      → All (λ (u : Update). in_time as_of u.ts ≡ true) (map (update_of least) groups)
  unfolding update_of
  updates-InTime least [] h = tt
  updates-InTime least ((e, rows) ∷ groups) h =
      (newest-in_time as_of rows h.0, updates-InTime least groups h.1)

-- The updates of an incident, at some cutoff: newest first, none behind the cutoff, and each event
-- once that has a row of the incident in time, and no other.
abbrev pub AreInScope : List Row → String → Option ℕ → List Update → Type 0
AreInScope rows incident_id as_of us =
    IsSorted newer us
    × All (λ (u : Update). in_time as_of u.ts ≡ true) us
    × ((e : String) → times_used e us ≡ (if has_row incident_id as_of e rows then 1 else 0))

pub fetch-AreInScope :
    (least : List String → String) (rows : List Row) (i : String) (as_of : Option ℕ)
    → AreInScope rows i as_of (fetch_incident_updates least rows i as_of)
unfolding fetch_incident_updates find
fetch-AreInScope least rows i as_of =
    let own = select (in_scope i as_of) rows in
    let groups = group own [] in
    let us = map (update_of least) groups in
    (
      sort_by-IsSorted newer (λ a b h. ground arith) (λ a b c h h'. ground arith) us,
      All-sort_by (λ (u : Update). in_time as_of u.ts ≡ true) newer us
          (updates-InTime as_of least groups
            (group-InTime as_of own [] (select-InTime as_of i rows) tt)),
      λ e.
          count-sort_by newer (λ u. str_eq u.event_id e) us
          ∙ used_once least e groups (group-DistinctKeys own [] tt)
          ∙ ap (λ b. if b then 1 else 0) (is_some-group e own [] ∙ has_event-select i e as_of rows),
    )

-- A brief is made of the updates of its own incident at its cutoff: newest first, none behind the
-- cutoff, and each event that has a row of the incident in time once and no other.
pub opening_updates-AreInScope :
    (least : List String → String) (rows : List Row) (i status : String) (row : Option Meta)
    → AreInScope rows i (cutoff status row) (opening_updates least rows i status row)
unfolding opening_updates
opening_updates-AreInScope least rows i status row =
    fetch-AreInScope least rows i (cutoff status row)
