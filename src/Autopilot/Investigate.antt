-- ===== src/Autopilot/Investigate.antt =====
-- freshet/autopilot/investigate.py: which updates a brief is made of, and the text of the model
-- about them. A row is what `_INCIDENT_UPDATES_SQL` reads of `vector_records`.
pub mod Scope
use freshet.Prelude.{
  ℕ, String, Bool, true, ◌&&◌, Option, none, some, List, [], ◌∷◌, ◌++◌, map, max, leb, str_eq,
  get_or, is_some, if◌then◌else◌, take, select,
}
use freshet.Prelude.Sort.{sort_by}
use freshet.Prelude.Table.{Table, find, put}
use freshet.Prelude.Exec.{Result, ok, err, budget_exhausted, other}
use freshet.Pipeline.Chunking.{join}

pub record Row : Type 0 where
  pub event_id : String
  pub incident_id : String
  pub chunk_index : ℕ
  pub ts : ℕ
  pub text : List ℕ
  pub service : String
  pub type_name : String
  pub source : String

-- `_Update`
pub record Update : Type 0 where
  pub event_id : String
  pub ts : ℕ
  pub text : List ℕ
  pub service : String
  pub type_name : String
  pub source : String

-- `ts <= %s`, where there is a cutoff
abbrev pub in_time : Option ℕ → ℕ → Bool
in_time none ts = true
in_time (some as_of) ts = leb ts as_of

abbrev pub in_scope : String → Option ℕ → Row → Bool
in_scope incident_id as_of r = str_eq r.incident_id incident_id && in_time as_of r.ts

-- `GROUP BY event_id`
unfoldable pub group : List Row → Table (List Row) → Table (List Row)
group [] groups = groups
group (r ∷ rows) groups =
    group rows (put r.event_id (get_or (find r.event_id groups) [] ++ r ∷ []) groups)

-- `max(ts)`
unfoldable pub newest : List Row → ℕ
newest [] = 0
newest (r ∷ rows) = max r.ts (newest rows)

abbrev pub index_no_later : Row → Row → Bool
index_no_later a b = leb a.chunk_index b.chunk_index

-- One group; `least` is SQL's `min` of texts.
unfoldable pub update_of : (List String → String) → String × List Row → Update
update_of least (e, rows) = record {
  event_id = e;
  ts = newest rows;
  text = join (map (λ (r : Row). r.text) (sort_by index_no_later rows));
  service = least (map (λ (r : Row). r.service) rows);
  type_name = least (map (λ (r : Row). r.type_name) rows);
  source = least (map (λ (r : Row). r.source) rows);
}

-- `ORDER BY max(ts) DESC`
abbrev pub newer : Update → Update → Bool
newer a b = leb b.ts a.ts

-- `fetch_incident_updates`
unfoldable pub fetch_incident_updates :
    (List String → String) → List Row → String → Option ℕ → List Update
fetch_incident_updates least rows incident_id as_of =
    sort_by newer (map (update_of least) (group (select (in_scope incident_id as_of) rows) []))

-- The row of `_INCIDENT_META_SQL`.
pub record Meta : Type 0 where
  pub opened_at : Option ℕ
  pub resolved_at : Option ℕ
  pub brief_as_of : Option ℕ

-- `as_of` of `gather_findings`
unfoldable pub cutoff : String → Option Meta → Option ℕ
cutoff status none = none
cutoff status (some m) =
    if str_eq status "open" && is_some m.brief_as_of
    then m.brief_as_of
    else if is_some m.resolved_at
    then m.opened_at
    else none

-- MAX_NARRATIVE_UPDATES
abbrev pub max_narrative_updates : ℕ
max_narrative_updates = 20

abbrev pub unless_failed : Result String → Result (Option String)
unless_failed (ok narrative) = ok (some narrative)
unless_failed (err budget_exhausted) = err budget_exhausted
unless_failed (err other) = ok none

-- `_summarise`; the error is the `ValueError` without a composer, or the spent budget.
unfoldable pub summarise :
    Option (List Update → Result String) → List Update → Result (Option String)
summarise none updates = err other
summarise (some compose) [] = ok none
summarise (some compose) (u ∷ updates) =
    unless_failed (compose (take max_narrative_updates (u ∷ updates)))

-- The updates of `gather_findings`, and of `gather_postmortem`, which has no cutoff.
unfoldable pub opening_updates :
    (List String → String) → List Row → String → String → Option Meta → List Update
opening_updates least rows incident_id status row =
    fetch_incident_updates least rows incident_id (cutoff status row)
