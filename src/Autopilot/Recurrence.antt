-- ===== src/Autopilot/Recurrence.antt =====
-- freshet/autopilot/recurrence.py. The search and the query of the incidents are outside; so are
-- Python's `lower`, `strip` and `in`.
pub mod Precedents
use freshet.Prelude.{
  ℕ, String, Bool, true, false, ◌||◌, not, Option, none, some, List, [], ◌∷◌, map, ltb, leb, str_eq,
  if◌then◌else◌, take, select,
}
use freshet.Prelude.Sort.{sort_by}
use freshet.Prelude.Table.{Table, find, put}
use freshet.Rag.Retrieval.{RetrievedHit}

pub record World : Type 0 where
  pub lower : String → String
  pub is_blank : String → Bool
  pub contains : (part whole : String) → Bool
  -- the hits of `hybrid_search` for a text, of one service, and the rows of `_INCIDENT_OF_SQL`
  pub search : String → List RetrievedHit
  pub incident_rows : List String → List (String × Option String × String)

-- _MAINTENANCE_MARKERS
abbrev pub maintenance_markers : List String
maintenance_markers =
    "scheduled maintenance" ∷ "will be performing" ∷ "planned maintenance" ∷ "maintenance window"
    ∷ "maintenance is scheduled" ∷ []

unfoldable pub has_marker : World → List String → String → Bool
has_marker w [] text = false
has_marker w (m ∷ ms) text = w.contains m text || has_marker w ms text

unfoldable pub is_maintenance : World → String → Bool
is_maintenance w text = has_marker w maintenance_markers (w.lower text)

-- MAX_RECURRENCES
abbrev pub max_recurrences : ℕ
max_recurrences = 3

pub record Recurrence : Type 0 where
  pub incident_id : String
  pub title : String
  pub ts : ℕ
  pub event_id : String
  pub similarity : ℕ

-- `if r[1]`: a row without an incident is left out.
abbrev pub add_row :
    String → Option String → String → Table (String × String) → Table (String × String)
add_row e none title m = m
add_row e (some i) title m = if str_eq i "" then m else put e (i, title) m

-- `_incident_of`
unfoldable pub incident_of :
    List (String × Option String × String) → Table (String × String) → Table (String × String)
incident_of [] m = m
incident_of ((e, i, title) ∷ rows) m = incident_of rows (add_row e i title m)

-- `before is not None and h.ts >= before`
abbrev pub is_late : Option ℕ → ℕ → Bool
is_late none ts = false
is_late (some before) ts = leb before ts

abbrev pub is_better : Option Recurrence → ℕ → Bool
is_better none similarity = true
is_better (some prior) similarity = ltb prior.similarity similarity

abbrev pub recurrence_of : RetrievedHit → String → String → Recurrence
recurrence_of h other_id title = record {
  incident_id = other_id;
  title = title;
  ts = h.row.ts;
  event_id = h.row.event_id;
  similarity = h.row.similarity;
}

-- The body of the loop, for the incident that the hit's event has.
abbrev pub consider :
    World
    → String
    → Option ℕ
    → RetrievedHit
    → Option (String × String)
    → Table Recurrence
    → Table Recurrence
consider w incident_id before h none best = best
consider w incident_id before h (some (other_id, title)) best =
    if str_eq other_id incident_id
      || (is_late before h.row.ts
          || (is_maintenance w h.row.text || not (is_better (find other_id best) h.row.similarity)))
    then best
    else put other_id (recurrence_of h other_id title) best

unfoldable pub best_of :
    World
    → String
    → Option ℕ
    → Table (String × String)
    → List RetrievedHit
    → Table Recurrence
    → Table Recurrence
best_of w incident_id before mapping [] best = best
best_of w incident_id before mapping (h ∷ hits) best =
    best_of w incident_id before mapping hits
      (consider w incident_id before h (find h.row.event_id mapping) best)

abbrev pub more_similar : Recurrence → Recurrence → Bool
more_similar a b = leb b.similarity a.similarity

abbrev pub close_hits : World → ℕ → String → List RetrievedHit
close_hits w floor query_text = select (λ h. leb floor h.row.similarity) (w.search query_text)

-- `find_recurrences`; `floor` is the embedder's.
unfoldable pub find_recurrences :
    World
    → (floor : ℕ) → (incident_id query_text : String) → (before : Option ℕ) → (limit : ℕ)
    → List Recurrence
find_recurrences w floor incident_id query_text before limit =
    let hits = close_hits w floor query_text in
    let mapping = incident_of (w.incident_rows (map (λ h. h.row.event_id) hits)) [] in
    if w.is_blank query_text || is_maintenance w query_text
    then []
    else take limit
        (sort_by more_similar (map (λ e. e.1) (best_of w incident_id before mapping hits [])))
