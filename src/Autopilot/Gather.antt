-- ===== src/Autopilot/Gather.antt =====
-- freshet/autopilot/investigate.py: everything that a brief or a postmortem holds, with the line of
-- freshet/autopilot/recurrence.py. A Brief's patterns, an Impact's expressions, the search for
-- recurrences and the composer are functions, and so are Python's `lower`, `strip` and `strftime`.
pub mod Scoped
use Prim.Native.String.{◌++◌ as ◌+str+◌}
use freshet.Prelude.{
  ℕ, ◌/◌, String, Bool, ◌||◌, Option, none, some, List, [], ◌∷◌, map, ltb, str_eq, if◌then◌else◌,
  length, take, ◌&&◌, select,
}
use freshet.Prelude.Exec.{Result, ok, err}
use freshet.Prelude.Decimal.{decimal}
use freshet.Common.Time.{second}
use freshet.Autopilot.Brief
use freshet.Autopilot.Brief.{Findings, Patterns, cause_from_updates, update_lines}
use freshet.Autopilot.Impact
use freshet.Autopilot.Impact.{duration, show_span, estimate_impact}
use freshet.Autopilot.Recurrence
use freshet.Autopilot.Recurrence.{Recurrence as Match, find_recurrences, max_recurrences}
use freshet.Autopilot.Investigate.{Row, Update, Meta, fetch_incident_updates, cutoff, summarise}
use freshet.Autopilot.Questions.{codes}

-- The answers of the database for one incident and its service, but for the rows of
-- `vector_records`, and what is outside.
pub record World : Type 0 where
  pub least : List String → String
  pub incident_row : Option Meta
  pub resolution_summary : Option String
  pub services : List String
  pub patterns : Patterns
  pub impact : Impact.World
  pub recurrence : Recurrence.World
  pub floor : ℕ
  pub strip : String → String
  pub lower : String → String
  -- the text of some code points, and a time as `%H:%M`, `%Y-%m-%d` and `%Y-%m-%d %H:%M:%S`
  pub text : List ℕ → String
  pub minute_format : ℕ → String
  pub day_format : ℕ → String
  pub second_format : ℕ → String

-- `composer.compose` with its question
abbrev pub Composer : Type 0
Composer = String → List Update → Result String

abbrev pub is_placeholder : String → Bool
is_placeholder value =
    str_eq value "none"
    || (str_eq value "none found" || (str_eq value "no runbook found" || str_eq value "n/a"))

-- `fetch_runbook`
abbrev pub runbook_of : World → Option String → Option String
runbook_of w none = none
runbook_of w (some value) =
    if str_eq value "" || is_placeholder (w.lower (w.strip value))
    then none
    else some (w.strip value)

-- `service = %s AND type = 'runbook'`
abbrev pub is_runbook : String → Row → Bool
is_runbook service r = str_eq r.service service && str_eq r.type_name "runbook"

-- `ORDER BY ts LIMIT 1`
abbrev pub earliest_row : Row → List Row → Row
earliest_row r [] = r
earliest_row r (q ∷ rows) = earliest_row (if ltb q.ts r.ts then q else r) rows

abbrev pub runbook_text : World → List Row → Option String
runbook_text w [] = none
runbook_text w (r ∷ rows) = some (w.text (earliest_row r rows).text)

unfoldable pub fetch_runbook : World → List Row → String → Option String
fetch_runbook w rows service = runbook_of w (runbook_text w (select (is_runbook service) rows))

abbrev pub opened_at : Option Meta → Option ℕ
opened_at none = none
opened_at (some m) = m.opened_at

abbrev pub resolved_at : Option Meta → Option ℕ
resolved_at none = none
resolved_at (some m) = m.resolved_at

-- `if not services: services = [service]`
abbrev pub or_own : String → List String → List String
or_own service [] = service ∷ []
or_own service (s ∷ services) = s ∷ services

-- `_impact_for`
unfoldable pub impact_for : World → String → List Update → String
impact_for w service hits =
    estimate_impact w.impact (or_own service w.services) (opened_at w.incident_row)
      (resolved_at w.incident_row) (map (λ (u : Update). u.text) hits)

abbrev pub cited : World → String → ℕ → String
cited w event_id ts = "[" +str+ (event_id +str+ (" @ " +str+ (w.second_format ts +str+ "]")))

-- `max(matches, key=lambda r: r.ts)`, the first of the newest
unfoldable pub newest_match : Match → List Match → Match
newest_match m [] = m
newest_match m (x ∷ xs) = newest_match (if ltb m.ts x.ts then x else m) xs

abbrev pub line_of : World → ℕ → Match → String
line_of w n newest =
    "Recurrence: "
    +str+ (decimal n
        +str+ (" similar prior incident"
            +str+ ((if ltb 1 n then "s" else "")
                +str+ (", most recent "
                    +str+ (w.day_format newest.ts
                        +str+ (" — "
                            +str+ (w.text (take 70 (codes newest.title))
                                +str+ (" " +str+ cited w newest.event_id newest.ts))))))))

-- `recurrence_line`
unfoldable pub recurrence_line : World → List Match → Option String
recurrence_line w [] = none
recurrence_line w (m ∷ matches) = some (line_of w (length (m ∷ matches)) (newest_match m matches))

-- `min(own, key=lambda u: u.ts)`, the first of the earliest
unfoldable pub earliest : Update → List Update → Update
earliest m [] = m
earliest m (x ∷ xs) = earliest (if ltb x.ts m.ts then x else m) xs

-- `_recurrence_for`, where there is an update
unfoldable pub recurrence_for : World → String → List Update → Option String
recurrence_for w incident_id [] = none
recurrence_for w incident_id (u ∷ us) =
    let first = earliest u us in
    recurrence_line w (
      find_recurrences w.recurrence w.floor incident_id (w.text first.text) (some first.ts)
        max_recurrences)

-- What the heuristics of Brief read of an update.
abbrev pub plain : Update → Brief.Update
plain u = record { event_id = u.event_id; ts = u.ts; text = u.text }

abbrev pub cause_text_of : World → Option (List ℕ × Brief.Update) → Option String
cause_text_of w none = none
cause_text_of w (some (sentence, hit)) = some (w.text sentence)

abbrev pub cause_cite_of : World → Option (List ℕ × Brief.Update) → Option String
cause_cite_of w none = none
cause_cite_of w (some (sentence, hit)) = some (cited w hit.event_id hit.ts)

-- A line of `update_lines`.
abbrev pub update_line : World → List ℕ × Brief.Update → String
update_line w (clipped, hit) =
    w.minute_format hit.ts
    +str+ (" — " +str+ (w.text clipped +str+ (" " +str+ cited w hit.event_id hit.ts)))

-- The end of `_gather`, with the narrative.
abbrev pub findings_of :
    World
    → (runbook : Option String) → (service incident_id status : String) → (embedder : Bool)
    → Option String
    → List Update
    → Result (Option String)
    → Result Findings
findings_of w runbook service incident_id status embedder meta own (err e) = err e
findings_of w runbook service incident_id status embedder meta own (ok narrative) =
    let stated = cause_from_updates w.patterns (map plain own) in
    ok (record {
      service = service;
      status = status;
      cause_text = cause_text_of w stated;
      cause_cite = cause_cite_of w stated;
      fix_text = none;
      fix_cite = none;
      runbook = runbook;
      narrative = narrative;
      meta = meta;
      impact = some (impact_for w service own);
      updates = map (update_line w) (update_lines (map plain own));
      recurrence = if embedder then recurrence_for w incident_id own else none;
    })

-- The composer with its question, if there is one.
abbrev pub asked : String → Option Composer → Option (List Update → Result String)
asked question none = none
asked question (some compose) = some (compose question)

-- `_gather`
unfoldable pub gather :
    World
    → List Row
    → (service incident_id status question : String) → Option Composer
    → (embedder : Bool) → (meta : Option String) → (as_of : Option ℕ) → Result Findings
gather w rows service incident_id status question composer embedder meta as_of =
    let own = fetch_incident_updates w.least rows incident_id as_of in
    findings_of w (fetch_runbook w rows service) service incident_id status embedder meta own
      (summarise (asked question composer) own)

-- `gather_findings`; its question is a text of the module.
unfoldable pub gather_findings :
    World
    → List Row
    → (question service incident_id status : String) → Option Composer
    → (embedder : Bool) → Result Findings
gather_findings w rows question service incident_id status composer embedder =
    gather w rows service incident_id status question composer embedder none
      (cutoff status w.incident_row)

abbrev pub shown : Option ℕ → Option String
shown none = none
shown (some span) = some (show_span (span / second))

-- `_format_duration`
unfoldable pub format_duration : Option ℕ → Option ℕ → Option String
format_duration opened resolved = shown (duration opened resolved)

-- `resolution_summary or "resolved"`
abbrev pub or_resolved : Option String → String
or_resolved none = "resolved"
or_resolved (some summary) = if str_eq summary "" then "resolved" else summary

abbrev pub with_duration : Option String → String → String
with_duration none summary = summary
with_duration (some span) summary = "Duration " +str+ (span +str+ (" · " +str+ summary))

-- `gather_postmortem`
unfoldable pub gather_postmortem :
    World
    → List Row
    → (question service incident_id : String) → Option Composer
    → (embedder : Bool) → Result Findings
gather_postmortem w rows question service incident_id composer embedder =
    let span = format_duration (opened_at w.incident_row) (resolved_at w.incident_row) in
    gather w rows service incident_id "resolved" question composer embedder
      (some (with_duration span (or_resolved w.resolution_summary))) none
