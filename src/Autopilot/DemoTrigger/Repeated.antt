-- ===== src/Autopilot/DemoTrigger/Repeated.antt =====
-- The brief of a demo that is repeated.
use mathlib.Core.Option
use freshet.Prelude.{
  ℕ, ◌+◌, ◌-◌, ◌≤◌, ◌≡◌, refl, sym, ap, ◌∙◌, subst, String, true, false, Option, none, some, str_eq,
  ltb, if◌then◌else◌, arith, eq_iff, Option-cases, ◌⊎◌, inl, inr, suc,
}
use freshet.Prelude.Table.{Table, find, put, modify, find-put, find-modify}
use freshet.Prelude.Exec.{Result, ok}
use freshet.Common.Incidents.{Incident, Tables, new_incident, refresh_incident, ensure_incident}
use freshet.Pipeline.Lifecycle.{to_json, from_json-to_json, JsonValue}
use freshet.Autopilot.Leases.{brief, claimable, schedule, max_brief_age}
use freshet.Autopilot.Agent.{Agent, update, Ledger}
use freshet.Autopilot.Agent
use freshet.Autopilot.Consumer.{
  event_ts, schedule_brief, handle_opened, handle_event, handle_lifecycle,
}
use freshet.Autopilot.DemoTrigger.{
  World, Demo, Pick, event, reset_demo, reset, ensure_pick, fire, JsonValue, suc, delivered, err,
}

-- A row that nothing was done about yet.
record IsBlank (r : Incident) : Type 0 where
  pub briefed_at : r.briefed_at ≡ none
  pub brief_delivered_at : r.brief_delivered_at ≡ none
  pub brief_due_at : r.brief_due_at ≡ none
  pub slack_ts : r.slack_ts ≡ none

-- The row of an incident, if there is one, is blank.
abbrev Begins : String → Table Incident → Type 0
Begins i t = (find i t ≡ none) ⊎ ((r : Incident) × (find i t ≡ some r) × IsBlank r)

abbrev HasBlank : String → Table Incident → Type 0
HasBlank i t = (r : Incident) × (find i t ≡ some r) × IsBlank r

same_key : (i : String) → str_eq i i ≡ true
same_key i = ground (arith, eq_iff i i)

find-put_self : (i : String) (r : Incident) (t : Table Incident) → find i (put i r t) ≡ some r
find-put_self i r t = find-put i i r t ∙ ap (λ b. if b then some r else find i t) (same_key i)

find-modify_self :
    (i : String) (f : Incident → Incident) (t : Table Incident)
    → find i (modify i f t) ≡ Option.map f (find i t)
find-modify_self i f t =
    find-modify i i f t ∙ ap (λ b. if b then Option.map f (find i t) else find i t) (same_key i)

ensure_incident-HasBlank :
    (i service title : String) (now : ℕ) (db : Tables)
    → str_eq i "" ≡ false
    → Begins i db.incidents
    → HasBlank i (ensure_incident i service now title db).incidents
unfolding ensure_incident
ensure_incident-HasBlank i service title now db named (inl missing) =
    rw (named, missing)
      (
        new_incident title now service,
        find-put_self i (new_incident title now service) db.incidents,
        record {
          briefed_at = refl;
          brief_delivered_at = refl;
          brief_due_at = refl;
          slack_ts = refl;
        },
      )
ensure_incident-HasBlank i service title now db named (inr (r, found, blank)) =
    rw (named, found)
      (
        refresh_incident title service r,
        find-modify_self i (refresh_incident title service) db.incidents
            ∙ ap (Option.map (refresh_incident title service)) found,
        record {
          briefed_at = blank.briefed_at;
          brief_delivered_at = blank.brief_delivered_at;
          brief_due_at = blank.brief_due_at;
          slack_ts = blank.slack_ts;
        },
      )

reset-Begins :
    (i : String) (now : ℕ) (first : Option ℕ) (t : Table Incident)
    → Begins i (modify i (reset_demo now first) t)
unfolding reset_demo
reset-Begins i now first t = elim (Option-cases (find i t)) [
  | inl missing ↦
      inl (
        find-modify_self i (reset_demo now first) t
        ∙ ap (Option.map (reset_demo now first)) missing)
  | inr (r, found) ↦ inr (
    reset_demo now first r,
    find-modify_self i (reset_demo now first) t ∙ ap (Option.map (reset_demo now first)) found,
    record { briefed_at = refl; brief_delivered_at = refl; brief_due_at = refl; slack_ts = refl },
  )
]

-- The event of a repeated demo, taken by the autopilot `late` after it was made.
abbrev pub taken :
    Agent.World → World → ℕ → Pick → Demo → (late calls : ℕ) → Ledger → Result (Unit {0}) × Agent
taken w d window p s late calls ledger =
    handle_lifecycle w window (to_json (event d "opened" (d.now s.calls) p)) (record {
      tables = (fire d true p s).1.tables;
      clock = d.now s.calls + late;
      calls = calls;
      ledger = ledger;
    })

-- The row of the incident is due at `at`, in no thread, and a brief of it can be claimed.
pub record IsScheduled (i : String) (at : ℕ) (a : Agent) : Type 0 where
  pub row : Incident
  pub found : find i a.incidents ≡ some row
  pub due : row.brief_due_at ≡ some at
  pub no_thread : row.slack_ts ≡ none
  pub open_to_claim : (now : ℕ) → claimable brief now row ≡ true

schedule-IsScheduled :
    (i : String) (window : ℕ) (a : Agent)
    → HasBlank i a.incidents
    → IsScheduled i (a.clock + window) (schedule_brief i window a)
unfolding schedule_brief update schedule claimable
schedule-IsScheduled i window a (r, found, blank) = record {
  row = record r { brief_due_at = some (a.clock + window) };
  found =
      find-modify_self i (schedule window a.clock) a.incidents
      ∙ ap (Option.map (schedule window a.clock)) found
      ∙ rw (blank.brief_delivered_at, blank.brief_due_at) refl;
  due = refl;
  no_thread = blank.slack_ts;
  open_to_claim = λ now. rw (blank.brief_delivered_at, blank.briefed_at) refl;
}

delivered_tables :
    (m : Table JsonValue) (r : Result (Unit {0})) (s : Demo) → (delivered m r s).1.tables ≡ s.tables
delivered_tables m (ok _) s = refl
delivered_tables m (err e) s = refl

fire-HasBlank :
    (d : World) (p : Pick) (s : Demo)
    → str_eq p.incident_id "" ≡ false
    → HasBlank p.incident_id (fire d true p s).1.tables.incidents
unfolding fire
fire-HasBlank d p s named =
    let now = d.now s.calls in
    let t = ensure_pick p now (reset d p now s) in
    subst (λ (db : Tables). HasBlank p.incident_id db.incidents)
      (sym (
        delivered_tables (to_json (event d "opened" now p)) (d.produce_sync t.calls)
          (record t { calls = suc t.calls })))
      (ensure_incident-HasBlank p.incident_id p.service p.title now (reset d p now s).tables named
        (reset-Begins p.incident_id now (d.first_update p.incident_id) s.tables.incidents))

too_old : (now late : ℕ) → late ≤ max_brief_age → ltb max_brief_age (now + late - now) ≡ false
too_old now late h = ground (arith, h)

-- A repeated demo, whatever its incident has been through: its event, taken within a day, schedules
-- a brief for after the window, outside the old thread, and the brief can be claimed at any time.
pub fire-IsScheduled :
    (w : Agent.World) (d : World) (window : ℕ) (p : Pick) (s : Demo) (late calls : ℕ)
    (ledger : Ledger)
    → str_eq p.incident_id "" ≡ false
    → w.parse_iso (d.iso (d.now s.calls)) ≡ some (d.now s.calls)
    → late ≤ max_brief_age
    → IsScheduled p.incident_id
        (d.now s.calls + late + window)
        (taken w d window p s late calls ledger).1
unfolding handle_lifecycle handle_event handle_opened event_ts str_eq
fire-IsScheduled w d window p s late calls ledger named parse h =
    let now = d.now s.calls in
    let ev = event d "opened" now p in
    let db = (fire d true p s).1.tables in
    rw (from_json-to_json ev, parse, too_old now late h)
      (schedule-IsScheduled p.incident_id window
        (record {
          tables = ensure_incident p.incident_id p.service now p.title db;
          clock = now + late;
          calls = calls;
          ledger = ledger;
        })
        (ensure_incident-HasBlank p.incident_id p.service p.title now db named
          (inr (fire-HasBlank d p s named))))
