-- ===== src/Autopilot/DemoTrigger.antt =====
-- freshet/autopilot/demo_trigger.py: the events that it emits for the incidents that were picked. The
-- query of the candidates and the printing are left out.
pub mod Repeated
use freshet.Prelude.{
  ℕ, suc, String, Bool, true, false, Option, none, List, [], ◌∷◌, ◌++◌, if◌then◌else◌, take,
}
use freshet.Prelude.Table.{Table, modify}
use freshet.Prelude.Exec.{Result, ok, err, Exec, pure, ◌>>◌}
use freshet.Common.Incidents.{Incident, Tables, ensure_incident}
use freshet.Pipeline.Lifecycle.{LifecycleEvent, JsonValue, to_json}

-- A candidate; a missing title is the empty text.
pub record Pick : Type 0 where
  pub incident_id : String
  pub service : String
  pub title : String

pub data Mode : Type 0 where
  opening repeating progressing resolving : Mode

-- `datetime.now` with `isoformat`, the time of the first update of an incident, and the producer.
pub record World : Type 0 where
  pub now : (call : ℕ) → ℕ
  pub iso : ℕ → String
  pub first_update : String → Option ℕ
  pub produce_sync : (call : ℕ) → Result (Unit {0})

-- The tables, the messages of LIFECYCLE_TOPIC, oldest first, and the number of events.
pub record Demo : Type 0 where
  pub tables : Tables
  pub messages : List (Table JsonValue)
  pub calls : ℕ

-- `_RESET_DEMO_SQL`, as a function of the row
unfoldable pub reset_demo : ℕ → Option ℕ → Incident → Incident
reset_demo now first r = record r {
  opened_at = now;
  brief_as_of = first;
  resolved_at = none;
  resolution_summary = none;
  briefed_at = none;
  brief_delivered_at = none;
  brief_due_at = none;
  postmortem_at = none;
  postmortem_delivered_at = none;
  progress_at = none;
  progress_delivered_at = none;
  progress_needed = false;
  postmortem_needed = false;
  slack_ts = none;
  slack_channel_id = none;
}

abbrev pub event : World → (type : String) → ℕ → Pick → LifecycleEvent
event w type now p = record {
  type = type;
  incident_id = p.incident_id;
  service = p.service;
  ts = w.iso now;
  title = p.title;
}

abbrev pub delivered : Table JsonValue → Result (Unit {0}) → Exec Demo Unit
delivered m (ok _) s = (ok tt, record s { messages = s.messages ++ m ∷ [] })
delivered m (err e) s = (err e, s)

-- `produce_sync` of an event
abbrev pub emit : World → LifecycleEvent → Exec Demo Unit
emit w ev s = delivered (to_json ev) (w.produce_sync s.calls) (record s { calls = suc s.calls })

abbrev pub reset : World → Pick → ℕ → Demo → Demo
reset w p now s = record s {
  tables = record s.tables {
    incidents =
        modify p.incident_id (reset_demo now (w.first_update p.incident_id)) s.tables.incidents;
  };
}

abbrev pub ensure_pick : Pick → ℕ → Demo → Demo
ensure_pick p now s = record s {
  tables = ensure_incident p.incident_id p.service now p.title s.tables;
}

-- `fire`
unfoldable pub fire : World → (repeat : Bool) → Pick → Exec Demo Unit
fire w repeat p s =
    let now = w.now s.calls in
    let s' = if repeat then reset w p now s else s in
    emit w (event w "opened" now p) (ensure_pick p now s')

-- `resolve`
unfoldable pub resolve : World → Pick → Exec Demo Unit
resolve w p s = emit w (event w "resolved" (w.now s.calls) p) s

-- `progress`
unfoldable pub progress : World → Pick → Exec Demo Unit
progress w p s = emit w (event w "in_progress" (w.now s.calls) p) s

abbrev pub trigger : World → Mode → Pick → Exec Demo Unit
trigger w opening = fire w false
trigger w repeating = fire w true
trigger w progressing = progress w
trigger w resolving = resolve w

-- The loop of `main` over the first `count` picks.
unfoldable pub trigger_all : World → Mode → List Pick → Exec Demo Unit
trigger_all w mode [] = pure tt
trigger_all w mode (p ∷ ps) = trigger w mode p >> trigger_all w mode ps

unfoldable pub main : World → Mode → (count : ℕ) → List Pick → Exec Demo Unit
main w mode count picks = trigger_all w mode (take count picks)
