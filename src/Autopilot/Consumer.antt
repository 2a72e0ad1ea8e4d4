-- ===== src/Autopilot/Consumer.antt =====
-- freshet/autopilot/consumer.py: the handler of lifecycle messages.
use freshet.Prelude.{
  ℕ, ◌-◌, String, Bool, false, Option, none, some, ltb, get_or, str_eq, if◌then◌else◌,
}
use freshet.Prelude.Table.{Table, find}
use freshet.Prelude.Exec.{other, ok, pure, raise, on_error, ◌>>=◌, ◌>>◌}
use freshet.Common.Incidents.{Incident, ensure_incident}
use freshet.Pipeline.Lifecycle.{LifecycleEvent, JsonValue, from_json}
use freshet.Autopilot.Leases.{
  Kind, progress, postmortem, max_brief_age, schedule, defer, set_resolved,
}
use freshet.Autopilot.Agent.{
  World, Agent, Action, effect, update, claim, release_claim, mark, deliver, gather,
}

unfoldable pub event_ts : World → LifecycleEvent → ℕ → ℕ
event_ts w ev now = get_or (w.parse_iso ev.ts) now

abbrev pub ensure : World → LifecycleEvent → Agent → Agent
ensure w ev s = record s {
  tables = ensure_incident ev.incident_id ev.service (event_ts w ev s.clock) ev.title s.tables;
}

-- `schedule_brief`
unfoldable pub schedule_brief : String → ℕ → Agent → Agent
schedule_brief i window s = update i (schedule window s.clock) s

-- `opened and opened[0] and _event_ts(ev) < opened[0]`
unfoldable pub is_stale : World → LifecycleEvent → Agent → Bool
is_stale w ev s = elim (find ev.incident_id s.incidents) [
  | none ↦ false
  | some r ↦ ltb (event_ts w ev s.clock) r.opened_at
]

-- `slack_ts = row[0] if row else None`
abbrev pub thread_of : String → Agent → Option String
thread_of i s = elim (find i s.incidents) [ none ↦ none | some r ↦ r.slack_ts ]

-- The `try` of the follow-ups that a message sends: gather, deliver into the thread, mark.
unfoldable pub follow_up : World → Kind → String → String → Action Unit
follow_up w k service i =
    on_error
      (λ s.
        (do
          findings ← gather w k service i
          deliver w k i findings (thread_of i s)
          mark w k i none none)
          s)
      (release_claim k i)

-- The claim and the `try` under it; without the lease nothing more happens.
abbrev pub if_claimed : Option Incident → Action Unit → Action Unit
if_claimed none m = pure tt
if_claimed (some _) m = m

unfoldable pub handle_opened : World → ℕ → LifecycleEvent → Agent → Agent
handle_opened w window ev s =
    if ltb max_brief_age (s.clock - event_ts w ev s.clock)
    then s
    else schedule_brief ev.incident_id window (ensure w ev s)

unfoldable pub handle_progress : World → ℕ → LifecycleEvent → Action Unit
handle_progress w window ev s =
    if is_stale w ev s
    then (ok tt, s)
    else (do
      effect (ensure w ev)
      effect (schedule_brief ev.incident_id window)
      effect (update ev.incident_id (defer progress))
      claimed ← claim progress ev.incident_id
      if_claimed claimed (follow_up w progress ev.service ev.incident_id))
        s

unfoldable pub handle_resolved : World → LifecycleEvent → Action Unit
handle_resolved w ev s =
    if is_stale w ev s
    then (ok tt, s)
    else (do
      effect (update ev.incident_id (set_resolved (event_ts w ev s.clock)))
      effect (update ev.incident_id (defer postmortem))
      claimed ← claim postmortem ev.incident_id
      if_claimed claimed (follow_up w postmortem ev.service ev.incident_id))
        s

unfoldable pub handle_event : World → ℕ → LifecycleEvent → Action Unit
handle_event w window ev s =
    if str_eq ev.type "opened"
    then (ok tt, handle_opened w window ev s)
    else if str_eq ev.type "in_progress"
    then handle_progress w window ev s
    else if str_eq ev.type "resolved"
    then handle_resolved w ev s
    else (ok tt, s)

abbrev pub handle_decoded : World → ℕ → Option LifecycleEvent → Action Unit
handle_decoded w window none = raise other
handle_decoded w window (some ev) = handle_event w window ev

unfoldable pub handle_lifecycle : World → ℕ → Table JsonValue → Action Unit
handle_lifecycle w window message = handle_decoded w window (from_json message)
