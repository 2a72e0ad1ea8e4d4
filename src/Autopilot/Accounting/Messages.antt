-- ===== src/Autopilot/Accounting/Messages.antt =====
-- The accounting of the posts through whole messages and idle ticks.
use freshet.Prelude.{ℕ, inl, inr, Option, none, some, str_eq, Bool-cases, ltb, ◌-◌}
use freshet.Prelude.Table.{Table}
use freshet.Pipeline.Lifecycle.{LifecycleEvent, from_json, JsonValue}
use freshet.Autopilot.Leases.{progress, postmortem, defer, set_resolved, max_brief_age}
use freshet.Autopilot.Agent.{World, Agent}
use freshet.Autopilot.Consumer.{
  event_ts, ensure, is_stale, handle_opened, handle_progress, handle_resolved, handle_event,
  handle_lifecycle, handle_decoded,
}
use freshet.Autopilot.Accounting.Handlers.{
  Accounted, update-Accounted, claim_and_follow_up, claim_and_follow_up-Accounted,
  defer-KeepsDelivered, set_resolved-KeepsDelivered, schedule_brief-Accounted, ensure-Accounted,
}

module _ (w : World) (window : ℕ) where
  handle_opened-Accounted :
      (ev : LifecycleEvent) (s : Agent) → Accounted s → Accounted (handle_opened w window ev s)
  unfolding handle_opened
  handle_opened-Accounted ev s a =
      elim (Bool-cases (ltb max_brief_age (s.clock - event_ts w ev s.clock))) [
        | inl old ↦ rw old a
        | inr recent ↦ rw recent (
            schedule_brief-Accounted ev.incident_id window (ensure w ev s)
              (ensure-Accounted w ev s a))
      ]

  handle_progress-Accounted :
      (ev : LifecycleEvent) (s : Agent) → Accounted s → Accounted (handle_progress w window ev s).1
  unfolding handle_progress claim_and_follow_up
  handle_progress-Accounted ev s a = elim (Bool-cases (is_stale w ev s)) [
    | inl stale ↦ rw stale a
    | inr fresh ↦ rw fresh (
        claim_and_follow_up-Accounted w progress ev.service ev.incident_id _ (
          update-Accounted ev.incident_id (defer progress) _ (defer-KeepsDelivered progress) (
            schedule_brief-Accounted ev.incident_id window (ensure w ev s)
              (ensure-Accounted w ev s a))))
  ]

  handle_resolved-Accounted :
      (ev : LifecycleEvent) (s : Agent) → Accounted s → Accounted (handle_resolved w ev s).1
  unfolding handle_resolved claim_and_follow_up
  handle_resolved-Accounted ev s a =
      let ts = event_ts w ev s.clock in
      elim (Bool-cases (is_stale w ev s)) [
        | inl stale ↦ rw stale a
        | inr fresh ↦ rw fresh (
            claim_and_follow_up-Accounted w postmortem ev.service ev.incident_id _ (
              update-Accounted ev.incident_id (defer postmortem) _ (defer-KeepsDelivered postmortem)
                (update-Accounted ev.incident_id (set_resolved ts) s
                  (set_resolved-KeepsDelivered ts) a)))
      ]

  handle_event-Accounted :
      (ev : LifecycleEvent) (s : Agent) → Accounted s → Accounted (handle_event w window ev s).1
  unfolding handle_event
  handle_event-Accounted ev s a = elim (Bool-cases (str_eq ev.type "opened")) [
    | inl e ↦ rw e (handle_opened-Accounted ev s a)
    | inr n ↦ elim (Bool-cases (str_eq ev.type "in_progress")) [
      | inl e ↦ rw (n, e) (handle_progress-Accounted ev s a)
      | inr n' ↦ elim (Bool-cases (str_eq ev.type "resolved")) [
        | inl e ↦ rw (n, n', e) (handle_resolved-Accounted ev s a)
        | inr n'' ↦ rw (n, n', n'') a
      ]
    ]
  ]

  handle_decoded-Accounted :
      (o : Option LifecycleEvent) (s : Agent)
      → Accounted s
      → Accounted (handle_decoded w window o s).1
  handle_decoded-Accounted none s a = a
  handle_decoded-Accounted (some ev) s a = handle_event-Accounted ev s a

  pub handle_lifecycle-Accounted :
      (message : Table JsonValue) (s : Agent)
      → Accounted s
      → Accounted (handle_lifecycle w window message s).1
  unfolding handle_lifecycle
  handle_lifecycle-Accounted message s a = handle_decoded-Accounted (from_json message) s a
