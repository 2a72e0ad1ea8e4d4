-- ===== src/Tests/Autopilot.antt =====
-- The autopilot on one incident: opened, in progress, resolved, with an answer from everybody.
use freshet.Autopilot.Service.{posts_at_most_once, followups_after_brief}
use freshet.Prelude.{
  select, ◌*◌, ◌≤◌, ◌≡◌, refl, String, true, none, some, List, [], ◌∷◌, if◌then◌else◌, str_eq,
  false, suc, ◌+◌,
}
use freshet.Prelude.Table.{Table, find, put, remove, modify}
use freshet.Prelude.Sort.{sort_by}
use freshet.Prelude.Exec.{ok}
use freshet.Common.Time.{second}
use freshet.Common.Incidents.{ensure_incident, add_service, Incident, new_incident}
use freshet.Pipeline.Lifecycle.{JsonValue, text, from_json}
use freshet.Autopilot.Brief.{Findings}
use freshet.Autopilot.Leases.{
  brief, postmortem, claimable, set_claim, claimable_deferred, release, mark_delivered, schedule,
  defer, set_resolved, due, pending_followup,
}
use freshet.Autopilot.Agent.{
  World, Agent, Reply, update, update_returning, claim, claim_deferred, mark, deliver, gather,
}
use freshet.Autopilot.Consumer.{
  event_ts, schedule_brief, is_stale, follow_up, handle_opened, handle_progress, handle_resolved,
  handle_event, handle_lifecycle,
}
use freshet.Autopilot.Drain.{
  due_incidents, pending_followups, wait_loop, wait_for_index, try_brief, drain_briefs,
  deliver_deferred, drain_followups, drain_pending_followups, drain_due_briefs, handle_and_drain,
}
use freshet.Autopilot.Accounting.Counts.{count_posts, delivered_flag, BriefFirst}
use freshet.Autopilot.Service.{
  Input, message, idle, step, serve, start, posts_at_most_once, followups_after_brief,
}

abbrev note : String → String → Findings
note service status = record {
  service = service;
  status = status;
  cause_text = none;
  cause_cite = none;
  fix_text = none;
  fix_cite = none;
  runbook = none;
  narrative = none;
  meta = none;
  impact = none;
  updates = [];
  recurrence = none;
}

abbrev answer : {A : Type 0} → A → Reply A
answer a = record { result = ok a; elapsed = second }

-- Every call is answered after a second.
abbrev pub calm : World
calm = record {
  parse_iso = λ ts. if str_eq ts "t0" then some 0 else none;
  text_le = λ a b. true;
  findings = λ call service i status. answer (note service status);
  postmortem_findings = λ call service i. answer (note service "resolved");
  deliver = λ call findings thread. answer (some "1.0");
  last_channel_id = λ call. some "C1";
  accepted = λ call. false;
  mark = λ call. ok tt;
  indexed_count = λ call i. 1;
}

abbrev pub event : String → Table JsonValue
event type =
    ("type", text type)
    ∷ ("incident_id", text "zoom:1")
    ∷ ("service", text "zoom")
    ∷ ("ts", text "t0")
    ∷ []

abbrev pub day_of_zoom : List Input
day_of_zoom =
    message 0 (event "opened")
    ∷ message second (event "resolved")
    ∷ idle (20 * second)
    ∷ message second (event "opened")
    ∷ idle (60 * second)
    ∷ idle (60 * second)
    ∷ []

program : Unit {0}
unfolding select find put remove modify sort_by ensure_incident add_service from_json claimable
    set_claim claimable_deferred release mark_delivered schedule defer set_resolved due
    pending_followup update update_returning claim claim_deferred mark deliver gather event_ts
    schedule_brief is_stale follow_up handle_opened handle_progress handle_resolved handle_event
    handle_lifecycle due_incidents pending_followups wait_loop wait_for_index try_brief drain_briefs
    deliver_deferred drain_followups drain_pending_followups drain_due_briefs handle_and_drain
    count_posts step serve str_eq
program = tt

-- The resolution arrives before the brief is due; the brief goes first, then the postmortem.
posts_of_zoom :
    (serve calm (45 * second) day_of_zoom (start 0)).posts
    ≡ record { kind = postmortem; incident_id = "zoom:1" }
      ∷ record { kind = brief; incident_id = "zoom:1" }
      ∷ []
unfolding program
posts_of_zoom = refl

posts_at_most_once_example :
    (let s = serve calm (45 * second) day_of_zoom (start 0) in
      (count_posts brief "zoom:1" s.posts ≤ suc (count_posts brief "zoom:1" s.unmarked))
      × (count_posts brief "zoom:1" s.posts
          ≡ delivered_flag brief (find "zoom:1" s.incidents)
            + count_posts brief "zoom:1" s.unmarked))
posts_at_most_once_example = posts_at_most_once calm (45 * second) 0 day_of_zoom brief "zoom:1"

followups_after_brief_example : BriefFirst (serve calm (45 * second) day_of_zoom (start 0)).posts
followups_after_brief_example = followups_after_brief calm (45 * second) 0 day_of_zoom

-- An incident whose brief was posted and whose progress update is owed.
abbrev owed : Incident
owed = record (new_incident "Calls fail" 0 "zoom") {
  brief_delivered_at = some 5;
  progress_needed = true;
}

abbrev waiting : Agent
waiting = record {
  tables = record { incidents = ("zoom:1", owed) ∷ []; services = [] };
  clock = second;
  calls = 0;
  ledger = record { posts = []; unmarked = [] };
}
