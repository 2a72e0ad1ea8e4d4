-- ===== src/Tests/Race.antt =====
-- Two autopilots on one incident.
use freshet.Prelude.{none}
use freshet.Common.Incidents.{Incident, new_incident}
use freshet.Autopilot.Leases.{brief, set_claim, release, mark_delivered}
use freshet.Autopilot.Race.{System, idle, holding, posted, set_phase}

-- Two processes: the first fails and releases its claim, the second posts and marks.
abbrev unbriefed : Incident
unbriefed = new_incident "Calls fail" 0 "zoom"

abbrev raced : System
raced = record {
  row =
      mark_delivered brief 0 none none
        (set_claim brief 0 (release brief (set_claim brief 0 unbriefed)));
  now = 0;
  phase = set_phase 2 idle (
      set_phase 2 (posted 0)
        (set_phase 2 (holding 0) (set_phase 1 idle (set_phase 1 (holding 0) (λ i. idle)))));
  posts = 1;
}
