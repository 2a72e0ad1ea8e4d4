-- ===== src/Tests/Demos.antt =====
-- A demo that is repeated for an incident that was briefed and resolved.
use freshet.Prelude.{◌+◌, refl, some, none, [], ◌∷◌, str_eq, arith, ◌*◌}
use freshet.Prelude.Exec.{ok}
use freshet.Common.Time.{second}
use freshet.Common.Incidents.{new_incident}
use freshet.Autopilot.DemoTrigger.{World, Demo, Pick}
use freshet.Autopilot.DemoTrigger.Repeated.{IsScheduled, taken, fire-IsScheduled}
use freshet.Tests.Autopilot.{calm}

abbrev demo_world : World
demo_world = record {
  now = λ call. 0;
  iso = λ t. "t0";
  first_update = λ i. none;
  produce_sync = λ call. ok tt;
}

abbrev zoom : Pick
zoom = record { incident_id = "zoom:1"; service = "zoom"; title = "Calls fail" }

abbrev demo : Demo
demo = record {
  tables = record {
    incidents =
        (
          "zoom:1",
          record (new_incident "Calls fail" 0 "zoom") {
            brief_delivered_at = some 5;
            postmortem_delivered_at = some 9;
            resolved_at = some 8;
            slack_ts = some "7.1";
          },
        )
        ∷ [];
    services = [];
  };
  messages = [];
  calls = 0;
}

fire-IsScheduled_example :
    IsScheduled "zoom:1"
      (0 + second + 45 * second)
      (taken calm demo_world
        (45 * second)
        zoom
        demo
        second
        0
        (record { posts = []; unmarked = [] })).1
unfolding str_eq
fire-IsScheduled_example =
    fire-IsScheduled calm demo_world (45 * second) zoom demo second 0
      (record { posts = []; unmarked = [] }) refl refl (omega arith)
