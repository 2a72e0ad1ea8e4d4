-- ===== src/Tests/Feeds.antt =====
-- The poller, the budget and the supervisor on concrete inputs.
use freshet.Prelude.{◌+◌, ◌*◌, ◌≡◌, refl, String, List, [], ◌∷◌, arith, leb, str_eq, if◌then◌else◌}
use freshet.Prelude.Table.{find}
use freshet.Prelude.Exec.{err, other}
use freshet.Common.Time.{second}
use freshet.Ingest.Backoff.{HostBackoff, skip, snapshot, restore, empty}
use freshet.Ingest.Backoff.Restart.{skip-restore}
use freshet.Ingest.Sweep.{Page, answered, World, Poller}
use freshet.Rag.Budget.{Budget, default_caps, spend}
use freshet.Rag.Budget.Limits.{Spent, spend-Spent}
use freshet.Ops.Supervisor
use freshet.Ops.IndexReady
use freshet.Ops.IndexReady.{lag, wait_ready, default_groups, default_timeout, default_interval}
use freshet.Ops.IndexReady.Settled.{IsSettled, wait_ready-IsSettled}
use freshet.Ops.Supervisor.{Child, Supervisor, defaults, started, round, supervise}
use freshet.Ops.Supervisor.Restarts.{
  names, AreStopped, IsRound, children_of, supervise-AreStopped, round-IsLasting,
}

-- A host that failed twice and is skipped for another minute.
abbrev failing : HostBackoff
failing = record { until = ("zoom", 60 * second) ∷ []; failures = ("zoom", 2) ∷ [] }

skip-restore_example :
    skip "zoom" (7 + 30000) (restore 7 (100 + 20000) (snapshot 1000 100 failing) empty)
    ≡ skip "zoom" (1000 + 20000 + 30000) failing
unfolding find
skip-restore_example = skip-restore "zoom" 1000 7 100 20000 30000 failing (refl, tt)

abbrev zoom : Page
zoom = record { provider = "zoom"; url = "https://zoom" }

-- Each fetch is answered with a new tag and a body that the parser does not understand.
abbrev broken : World
broken = record {
  fetch = λ call url headers. answered 200 (("ETag", "v2") ∷ []) "<";
  now = λ call. 0;
  host_of = λ url. url;
  parse_atom = λ provider body. err other;
}

abbrev poller : Poller
poller = record { etag = ("https://zoom", "v1") ∷ []; modified = []; backoff = empty; calls = 0 }

-- One call below the hourly cap.
abbrev busy : Budget
busy = record { windows = record { start = 0; calls = 59 } ∷ []; clock = second }

spend-Spent_example :
    Spent default_caps busy (spend default_caps busy).0 (spend default_caps busy).1
spend-Spent_example = spend-Spent default_caps busy (omega arith, tt)

-- Every child dies in the second round, and the embedder does not heed the signal.
abbrev crash : freshet.Ops.Supervisor.World
crash = record { has_exited = λ call name. leb 2 call; obeys_term = λ name. str_eq name "poller" }

abbrev child : String → Child
child name = record { name = name; proc = started; started_at = 0; restarts = 0; fast_deaths = 0 }

abbrev fleet : List Child
fleet = child "poller" ∷ child "embedder" ∷ []

supervise-AreStopped_example :
    AreStopped (names fleet) (children_of (supervise crash defaults 9 0 fleet))
supervise-AreStopped_example = supervise-AreStopped crash defaults 9 0 fleet

round-IsLasting_example :
    IsRound crash defaults
      (record { clock = second; calls = 2 })
      []
      fleet
      (round crash defaults (record { clock = second; calls = 2 }) [] fleet)
round-IsLasting_example =
    round-IsLasting crash defaults (record { clock = second; calls = 2 }) fleet
      (omega arith, (omega arith, tt))

-- The groups catch up at the second look.
abbrev lagging : freshet.Ops.IndexReady.World
lagging = record { read = λ call group. if leb 2 call then lag 0 else lag 9; elapsed = λ call. 10 }

wait_ready-IsSettled_example :
    IsSettled default_groups
      (0 + default_timeout)
      (wait_ready lagging default_groups default_timeout default_interval
        (record { now = 0; calls = 0 })).0
      (wait_ready lagging default_groups default_timeout default_interval
        (record { now = 0; calls = 0 })).1
wait_ready-IsSettled_example =
    wait_ready-IsSettled lagging default_groups default_timeout default_interval
      (record { now = 0; calls = 0 }) (omega arith)
