-- ===== src/Tests/Poller.antt =====
-- The poller's loop over a feed, a broker and the cache's file.
use freshet.Prelude.Table.{find}
use freshet.Ingest.Backoff.{skip, empty, max_backoff}
use freshet.Ingest.Fetch.{Net, http_error, millis, retry_after_seconds}
use freshet.Prelude.{
  true, none, some, [], ◌∷◌, leb, if◌then◌else◌, str_eq, ◌≡◌, ltb, ◌+◌, min, arith, refl,
}
use freshet.Prelude.Exec.{ok}
use freshet.Ingest.Sweep.{Page, IncidentUpdate, answered, Poller, one}
use freshet.Ingest.Run.{Config, dict, broken, stored, run}
use freshet.Ingest.Fetch.Honoured.{over, one_honours}
use freshet.Ingest.Run.Saved.{IsRun, run-IsRun}

abbrev zoom : Page
zoom = record { provider = "zoom"; url = "https://zoom" }

abbrev update : IncidentUpdate
update = record {
  provider = "zoom";
  incident_id = "1";
  update_id = "2";
  created_at = 0;
  status = "open";
  text = "Calls fail.";
  incident_name = "Calls";
  body_digest = "d";
}

-- Each fetch gives one update and a tag, the third message fails, and the file is written.
abbrev settings : Config
settings = record {
  pages = zoom ∷ [];
  web = record {
    fetch = λ call url headers. answered 200 (("ETag", "v2") ∷ []) "<feed>";
    now = λ call. call;
    host_of = λ url. url;
    parse_atom = λ provider body. ok (update ∷ []);
  };
  broker = record { report = λ call. if leb 2 call then some 7 else none; served = λ call. 0 };
  wall = λ call. call;
  path = "poll-cache.json";
  writes = λ call. true;
  iso = λ t. "2026-01-01T00:00:00Z";
  dumps = λ m. m.text;
}

run-IsRun_example :
    IsRun settings
      (stored (record { etag = dict []; modified = broken; backoff = none }))
      3
      (run settings 3 (stored (record { etag = dict []; modified = broken; backoff = none }))).0
      (run settings 3 (stored (record { etag = dict []; modified = broken; backoff = none }))).1
run-IsRun_example =
    run-IsRun settings 3 (stored (record { etag = dict []; modified = broken; backoff = none }))

-- The page answers 503 and asks to wait for a minute.
abbrev net : Net
net = record {
  urlopen = λ call url headers. http_error 503 (("Retry-After", "60") ∷ []);
  decompress = λ bytes. ok bytes;
  decode = λ bytes. "";
  lower_strip = λ t. t;
  float = λ t. millis 60000;
  parse_date = λ t. none;
  today = λ call. 0;
}

abbrev poller : Poller
poller = record { etag = []; modified = []; backoff = empty; calls = 0 }

one_honours_example :
    skip "https://zoom" 9 (one (over net settings.web) zoom poller).1.backoff
    ≡ ltb 9 (1 + min max_backoff 60000)
unfolding skip find retry_after_seconds str_eq
one_honours_example =
    one_honours net settings.web zoom poller 503 60000 9 (("Retry-After", "60") ∷ []) refl refl refl
      refl (omega arith)
