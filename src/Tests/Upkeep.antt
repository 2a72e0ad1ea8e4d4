-- ===== src/Tests/Upkeep.antt =====
-- The idle work of the autopilot, the pruning and a filtered search on concrete inputs.
use freshet.Prelude.{ℕ, ◌+◌, ◌*◌, ◌≡◌, String, true, none, some, List, [], ◌∷◌, arith, All}
use freshet.Prelude.Exec.{ok, err, other}
use freshet.Common.Time.{hour, second}
use freshet.Rag.Budget.{Budget, default_caps, spend, prune}
use freshet.Rag.Budget.Pruned.{spend-prune}
use freshet.Rag.Retrieval.{RetrievedHit}
use freshet.Rag.Retrieval.Arms.{Indexed, Filter, search_index}
use freshet.Rag.Retrieval.Arms.Filtered.{IsWithin, search_index-AreWithin}
use freshet.Autopilot.Service.{start}
use freshet.Autopilot.Idle.{World, Idle, idles}
use freshet.Autopilot.Idle.Paced.{IsPaced, idles-IsPaced}
use freshet.Tests.Autopilot.{calm}

-- A window of this hour, and one from before the retention.
abbrev counted : Budget
counted = record {
  windows = record { start = 1000 * hour; calls = 59 } ∷ record { start = 0; calls = 7 } ∷ [];
  clock = 1000 * hour + second;
}

spend-prune_example :
    spend default_caps (prune counted)
    ≡ ((spend default_caps counted).0, prune (spend default_caps counted).1)
spend-prune_example = spend-prune default_caps counted

abbrev chunk : String → String → ℕ → Indexed
chunk c service ts = record {
  chunk_id = c;
  event_id = c;
  service = service;
  ts = ts;
  indexed_at = ts;
  source = "status";
  text = "Calls fail.";
  type_name = "incident";
  title = none;
}

abbrev index : freshet.Rag.Retrieval.Arms.World
index = record {
  similarity = λ r. r.ts;
  centered_similarity = λ r. r.ts;
  matches = λ r. true;
  rank = λ r. record { num = r.ts; over = 0 };
  text_le = λ a b. true;
}

abbrev chunks : List Indexed
chunks = chunk "c1" "zoom" 5 ∷ chunk "c2" "zoom" 1 ∷ chunk "c3" "slack" 9 ∷ []

abbrev recent_zoom : Filter
recent_zoom = record { service = some "zoom"; since = some 3; exclude_event_id = none }

search_index-AreWithin_example :
    All
      (λ (h : RetrievedHit). IsWithin recent_zoom h.row)
      (search_index index recent_zoom true chunks 6 (some 4) 3).hits
search_index-AreWithin_example = search_index-AreWithin index recent_zoom true chunks 6 (some 4) 3

-- Every reading of the clock is a second later, and the pruning fails.
abbrev quiet_hour : World
quiet_hour = record {
  agent = calm;
  slack = none;
  monotonic = λ reading. reading * second;
  prune = λ reading. err other;
  prune_log = λ reading. ok tt;
}

abbrev begun : Idle
begun = record {
  agent = start 0;
  threads = record { seen = []; answers = []; next_at = 0; calls = 0 };
  budget = counted;
  beats = record { latest = []; log = [] };
  next_drain = 0;
  next_pass = 0;
  readings = 0;
  drains = [];
  passes = [];
}

idles-IsPaced_example : IsPaced (idles quiet_hour 20 begun).1
idles-IsPaced_example =
    idles-IsPaced quiet_hour (λ i. omega arith) 20 begun
      (record { drains_apart = tt; passes_apart = tt })
