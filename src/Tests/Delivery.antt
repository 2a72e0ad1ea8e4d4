-- ===== src/Tests/Delivery.antt =====
-- Replays, recurrences, causes and the cached centroid on small inputs.
use freshet.Prelude.{
  ℕ, suc, ◌*◌, ◌≤◌, refl, String, false, Option, none, some, List, [], ◌∷◌, leb, str_eq,
  if◌then◌else◌, arith, length,
}
use freshet.Common.Time.{second}
use freshet.Common.Producer.{new_producer}
use freshet.Pipeline.Replay.{Envelope, no_json, object, str, replay}
use freshet.Pipeline.Replay.Kept.{IsReplayed, replay-IsReplayed}
use freshet.Pipeline.IndexStats.{start, get_centroid}
use freshet.Pipeline.IndexStats.Recent.{Step, lookup, refresh, run, IsRecent, get_centroid-IsRecent}
use freshet.Autopilot.Brief.{Update, Patterns, cause_from_updates}
use freshet.Autopilot.Brief.Causes.{IsEarliest, Quotes, Among, cause_from_updates-IsEarliest}
use freshet.Autopilot.Investigate.{Row, Meta, cutoff, opening_updates}
use freshet.Autopilot.Investigate.Scope.{AreInScope, opening_updates-AreInScope}
use freshet.Rag.Retrieval.{RetrievedHit}
use freshet.Autopilot.Recurrence.{find_recurrences}
use freshet.Autopilot.Recurrence.Precedents.{ArePrecedents, find_recurrences-ArePrecedents}

-- The broker fails the third message, and each poll serves one report.
abbrev broker : freshet.Common.Producer.World
broker = record { report = λ call. if leb 2 call then some 7 else none; served = λ call. 1 }

-- A record that is no JSON, and one that says where it came from.
abbrev loads : String → Envelope
loads raw = if str_eq raw "?" then no_json else object (str "raw.events") (str raw)

abbrev letters : List String
letters = "?" ∷ "x" ∷ []

replay-IsReplayed_example :
    IsReplayed loads letters
      (replay broker loads letters new_producer).0
      (replay broker loads letters new_producer).1
replay-IsReplayed_example = replay-IsReplayed broker loads letters

-- Two earlier hits, of an incident that is not this one.
abbrev hit : String → ℕ → ℕ → RetrievedHit
hit e ts similarity = record {
  row = record {
    chunk_id = e;
    event_id = e;
    service = "zoom";
    ts = ts;
    indexed_at = ts;
    source = "status";
    text = "errors";
    type_name = "incident";
    title = none;
    similarity = similarity;
    centered_similarity = none;
  };
  score = record { num = 1; over = 60 };
}

abbrev archive : freshet.Autopilot.Recurrence.World
archive = record {
  lower = λ t. t;
  is_blank = λ t. str_eq t "";
  contains = λ part whole. false;
  search = λ t. hit "e1" 10 8 ∷ hit "e2" 20 9 ∷ [];
  incident_rows = λ es. ("e1", some "i1", "old") ∷ ("e2", some "i1", "old") ∷ [];
}

find_recurrences-ArePrecedents_example :
    ArePrecedents 7 "i2" (some 30) 3 (find_recurrences archive 7 "i2" "errors" (some 30) 3)
find_recurrences-ArePrecedents_example =
    find_recurrences-ArePrecedents archive 7 "i2" "errors" (some 30) 3

-- The clock ticks a second for each call, and another process writes after ten.
abbrev index : freshet.Pipeline.IndexStats.World
index = record {
  now = λ call. call * second;
  stored = λ time model. if leb (10 * second) time then some "[2]" else some "[1]";
  mean = λ call model. some ("[1]", 5);
}

forward : (call : ℕ) → call * second ≤ suc call * second
forward call = omega arith

abbrev steps : List Step
steps = lookup "bge" ∷ refresh "bge" ∷ lookup "bge" ∷ []

get_centroid-IsRecent_example :
    IsRecent index "bge"
      ((run index steps start).calls * second)
      (get_centroid index "bge" (run index steps start)).0
unfolding str_eq
get_centroid-IsRecent_example = get_centroid-IsRecent index forward steps "bge" refl

-- A sentence of three letters or more states a cause.
abbrev patterns : Patterns
patterns = record {
  has_cause_marker = λ s. leb 3 (length s);
  promissory = λ s. false;
  found_but_unnamed = λ s. false;
  unresolved = λ s. false;
  names_a_suspect = λ s. false;
}

abbrev update : String → ℕ → List ℕ → Update
update e ts text = record { event_id = e; ts = ts; text = text }

abbrev updates : List Update
updates = update "e2" 20 (b'D' ∷ b'N' ∷ b'S' ∷ []) ∷ update "e1" 10 (b'U' ∷ b'p' ∷ []) ∷ []

cause_from_updates-IsEarliest_example :
    IsEarliest patterns updates (cause_from_updates patterns updates)
    × Quotes patterns (λ u. Among u updates) (cause_from_updates patterns updates)
cause_from_updates-IsEarliest_example = cause_from_updates-IsEarliest patterns updates

-- Two rows of one event, and one that came after the opening.
abbrev chunk : String → ℕ → ℕ → Row
chunk e n ts = record {
  event_id = e;
  incident_id = "zoom:1";
  chunk_index = n;
  ts = ts;
  text = b'U' ∷ b'p' ∷ [];
  service = "zoom";
  type_name = "incident";
  source = "status";
}

abbrev table : List Row
table = chunk "e1" 1 10 ∷ chunk "e1" 0 10 ∷ chunk "e2" 0 30 ∷ []

abbrev resolved : Option Meta
resolved = some (record { opened_at = some 20; resolved_at = some 40; brief_as_of = none })

opening_updates-AreInScope_example :
    AreInScope table "zoom:1"
      (cutoff "open" resolved)
      (opening_updates (λ texts. "zoom") table "zoom:1" "open" resolved)
opening_updates-AreInScope_example =
    opening_updates-AreInScope (λ texts. "zoom") table "zoom:1" "open" resolved
