-- ===== src/Autopilot/Threads.antt =====
-- freshet/autopilot/thread_agent.py: `poll_threads` and `ThreadPoller`. Slack's timestamps, decimal
-- texts of one width, are the numbers in their order.
pub mod Answers
use freshet.Prelude.{
  ℕ, zero, suc, ◌+◌, ◌*◌, String, Bool, false, ◌||◌, not, Option, none, some, List, [], ◌∷◌, ltb,
  leb, ◌==◌, get_or, if◌then◌else◌, true,
}
use freshet.Prelude.Table.{Table, find, put}
use freshet.Prelude.Exec.{Result, ok, err, budget_exhausted, other}
use freshet.Common.Time.{second}
use freshet.Pipeline.Chunking.{strip, is_empty}

pub record Message : Type 0 where
  pub has_bot_id : Bool
  pub has_subtype : Bool
  pub ts : ℕ
  pub text : List ℕ

-- A row of `_OPEN_THREADS_SQL`. Its `thread_seen_ts` is read when its turn comes: an incident has
-- one row, and only that row's turn changes it.
pub record OpenThread : Type 0 where
  pub incident_id : String
  pub thread_ts : ℕ
  pub channel : String

-- What a call of the Slack client does; the second error is one that `_is_rate_limit` tells.
pub data Slack (A : Type 0) : Type 0 where
  done : A → Slack A
  rate_limited : Slack A
  refused : Slack A

-- The query for open threads, the Slack client, `answer_question` and the clock.
pub record World : Type 0 where
  pub open_threads : (call : ℕ) → List OpenThread
  pub replies : (call : ℕ) → (channel : String) → (ts oldest : ℕ) → Slack (List Message)
  pub answer_question : (call : ℕ) → List ℕ → (incident_id : String) → Result (List ℕ)
  pub post : (call : ℕ) → (channel : String) → (thread_ts : ℕ) → List ℕ → Slack (Unit {0})
  -- what `_MARK_SEEN_SQL` comes to; a statement that raises has changed nothing
  pub mark_seen : (call : ℕ) → Result (Unit {0})
  pub now : (call : ℕ) → ℕ

-- A reply that Slack confirmed, by the message that it answers, and whether that was marked then.
pub record Answered : Type 0 where
  pub incident_id : String
  pub ts : ℕ
  pub is_marked : Bool

-- `thread_seen_ts` of the incidents, the confirmed replies, newest first, and `_next_at`.
pub record Threads : Type 0 where
  pub seen : Table ℕ
  pub answers : List Answered
  pub next_at : ℕ
  pub calls : ℕ

-- How a thread, and then the poll, ends: with `posted` the loop goes on or returns.
pub data Ending : Type 0 where
  next_thread returned : (posted : ℕ) → Ending
  limited failed : Ending

abbrev pub Step : Type 0
Step = Threads → Ending × Threads

abbrev pub called : Threads → Threads
called s = record s { calls = suc s.calls }

unfoldable pub is_human_reply : Message → ℕ → Bool
is_human_reply m thread_ts =
    if m.has_bot_id || m.has_subtype
    then false
    else if m.ts == thread_ts
    then false
    else not (is_empty (strip m.text))

-- `seen_ts and message["ts"] <= seen_ts`
abbrev pub is_seen : Option ℕ → ℕ → Bool
is_seen none ts = false
is_seen (some seen) ts = leb ts seen

-- `message["ts"] if not newest else max(newest, message["ts"])`
abbrev pub newest : Option ℕ → ℕ → ℕ
newest none ts = ts
newest (some seen) ts = if leb ts seen then seen else ts

abbrev pub note_answer : OpenThread → ℕ → Bool → Threads → Threads
note_answer row ts marked s = record s {
  answers = record { incident_id = row.incident_id; ts = ts; is_marked = marked } ∷ s.answers;
}

abbrev pub mark_answered : OpenThread → ℕ → Threads → Threads
mark_answered row latest s = record s { seen = put row.incident_id latest s.seen }

-- After `_MARK_SEEN_SQL`, for a reply that Slack confirmed.
abbrev pub after_mark : OpenThread → ℕ → ℕ → Result (Unit {0}) → Step → Step
after_mark row ts latest (ok _) rest s = rest (mark_answered row latest (note_answer row ts true s))
after_mark row ts latest (err e) rest s = (failed, note_answer row ts false s)

-- After `chat_postMessage`.
abbrev pub after_post : World → OpenThread → ℕ → Option ℕ → ℕ → Slack (Unit {0}) → Step → Step
after_post w row ts seen posted (done _) rest s =
    after_mark row ts (newest seen ts) (w.mark_seen s.calls) rest (called s)
after_post w row ts seen posted rate_limited rest s = (limited, s)
after_post w row ts seen posted refused rest s = (next_thread posted, s)

-- After `answer_question`.
abbrev pub after_answer : World → OpenThread → ℕ → Option ℕ → ℕ → Result (List ℕ) → Step → Step
after_answer w row ts seen posted (ok answer) rest s =
    after_post w row ts seen posted (w.post s.calls row.channel row.thread_ts answer) rest
      (called s)
after_answer w row ts seen posted (err budget_exhausted) rest s = (returned posted, s)
after_answer w row ts seen posted (err other) rest s = (failed, s)

-- The loop over the messages of a thread.
unfoldable pub answer_messages : World → OpenThread → List Message → Option ℕ → ℕ → Step
answer_messages w row [] seen posted s = (next_thread posted, s)
answer_messages w row (m ∷ rest) seen posted s =
    let skipped = answer_messages w row rest seen posted s in
    let answered =
      after_answer w row m.ts seen posted (w.answer_question s.calls m.text row.incident_id)
        (answer_messages w row rest (some (newest seen m.ts)) (suc posted)) (called s) in
    if not (is_human_reply m row.thread_ts) || is_seen seen m.ts then skipped else answered

abbrev pub after_replies : World → OpenThread → ℕ → Slack (List Message) → Step
after_replies w row posted (done messages) s =
    answer_messages w row messages (find row.incident_id s.seen) posted s
after_replies w row posted rate_limited s = (limited, s)
after_replies w row posted refused s = (next_thread posted, s)

-- One thread.
unfoldable pub visit : World → OpenThread → ℕ → Step
visit w row posted s =
    after_replies w row posted
      (w.replies s.calls row.channel row.thread_ts
        (get_or (find row.incident_id s.seen) row.thread_ts))
      (called s)

abbrev pub unless_ended : Ending → (ℕ → Step) → Step
unless_ended (next_thread posted) rest s = rest posted s
unless_ended (returned posted) rest s = (returned posted, s)
unless_ended limited rest s = (limited, s)
unless_ended failed rest s = (failed, s)

unfoldable pub visit_all : World → List OpenThread → ℕ → Step
visit_all w [] posted s = (returned posted, s)
visit_all w (row ∷ rows) posted s =
    let (e, s') = visit w row posted s in unless_ended e (visit_all w rows) s'

-- `poll_threads`
unfoldable pub poll_threads : World → Step
poll_threads w s = visit_all w (w.open_threads s.calls) 0 (called s)

-- POLL_INTERVAL_S, RATE_LIMIT_BACKOFF_S
abbrev pub poll_interval : ℕ
poll_interval = 30 * second

abbrev pub rate_limit_backoff : ℕ
rate_limit_backoff = 60 * second

-- `except RateLimited`
abbrev pub back_off : World → Ending → Step
back_off w (next_thread posted) s = (returned posted, s)
back_off w (returned posted) s = (returned posted, s)
back_off w limited s = (returned 0, record s { next_at = w.now s.calls + rate_limit_backoff })
back_off w failed s = (failed, s)

-- `ThreadPoller.__call__`
unfoldable pub poll : World → Step
poll w s =
    let (e, s') = poll_threads w (record s { next_at = w.now s.calls + poll_interval }) in
    let polled = back_off w e s' in
    if ltb (w.now s.calls) s.next_at then (returned 0, s) else polled

-- The poller on each idle tick, whatever the earlier ones came to.
unfoldable pub polls : World → ℕ → Threads → Threads
polls w zero s = s
polls w (suc n) s = polls w n (poll w s).1
