-- ===== src/Lib.antt =====
-- Freshet reads public status feeds, indexes their updates and posts a brief about each incident.
-- The parts that decide what is asked, stored and posted are modelled here.
--
-- Ingest/Backoff: freshet/ingest/poller.py, `HostBackoff`. Ingest/Sweep: `ConditionalCache` in memory
--   and `poll_once`; the pages of a sweep are taken one after the other.
-- Pipeline/Lifecycle: freshet/pipeline/lifecycle.py. Pipeline/Chunking: freshet/pipeline/chunking.py.
-- Pipeline/Embedder: the handler of freshet/pipeline/embedder.py.
-- Common/Kafka: `consume_loop` of freshet/common/kafka_io.py, which drives the embedder and the
--   autopilot. Common/Db: freshet/common/db.py. Common/Heartbeat: freshet/common/heartbeat.py.
--   Common/Incidents: freshet/common/incidents.py and the tables that it writes.
-- Autopilot: freshet/autopilot/consumer.py. Leases has its SQL statements as functions of a row,
--   Agent the state and the functions that run one statement, Consumer the handler of a message,
--   Drain what is done about due briefs and follow-ups, Service the life of the process.
--   Threads is `poll_threads` and `ThreadPoller` of freshet/autopilot/thread_agent.py.
-- Rag/Budget: freshet/rag/budget.py. Ops/Supervisor: freshet/ops/supervisor.py.
--   Ops/IndexReady: `wait_ready` of freshet/ops/index_ready.py.
-- Ingest/Statuspage: `parse_atom` of freshet/ingest/statuspage.py, whose updates the sweep takes; the
--   XML parser, the regular expressions, the calendar and the hash are functions of its `World`.
-- Rag/Retrieval: freshet/rag/retrieval.py, from the answers of its queries on; scores are exact
--   fractions. Rag/Composer: the check of the citations in freshet/rag/composer.py, on code points.
-- Eval/Freshness and Eval/LiveRetrieval: what freshet/eval/freshness.py and
--   freshet/eval/live_retrieval.py compute from the rows that they read; a mean is a sum and a count.
-- Pipeline/IndexStats: the centroid's cache in freshet/pipeline/index_stats.py. Common/Producer: the
--   producers of freshet/common/kafka_io.py. Pipeline/Replay: freshet/pipeline/replay_deadletter.py,
--   which uses them. Autopilot/Recurrence: freshet/autopilot/recurrence.py, on the hits of a search.
-- Autopilot/Brief: the heuristics of freshet/autopilot/brief.py, with its patterns as functions.
-- Autopilot/Investigate: freshet/autopilot/investigate.py from the rows of an incident to the updates
--   that a brief is made of.
-- Autopilot/Race: several autopilots at once on one incident, with the statements of Leases as steps in
--   any order. It takes for granted that an attempt ends within its lease, that no process dies
--   between its post and the statement that marks it, and that a delivery that raises posted nothing.
-- Ingest/Run: the cache's file and `run` of freshet/ingest/poller.py, with Ingest/Sweep, Ingest/Backoff
--   and Common/Producer as they are. Rag/Timeframe: freshet/rag/timeframe.py, with times counted from
--   the first `datetime`. Autopilot/Questions: `answer_question` of
--   freshet/autopilot/thread_agent.py, over Rag/Timeframe, Rag/Retrieval and Autopilot/Investigate.
-- Ingest/Fetch: `http_fetch` of freshet/ingest/poller.py. Autopilot/Impact: freshet/autopilot/impact.py.
--   Autopilot/Gather: what freshet/autopilot/investigate.py gathers for a brief, from
--   Autopilot/Investigate, Brief, Impact and Recurrence. Autopilot/Sinks: freshet/autopilot/sinks and
--   `render_brief` of freshet/autopilot/brief.py. Autopilot/DemoTrigger:
--   freshet/autopilot/demo_trigger.py, whose events the handler of Autopilot/Consumer takes.
-- Rag/Retrieval/Arms: the two SQL queries of freshet/rag/retrieval.py, whose answers Rag/Retrieval
--   fuses. Autopilot/Idle: `_idle` of freshet/autopilot/__main__.py with the throttles of the drain and of
--   freshet/autopilot/maintenance.py, over Autopilot/Drain, Autopilot/Threads and Rag/Budget.
-- Pipeline/Embedding: the embedders of freshet/pipeline/embedding.py, `make_embedder` and the format
--   of a vector.
-- Prelude: shared types and lemmas. Tests: runs on concrete inputs.
--
-- State is passed explicitly; an exception is an `err`, and what was written before it stays
-- written. Times are in milliseconds. Code from outside the repository, and the parts of it that
-- call a model or Slack, are functions of the number of the call in a record `World` or `Config`, so
-- that two equal calls may be answered differently. In the autopilot and the heartbeat a statement
-- takes no time, and only those that mark what was delivered or answered may fail. A message may be
-- accepted by a call of the sink that raises. The clock of a heartbeat starts at its first `_last`.
--
-- Bounds: `wait_for_index` runs on fuel, two more than its polls until its deadline, and
-- `wait_ready` on one more than the milliseconds until its deadline, as each round is one at least;
-- the supervisor runs on the number of rounds that `should_stop` admits, and the poller's loop on
-- `max_sweeps`; all else is structural
-- recursion.
--
-- Not modelled: network and file access, metrics, logging, the language and embedding models, the text
-- of SQL queries that only read, the prompt of the language model and the replay demo.
pub mod Prelude
pub mod Common
pub mod Pipeline
pub mod Ops
pub mod Eval
pub mod Ingest
pub mod Rag
pub mod Autopilot
pub mod Tests
