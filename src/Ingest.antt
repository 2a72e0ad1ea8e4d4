-- ===== src/Ingest.antt =====
-- freshet/ingest: polling the status feeds.
pub mod Backoff
pub mod Sweep
pub mod Fetch
pub mod Run
pub mod Statuspage
