-- ===== src/Eval.antt =====
-- freshet/eval: what the measurements compute from the rows that they read.
pub mod Freshness
pub mod LiveRetrieval
