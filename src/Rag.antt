-- ===== src/Rag.antt =====
-- freshet/rag: retrieval, composition and the budget of LLM calls.
pub mod Budget
pub mod Retrieval
pub mod Composer
pub mod Timeframe
