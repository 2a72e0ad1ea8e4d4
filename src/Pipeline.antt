-- ===== src/Pipeline.antt =====
-- freshet/pipeline: from normalized updates to the index.
pub mod Lifecycle
pub mod Chunking
pub mod Embedder
pub mod Embedding
pub mod IndexStats
pub mod Replay
