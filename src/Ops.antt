-- ===== src/Ops.antt =====
-- freshet/ops: running the processes.
pub mod Supervisor
pub mod IndexReady
